-- ===== src/Prelude.antt =====
-- The names that every module shares: the libraries', passed on, and those of the children.
mod Tests
mod Lists
mod Bits
mod Zero
mod Int
mod Order
mod Text
unfoldable pub use Tests.{bytes_eq}
pub use Tests.*
pub use Lists.*
unfoldable pub use Bits.{every_below}
pub use Bits.{
  every_below→at, low_bits, top_bit, set_top_bit, high_nibble, low_nibble, low_byte, join_bytes,
  one_bit, two_bits,
}
pub use Zero.*
pub use Text.{codes}
pub use Int.{ℤ, pos, negsuc, pos_part, neg_part, sub_ℕ, neg_ℕ, ◌≤ℤ◌, ltb_ℤ, +ℤ_parts, -ℤ_parts}
unfoldable pub use Int.{◌+ℤ◌, ◌-ℤ◌, scale, quot}
pub use Prim.Native.Nat.{
  ℕ, zero, suc, ◌+◌, ◌-◌, ◌*◌, ◌/◌, ◌%◌, ◌^◌, ◌≤◌, ◌<◌, min, bit_and, bit_or, bit_xor,
}
pub use mathlib.Core.Path.{◌≡◌, refl, sym, ap, ◌∙◌, subst}
pub use mathlib.Core.Logic.{◌≢◌, ◌↔◌, ◌⊎◌, inl, inr}
pub use mathlib.Core.Bool.{Bool, true, false, ◌&&◌, ◌||◌, not}
pub use mathlib.Core.Option.{Option, none, some}
pub use mathlib.Core.List.{List, [], ◌∷◌, ◌++◌, map, append-nil, append_assoc}
pub use native.Mathlib.Omega.{arith}
pub use mathlib.Core.Logic.{dite}
pub use mathlib.Core.WellFounded.{Acc, WellFounded}
unfoldable pub use native.Mathlib.Decide.{dec_lt}
unfoldable pub use Order.{lt_wf}
