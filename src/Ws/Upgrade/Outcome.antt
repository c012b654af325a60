-- ===== src/Ws/Upgrade/Outcome.antt =====
-- main/portal_ws.c: the upgrade of a request leaves a task with a slot of its own, or no trace.
use mqtt_broker_esp.Prelude.{
  ℕ, zero, suc, ◌+◌, ◌-◌, ◌≤◌, ◌<◌, ◌≡◌, refl, sym, ap, ◌∙◌, List, [], ◌∷◌, length, get_or, set,
  Bool, true, false, not, ◌&&◌, leb, if-holds, Option, none, some, codes, arith, ◌⊎◌, Option-cases,
  inl, inr, get_or-set_self,
}
use mqtt_broker_esp.Tester.{
  Tester, max_consumers, is_active, free_consumer, register_at, broker_tester_consumer_count,
  broker_tester_register, broker_tester_unregister,
}
use mqtt_broker_esp.Ws.Socket.{Sent, send_all}
use mqtt_broker_esp.Ws.Task.{Ctx}
use mqtt_broker_esp.Ws.Task.Ends.{HasSlot}
use mqtt_broker_esp.Ws.Upgrade.{
  Env, Upgraded, is_found, ci_strnstr, extract_ws_key, compute_ws_accept, switching_protocols,
  accepted, fail_with, after_response, after_register, after_create, after_accept, after_key,
  portal_ws_handle_upgrade,
}

-- The free slot that is found.
record IsFree (cs : List (Option ℕ)) (i slot : ℕ) : Type 0 where
  first : i ≤ slot
  within : slot < i + length cs
  empty : get_or cs (slot - i) none ≡ none

free_consumer-IsFree :
    (cs : List (Option ℕ)) (i slot : ℕ) → free_consumer cs i ≡ some slot → IsFree cs i slot
unfolding free_consumer
free_consumer-IsFree [] i slot e = cc
free_consumer-IsFree (none ∷ cs) i slot e =
    let same : i ≡ slot = cc in
    record {
      first = omega arith;
      within = omega arith;
      empty = ap (λ k. get_or (none ∷ cs) k none) {x = slot - i} {y = 0} (omega arith);
    }
free_consumer-IsFree (some sb ∷ cs) i slot e =
    let h = free_consumer-IsFree cs (i + 1) slot e in
    record {
      first = omega (arith, h.first);
      within = omega (arith, h.within);
      empty =
          ap (λ k. get_or (some sb ∷ cs) k none) {x = slot - i} {y = suc (slot - (i + 1))}
            (omega (arith, h.first))
          ∙ h.empty;
    }

set-set-none :
    (cs : List (Option ℕ)) (i handle : ℕ)
    → get_or cs i none ≡ none
    → set (set cs i (some handle)) i none ≡ cs
set-set-none [] i handle h = refl
set-set-none (c ∷ cs) zero handle h = ap (λ d. d ∷ cs) (sym h)
set-set-none (c ∷ cs) (suc i) handle h = ap (λ t. c ∷ t) (set-set-none cs i handle h)

leb_of_lt : (slot : ℕ) → slot < max_consumers → leb max_consumers slot ≡ false
leb_of_lt slot h = ground arith

-- What is registered: a slot that was free, or nothing.
record IsRegistered (t : Tester) (handle : ℕ) (u : Tester) (slot : ℕ) : Type 0 where
  in_range : slot < max_consumers
  was_free : get_or t.consumers slot none ≡ none
  put : u.consumers ≡ set t.consumers slot (some handle)

abbrev Registers : Tester → (handle : ℕ) → Tester × Option ℕ → Type 0
Registers t handle (u, none) = u.consumers ≡ t.consumers
Registers t handle (u, some slot) = IsRegistered t handle u slot

broker_tester_register-Registers :
    (t : Tester) (handle : ℕ)
    → length t.consumers ≡ max_consumers
    → Registers t handle (broker_tester_register t (some handle))
unfolding broker_tester_register
broker_tester_register-Registers t handle two =
    if-holds (Registers t handle) t.inited (λ _. found (Option-cases (free_consumer t.consumers 0)))
      (λ _. refl)
  where
    found :
        (free_consumer t.consumers 0 ≡ none)
          ⊎ ((slot : ℕ) × (free_consumer t.consumers 0 ≡ some slot))
        → Registers t handle (register_at t handle (free_consumer t.consumers 0))
    found (inl full) = rw full refl
    found (inr (slot, e)) =
        let h = free_consumer-IsFree t.consumers 0 slot e in
        rw e (record {
          in_range = omega (arith, h.within);
          was_free =
              ap (λ k. get_or t.consumers k none) {x = slot} {y = slot - 0} (omega arith) ∙ h.empty;
          put = refl;
        })

-- A registration that is taken back.
unregister-register :
    (t u : Tester) (handle slot : ℕ)
    → length t.consumers ≡ max_consumers
    → IsRegistered t handle u slot
    → (broker_tester_unregister u slot).consumers ≡ t.consumers
unfolding broker_tester_unregister
unregister-register t u handle slot two r =
    let in_range : leb max_consumers slot ≡ false = leb_of_lt slot r.in_range in
    let active : is_active (get_or u.consumers slot none) ≡ true =
      ap (λ cs. is_active (get_or cs slot none)) r.put
      ∙ ap is_active
          (get_or-set_self t.consumers slot (some handle) none (omega (arith, r.in_range, two))) in
    rw (in_range, active)
      (ap (λ cs. set cs slot none) r.put ∙ set-set-none t.consumers slot handle r.was_free)

-- The upgrade has failed, and the consumers are as they were, nothing is allocated and the socket is
-- closed; or a task runs with what it needs, in a slot that was free.
pub record HasFailed (t : Tester) (u : Upgraded) : Type 0 where
  pub same_consumers : u.tester.consumers ≡ t.consumers
  pub no_ctx : u.ctx_live ≡ false
  pub no_sb : u.sb_live ≡ false
  pub no_fd : u.fd_open ≡ false

pub record HasStarted (t : Tester) (u : Upgraded) (ctx : Ctx) : Type 0 where
  pub in_range : ctx.broker_slot < max_consumers
  pub was_free : get_or t.consumers ctx.broker_slot none ≡ none
  pub taken : is_active (get_or u.tester.consumers ctx.broker_slot none) ≡ true
  pub ctx_live : u.ctx_live ≡ true
  pub has_slot : HasSlot ctx.broker_slot ctx

abbrev pub LeavesNothing : Tester → Upgraded → Type 0
LeavesNothing t u = elim u.task [ none ↦ HasFailed t u | some ctx ↦ HasStarted t u ctx ]

-- The state between two steps: the context allocated or not, the stream buffer created or not.
abbrev between : Tester → (ctx_live sb_live : Bool) → Upgraded
between t ctx_live sb_live = record (accepted t) { ctx_live = ctx_live; sb_live = sb_live }

module _ (env : Env) (t : Tester) (two : length t.consumers ≡ max_consumers) where
  plain_failure : (status body : List ℕ) → LeavesNothing t (fail_with env (accepted t) status body)
  plain_failure status body = record {
    same_consumers = refl;
    no_ctx = refl;
    no_sb = refl;
    no_fd = refl;
  }

  LeavesNothing-after_response :
      (u : Tester) (handle slot : ℕ) (s : Sent)
      → IsRegistered t handle u slot
      → LeavesNothing t (after_response env (between u true true) slot s)
  LeavesNothing-after_response u handle slot s r =
      let back = unregister-register t u handle slot two r in
      let active =
        ap (λ cs. is_active (get_or cs slot none)) r.put
        ∙ ap is_active (
            get_or-set_self t.consumers slot (some handle) none (omega (arith, r.in_range, two))) in
      if-holds (LeavesNothing t) s.done
        (λ _.
          if-holds (LeavesNothing t) env.spawned
            (λ _. record {
              in_range = r.in_range;
              was_free = r.was_free;
              taken = active;
              ctx_live = refl;
              has_slot = record { in_slot = refl; taken = active; sb_live = refl; fd_open = refl };
            })
            (λ _. record { same_consumers = back; no_ctx = refl; no_sb = refl; no_fd = refl }))
        (λ _. record { same_consumers = back; no_ctx = refl; no_sb = refl; no_fd = refl })

  LeavesNothing-after_register :
      (accept : List ℕ) (handle : ℕ) (r : Tester × Option ℕ)
      → Registers t handle r
      → LeavesNothing t (after_register env (between t true true) accept r)
  LeavesNothing-after_register accept handle (u, none) h = record {
    same_consumers = h;
    no_ctx = refl;
    no_sb = refl;
    no_fd = refl;
  }
  LeavesNothing-after_register accept handle (u, some slot) h =
      LeavesNothing-after_response u handle slot (send_all (switching_protocols accept) env.answers)
        h

  LeavesNothing-after_create :
      (accept : List ℕ) (sb : Option ℕ)
      → LeavesNothing t (after_create env (between t true false) accept sb)
  LeavesNothing-after_create accept none = record {
    same_consumers = refl;
    no_ctx = refl;
    no_sb = refl;
    no_fd = refl;
  }
  LeavesNothing-after_create accept (some sb) =
      LeavesNothing-after_register accept sb (broker_tester_register t (some sb))
        (broker_tester_register-Registers t sb two)

  LeavesNothing-after_accept :
      (accept : Option (List ℕ)) → LeavesNothing t (after_accept env (accepted t) accept)
  LeavesNothing-after_accept none = plain_failure _ _
  LeavesNothing-after_accept (some accept) =
      if-holds (LeavesNothing t) (leb max_consumers (broker_tester_consumer_count t.consumers))
        (λ _. plain_failure (codes "503 Service Unavailable") (codes "tester busy"))
        λ _.
          if-holds (LeavesNothing t) env.allocated
            (λ _. LeavesNothing-after_create accept env.created)
            (λ _. plain_failure (codes "500 Internal Server Error") (codes "out of memory"))

  LeavesNothing-after_key :
      (key : Option (List ℕ)) → LeavesNothing t (after_key env (accepted t) key)
  LeavesNothing-after_key none = plain_failure _ _
  LeavesNothing-after_key (some key) = LeavesNothing-after_accept (compute_ws_accept env key 64)

-- On every path of the upgrade, whatever the request, the allocations and the sends do: it fails, and
-- its calls have left the consumers as they were, the context and the stream buffer freed and the
-- socket closed; or it starts a task that has a consumer's slot that was free and is taken now, a
-- context, a stream buffer and an open socket.
pub portal_ws_handle_upgrade-LeavesNothing :
    (env : Env) (t : Tester) (raw : List ℕ)
    → length t.consumers ≡ max_consumers
    → LeavesNothing t (portal_ws_handle_upgrade env t raw)
unfolding portal_ws_handle_upgrade
portal_ws_handle_upgrade-LeavesNothing env t raw two =
    if-holds (LeavesNothing t)
      (not (is_found (ci_strnstr raw (codes "Upgrade: websocket")))
        && not (is_found (ci_strnstr raw (codes "Upgrade:websocket"))))
      (λ _. plain_failure env t two (codes "400 Bad Request") (codes "missing Upgrade: websocket"))
      (λ _. LeavesNothing-after_key env t two (extract_ws_key raw 64))
