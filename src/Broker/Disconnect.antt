-- ===== src/Broker/Disconnect.antt =====
-- `client_disconnect` in main/mqtt_broker.c: what it leaves of a client.
use mqtt_broker_esp.Prelude.{
  ℕ, ◌<◌, ◌≡◌, ◌≢◌, refl, sym, List, [], ◌∷◌, true, false, ◌&&◌, length, ◌==◌, All, arith,
  get_or-set_self, get_or-set_ne,
}
use mqtt_broker_esp.Inflight.{row_of, count_active}
use mqtt_broker_esp.Inflight.Valid.{IsValid, inflight_free_all_lem, row_of-free_all}
use mqtt_broker_esp.Broker.{Sub, Broker, client_of, is_open, closed, remove_subs, client_disconnect}

-- The client has no active subscription.
abbrev pub Unsubscribed : ℕ → List Sub → Type 0
Unsubscribed idx subs = All (λ s. (s.active && (s.client_idx == idx)) ≡ false) subs

remove_subs-Unsubscribed : (idx : ℕ) (subs : List Sub) → Unsubscribed idx (remove_subs idx subs)
unfolding remove_subs
remove_subs-Unsubscribed idx [] = tt
remove_subs-Unsubscribed idx (s ∷ subs) = (ground arith, remove_subs-Unsubscribed idx subs)

-- Every subscription of another client is as it was.
abbrev pub SameFor : ℕ → List Sub → List Sub → Type 0
SameFor idx [] [] = Unit
SameFor idx [] (s ∷ ss) = ⊥
SameFor idx (r ∷ rs) [] = ⊥
SameFor idx (r ∷ rs) (s ∷ ss) = ((r.client_idx ≢ idx → s ≡ r)) × SameFor idx rs ss

remove_subs-SameFor : (idx : ℕ) (subs : List Sub) → SameFor idx subs (remove_subs idx subs)
unfolding remove_subs
remove_subs-SameFor idx [] = tt
remove_subs-SameFor idx (s ∷ subs) = (λ ne. ground arith, remove_subs-SameFor idx subs)

-- What is left of a client.
pub record IsGone (b : Broker) (idx : ℕ) : Type 0 where
  pub not_open : is_open (client_of b idx).fd ≡ false
  pub not_connected : (client_of b idx).connected ≡ false
  pub not_authenticated : (client_of b idx).authenticated ≡ false
  pub no_bytes : (client_of b idx).recv ≡ []
  pub no_subs : Unsubscribed idx b.subs
  pub no_inflight : count_active (row_of b.inflight idx) ≡ 0

-- After an open client is disconnected, with well-formed in-flight tables that have its row,
-- its socket is closed, it is neither connected nor authenticated, and it has no bytes
-- received, no active subscription and no message in flight. The in-flight tables are well
-- formed, and every other client, its subscriptions and its messages in flight are as they were.
pub client_disconnect_lem :
    (b : Broker) (idx other : ℕ)
    → is_open (client_of b idx).fd ≡ true
    → IsValid b.inflight
    → idx < length b.inflight.rows
    → idx < length b.clients
    → other ≢ idx
    → let b' = client_disconnect b idx in
      IsGone b' idx
      × IsValid b'.inflight
      × (client_of b' other ≡ client_of b other)
      × SameFor idx b.subs b'.subs
      × (row_of b'.inflight other ≡ row_of b.inflight other)
unfolding client_disconnect
client_disconnect_lem b idx other is v hr hc ne =
    let free = inflight_free_all_lem b.inflight idx v hr in
    rw is (
      record {
        not_open = rw (get_or-set_self b.clients idx (closed (client_of b idx)) _ hc) refl;
        not_connected = rw (get_or-set_self b.clients idx (closed (client_of b idx)) _ hc) refl;
        not_authenticated = rw (get_or-set_self b.clients idx (closed (client_of b idx)) _ hc) refl;
        no_bytes = rw (get_or-set_self b.clients idx (closed (client_of b idx)) _ hc) refl;
        no_subs = remove_subs-Unsubscribed idx b.subs;
        no_inflight = free.1;
      },
      free.0,
      get_or-set_ne b.clients idx other (closed (client_of b idx)) _ (λ e. ne (sym e)),
      remove_subs-SameFor idx b.subs,
      row_of-free_all b.inflight idx other ne,
    )
