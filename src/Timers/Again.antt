-- ===== src/Timers/Again.antt =====
-- A repeating slot of main/timers.c in the hour that the clock repeats.
use mqtt_broker_esp.Prelude.{
  ℕ, ◌+◌, ◌≤◌, sym, subst, [], ◌∷◌, ◌++◌, length, length-append, append_assoc, get_or, ◌<◌, ◌≡◌,
  ◌≢◌, refl, ap, ◌∙◌, set, true, false, ◌==◌, if-holds, arith, get_or-set_self,
}
use mqtt_broker_esp.Tester.{Tester, Request, broker_publish_local}
use mqtt_broker_esp.Tester.Queue.{
  IsTopicName, broker_publish_local_lem, inited-broker_publish_local,
}
use mqtt_broker_esp.Timers.{Slot}
use mqtt_broker_esp.Timers.Store.{Timers, slot_at, Nvs, fire_slot_locked}
use mqtt_broker_esp.Timers.Schedule.{
  LocalTime, is_yday, refresh_jitter, is_scheduled, fire, sweep_slot,
}
use mqtt_broker_esp.Timers.Once.{
  View, view, frame, frame_view, is_due, IsSized, frame-fire_slot_locked, cached-refresh_jitter,
  refresh_jitter-IsSized,
}

-- The broker takes what the slot publishes, if its queue has room.
abbrev pub IsPublishable : Slot → Type 0
IsPublishable s =
    (1 ≤ length s.topic)
    × (get_or s.topic 0 0 ≢ b'$')
    × (length s.topic ≤ 128)
    × IsTopicName s.topic
    × (length s.payload ≤ 1024)
    × (s.qos ≤ 1)

-- The request that publishes a slot.
abbrev pub request_of : Slot → Request
request_of s = record { topic = s.topic; payload = s.payload; retain = s.retain; qos = s.qos }

-- What has been published since `t` is the slot, and the broker's queue still runs.
record Queued (t : Timers) (s : Slot) (u : Timers) : Type 0 where
  at_end : u.tester.queue ≡ t.tester.queue ++ (request_of s ∷ [])
  still_runs : u.tester.inited ≡ true

module _ (lt : LocalTime) (i : ℕ) where
  sweep_slot-due :
      (t : Timers) (m : ℕ) (nvs : Nvs)
      → is_scheduled (slot_at t i) lt ≡ true
      → is_due (view (refresh_jitter t lt i) i) lt ≡ true
      → ((view t i).last == m) ≡ false
      → sweep_slot t m lt nvs i ≡ fire (refresh_jitter t lt i) m i nvs
  unfolding sweep_slot
  sweep_slot-due t m nvs on due other = rw (on, due, other) refl

  refresh_jitter-cached :
      (t : Timers) → is_yday (view t i).yday lt.yday ≡ true → refresh_jitter t lt i ≡ t
  refresh_jitter-cached t e = rw e refl

  view-fire_repeat :
      (t : Timers) (m : ℕ) (nvs : Nvs)
      → IsSized (frame t)
      → i < 16
      → (slot_at t i).repeat ≡ true
      → view (fire t m i nvs) i ≡ record (view t i) { last = m }
  unfolding fire
  view-fire_repeat t m nvs v h again =
      let u = record t { last_fire_utc_min = set t.last_fire_utc_min i m } in
      let last = get_or-set_self t.last_fire_utc_min i m 0 (omega (arith, v.lasts)) in
      if-holds (λ w. view w i ≡ record (view t i) { last = m }) (slot_at t i).repeat
        (λ _. ap (λ f. frame_view f i) (frame-fire_slot_locked u i) ∙ λ k. record (view t i) {
          last = last k;
        })
        (λ once. absurd (cc))

  tester-fire_slot_locked :
      (t : Timers)
      → let s = slot_at t i in
        (fire_slot_locked t i).tester
        ≡ (broker_publish_local t.tester s.topic s.payload s.qos s.retain).0
  unfolding fire_slot_locked
  tester-fire_slot_locked t =
      let s = slot_at t i in
      let r = broker_publish_local t.tester s.topic s.payload s.qos s.retain in
      if-holds (λ (u : Timers). u.tester ≡ r.0) r.1 (λ _. refl) (λ _. refl)

  -- A repeating slot that fires is in the queue of the broker.
  fire-Queued :
      (t : Timers) (m : ℕ) (nvs : Nvs)
      → (slot_at t i).repeat ≡ true
      → IsPublishable (slot_at t i)
      → t.tester.inited ≡ true
      → length t.tester.queue < 8
      → Queued t (slot_at t i) (fire t m i nvs)
  unfolding fire
  fire-Queued t m nvs again p runs room =
      let s = slot_at t i in
      let r = broker_publish_local t.tester s.topic s.payload s.qos s.retain in
      let l = broker_publish_local_lem t.tester s.topic s.payload s.qos s.retain in
      let taken : r.1 ≡ true = l.0.1 (runs, room, p.0, p.1, p.2, p.3, p.4, p.5) in
      let u = record t { last_fire_utc_min = set t.last_fire_utc_min i m } in
      let fired = tester-fire_slot_locked u in
      if-holds (Queued t s) (slot_at t i).repeat
        (λ _. record {
          at_end = ap (λ (x : Tester). x.queue) fired ∙ (rw taken at l.1);
          still_runs =
              ap (λ (x : Tester). x.inited) fired
              ∙ inited-broker_publish_local t.tester s.topic s.payload s.qos s.retain
              ∙ runs;
        })
        (λ once. absurd (cc))

  -- A repeating slot that is scheduled and due, that the broker takes, and that was not published in
  -- this minute of UTC, is put into the broker's queue by the sweep, and once more by the sweep of any
  -- other minute of UTC with the same local time, as when the clock is set back an hour. Every list of
  -- the state has sixteen entries, and the queue has room for two.
  pub sweep_slot-sweep_slot_repeat :
      (t : Timers) (m m' : ℕ) (nvs nvs' : Nvs)
      → IsSized (frame t)
      → i < 16
      → m ≢ m'
      → (slot_at t i).repeat ≡ true
      → is_scheduled (slot_at t i) lt ≡ true
      → is_due (view (refresh_jitter t lt i) i) lt ≡ true
      → (view t i).last ≢ m
      → IsPublishable (slot_at t i)
      → t.tester.inited ≡ true
      → length t.tester.queue + 2 ≤ 8
      → (sweep_slot (sweep_slot t m lt nvs i) m' lt nvs' i).tester.queue
        ≡ t.tester.queue ++ (request_of (slot_at t i) ∷ request_of (slot_at t i) ∷ [])
  sweep_slot-sweep_slot_repeat t m m' nvs nvs' v h apart again on due other p runs room =
      let s : Slot = slot_at t i in
      let r : Timers = refresh_jitter t lt i in
      let u : Timers = fire r m i nvs in
      let w = view-fire_repeat r m nvs (refresh_jitter-IsSized m lt nvs t i v) h again in
      let first : ((view t i).last == m) ≡ false = ground (arith, other) in
      let cached =
        ap (λ (x : View). is_yday x.yday lt.yday) w ∙ cached-refresh_jitter m lt nvs t i v h in
      let same = refresh_jitter-cached u cached in
      let later : ((view u i).last == m') ≡ false =
        ground (arith, apart, ap (λ (x : View). x.last) w) in
      let one = sweep_slot-due t m nvs on due first in
      let two =
        sweep_slot-due u m' nvs' (ap (λ (x : View). is_scheduled x.slot lt) w ∙ on)
          (ap (λ x. is_due (view x i) lt) same ∙ ap (λ x. is_due x lt) w ∙ due) later
        ∙ ap (λ x. fire x m' i nvs') same in
      let held : slot_at u i ≡ s = ap (λ (x : View). x.slot) w in
      let q = fire-Queued r m nvs again p runs (omega arith) in
      let size = length-append t.tester.queue (request_of s ∷ []) in
      let q' =
        fire-Queued u m' nvs' (ap (λ (x : Slot). x.repeat) held ∙ again)
          (subst IsPublishable (sym held) p) q.still_runs
          (omega (arith, ap length q.at_end, size)) in
      ap (λ x. (sweep_slot x m' lt nvs' i).tester.queue) one
      ∙ ap (λ (x : Timers). x.tester.queue) two
      ∙ q'.at_end
      ∙ ap (λ x. u.tester.queue ++ (request_of x ∷ [])) held
      ∙ ap (λ x. x ++ (request_of s ∷ [])) q.at_end
      ∙ append_assoc t.tester.queue (request_of s ∷ []) (request_of s ∷ [])
