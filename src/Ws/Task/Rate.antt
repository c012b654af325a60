-- ===== src/Ws/Task/Rate.antt =====
-- main/portal_ws.c: how many requests of a client of the web tester reach the broker in a window.
use mqtt_broker_esp.Prelude.{
  ℕ, ◌+◌, ◌-◌, ◌≤◌, ◌<◌, ◌≡◌, refl, sym, ap, subst, List, [], ◌∷◌, length, All, Bool, not, ◌||◌,
  ltb, leb, ◌==◌, if-holds, Option, none, some, arith, length-append,
}
use mqtt_broker_esp.Tester.{
  Tester, Request as QueuedRequest, broker_tester_request_publish, broker_enqueue_publish,
  is_topic_name, max_topic_len, max_payload_len,
}
use mqtt_broker_esp.Ws.Frame.{text_frame}
use mqtt_broker_esp.Ws.Task.{
  Ctx, send_if_built, send_text, Request, asks, refused, serve, with_window, read_request,
  handle_publish_request, rate_pub_per_sec, rate_window_ms, rate_limit, queue_full_or_invalid,
}

-- A text frame, the state of the tester when it is handled, and the reading of the clock.
pub record Arrival : Type 0 where
  pub tester : Tester
  pub json : List ℕ
  pub now : ℕ

abbrev after_arrival : Ctx → Arrival → Ctx
after_arrival ctx a = handle_publish_request (record ctx { tester = a.tester }) a.json a.now

-- How many requests get into the broker's queue, which other tasks may empty and fill in between.
unfoldable pub queued_all : Ctx → List Arrival → ℕ
queued_all ctx [] = 0
queued_all ctx (a ∷ arrivals) =
    (length (after_arrival ctx a).tester.queue - length a.tester.queue)
    + queued_all (after_arrival ctx a) arrivals

-- Of two states of a client: the window is the same, and what has been queued was counted.
record IsCounted (ctx ctx' : Ctx) : Type 0 where
  same_window : ctx'.rate_window_start_ms ≡ ctx.rate_window_start_ms
  count_grows : ctx.rate_count ≤ ctx'.rate_count
  counted :
      length ctx'.tester.queue + (rate_pub_per_sec - ctx'.rate_count)
      ≤ length ctx.tester.queue + (rate_pub_per_sec - ctx.rate_count)

queue_grows :
    (t : Tester) (topic payload : List ℕ) (retain : Bool)
    → length (broker_tester_request_publish t topic payload retain).0.queue ≤ length t.queue + 1
unfolding broker_tester_request_publish broker_enqueue_publish
queue_grows t topic payload retain =
    let P : Tester × Bool → Type 0 = λ r. length r.0.queue ≤ length t.queue + 1 in
    let same : length t.queue ≤ length t.queue + 1 = omega arith in
    if-holds P (not t.inited) (λ _. same)
      λ _.
        if-holds P ((length topic == 0) || ltb max_topic_len (length topic)) (λ _. same)
          λ _.
            if-holds P (ltb max_payload_len (length payload)) (λ _. same)
              λ _.
                if-holds P (not (is_topic_name topic)) (λ _. same)
                  λ _.
                    if-holds P (ltb (length t.queue) 8)
                      (λ _. omega (
                        arith,
                        length-append {A = QueuedRequest} t.queue (
                            record { topic = topic; payload = payload; retain = retain; qos = 0 }
                            ∷ []),
                      ))
                      λ _. same

module _ (ctx : Ctx) where
  IsCounted-send_text :
      (c : Ctx) (text : List ℕ) → IsCounted ctx c → IsCounted ctx (send_text c text)
  unfolding send_text
  IsCounted-send_text c text h = built (text_frame text)
    where
      built : (frame : Option (List ℕ)) → IsCounted ctx (send_if_built c frame)
      built none = h
      built (some frame) = record {
        same_window = h.same_window;
        count_grows = h.count_grows;
        counted = h.counted;
      }

  IsCounted-serve :
      (c : Ctx) (r : Request)
      → c.rate_window_start_ms ≡ ctx.rate_window_start_ms
      → c.tester.queue ≡ ctx.tester.queue
      → c.rate_count ≡ ctx.rate_count + 1
      → ctx.rate_count < rate_pub_per_sec
      → IsCounted ctx (serve c r)
  IsCounted-serve c (refused text) w q n h =
      IsCounted-send_text c text (record {
        same_window = w;
        count_grows = omega arith;
        counted = omega (arith, ap length q);
      })
  IsCounted-serve c (asks topic payload retain) w q n h =
      let (t, ok) = broker_tester_request_publish c.tester topic payload retain in
      let grown = queue_grows c.tester topic payload retain in
      let counted : IsCounted ctx (record c { tester = t }) = record {
        same_window = w;
        count_grows = omega arith;
        counted = omega (arith, grown, n, ap length q);
      } in
      if-holds (IsCounted ctx) ok (λ _. counted)
        (λ _. IsCounted-send_text (record c { tester = t }) queue_full_or_invalid counted)

  IsCounted-handle_publish_request :
      (json : List ℕ) (now : ℕ)
      → now - ctx.rate_window_start_ms < rate_window_ms
      → IsCounted ctx (handle_publish_request ctx json now)
  unfolding handle_publish_request
  IsCounted-handle_publish_request json now h =
      let same : with_window ctx now ≡ ctx = ground arith in
      rw same (
        if-holds (IsCounted ctx) (leb rate_pub_per_sec ctx.rate_count)
          (λ _.
            IsCounted-send_text ctx rate_limit
              (record { same_window = refl; count_grows = omega arith; counted = omega arith }))
          (λ e.
            IsCounted-serve (record ctx { rate_count = ctx.rate_count + 1 }) (read_request json)
              refl refl refl (ground arith)))

-- Within the second that a window lasts, at most twenty requests of a client get into the queue of the
-- broker, less those that were counted before: however many it sends, whatever they hold, and however
-- fast the broker empties its queue.
pub queued_all_bound :
    (ctx : Ctx) (arrivals : List Arrival)
    → All (λ a. a.now - ctx.rate_window_start_ms < rate_window_ms) arrivals
    → queued_all ctx arrivals ≤ rate_pub_per_sec - ctx.rate_count
unfolding queued_all
queued_all_bound ctx [] h = omega arith
queued_all_bound ctx (a ∷ arrivals) h =
    let c = IsCounted-handle_publish_request (record ctx { tester = a.tester }) a.json a.now h.0 in
    let later =
      queued_all_bound (after_arrival ctx a) arrivals
        (subst (λ w. All (λ a. a.now - w < rate_window_ms) arrivals) (sym c.same_window) h.1) in
    omega (arith, c.count_grows, c.counted, later)
