-- ===== src/Ws/Task/Ends.antt =====
-- main/portal_ws.c: what a task of the web tester holds while it runs and when it has ended, and that a
-- silent client is closed.
use mqtt_broker_esp.Prelude.{
  ℕ, ◌+◌, ◌*◌, ◌-◌, ◌<◌, ◌≡◌, refl, ap, ◌∙◌, List, [], ◌∷◌, ◌++◌, length, get_or, All, true, false,
  ltb, leb, ◌==◌, if-holds, Option, none, some, codes, arith, Bool-cases, inl, inr, set, zero, suc,
}
use mqtt_broker_esp.Tester.{
  Tester, Event, max_consumers, is_active, broker_tester_unregister, broker_tester_request_publish,
}
use mqtt_broker_esp.Tester.Queue.{consumers-broker_tester_request_publish}
use mqtt_broker_esp.Ws.Socket.{Turn}
use mqtt_broker_esp.Ws.Frame.{
  Frame, recv_frame, op_text, op_bin, op_close, op_ping, op_pong, text_frame, close_frame,
  pong_frame,
}
use mqtt_broker_esp.Ws.Json.{json_encode_string}
use mqtt_broker_esp.Ws.Task.{
  Ctx, send, send_if_built, send_text, Request, asks, refused, serve, with_window, read_request,
  handle_publish_request, event_text, send_encoded, emit_event, Look, event, select_fails,
  select_interrupted, idle, readable, others, finish, Task, running, ended, dispatch, on_frame,
  ws_turn, ws_loop, ws_task, rate_pub_per_sec, rate_window_ms, rate_limit, queue_full_or_invalid,
  binary_unsupported, idle_timeout_ms,
}

-- What the task holds: its slot, which is taken in the tester's table, the stream buffer and the socket.
pub record HasSlot (slot : ℕ) (ctx : Ctx) : Type 0 where
  pub in_slot : ctx.broker_slot ≡ slot
  pub taken : is_active (get_or ctx.tester.consumers slot none) ≡ true
  pub sb_live : ctx.sb_live ≡ true
  pub fd_open : ctx.fd_open ≡ true

-- The consumer's slot is free, and the stream buffer and the socket are given back.
pub record HasReleased (slot : ℕ) (ctx : Ctx) : Type 0 where
  pub slot_free : is_active (get_or ctx.tester.consumers slot none) ≡ false
  pub sb_deleted : ctx.sb_live ≡ false
  pub fd_closed : ctx.fd_open ≡ false

-- A task that runs has all it needs, and one that has ended has released all.
abbrev pub IsTidy : (slot : ℕ) → Task → Type 0
IsTidy slot (running ctx) = HasSlot slot ctx
IsTidy slot (ended ctx) = HasReleased slot ctx

module _ (slot : ℕ) where
  HasSlot-send : (ctx : Ctx) (bytes : List ℕ) → HasSlot slot ctx → HasSlot slot (send ctx bytes)
  HasSlot-send ctx bytes h = record {
    in_slot = h.in_slot;
    taken = h.taken;
    sb_live = h.sb_live;
    fd_open = h.fd_open;
  }

  HasSlot-send_text :
      (ctx : Ctx) (text : List ℕ) → HasSlot slot ctx → HasSlot slot (send_text ctx text)
  unfolding send_text
  HasSlot-send_text ctx text h = built (text_frame text)
    where
      built : (frame : Option (List ℕ)) → HasSlot slot (send_if_built ctx frame)
      built none = h
      built (some frame) = HasSlot-send ctx frame h

  HasSlot-serve : (ctx : Ctx) (r : Request) → HasSlot slot ctx → HasSlot slot (serve ctx r)
  HasSlot-serve ctx (refused text) h = HasSlot-send_text ctx text h
  HasSlot-serve ctx (asks topic payload retain) h =
      let (t, ok) = broker_tester_request_publish ctx.tester topic payload retain in
      let same = consumers-broker_tester_request_publish ctx.tester topic payload retain in
      let kept : HasSlot slot (record ctx { tester = t }) = record {
        in_slot = h.in_slot;
        taken = ap (λ cs. is_active (get_or cs slot none)) same ∙ h.taken;
        sb_live = h.sb_live;
        fd_open = h.fd_open;
      } in
      if-holds (HasSlot slot) ok (λ _. kept)
        (λ _. HasSlot-send_text (record ctx { tester = t }) queue_full_or_invalid kept)

  HasSlot-with_window :
      (ctx : Ctx) (now : ℕ) → HasSlot slot ctx → HasSlot slot (with_window ctx now)
  HasSlot-with_window ctx now h =
      if-holds (HasSlot slot) (leb rate_window_ms (now - ctx.rate_window_start_ms))
        (λ _. record {
          in_slot = h.in_slot;
          taken = h.taken;
          sb_live = h.sb_live;
          fd_open = h.fd_open;
        })
        (λ _. h)

  HasSlot-handle_publish_request :
      (ctx : Ctx) (json : List ℕ) (now : ℕ)
      → HasSlot slot ctx
      → HasSlot slot (handle_publish_request ctx json now)
  unfolding handle_publish_request
  HasSlot-handle_publish_request ctx json now h =
      let w : Ctx = with_window ctx now in
      let k = HasSlot-with_window ctx now h in
      if-holds (HasSlot slot) (leb rate_pub_per_sec w.rate_count)
        (λ _. HasSlot-send_text w rate_limit k)
        (λ _.
          HasSlot-serve (record w { rate_count = w.rate_count + 1 }) (read_request json)
            (record {
              in_slot = k.in_slot;
              taken = k.taken;
              sb_live = k.sb_live;
              fd_open = k.fd_open;
            }))

  HasSlot-emit_event :
      (ctx : Ctx) (ev : Event) → HasSlot slot ctx → HasSlot slot (emit_event ctx ev)
  unfolding emit_event
  HasSlot-emit_event ctx ev h =
      encoded (json_encode_string ev.topic (128 * 6 + 4))
        (json_encode_string ev.payload (1024 * 6 + 4))
    where
      encoded : (tn pn : Option (List ℕ)) → HasSlot slot (send_encoded ctx ev tn pn)
      encoded none pn = h
      encoded (some tn) none = h
      encoded (some tn) (some pn) =
          if-holds (HasSlot slot) (leb 3072 (length (event_text ev tn pn))) (λ _. h)
            (λ _. HasSlot-send_text ctx (event_text ev tn pn) h)

get_or-set-none : (cs : List (Option ℕ)) (i : ℕ) → is_active (get_or (set cs i none) i none) ≡ false
get_or-set-none [] i = refl
get_or-set-none (c ∷ cs) zero = refl
get_or-set-none (c ∷ cs) (suc i) = get_or-set-none cs i

unregister_frees :
    (t : Tester) (slot : ℕ)
    → slot < max_consumers
    → is_active (get_or (broker_tester_unregister t slot).consumers slot none) ≡ false
unfolding broker_tester_unregister
unregister_frees t slot h = elim (Bool-cases (is_active (get_or t.consumers slot none))) [
  | inl active ↦
      let in_range : leb max_consumers slot ≡ false = ground arith in
      rw (in_range, active) (get_or-set-none t.consumers slot)
  | inr free ↦
      let in_range : leb max_consumers slot ≡ false = ground arith in rw (in_range, free) free
]

-- Other tasks leave the slot taken.
abbrev pub Spares : (slot : ℕ) → Look → Type 0
Spares slot (event ev now) = Unit
Spares slot select_fails = Unit
Spares slot select_interrupted = Unit
Spares slot (idle now) = Unit
Spares slot (readable now published_at) = Unit
Spares slot (others t) = is_active (get_or t.consumers slot none) ≡ true

module _ (slot : ℕ) (in_range : slot < max_consumers) where
  HasReleased-finish : (ctx : Ctx) → HasSlot slot ctx → HasReleased slot (finish ctx)
  unfolding finish
  HasReleased-finish ctx h = record {
    slot_free = rw h.in_slot (unregister_frees ctx.tester slot in_range);
    sb_deleted = refl;
    fd_closed = refl;
  }

  IsTidy-dispatch :
      (ctx : Ctx) (f : Frame) (now : ℕ) → HasSlot slot ctx → IsTidy slot (dispatch ctx f now)
  IsTidy-dispatch ctx f now h =
      let P : Task → Type 0 = IsTidy slot in
      if-holds P (f.opcode == op_text)
        (λ _. HasSlot-handle_publish_request slot ctx f.payload now h)
        λ _.
          if-holds P (f.opcode == op_bin) (λ _. HasSlot-send_text slot ctx binary_unsupported h)
            λ _.
              if-holds P (f.opcode == op_ping) (λ _. HasSlot-send slot ctx (pong_frame f.payload) h)
                λ _.
                  if-holds P (f.opcode == op_pong) (λ _. h)
                    λ _.
                      if-holds P (f.opcode == op_close)
                        (λ _.
                          HasReleased-finish (send ctx (close_frame 1000))
                            (HasSlot-send slot ctx (close_frame 1000) h))
                        λ _. HasReleased-finish ctx h

  IsTidy-on_frame :
      (ctx : Ctx) (now published_at : ℕ) (r : Option (Frame × List Turn))
      → HasSlot slot ctx
      → IsTidy slot (on_frame ctx now published_at r)
  IsTidy-on_frame ctx now published_at none h = HasReleased-finish ctx h
  IsTidy-on_frame ctx now published_at (some (f, inbox)) h =
      IsTidy-dispatch (record ctx { inbox = inbox; last_activity = now }) f published_at
        (record { in_slot = h.in_slot; taken = h.taken; sb_live = h.sb_live; fd_open = h.fd_open })

  IsTidy-ws_turn :
      (ctx : Ctx) (look : Look)
      → Spares slot look
      → HasSlot slot ctx
      → IsTidy slot (ws_turn ctx look)
  unfolding ws_turn
  IsTidy-ws_turn ctx (event ev now) spared h =
      let k = HasSlot-emit_event slot ctx ev h in
      record { in_slot = k.in_slot; taken = k.taken; sb_live = k.sb_live; fd_open = k.fd_open }
  IsTidy-ws_turn ctx select_fails spared h = HasReleased-finish ctx h
  IsTidy-ws_turn ctx select_interrupted spared h = h
  IsTidy-ws_turn ctx (idle now) spared h =
      if-holds (IsTidy slot) (ltb idle_timeout_ms (now - ctx.last_activity))
        (λ _.
          HasReleased-finish (send ctx (close_frame 1000))
            (HasSlot-send slot ctx (close_frame 1000) h))
        (λ _. h)
  IsTidy-ws_turn ctx (readable now published_at) spared h =
      IsTidy-on_frame ctx now published_at (recv_frame ctx.inbox) h
  IsTidy-ws_turn ctx (others tester) spared h = record {
    in_slot = h.in_slot;
    taken = spared;
    sb_live = h.sb_live;
    fd_open = h.fd_open;
  }

  IsTidy-ws_loop :
      (task : Task) (looks : List Look)
      → All (Spares slot) looks
      → IsTidy slot task
      → IsTidy slot (ws_loop task looks)
  unfolding ws_loop
  IsTidy-ws_loop task [] spared h = h
  IsTidy-ws_loop (ended ctx) (look ∷ looks) spared h = h
  IsTidy-ws_loop (running ctx) (look ∷ looks) spared h =
      IsTidy-ws_loop (ws_turn ctx look) looks spared.1 (IsTidy-ws_turn ctx look spared.0 h)

-- Whatever a client sends, whatever fails and whatever other tasks do to the tester meanwhile, but that
-- they do not free its slot: a task that goes on has its slot taken in the tester's table, its stream
-- buffer and its socket, and a task that ends leaves its slot free, the stream buffer deleted and the
-- socket closed.
pub ws_task-IsTidy :
    (slot : ℕ) (ctx : Ctx) (looks : List Look)
    → slot < max_consumers
    → All (Spares slot) looks
    → HasSlot slot ctx
    → IsTidy slot (ws_task ctx looks)
unfolding ws_task
ws_task-IsTidy slot ctx looks in_range spared h =
    IsTidy-ws_loop slot in_range (running (send_text ctx (codes "{\"hello\":true}"))) looks spared
      (HasSlot-send_text slot ctx (codes "{\"hello\":true}") h)

-- The look finds nothing of the client and for it.
pub data IsQuiet : Look → Type 0 where
  quiet_interrupted : IsQuiet select_interrupted
  quiet_idle : {now : ℕ} → IsQuiet (idle now)
  quiet_others : {t : Tester} → IsQuiet (others t)

pub data HasEnded : Task → Type 0 where
  has_ended : {ctx : Ctx} → HasEnded (ended ctx)

not-IsQuiet_fails : ¬ IsQuiet select_fails
not-IsQuiet_fails q = elim q [ ]

not-IsQuiet_event : {ev : Event} {now : ℕ} → ¬ IsQuiet (event ev now)
not-IsQuiet_event q = elim q [ ]

not-IsQuiet_readable : {now published_at : ℕ} → ¬ IsQuiet (readable now published_at)
not-IsQuiet_readable q = elim q [ ]

ended_stays : (ctx : Ctx) (looks : List Look) → HasEnded (ws_loop (ended ctx) looks)
unfolding ws_loop
ended_stays ctx [] = has_ended
ended_stays ctx (look ∷ looks) = has_ended

-- A client is closed that has been silent for more than five minutes: however often the task has found
-- nothing before, the first round in which the wait is over ends it, and it stays ended.
pub ws_loop-silent :
    (ctx : Ctx) (quiet later : List Look) (now : ℕ)
    → All IsQuiet quiet
    → idle_timeout_ms < now - ctx.last_activity
    → HasEnded (ws_loop (running ctx) (quiet ++ (idle now ∷ later)))
unfolding ws_loop ws_turn
ws_loop-silent ctx [] later now q h =
    if-holds (λ task. HasEnded (ws_loop task later)) (ltb idle_timeout_ms (now - ctx.last_activity))
      (λ _. ended_stays _ later) (λ e. absurd (ground arith))
ws_loop-silent ctx (select_interrupted ∷ quiet) later now q h =
    ws_loop-silent ctx quiet later now q.1 h
ws_loop-silent ctx (others t ∷ quiet) later now q h =
    ws_loop-silent (record ctx { tester = t }) quiet later now q.1 h
ws_loop-silent ctx (idle then_now ∷ quiet) later now q h =
    if-holds (λ task. HasEnded (ws_loop task (quiet ++ (idle now ∷ later))))
      (ltb idle_timeout_ms (then_now - ctx.last_activity))
      (λ _. ended_stays _ (quiet ++ (idle now ∷ later)))
      (λ _. ws_loop-silent ctx quiet later now q.1 h)
ws_loop-silent ctx (select_fails ∷ quiet) later now q h = absurd (not-IsQuiet_fails q.0)
ws_loop-silent ctx (event ev at ∷ quiet) later now q h = absurd (not-IsQuiet_event q.0)
ws_loop-silent ctx (readable at published_at ∷ quiet) later now q h =
    absurd (not-IsQuiet_readable q.0)
