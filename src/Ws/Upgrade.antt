-- ===== src/Ws/Upgrade.antt =====
-- main/portal_ws.c: the upgrade of an HTTP request to a WebSocket. SHA-1 and base64 are those of
-- mbedtls, and the allocations those of the C library and FreeRTOS: all are arguments.
pub mod Outcome
use mqtt_broker_esp.Prelude.{
  ℕ, zero, suc, ◌+◌, List, [], ◌∷◌, ◌++◌, length, take, drop, Bool, true, false, ◌&&◌, ◌||◌, not,
  ltb, leb, ◌==◌, if◌then◌else◌, Option, none, some, codes,
}
use mqtt_broker_esp.Tester.{
  Tester, max_consumers, broker_tester_consumer_count, broker_tester_register,
  broker_tester_unregister,
}
use mqtt_broker_esp.Timers.Json.{decimal}
use mqtt_broker_esp.Ws.Socket.{Turn, Sending, send_interrupted, send_fails, takes, Sent, send_all}
use mqtt_broker_esp.Ws.Frame.{close_frame}
use mqtt_broker_esp.Ws.Task.{Ctx}

abbrev lower : ℕ → ℕ
lower c = if leb b'A' c && leb c b'Z' then c + 32 else c

-- The needle stands at the start of the bytes, but for the case of letters.
unfoldable pub ci_prefix : (needle : List ℕ) → List ℕ → Bool
ci_prefix [] hay = true
ci_prefix (n ∷ needle) [] = false
ci_prefix (n ∷ needle) (h ∷ hay) = (lower h == lower n) && ci_prefix needle hay

-- The bytes from the first match on.
unfoldable pub ci_search : (needle : List ℕ) → List ℕ → Option (List ℕ)
unfolding ci_prefix
ci_search needle [] = none
ci_search needle (h ∷ hay) =
    let rest = ci_search needle hay in if ci_prefix needle (h ∷ hay) then some (h ∷ hay) else rest

-- An empty needle is never found.
unfoldable pub ci_strnstr : List ℕ → (needle : List ℕ) → Option (List ℕ)
unfolding ci_search
ci_strnstr hay needle = if length needle == 0 then none else ci_search needle hay

abbrev pub is_found : Option (List ℕ) → Bool
is_found none = false
is_found (some h) = true

unfoldable pub skip_blanks : List ℕ → List ℕ
skip_blanks [] = []
skip_blanks (c ∷ cs) = let rest = skip_blanks cs in if (c == b' ') || (c == 9) then rest else c ∷ cs

unfoldable pub to_eol : List ℕ → List ℕ
to_eol [] = []
to_eol (c ∷ cs) = let rest = to_eol cs in if (c == 13) || (c == 10) then [] else c ∷ rest

abbrev key_that_fits : (out_size : ℕ) → List ℕ → Option (List ℕ)
key_that_fits out_size key =
    if (length key == 0) || leb out_size (length key) then none else some key

abbrev key_line : (out_size : ℕ) → Option (List ℕ) → Option (List ℕ)
key_line out_size none = none
key_line out_size (some h) =
    key_that_fits out_size (to_eol (skip_blanks (drop (length (codes "Sec-WebSocket-Key:")) h)))

-- The key, or `none` for 0.
unfoldable pub extract_ws_key : List ℕ → (out_size : ℕ) → Option (List ℕ)
unfolding ci_strnstr skip_blanks to_eol
extract_ws_key raw out_size = key_line out_size (ci_strnstr raw (codes "Sec-WebSocket-Key:"))

abbrev ws_guid : List ℕ
ws_guid = codes "258EAFA5-E914-47DA-95CA-C5AB0DC85B11"

-- The answers of the outside: `base64` is given the size of its buffer, `created` is the handle of the
-- stream buffer, `spawned` whether the task was created.
pub record Env : Type 0 where
  pub sha1 : List ℕ → List ℕ
  pub base64 : (out_size : ℕ) → List ℕ → Option (List ℕ)
  pub allocated : Bool
  pub created : Option ℕ
  pub spawned : Bool
  pub now : ℕ
  pub task_start : ℕ
  pub inbox : List Turn
  pub answers : List Sending

abbrev value_that_fits : (out_size : ℕ) → Option (List ℕ) → Option (List ℕ)
value_that_fits out_size none = none
value_that_fits out_size (some value) = if leb out_size (length value) then none else some value

-- What the upgrade leaves: the tester, what is still allocated or open, the bytes sent, and the context
-- of the task that runs.
pub record Upgraded : Type 0 where
  pub tester : Tester
  pub ctx_live : Bool
  pub sb_live : Bool
  pub fd_open : Bool
  pub out : List ℕ
  pub task : Option Ctx

-- The socket of the request, with nothing allocated yet.
abbrev pub accepted : Tester → Upgraded
accepted t = record {
  tester = t;
  ctx_live = false;
  sb_live = false;
  fd_open = true;
  out = [];
  task = none;
}

-- `free(ctx);`
abbrev pub free_ctx : Upgraded → Upgraded
free_ctx u = record u { ctx_live = false }

-- `vStreamBufferDelete(ctx->sb);`
abbrev pub delete_sb : Upgraded → Upgraded
delete_sb u = record u { sb_live = false }

-- `close(fd);`
abbrev pub close_fd : Upgraded → Upgraded
close_fd u = record u { fd_open = false }

-- `broker_tester_unregister(ctx->broker_slot);`
abbrev pub unregister : Upgraded → (slot : ℕ) → Upgraded
unregister u slot = record u { tester = broker_tester_unregister u.tester slot }

-- One `send`, whose result is ignored.
abbrev sent_once : List ℕ → List Sending → List ℕ
sent_once bytes [] = []
sent_once bytes (send_interrupted ∷ answers) = []
sent_once bytes (send_fails ∷ answers) = []
sent_once bytes (takes n ∷ answers) = take n bytes

abbrev eol : List ℕ
eol = 13 ∷ 10 ∷ []

-- The response of `send_http_error`.
unfoldable pub http_error : (status body : List ℕ) → List ℕ
unfolding decimal
http_error status body =
    codes "HTTP/1.1 "
    ++ (status
        ++ (eol
            ++ (codes "Content-Type: text/plain"
                ++ (eol
                    ++ (codes "Content-Length: "
                        ++ decimal 10 (length body)
                            (eol ++ (codes "Connection: close" ++ (eol ++ (eol ++ body)))))))))

unfoldable pub switching_protocols : (accept : List ℕ) → List ℕ
switching_protocols accept =
    codes "HTTP/1.1 101 Switching Protocols"
    ++ (eol
        ++ (codes "Upgrade: websocket"
            ++ (eol
                ++ (codes "Connection: Upgrade"
                    ++ (eol ++ (codes "Sec-WebSocket-Accept: " ++ (accept ++ (eol ++ eol))))))))

module _ (env : Env) where
  unfoldable pub compute_ws_accept : (key : List ℕ) (out_size : ℕ) → Option (List ℕ)
  compute_ws_accept key out_size =
      if leb 128 (length (key ++ ws_guid))
      then none
      else value_that_fits out_size (env.base64 out_size (env.sha1 (key ++ ws_guid)))

  -- `send_http_error(fd, status, body);`
  abbrev pub respond : Upgraded → (status body : List ℕ) → Upgraded
  respond u status body = record u { out = u.out ++ sent_once (http_error status body) env.answers }

  -- An error response, and the socket is closed.
  abbrev pub fail_with : Upgraded → (status body : List ℕ) → Upgraded
  fail_with u status body = close_fd (respond u status body)

  -- The task takes over what is live.
  abbrev pub started : Upgraded → (slot : ℕ) → (answers : List Sending) → Upgraded
  started u slot answers = record u {
    task = some (record {
      inbox = env.inbox;
      answers = answers;
      out = u.out;
      broker_slot = slot;
      rate_window_start_ms = env.now;
      rate_count = 0;
      last_activity = env.task_start;
      tester = u.tester;
      sb_live = u.sb_live;
      fd_open = u.fd_open;
    });
  }

  -- The task was not created.
  abbrev pub not_spawned : Upgraded → (slot : ℕ) → (answers : List Sending) → Upgraded
  not_spawned u slot answers =
      let freed = free_ctx (delete_sb (unregister u slot)) in
      close_fd (record freed { out = freed.out ++ (send_all (close_frame 1011) answers).bytes })

  -- The response has gone out, or not; the task is created.
  abbrev pub after_response : Upgraded → (slot : ℕ) → Sent → Upgraded
  after_response u slot s =
      let v = record u { out = u.out ++ s.bytes } in
      if s.done
      then (if env.spawned then started v slot s.answers else not_spawned v slot s.answers)
      else close_fd (free_ctx (delete_sb (unregister v slot)))

  abbrev pub after_register : Upgraded → (accept : List ℕ) → Tester × Option ℕ → Upgraded
  after_register u accept (t, none) =
      fail_with (free_ctx (delete_sb (record u { tester = t }))) (codes "503 Service Unavailable")
        (codes "tester busy")
  after_register u accept (t, some slot) =
      after_response (record u { tester = t }) slot
        (send_all (switching_protocols accept) env.answers)

  abbrev pub after_create : Upgraded → (accept : List ℕ) → Option ℕ → Upgraded
  after_create u accept none =
      fail_with (free_ctx u) (codes "500 Internal Server Error")
        (codes "stream buffer alloc failed")
  after_create u accept (some sb) =
      after_register (record u { sb_live = true }) accept
        (broker_tester_register u.tester (some sb))

  abbrev pub after_accept : Upgraded → Option (List ℕ) → Upgraded
  after_accept u none =
      fail_with u (codes "500 Internal Server Error") (codes "accept compute failed")
  after_accept u (some accept) =
      if leb max_consumers (broker_tester_consumer_count u.tester.consumers)
      then fail_with u (codes "503 Service Unavailable") (codes "tester busy")
      else if env.allocated
      then after_create (record u { ctx_live = true }) accept env.created
      else fail_with u (codes "500 Internal Server Error") (codes "out of memory")

  abbrev pub after_key : Upgraded → Option (List ℕ) → Upgraded
  after_key u none = fail_with u (codes "400 Bad Request") (codes "missing Sec-WebSocket-Key")
  after_key u (some key) = after_accept u (compute_ws_accept key 64)

  unfoldable pub portal_ws_handle_upgrade : Tester → (raw : List ℕ) → Upgraded
  unfolding ci_strnstr extract_ws_key compute_ws_accept http_error switching_protocols send_all
      close_frame broker_tester_consumer_count broker_tester_register broker_tester_unregister
  portal_ws_handle_upgrade t raw =
      if not (is_found (ci_strnstr raw (codes "Upgrade: websocket")))
        && not (is_found (ci_strnstr raw (codes "Upgrade:websocket")))
      then fail_with (accepted t) (codes "400 Bad Request") (codes "missing Upgrade: websocket")
      else after_key (accepted t) (extract_ws_key raw 64)
