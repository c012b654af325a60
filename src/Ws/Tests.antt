-- ===== src/Ws/Tests.antt =====
-- Runs of the WebSocket of the web tester on concrete inputs.
use mqtt_broker_esp.Prelude.{
  ℕ, ◌≤◌, ◌≡◌, refl, List, [], ◌∷◌, ◌++◌, length, true, false, leb, if◌then◌else◌, Option, none,
  some, codes, arith,
}
use mqtt_broker_esp.Tester.{Tester, Event}
use mqtt_broker_esp.Timers.Json.Strings.{escape_all}
use mqtt_broker_esp.Ws.Socket.{Turn, select_interrupted, recv_interrupted, arrives, takes}
use mqtt_broker_esp.Ws.Socket.Stream.{stream}
use mqtt_broker_esp.Ws.Frame.{Frame, recv_frame, unmask}
use mqtt_broker_esp.Ws.Frame.RoundTrip.{client_frame, recv_frame-client_frame}
use mqtt_broker_esp.Ws.Task.{
  Ctx, send, event_text, emit_event, read_request, asks, idle, select_interrupted as interrupted,
  event, running, ws_loop, ws_task,
}
use mqtt_broker_esp.Ws.Task.Reads.{page_request, read_request-page_request}
use mqtt_broker_esp.Ws.Task.Rate.{Arrival, queued_all, queued_all_bound}
use mqtt_broker_esp.Ws.Task.Replies.{server_frame, emit_event_lem}
use mqtt_broker_esp.Ws.Task.Ends.{IsTidy, HasEnded, quiet_idle, ws_task-IsTidy, ws_loop-silent}
use mqtt_broker_esp.Ws.Upgrade.{Env, portal_ws_handle_upgrade}
use mqtt_broker_esp.Ws.Upgrade.Outcome.{LeavesNothing, portal_ws_handle_upgrade-LeavesNothing}

abbrev mask : List ℕ
mask = 0x37 ∷ 0xFA ∷ 0x21 ∷ 0x3D ∷ []

-- The example of RFC 6455: a masked "Hello".
abbrev hello : Frame
hello = record { opcode = 1; payload = codes "Hello" }

abbrev hello_bytes : List ℕ
hello_bytes = 0x81 ∷ 0x85 ∷ 0x37 ∷ 0xFA ∷ 0x21 ∷ 0x3D ∷ 0x7F ∷ 0x9F ∷ 0x4D ∷ 0x51 ∷ 0x58 ∷ []

client_frame-hello : client_frame hello mask ≡ hello_bytes
unfolding client_frame unmask
client_frame-hello = refl

-- The frame in three pieces, with an interruption and a byte of the next frame.
abbrev pieces : List Turn
pieces =
    select_interrupted
    ∷ arrives (0x81 ∷ [])
    ∷ arrives (0x85 ∷ 0x37 ∷ 0xFA ∷ 0x21 ∷ [])
    ∷ recv_interrupted
    ∷ arrives (0x3D ∷ 0x7F ∷ 0x9F ∷ 0x4D ∷ 0x51 ∷ 0x58 ∷ 0x89 ∷ [])
    ∷ []

recv_frame-client_frame_example :
    (left : List Turn) × (recv_frame pieces ≡ some (hello, left)) × (stream left ≡ 0x89 ∷ [])
unfolding client_frame unmask stream
recv_frame-client_frame_example =
    recv_frame-client_frame hello mask (0x89 ∷ []) pieces (omega arith) refl (omega arith)
      (omega arith) (omega arith) refl

-- A payload that holds the name of a key.
read_request-page_request_example :
    read_request (page_request (codes "a/b") (codes "{\"topic\":\"x\"}") true b'1')
    ≡ asks (codes "a/b") (codes "{\"topic\":\"x\"}") true
read_request-page_request_example =
    read_request-page_request (codes "a/b") (codes "{\"topic\":\"x\"}") true b'1' (omega arith)
      (omega arith) (omega arith)

abbrev tester : Tester
tester = record {
  inited = true;
  consumers = some 7 ∷ none ∷ [];
  queue = [];
  seq = 0;
  consumer_count = 1;
  events_published = 0;
  events_dropped = 0;
  publish_requests = 0;
  publish_rejected = 0;
  streams = [];
}

abbrev ctx : Ctx
ctx = record {
  inbox = pieces;
  answers = takes 100 ∷ takes 3 ∷ takes 100 ∷ [];
  out = [];
  broker_slot = 0;
  rate_window_start_ms = 1000;
  rate_count = 4;
  last_activity = 1000;
  tester = tester;
  sb_live = true;
  fd_open = true;
}

abbrev ev : Event
ev = record { seq = 12; topic = codes "a"; payload = codes "on"; retain = false; truncated = false }

abbrev ev_text : List ℕ
ev_text = event_text ev (escape_all (codes "a")) (escape_all (codes "on"))

emit_event_lem_example :
    emit_event ctx ev ≡ (if leb (length ev_text) 1036 then send ctx (server_frame ev_text) else ctx)
emit_event_lem_example = emit_event_lem ctx ev (omega arith) (omega arith)

abbrev arrivals : List Arrival
arrivals =
    record { tester = tester; json = page_request (codes "a") (codes "1") false b'0'; now = 1500 }
    ∷ record { tester = tester; json = codes "{}"; now = 1999 }
    ∷ []

queued_all_bound_example : queued_all ctx arrivals ≤ 16
queued_all_bound_example = queued_all_bound ctx arrivals (omega arith)

ws_task-IsTidy_example : IsTidy 0 (ws_task ctx (event ev 1200 ∷ interrupted ∷ idle 400000 ∷ []))
ws_task-IsTidy_example =
    ws_task-IsTidy 0 ctx (event ev 1200 ∷ interrupted ∷ idle 400000 ∷ []) (omega arith)
      (tt, (tt, (tt, tt))) (record { in_slot = refl; taken = refl; sb_live = refl; fd_open = refl })

ws_loop-silent_example : HasEnded (ws_loop (running ctx) (idle 5000 ∷ idle 301001 ∷ []))
ws_loop-silent_example =
    ws_loop-silent ctx (idle 5000 ∷ []) [] 301001 (quiet_idle, tt) (omega arith)

abbrev env : Env
env = record {
  sha1 = λ bytes. bytes;
  base64 = λ out_size bytes. some (codes "s3pPLMBiTxaQ9kYGzzhZRbK+xOo=");
  allocated = true;
  created = some 9;
  spawned = true;
  now = 1000;
  task_start = 1010;
  inbox = [];
  answers = takes 200 ∷ [];
}

abbrev request : List ℕ
request =
    codes "GET /ws HTTP/1.1"
    ++ (13
        ∷ 10
        ∷ (codes "upgrade: websocket"
            ++ (13
                ∷ 10
                ∷ (codes "Sec-WebSocket-Key: dGhlIHNhbXBsZSBub25jZQ=="
                    ++ (13 ∷ 10 ∷ 13 ∷ 10 ∷ [])))))

portal_ws_handle_upgrade-LeavesNothing_example :
    LeavesNothing tester (portal_ws_handle_upgrade env tester request)
portal_ws_handle_upgrade-LeavesNothing_example =
    portal_ws_handle_upgrade-LeavesNothing env tester request refl

abbrev slot_taken : Option Ctx → Option ℕ
slot_taken none = none
slot_taken (some c) = some c.broker_slot

upgrade_takes_slot_one : slot_taken (portal_ws_handle_upgrade env tester request).task ≡ some 1
unfolding portal_ws_handle_upgrade
upgrade_takes_slot_one = refl
