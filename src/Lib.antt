-- ===== src/Lib.antt =====
-- An MQTT 3.1.1 broker for the ESP32 (main/mqtt_broker.c, main/mqtt_parser.c), its echo
-- detector (main/echo_detect.c), its scheduled publishes (main/timers.c), its clock and SNTP server
-- (main/ntp.c), the web portal's requests, forms and WebSocket (main/portal.c, main/portal_berry.c,
-- main/portal_ws.c, main/csrf.c) and the log of its Berry scripts (main/berry_runtime.c).
--
-- The broker task reads bytes from its clients' sockets into a buffer for each client, cuts
-- packets off it with `mqtt_packet_length`, and calls a handler by the packet's type. A PUBLISH
-- is stored in the list of retained messages, routed to the subscriptions whose filter matches
-- its topic, queued in the in-flight tables where it goes out at QoS 1, and shown to the echo
-- detector. The task of the timers sweeps over the slots once a second and puts what is due into the
-- queue that the broker task drains; the slots are stored in NVS as JSON. The NTP client records each
-- synchronisation and estimates the drift, and the SNTP server answers with the corrected time.
-- The portal parses a request and checks its credentials and token; it hands the socket of an upgrade
-- to a task of its own, which registers with the broker as a consumer of the tester, sends what the
-- broker sees as JSON, and queues what the page wants published.
--
-- Which file models which part:
-- - Prelude: Boolean tests and lists over the native numbers, bit masks as remainders.
-- - Wire: main/mqtt_parser.c except the topic matching. Wire.Length is the fixed header, Wire.Connect,
--   Wire.Subscribe and Wire.Publish the parsers, Wire.Build the builders. A buffer is a list of
--   bytes and a length, which may differ; reading past the list is the result `fault`, so that a
--   theorem that `fault` does not come is about memory safety. `err` is a refusal, with the return
--   code of the source.
-- - Topic: `mqtt_topic_matches`. Topic.Spec is matching by levels.
-- - Retain: the retained messages of main/mqtt_broker.c, from `retained_msg_size` to `retain_store`. The
--   linked list is a list, and the size counters wrap at 2^32 as `size_t` does. Memory holds what the
--   heap and the compiler say: the size of the node, the total PSRAM, the free heap; whether the
--   allocations succeed is an argument.
-- - Inflight: the tables `s_inflight`, with the running total of bytes and the counters. A row belongs
--   to a client; the counter `next_packet_id` of the client is passed in and out.
-- - Echo: main/echo_detect.c. The two clocks are arguments.
-- - Tester: the tester of main/mqtt_broker.c, whose queue other tasks use to publish.
-- - Broker: the rest of main/mqtt_broker.c. Broker.antt has the state, `client_disconnect` and
--   `client_send`; Broker.Fanout the routing of a message and the retries; Broker.Handlers the handlers
--   of CONNECT, SUBSCRIBE and UNSUBSCRIBE and the keep-alive; Broker.Packets the other handlers and the
--   loop over the received bytes. `s_send_buf` is part of the state, since QoS 0 and QoS 1 packets share
--   it. The state counts the calls of outside code, and Env gives the answer to the call of each
--   number: the clock, the heap, a `send`, a stream buffer, the Berry runtime. What is sent is kept as a
--   trace. The check of credentials has the macros of the build as a parameter.
-- - Ntp: main/ntp.c. Ntp.antt has the record of synchronisations and the corrected clock, Ntp.Rate the
--   table of sources, Ntp.Server one turn of the loop of `ntp_server_task`. The readings of the timer
--   and of the clock are arguments. Ntp.Ring, Ntp.Sign, Ntp.Steady and Ntp.Reply have the proofs.
-- - Timers: main/timers.c. Timers.antt has the slots and their validation, Timers.Json the strings and
--   numbers, Timers.SlotJson and Timers.Blob the JSON of a slot and of all, Timers.Store the state with
--   the operations on it, Timers.Schedule the sweep, the task and `next_fire_for_locked`. A C string is
--   the list of its bytes before the NUL; what `malloc` and the NVS calls return is an argument, and the
--   broken-down local time is one; `mktime` is a function. `broker_publish_local` is the one of Tester.
-- - Ws: main/portal_ws.c. Ws.Socket is `recv_n` and `send_all` over the answers of the outside calls,
--   Ws.Frame the frames, Ws.Json the JSON helpers, Ws.Task the requests, the events and the loop of
--   `ws_task`, Ws.Upgrade the handler of the upgrade, with SHA-1 and base64 of mbedtls as arguments. What
--   the task meets in a round is a `Look`; the table of consumers and the queue are those of Tester.
-- - Portal: main/portal.c and main/portal_berry.c. Portal.Base64 is the decoder, Portal.Http the parser
--   of requests with `passes_auth` and `hostname_is_valid`, Portal.Form the two decoders of form fields
--   and `html_escape`. Reading behind `decoded` is the result `fault`, as in Wire.
-- - Berry: the ring of the log of main/berry_runtime.c, with whether the mutex exists and is taken as
--   arguments.
-- - Csrf: main/csrf.c. Csrf.Verify is about the comparison and the token, Csrf.Form about the form,
--   Csrf.Accepted about a whole request.
--
-- Times are natural numbers of milliseconds: the tick count of the source is never negative, and a
-- difference of an older and a later reading is taken.
--
-- Fuel: the loops on bytes and lists are structural. `encode_loop` recurses by accessibility. The
-- parsers' loops on topic filters run on the 32 places of the result, as in the source. The eviction
-- loop runs on the number of messages, which is enough since each round takes one out: the lemma
-- `evict_loop-fits` of Retain.Sizes says that it ends below the limit or empty. The search for a
-- packet identifier runs on the source's own 65535 attempts. The loop over the packets that a client
-- sent runs on the number of bytes received, which is enough: see Broker.Packets.Enough. The loops of
-- the JSON parsers run on the length of the text, of which each round takes a byte at least: see
-- Timers.SlotJson.Enough. Those of Ws.Json run on the length of the text in the same way. The loops on
-- sockets are structural on the answers that the socket gives.
--
-- Not modelled: the sockets and the select loop of `broker_task`, its configuration, $SYS topics and
-- the statistics; `ntp_init`, the settings in NVS and the snapshot `ntp_get_state`; the tasks and
-- locks of main/timers.c; the pages of the portal, its updates over the air, its DNS server and the
-- rest of its I/O; the tasks, slots and bindings of Berry and the network bring-up; the Berry virtual
-- machine is a third-party library.
pub mod Prelude
pub mod Wire
pub mod Ws
pub mod Topic
pub mod Retain
pub mod Inflight
pub mod Echo
pub mod Tester
pub mod Broker
pub mod Berry
pub mod Csrf
pub mod Ntp
pub mod Portal
pub mod Timers
