-- ===== src/Broker.antt =====
-- The broker's state in main/mqtt_broker.c, and what every handler does with it: disconnecting a
-- client and sending to it.
pub mod Handlers
pub mod Fanout
pub mod Packets
pub mod Disconnect
pub mod Subscriptions
pub mod SendBuf
pub mod Received
mod Tests
use mqtt_broker_esp.Prelude.{
  ℕ, zero, suc, ◌+◌, ◌-◌, List, [], ◌∷◌, ◌++◌, Bool, true, false, ◌&&◌, not, length, take, drop,
  get_or, set, ltb, ◌==◌, if◌then◌else◌, Option, none, some,
}
use mqtt_broker_esp.Inflight.{Inflight, inflight_free_all_for_client}
use mqtt_broker_esp.Retain.{Memory, Store}
use mqtt_broker_esp.Echo.{Echo}
use mqtt_broker_esp.Tester.{Tester}

-- `broker_client_t`. `fd` is `none` for -1, `recv` is the first `recv_len` bytes of `recv_buf`, and
-- `client_id` the bytes before the NUL.
pub record Client : Type 0 where
  pub fd : Option ℕ
  pub client_id : List ℕ
  pub recv : List ℕ
  pub keep_alive : ℕ
  pub last_activity : ℕ
  pub connected_at : ℕ
  pub published : ℕ
  pub next_packet_id : ℕ
  pub connected : Bool
  pub authenticated : Bool

-- `broker_sub_t`
pub record Sub : Type 0 where
  pub active : Bool
  pub client_idx : ℕ
  pub topic : List ℕ
  pub qos : ℕ

-- The statics. `send_buf` is `s_send_buf`, of `s_buf_size` bytes. `sent` is what went out to each
-- client and `berry` what was handed to the Berry runtime, the newest first. `calls` counts the
-- calls of code outside this file that may answer either way.
pub record Broker : Type 0 where
  pub clients : List Client
  pub subs : List Sub
  pub num_connected : ℕ
  pub inflight : Inflight
  pub retained : Store
  pub echo : Echo
  pub tester : Tester
  pub send_buf : List ℕ
  pub sent : List (ℕ × List ℕ)
  pub berry : List (List ℕ × List ℕ)
  pub calls : ℕ

-- The build's `MQTT_BROKER_AUTH_USERNAME` and `MQTT_BROKER_AUTH_PASSWORD`: neither, the first, both.
pub data Auth : Type 0 where
  no_auth : Auth
  username_only : List ℕ → Auth
  credentials : (username password : List ℕ) → Auth

-- What the outside answers to the call of each number: the clock of the tick counter and the
-- corrected one, the heap, and whether an allocation succeeds. `cut` is how far a `send` that fails
-- has got, `none` for one that succeeds. `takes` says whether a stream buffer takes an event.
pub record Env : Type 0 where
  pub now : ℕ → ℕ
  pub ntp_now : ℕ → ℕ
  pub memory : ℕ → Memory
  pub alloc_ok : ℕ → Bool
  pub cut : ℕ → Option ℕ
  pub takes : ℕ → ℕ → Bool
  pub has_topic_subs : ℕ → Bool
  pub retain_enabled : Bool
  pub auth : Auth

abbrev unused_client : Client
unused_client = record {
  fd = none;
  client_id = [];
  recv = [];
  keep_alive = 0;
  last_activity = 0;
  connected_at = 0;
  published = 0;
  next_packet_id = 0;
  connected = false;
  authenticated = false;
}

abbrev pub is_open : Option ℕ → Bool
is_open none = false
is_open (some fd) = true

abbrev pub client_of : Broker → ℕ → Client
client_of b idx = get_or b.clients idx unused_client

abbrev pub put_client : Broker → ℕ → Client → Broker
put_client b idx c = record b { clients = set b.clients idx c }

abbrev pub is_ready : Client → Bool
is_ready c = is_open c.fd && c.connected

-- One more call of outside code has been made.
abbrev pub tick : Broker → Broker
tick b = record b { calls = b.calls + 1 }

unfoldable pub find_free_client : List Client → ℕ → Option ℕ
find_free_client [] i = none
find_free_client (c ∷ cs) i = if is_open c.fd then find_free_client cs (i + 1) else some i

unfoldable pub find_free_sub : List Sub → ℕ → Option ℕ
find_free_sub [] i = none
find_free_sub (s ∷ ss) i = if s.active then find_free_sub ss (i + 1) else some i

-- The subscriptions when those of a client are removed.
unfoldable pub remove_subs : ℕ → List Sub → List Sub
remove_subs idx [] = []
remove_subs idx (s ∷ ss) =
    (if s.active && (s.client_idx == idx) then record s { active = false } else s)
    ∷ remove_subs idx ss

-- What a disconnect leaves of a client.
abbrev pub closed : Client → Client
closed c = record c {
  fd = none;
  connected = false;
  authenticated = false;
  recv = [];
  client_id = [];
  published = 0;
  next_packet_id = 0;
}

unfoldable pub client_disconnect : Broker → ℕ → Broker
unfolding remove_subs
client_disconnect b idx =
    let c = client_of b idx in
    if is_open c.fd
    then record b {
      num_connected = if c.connected then b.num_connected - 1 else b.num_connected;
      inflight = inflight_free_all_for_client b.inflight idx;
      clients = set b.clients idx (closed c);
      subs = remove_subs idx b.subs;
    }
    else b

module _ (env : Env) where
  -- A `send` that fails after some bytes has the client disconnected.
  abbrev pub send_cut : Broker → ℕ → List ℕ → Option ℕ → Broker
  send_cut b idx bytes none = record b { sent = (idx, bytes) ∷ b.sent }
  send_cut b idx bytes (some n) =
      client_disconnect (record b { sent = (idx, take n bytes) ∷ b.sent }) idx

  unfoldable pub client_send : Broker → ℕ → List ℕ → Broker
  unfolding client_disconnect
  client_send b idx bytes =
      if is_open (client_of b idx).fd then send_cut (tick b) idx bytes (env.cut b.calls) else b

  -- `s_clients[idx].last_activity = get_time_ms();`
  unfoldable pub touch : Broker → ℕ → Broker
  touch b idx =
      put_client (tick b) idx (record (client_of b idx) { last_activity = env.now b.calls })

-- A packet is written to the start of `s_send_buf`.
abbrev pub write_send_buf : Broker → List ℕ → Broker
write_send_buf b out = record b { send_buf = out ++ drop (length out) b.send_buf }

-- `s_buf_size`
abbrev pub buf_size : Broker → ℕ
buf_size b = length b.send_buf
