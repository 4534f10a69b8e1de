-- ===== src/Relay/Heartbeat.antt =====
-- apps/relay/src/heartbeat.ts, and `startPeerHeartbeat` of apps/relay/src/server.ts: the interval,
-- the timeout and the pong of a connection as events, each with the time that the source reads.
-- The timers are Node's: an event `fire` is the callback of the timeout that is armed, at whatever
-- time it comes.
pub mod Timeout
use Prim.Native.String.{◌++◌ as str_append}
use winbridge.Base.{
  ℕ, ◌+◌, Bool, true, false, ◌&&◌, ◌||◌, not, String, List, [], ◌∷◌, Option, none, some, Result, ok,
  err, thrown, ◌>>=◌, ◌>>◌, guard, leb, str_eq, if◌then◌else◌,
}

pub record RelayHeartbeatConfig : Type 0 where
  pub interval_ms : ℕ
  pub timeout_ms : ℕ

pub record RelayHeartbeatState : Type 0 where
  pub awaiting_pong : Bool
  pub last_ping_at : Option ℕ
  pub last_pong_at : Option ℕ

abbrev pub max_heartbeat_timer_delay_ms : ℕ
max_heartbeat_timer_delay_ms = 2_147_483_647

unfoldable pub assert_safe_heartbeat_timer : ℕ → String → Result (Unit {0})
assert_safe_heartbeat_timer value label =
    guard (leb 1 value && leb value max_heartbeat_timer_delay_ms)
      (thrown (str_append label " must be an exact integer from 1 through 2147483647"))

unfoldable pub normalize_relay_heartbeat_config : RelayHeartbeatConfig → Result RelayHeartbeatConfig
normalize_relay_heartbeat_config config = do
  assert_safe_heartbeat_timer config.interval_ms "Heartbeat interval"
  assert_safe_heartbeat_timer config.timeout_ms "Heartbeat timeout"
  ok config

abbrev pub create_relay_heartbeat_state : ℕ → RelayHeartbeatState
create_relay_heartbeat_state now = record {
  awaiting_pong = false;
  last_ping_at = none;
  last_pong_at = some now;
}

abbrev pub mark_heartbeat_ping : RelayHeartbeatState → ℕ → RelayHeartbeatState
mark_heartbeat_ping state now = record state { awaiting_pong = true; last_ping_at = some now }

abbrev pub mark_heartbeat_pong : RelayHeartbeatState → ℕ → RelayHeartbeatState
mark_heartbeat_pong state now = record state { awaiting_pong = false; last_pong_at = some now }

-- `now - lastPingAt >= timeoutMs`, which subtracts on the integers.
abbrev pub has_waited : Option ℕ → ℕ → ℕ → Bool
has_waited none now timeout_ms = false
has_waited (some ping) now timeout_ms = leb (ping + timeout_ms) now

unfoldable pub is_heartbeat_timed_out : RelayHeartbeatState → ℕ → ℕ → Bool
is_heartbeat_timed_out state now timeout_ms =
    state.awaiting_pong && has_waited state.last_ping_at now timeout_ms

-- What `startPeerHeartbeat` keeps. `timed_out` also stands for what happens where it is set: the
-- disconnect reason becomes "heartbeat-timeout", and the socket is terminated even if the audit
-- sink throws.
pub record PeerHeartbeat : Type 0 where
  pub state : RelayHeartbeatState
  pub armed : Bool
  pub timed_out : Bool

pub data HeartbeatEvent : Type 0 where
  interval : (socket_open : Bool) (now : ℕ) → HeartbeatEvent
  fire : (now : ℕ) → HeartbeatEvent
  pong : (now : ℕ) → HeartbeatEvent

abbrev pub start_peer_heartbeat : ℕ → PeerHeartbeat
start_peer_heartbeat now = record {
  state = create_relay_heartbeat_state now;
  armed = false;
  timed_out = false;
}

unfoldable pub send_heartbeat : Bool → ℕ → PeerHeartbeat → PeerHeartbeat
send_heartbeat socket_open now h =
    if not socket_open || h.state.awaiting_pong
    then h
    else record h { state = mark_heartbeat_ping h.state now; armed = true }

-- The callback of the timeout. A timeout that was cleared does not call it, and it is spent by the
-- call.
unfoldable pub terminate_for_timeout : ℕ → ℕ → PeerHeartbeat → PeerHeartbeat
unfolding is_heartbeat_timed_out
terminate_for_timeout timeout_ms now h =
    if not h.armed
    then h
    else if h.timed_out || not (is_heartbeat_timed_out h.state now timeout_ms)
    then record h { armed = false }
    else record h { armed = false; timed_out = true }

unfoldable pub on_pong : ℕ → PeerHeartbeat → PeerHeartbeat
on_pong now h = record h { state = mark_heartbeat_pong h.state now; armed = false }

unfoldable pub heartbeat_step : ℕ → HeartbeatEvent → PeerHeartbeat → PeerHeartbeat
unfolding send_heartbeat terminate_for_timeout on_pong
heartbeat_step timeout_ms (interval socket_open now) h = send_heartbeat socket_open now h
heartbeat_step timeout_ms (fire now) h = terminate_for_timeout timeout_ms now h
heartbeat_step timeout_ms (pong now) h = on_pong now h

unfoldable pub heartbeat_run : ℕ → List HeartbeatEvent → PeerHeartbeat → PeerHeartbeat
unfolding heartbeat_step
heartbeat_run timeout_ms [] h = h
heartbeat_run timeout_ms (e ∷ es) h = heartbeat_run timeout_ms es (heartbeat_step timeout_ms e h)
