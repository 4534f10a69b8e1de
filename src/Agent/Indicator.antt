-- ===== src/Agent/Indicator.antt =====
-- apps/agent-shell/src/runtime.ts: the indicator that shows the host that a session is on, and the
-- status that the runtime reports to its own side.
use winbridge.Base.{
  ℕ, Bool, true, false, not, ◌&&◌, ◌||◌, String, Option, none, some, Result, ok, err, thrown,
  nat_eq, length, str_eq, if◌then◌else◌,
}
use winbridge.Protocol.Session.{host, role_eq}
use winbridge.Protocol.Status.{Status, status_eq}
use winbridge.Protocol.Messages.{DeviceIdentity, ReasonCode}
use winbridge.Agent.State.{
  Snapshot, Options, IndicatorState, inactive, Cause, activated, permission_revoked, resumed,
  revoked, terminated, expired, peer_disconnected, local_disconnect, runtime_stop, Indicator, State,
  World,
}
use winbridge.Agent.Checks.{outcome}
use winbridge.Agent.Send.{M}

abbrev pub state_eq : IndicatorState → IndicatorState → Bool
state_eq IndicatorState.active IndicatorState.active = true
state_eq IndicatorState.paused IndicatorState.paused = true
state_eq IndicatorState.inactive IndicatorState.inactive = true
state_eq _ _ = false

abbrev cause_number : Cause → ℕ
cause_number activated = 0
cause_number permission_revoked = 1
cause_number Cause.paused = 2
cause_number resumed = 3
cause_number revoked = 4
cause_number terminated = 5
cause_number expired = 6
cause_number peer_disconnected = 7
cause_number local_disconnect = 8
cause_number Cause.socket_closed = 9
cause_number runtime_stop = 10

abbrev pub cause_eq : Cause → Cause → Bool
cause_eq a b = nat_eq (cause_number a) (cause_number b)

abbrev pub bool_eq : Bool → Bool → Bool
bool_eq true b = b
bool_eq false b = not b

unfoldable pub is_same_host_indicator : Option Indicator → Indicator → Bool
is_same_host_indicator none next = false
is_same_host_indicator (some previous) next =
    state_eq previous.state next.state
    && str_eq previous.authorization_id next.authorization_id
    && status_eq previous.authorization_status next.authorization_status
    && bool_eq previous.visible_to_host next.visible_to_host
    && nat_eq previous.permission_count next.permission_count
    && cause_eq previous.cause next.cause

abbrev pub host_indicator_state_for_authorization : Status → IndicatorState
host_indicator_state_for_authorization Status.active = IndicatorState.active
host_indicator_state_for_authorization Status.paused = IndicatorState.paused
host_indicator_state_for_authorization _ = inactive

abbrev pub host_indicator_has_active_grant : IndicatorState → Bool
host_indicator_has_active_grant IndicatorState.active = true
host_indicator_has_active_grant IndicatorState.paused = true
host_indicator_has_active_grant inactive = false

-- The callback runs once the new indicator is kept, and may throw.
unfoldable pub emit_host_indicator : World → Indicator → M (Unit {0})
emit_host_indicator w event s =
    if is_same_host_indicator s.host_indicator event
    then (s, ok tt)
    else (record s { host_indicator = some event }, outcome (w.event_failure event))

-- The indicator of a snapshot.
unfoldable pub indicator_of : Snapshot → Cause → Indicator
indicator_of snapshot cause =
    let state = host_indicator_state_for_authorization snapshot.status in
    record {
      state = state;
      authorization_id = snapshot.authorization_id;
      authorization_status = snapshot.status;
      expires_at = if host_indicator_has_active_grant state then snapshot.expires_at else none;
      visible_to_host = host_indicator_has_active_grant state;
      permission_count =
          if host_indicator_has_active_grant state then length snapshot.permissions else 0;
      cause = cause;
    }

unfoldable pub emit_host_indicator_from_authorization : World → Options → Cause → M (Unit {0})
unfolding emit_host_indicator indicator_of
emit_host_indicator_from_authorization w opts cause s = elim s.host_authorization [
  | none ↦ (s, ok tt)
  | some snapshot ↦
      if role_eq opts.role host && snapshot.visible_to_host
      then emit_host_indicator w (indicator_of snapshot cause) s
      else (s, ok tt)
]

-- The indicator that goes out, for the last snapshot, or the last indicator without one.
abbrev pub last_id : Option Snapshot → Indicator → String
last_id none indicator = indicator.authorization_id
last_id (some snapshot) indicator = snapshot.authorization_id

abbrev pub last_status : Option Snapshot → Indicator → Status
last_status none indicator = indicator.authorization_status
last_status (some snapshot) indicator = snapshot.status

unfoldable pub deactivate_host_indicator : World → Options → Cause → M (Unit {0})
unfolding emit_host_indicator
deactivate_host_indicator w opts cause s = elim s.host_indicator [
  | none ↦ (s, ok tt)
  | some shown ↦
      if not (role_eq opts.role host) || state_eq shown.state inactive
      then (s, ok tt)
      else emit_host_indicator w
          (record {
            state = inactive;
            authorization_id = last_id s.host_authorization shown;
            authorization_status = last_status s.host_authorization shown;
            expires_at = none;
            visible_to_host = false;
            permission_count = 0;
            cause = cause;
          })
          s
]

unfoldable pub deactivate_host_indicator_best_effort : World → Options → Cause → State → State
unfolding deactivate_host_indicator
deactivate_host_indicator_best_effort w opts cause s = (deactivate_host_indicator w opts cause s).0

-- `AgentShellHostStatusSnapshot`
pub record HostStatus : Type 0 where
  pub state : IndicatorState
  pub visible_to_host : Bool
  pub permission_count : ℕ
  pub authorization_id : Option String
  pub authorization_status : Option Status
  pub expires_at : Option ℕ
  pub viewer_device_identity : Option DeviceIdentity
  pub inactive_cause : Option Cause
  pub remote_disconnect_reason_code : Option ReasonCode

-- The status of a snapshot that the indicator has not put out.
abbrev pub shown_status : State → Snapshot → HostStatus
shown_status s snapshot =
    let state = host_indicator_state_for_authorization snapshot.status in
    let granted = host_indicator_has_active_grant state in
    record {
      state = state;
      visible_to_host = granted && snapshot.visible_to_host;
      permission_count = if granted then length snapshot.permissions else 0;
      authorization_id = some snapshot.authorization_id;
      authorization_status = some snapshot.status;
      expires_at = if granted then snapshot.expires_at else none;
      viewer_device_identity =
          if granted && not s.remote_peer_disconnected
          then snapshot.viewer_device_identity
          else none;
      inactive_cause = none;
      remote_disconnect_reason_code = none;
    }

abbrev pub put_out_status : State → Indicator → HostStatus
put_out_status s indicator = record {
  state = inactive;
  visible_to_host = false;
  permission_count = 0;
  authorization_id = some indicator.authorization_id;
  authorization_status = some indicator.authorization_status;
  expires_at = none;
  viewer_device_identity = none;
  inactive_cause = some indicator.cause;
  remote_disconnect_reason_code =
      if cause_eq indicator.cause peer_disconnected then s.remote_disconnect_reason_code else none;
}

unfoldable pub get_host_status_snapshot : Options → State → Result HostStatus
get_host_status_snapshot opts s =
    if not (role_eq opts.role host)
    then err (thrown "Agent shell host status is only valid for host runtimes")
    else elim s.host_authorization [
      | none ↦ ok (record {
        state = inactive;
        visible_to_host = false;
        permission_count = 0;
        authorization_id = none;
        authorization_status = none;
        expires_at = none;
        viewer_device_identity = none;
        inactive_cause = none;
        remote_disconnect_reason_code = none;
      })
      | some snapshot ↦ elim s.host_indicator [
        | none ↦ ok (shown_status s snapshot)
        | some indicator ↦
            if state_eq indicator.state inactive
            then ok (put_out_status s indicator)
            else ok (shown_status s snapshot)
      ]
    ]
