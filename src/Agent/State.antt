-- ===== src/Agent/State.antt =====
-- apps/agent-shell/src/runtime.ts: the options of a runtime, the state of its session, and what it
-- asks of the world. A time is the number of milliseconds that `Date.parse` reads from its text.
use winbridge.Base.{ℕ, Bool, String, List, Option, Failure, nat_eq, if◌then◌else◌}
use winbridge.Protocol.Session.{SessionRole, Permission}
use winbridge.Protocol.Status.{Status}
use winbridge.Protocol.Messages.{DeviceIdentity, ReasonCode, Body, Entries}

-- `RuntimeAuthorizationSnapshot`
pub record Snapshot : Type 0 where
  pub authorization_id : String
  pub authority_peer_id : Option String
  pub remote_peer_id : Option String
  pub viewer_device_identity : Option DeviceIdentity
  pub status : Status
  pub visible_to_host : Bool
  pub permissions : List Permission
  pub revoked_permissions : Option (List Permission)
  pub expires_at : Option ℕ

-- `HostWorkflowState`
pub record Workflow : Type 0 where
  pub terminal_status : Option Status
  pub paused : Bool
  pub permissions : List Permission

pub data HostDecision : Type 0 where
  none approve deny : HostDecision

-- The fields of `AgentShellRuntimeOptions` that the modelled operations read. Optional flags and
-- texts are given with the value that stands for their absence.
pub record Options : Type 0 where
  pub role : SessionRole
  pub session_id : String
  pub peer_id : String
  pub display_name : String
  pub requested_permissions : List Permission
  pub request_reason : Option String
  pub host_grant_permissions : Option (List Permission)
  pub visible_to_host : Bool
  pub decision_reason : Option String
  pub authorization_ttl_ms : Option ℕ
  pub host_revoke_after_ms : Option ℕ
  pub host_revoke_permission : Option Permission
  pub host_revoke_reason : Option String
  pub host_pause_after_ms : Option ℕ
  pub host_pause_reason : Option String
  pub host_resume_after_ms : Option ℕ
  pub host_resume_reason : Option String
  pub host_terminate_after_ms : Option ℕ
  pub host_terminate_reason : Option String
  pub host_disconnect_after_ms : Option ℕ
  pub host_signal_probe_ack : Bool
  pub host_apply_input : Bool
  pub viewer_signal_probe_after_ms : Option ℕ
  pub has_audit_sink : Bool

-- The states and the causes of `AgentShellHostIndicatorEvent`.
pub data IndicatorState : Type 0 where
  active paused inactive : IndicatorState

pub data Cause : Type 0 where
  activated permission_revoked paused resumed revoked terminated expired : Cause
  peer_disconnected local_disconnect socket_closed runtime_stop : Cause

pub record Indicator : Type 0 where
  pub state : IndicatorState
  pub authorization_id : String
  pub authorization_status : Status
  pub expires_at : Option ℕ
  pub visible_to_host : Bool
  pub permission_count : ℕ
  pub cause : Cause

-- `AgentShellViewerLocalInactiveCause`
pub data LocalInactiveCause : Type 0 where
  local_leave socket_closed : LocalInactiveCause

-- The callbacks that are handed to `scheduleTimer`, each with what it closes over. A workflow is
-- named by its place in the store, so that the timers of one grant share it.
pub data Timer : Type 0 where
  expiration : (authorization_id : String) (expires_at workflow : ℕ) → Timer
  revoke :
      (authorization_id : String) (expires_at workflow : ℕ) (permission : Permission)
      (reason : String)
      → Timer
  terminate pause resume : (authorization_id : String) (expires_at workflow : ℕ) → Timer
  disconnect : (expires_at workflow : ℕ) → Timer
  signal_probe :
      (generation : ℕ) (authorization_id : String) (remote_peer_id : Option String) → Timer

-- `AgentShellSessionState`, without the handles of the native adapters; the store of the host
-- workflows; and, newest first, the timers that were set, the messages that were sent, and the
-- inputs that were handed to the native adapter.
pub record State : Type 0 where
  pub local_peer_disconnected : Bool
  pub remote_peer_disconnected : Bool
  pub remote_disconnect_reason_code : Option ReasonCode
  pub recipient_available : Bool
  pub observed_peer_id : Option String
  pub observed_peer_role : Option SessionRole
  pub observed_peer_display_name : Option String
  pub observed_peer_device_identity : Option DeviceIdentity
  pub local_device_identity : Option DeviceIdentity
  pub hello_sent : Bool
  pub viewer_authorization_request_sent : Bool
  pub host_authorization : Option Snapshot
  pub host_workflow_state : Option ℕ
  pub viewer_authorization : Option Snapshot
  pub viewer_local_inactive_cause : Option LocalInactiveCause
  pub viewer_signal_probe_authorization_id : Option String
  pub viewer_signal_probe_ack_authorization_id : Option String
  pub viewer_signal_probe_generation : ℕ
  pub host_signal_probe_ack_authorization_id : Option String
  pub host_indicator : Option Indicator
  pub host_screen_capture_blocked : Bool
  pub host_input_blocked : Bool
  pub workflows : ℕ → Workflow
  pub next_workflow : ℕ
  pub timers : List (ℕ × Timer)
  pub sent : List Body
  pub applied : List (Snapshot × Body)

-- The world during one step: the clock; the socket, with whether it is open; what the schema of a
-- message, the socket, the event callback, the audit sink (by the action of the record) and the sink
-- for screen frames throw; the identifiers that `randomUUID` gives for an authorization and for an
-- audit event; and the details of the audit records, which are not modelled.
pub record World : Type 0 where
  pub now : ℕ
  pub socket : Option Bool
  pub schema_failure : Body → Option Failure
  pub send_failure : Body → Option Failure
  pub event_failure : Indicator → Option Failure
  pub audit_failure : String → Option Failure
  pub frame_failure : Body → Option Failure
  pub authorization_id : String
  pub audit_event_id : String
  pub audit_detail : String → Entries

abbrev pub set_workflow : ℕ → Workflow → State → State
set_workflow r w s = record s { workflows = λ i. if nat_eq i r then w else s.workflows i }
