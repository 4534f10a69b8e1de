-- ===== src/Agent/Gates.antt =====
-- apps/agent-shell/src/runtime.ts: the tests that every use of an authorization passes through, and
-- the switches that block the native input and the native screen capture.
pub mod Grants
use winbridge.Base.{
  ℕ, Bool, true, false, not, ◌&&◌, ◌||◌, String, List, Option, none, some, leb, str_eq, non_empty,
}
use winbridge.Protocol.Session.{
  Permission, screen_view, input_pointer, input_keyboard, includes_permission, SessionRole, role_eq,
}
use winbridge.Protocol.Status.{Status, denied, revoked, terminated, expired, status_eq}
use winbridge.Protocol.Messages.{
  InputKind, pointer_move, pointer_down, pointer_up, pointer_wheel, key_down, key_up, Json, str,
  Entries, property,
}
use winbridge.Agent.State.{Snapshot, State}

-- `TERMINAL_AUTHORIZATION_STATUSES`
unfoldable pub is_terminal_authorization_status : Status → Bool
is_terminal_authorization_status denied = true
is_terminal_authorization_status revoked = true
is_terminal_authorization_status terminated = true
is_terminal_authorization_status expired = true
is_terminal_authorization_status _ = false

unfoldable pub has_authorization_expired : ℕ → ℕ → Bool
has_authorization_expired now expires_at = leb expires_at now

-- `expiresAt && !hasAuthorizationExpired(expiresAt)`
abbrev pub is_unexpired : ℕ → Option ℕ → Bool
is_unexpired now none = false
is_unexpired now (some expires_at) = not (has_authorization_expired now expires_at)

-- `optional === text`
abbrev pub is_text : Option String → String → Bool
is_text none b = false
is_text (some a) b = str_eq a b

abbrev pub is_role : Option SessionRole → SessionRole → Bool
is_role none b = false
is_role (some a) b = role_eq a b

-- `one === other`
abbrev pub same_text : Option String → Option String → Bool
same_text none none = true
same_text (some a) (some b) = str_eq a b
same_text _ _ = false

-- `optional && optional !== other`
abbrev pub is_other : Option String → Option String → Bool
is_other a b = elim (non_empty a) [ none ↦ false | some t ↦ not (same_text (some t) b) ]

abbrev pub is_active_snapshot : ℕ → Snapshot → Permission → Bool
is_active_snapshot now snapshot permission =
    status_eq snapshot.status Status.active
    && snapshot.visible_to_host
    && is_unexpired now snapshot.expires_at
    && includes_permission snapshot.permissions permission

unfoldable pub has_active_remote_interaction_authorization : ℕ → Option Snapshot → Permission → Bool
has_active_remote_interaction_authorization now none permission = false
has_active_remote_interaction_authorization now (some snapshot) permission =
    is_active_snapshot now snapshot permission

unfoldable pub has_active_signal_authorization : ℕ → Option Snapshot → Bool
has_active_signal_authorization now none = false
has_active_signal_authorization now (some snapshot) = is_active_snapshot now snapshot screen_view

abbrev pub input_event_required_permission : InputKind → Permission
input_event_required_permission key_down = input_keyboard
input_event_required_permission key_up = input_keyboard
input_event_required_permission pointer_move = input_pointer
input_event_required_permission pointer_down = input_pointer
input_event_required_permission pointer_up = input_pointer
input_event_required_permission pointer_wheel = input_pointer

abbrev pub text_of : Option Json → Option String
text_of (some (str value)) = some value
text_of _ = none

unfoldable pub signal_payload_authorization_id : Entries → Option String
signal_payload_authorization_id payload = text_of (property "authorizationId" payload)

-- The authorization id that a snapshot has, `undefined` without one.
abbrev pub snapshot_id : Option Snapshot → Option String
snapshot_id none = none
snapshot_id (some snapshot) = some snapshot.authorization_id

abbrev pub snapshot_remote : Option Snapshot → Option String
snapshot_remote none = none
snapshot_remote (some snapshot) = snapshot.remote_peer_id

abbrev pub block_host_windows_input : State → State
block_host_windows_input s = record s { host_input_blocked = true }

abbrev pub block_host_windows_capture : State → State
block_host_windows_capture s = record s { host_screen_capture_blocked = true }

abbrev pub block_host : State → State
block_host s = block_host_windows_capture (block_host_windows_input s)

abbrev pub enable_host_windows_input : List Permission → State → State
enable_host_windows_input permissions s = record s {
  host_input_blocked =
      not (includes_permission permissions input_pointer)
      && not (includes_permission permissions input_keyboard);
}

abbrev pub enable_host_windows_capture : List Permission → State → State
enable_host_windows_capture permissions s = record s {
  host_screen_capture_blocked = not (includes_permission permissions screen_view);
}

unfoldable pub reset_connection_scoped_session_state : State → State
reset_connection_scoped_session_state s = record (block_host s) {
  local_peer_disconnected = false;
  remote_peer_disconnected = false;
  remote_disconnect_reason_code = none;
  recipient_available = false;
  observed_peer_id = none;
  observed_peer_role = none;
  observed_peer_display_name = none;
  observed_peer_device_identity = none;
  local_device_identity = none;
  hello_sent = false;
  viewer_authorization_request_sent = false;
  host_authorization = none;
  host_workflow_state = none;
  viewer_authorization = none;
  viewer_local_inactive_cause = none;
  viewer_signal_probe_authorization_id = none;
  viewer_signal_probe_ack_authorization_id = none;
  viewer_signal_probe_generation = 0;
  host_signal_probe_ack_authorization_id = none;
  host_indicator = none;
}
