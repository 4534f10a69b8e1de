-- ===== src/Agent/Checks.antt =====
-- apps/agent-shell/src/runtime.ts: the checks before a message is sent.
use winbridge.Base.{
  ℕ, Bool, true, false, not, ◌&&◌, ◌||◌, String, Option, none, some, Result, ok, err, ◌>>◌, thrown,
  Failure, guard, str_eq, non_empty,
}
use winbridge.Protocol.Session.{SessionRole, host, viewer, role_eq, Permission, screen_view}
use winbridge.Protocol.Messages.{
  Body, hello, join_session, host_consent_required, host_consent_decision,
  session_authorization_request, session_authorization_decision, session_authorization_state,
  permission_revoked, relay_ready, peer_disconnected, signal, screen_frame, input_event,
  session_control, audit_event,
}
use winbridge.Agent.State.{Snapshot, Options, State, World}
use winbridge.Agent.Gates.{
  is_text, is_role, same_text, is_other, has_active_remote_interaction_authorization,
  has_active_signal_authorization, input_event_required_permission, signal_payload_authorization_id,
  snapshot_id, snapshot_remote,
}
use winbridge.Agent.Inbound.{signal_snapshot}

-- What an outside call throws, or its success.
abbrev pub outcome : Option Failure → Result (Unit {0})
outcome none = ok tt
outcome (some e) = err e

-- `if (test) { throw new Error(message); }`
abbrev pub refuse_if : Bool → String → Result (Unit {0})
refuse_if test message = guard (not test) (thrown message)

abbrev pub is_open : Option Bool → Bool
is_open none = false
is_open (some open') = open'

abbrev pub is_started : Option Bool → Bool
is_started none = false
is_started (some _) = true

abbrev pub peer_disconnected_message : String
peer_disconnected_message = "Agent shell peer is disconnected"

abbrev pub local_peer_disconnected_message : String
local_peer_disconnected_message = "Agent shell local peer is disconnected"

abbrev pub public_send_authority_message : String
public_send_authority_message = "Agent shell public send message authority is invalid"

abbrev pub interaction_message : String
interaction_message = "Agent shell remote interaction messages require dedicated runtime methods"

abbrev pub signal_routing_message : String
signal_routing_message = "Agent shell signal sender and target must match runtime peer routing"

abbrev pub signal_authorization_message : String
signal_authorization_message = "Agent shell signal requires active visible screen authorization"

abbrev pub recipient_message : String
recipient_message = "Agent shell public send requires an observed recipient peer"

abbrev pub interaction_authorization_message : String
interaction_authorization_message =
    "Agent shell remote interaction requires active visible authorization"

abbrev pub interaction_routing_message : String
interaction_routing_message =
    "Agent shell remote interaction sender and target must match runtime peer routing"

abbrev pub assert_public_send_session : String → Options → Result (Unit {0})
assert_public_send_session session_id opts =
    refuse_if (not (str_eq session_id opts.session_id))
      "Agent shell message must match runtime session"

abbrev pub assert_public_send_authority : Body → Options → Result (Unit {0})
assert_public_send_authority (join_session _ _ _ _) opts =
    err (thrown public_send_authority_message)
assert_public_send_authority (relay_ready _ _) opts = err (thrown public_send_authority_message)
assert_public_send_authority (peer_disconnected _ _ _) opts =
    err (thrown public_send_authority_message)
assert_public_send_authority (screen_frame _ _ _ _ _ _ _ _ _ _) opts =
    err (thrown interaction_message)
assert_public_send_authority (input_event _ _ _ _ _ _ _) opts = err (thrown interaction_message)
assert_public_send_authority (hello peer_id role _ _ _) opts =
    refuse_if (not (str_eq peer_id opts.peer_id) || not (role_eq role opts.role))
      public_send_authority_message
assert_public_send_authority (host_consent_required viewer_id _ _) opts =
    refuse_if (not (role_eq opts.role viewer) || not (str_eq viewer_id opts.peer_id))
      public_send_authority_message
assert_public_send_authority (session_authorization_request viewer_id _ _) opts =
    refuse_if (not (role_eq opts.role viewer) || not (str_eq viewer_id opts.peer_id))
      public_send_authority_message
assert_public_send_authority _ opts = ok tt

abbrev pub assert_signal_peer_routing : Body → Options → Result (Unit {0})
assert_signal_peer_routing (signal from to _) opts =
    refuse_if (not (str_eq from opts.peer_id) || is_text to opts.peer_id) signal_routing_message
assert_signal_peer_routing _ opts = ok tt

abbrev pub assert_signal_send_authorized : ℕ → Body → Options → State → Result (Unit {0})
assert_signal_send_authorized now (signal _ to payload) opts s =
    refuse_if (not (has_active_signal_authorization now (signal_snapshot opts s)))
      signal_authorization_message
    >> refuse_if (is_other to (snapshot_remote (signal_snapshot opts s))) signal_routing_message
    >> refuse_if
        (not (
          same_text (signal_payload_authorization_id payload)
            (snapshot_id (signal_snapshot opts s))))
        signal_authorization_message
assert_signal_send_authorized now _ opts s = ok tt

abbrev pub is_workflow_authority_message : Body → Bool
is_workflow_authority_message (host_consent_decision _ _ _ _ _) = true
is_workflow_authority_message (session_authorization_decision _ _ _ _ _ _ _) = true
is_workflow_authority_message (session_authorization_state _ _ _ _ _ _ _) = true
is_workflow_authority_message (permission_revoked _ _ _ _) = true
is_workflow_authority_message (session_control _ _ _ _ _) = true
is_workflow_authority_message (audit_event _ _ _ _ _) = true
is_workflow_authority_message _ = false

abbrev pub assert_public_workflow_authority_send_allowed : Body → Result (Unit {0})
assert_public_workflow_authority_send_allowed body =
    refuse_if (is_workflow_authority_message body)
      "Agent shell workflow authority messages require internal consent workflow"

abbrev pub is_peer_recipient_message : Body → Bool
is_peer_recipient_message (hello _ _ _ _ _) = true
is_peer_recipient_message (host_consent_required _ _ _) = true
is_peer_recipient_message (session_authorization_request _ _ _) = true
is_peer_recipient_message (signal _ _ _) = true
is_peer_recipient_message _ = false

abbrev pub assert_public_send_recipient_available : Body → State → Result (Unit {0})
assert_public_send_recipient_available body s =
    refuse_if (is_peer_recipient_message body && not s.recipient_available) recipient_message

-- The checks of `sendPublicRuntimeMessage`, in order; `session_id` is the message's.
unfoldable pub check_public_send : World → Options → State → String → Body → Result (Unit {0})
check_public_send w opts s session_id body =
    guard (is_started w.socket) (thrown "Agent shell runtime is not started")
    >> refuse_if s.remote_peer_disconnected peer_disconnected_message
    >> refuse_if s.local_peer_disconnected local_peer_disconnected_message
    >> assert_public_send_session session_id opts
    >> assert_public_send_authority body opts
    >> assert_public_workflow_authority_send_allowed body
    >> assert_signal_peer_routing body opts
    >> assert_signal_send_authorized w.now body opts s
    >> assert_public_send_recipient_available body s

abbrev pub assert_remote_interaction_socket_ready : World → State → Result (Unit {0})
assert_remote_interaction_socket_ready w s =
    guard (is_started w.socket) (thrown "Agent shell runtime is not started")
    >> refuse_if s.remote_peer_disconnected peer_disconnected_message
    >> refuse_if s.local_peer_disconnected local_peer_disconnected_message
    >> guard (is_open w.socket) (thrown local_peer_disconnected_message)

-- `!observedPeerId`
abbrev pub is_absent : Option String → Bool
is_absent a = elim (non_empty a) [ none ↦ true | some _ ↦ false ]

unfoldable pub assert_remote_interaction_peer_routing :
    String → Option String → Options → State → SessionRole → Result (Unit {0})
assert_remote_interaction_peer_routing from to opts s recipient_role =
    refuse_if
      (not s.recipient_available
        || is_absent s.observed_peer_id
        || not (is_role s.observed_peer_role recipient_role))
      recipient_message
    >> refuse_if
        (not (str_eq from opts.peer_id)
          || is_text to opts.peer_id
          || is_other to s.observed_peer_id)
        interaction_routing_message

-- The snapshot is active for the permission and has the id of the message; then it is bound to the
-- observed peer.
unfoldable pub assert_authorized_interaction :
    ℕ → Option Snapshot → Permission → String → State → Result (Unit {0})
assert_authorized_interaction now snapshot permission id s =
    refuse_if
      (not (has_active_remote_interaction_authorization now snapshot permission)
        || not (is_text (snapshot_id snapshot) id))
      interaction_authorization_message
    >> refuse_if (not (same_text (snapshot_remote snapshot) s.observed_peer_id))
        interaction_routing_message

-- `assertScreenFrameSendAuthorized` and `assertInputEventSendAuthorized`.
unfoldable pub assert_interaction_send_authorized : ℕ → Body → Options → State → Result (Unit {0})
unfolding assert_remote_interaction_peer_routing assert_authorized_interaction
assert_interaction_send_authorized now (screen_frame id from to _ _ _ _ _ _ _) opts s =
    assert_remote_interaction_peer_routing from to opts s viewer
    >> assert_authorized_interaction now s.host_authorization screen_view id s
assert_interaction_send_authorized now (input_event id from to _ _ _ kind) opts s =
    assert_remote_interaction_peer_routing from to opts s host
    >> assert_authorized_interaction now s.viewer_authorization
        (input_event_required_permission kind) id s
assert_interaction_send_authorized now _ opts s = ok tt

-- `getAuthorizedWindowsScreenCaptureAuthorization`: the snapshot, once every check has passed.
unfoldable pub get_authorized_windows_screen_capture_authorization :
    ℕ → Options → State → Option String → Result (Option Snapshot)
unfolding assert_remote_interaction_peer_routing
get_authorized_windows_screen_capture_authorization now opts s to =
    assert_remote_interaction_peer_routing opts.peer_id to opts s viewer
    >> refuse_if s.host_screen_capture_blocked interaction_authorization_message
    >> refuse_if
        (not (has_active_remote_interaction_authorization now s.host_authorization screen_view))
        interaction_authorization_message
    >> refuse_if (not (same_text (snapshot_remote s.host_authorization) s.observed_peer_id))
        interaction_routing_message
    >> ok s.host_authorization

-- `getAuthorizedWindowsInputAuthorization`, of the input event with these fields.
unfoldable pub get_authorized_windows_input_authorization :
    ℕ → Options → State → String → String → Permission → Result (Option Snapshot)
get_authorized_windows_input_authorization now opts s id from permission =
    refuse_if (not (role_eq opts.role host))
      "Runtime host input application requires an explicit host runtime with a local audit sink"
    >> refuse_if s.host_input_blocked interaction_authorization_message
    >> refuse_if
        (not (has_active_remote_interaction_authorization now s.host_authorization permission)
          || not (is_text (snapshot_id s.host_authorization) id))
        interaction_authorization_message
    >> refuse_if
        (not (same_text (snapshot_remote s.host_authorization) s.observed_peer_id)
          || not (is_text (snapshot_remote s.host_authorization) from))
        interaction_routing_message
    >> ok s.host_authorization
