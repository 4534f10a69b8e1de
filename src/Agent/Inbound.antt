-- ===== src/Agent/Inbound.antt =====
-- apps/agent-shell/src/runtime.ts: the inbound messages that `handleMessage` ignores, one function
-- per test, in the order of the handler.
use winbridge.Base.{
  ℕ, Bool, true, false, not, ◌&&◌, ◌||◌, String, Option, none, some, str_eq, if◌then◌else◌,
}
use winbridge.Protocol.Session.{host, viewer, role_eq, screen_view}
use winbridge.Protocol.Status.{Status, revoked, status_eq}
use winbridge.Protocol.Messages.{
  Body, hello, host_consent_decision, session_authorization_request, session_authorization_decision,
  session_authorization_state, permission_revoked, relay_ready, peer_disconnected, signal,
  screen_frame, input_event, session_control, audit_event, ProtocolEnvelope,
}
use winbridge.Agent.State.{Snapshot, Options, State}
use winbridge.Agent.Gates.{
  is_terminal_authorization_status, is_text, is_role, has_active_remote_interaction_authorization,
  has_active_signal_authorization, input_event_required_permission, same_text,
  signal_payload_authorization_id, snapshot_id, snapshot_remote,
}

abbrev pub is_self_referential_authorization_request : Body → Options → Bool
is_self_referential_authorization_request (session_authorization_request viewer_id _ _) opts =
    str_eq viewer_id opts.peer_id
is_self_referential_authorization_request _ opts = false

abbrev pub is_foreign_relay_ready : Body → Options → Bool
is_foreign_relay_ready (relay_ready peer_id _) opts = not (str_eq peer_id opts.peer_id)
is_foreign_relay_ready _ opts = false

abbrev pub is_self_disconnect_notice : Body → Options → Bool
is_self_disconnect_notice (peer_disconnected peer_id _ _) opts = str_eq peer_id opts.peer_id
is_self_disconnect_notice _ opts = false

abbrev pub is_untrusted_peer_disconnect_notice : Body → Options → State → Bool
is_untrusted_peer_disconnect_notice (peer_disconnected peer_id role _) opts s =
    s.remote_peer_disconnected
    || role_eq role opts.role
    || not (is_text s.observed_peer_id peer_id)
    || not (is_role s.observed_peer_role role)
is_untrusted_peer_disconnect_notice _ opts s = false

abbrev pub is_self_hello_message : Body → Options → Bool
is_self_hello_message (hello peer_id _ _ _ _) opts = str_eq peer_id opts.peer_id
is_self_hello_message _ opts = false

abbrev pub is_same_role_hello_message : Body → Options → Bool
is_same_role_hello_message (hello _ role _ _ _) opts = role_eq role opts.role
is_same_role_hello_message _ opts = false

abbrev pub is_hello_after_remote_peer_disconnect : Body → State → Bool
is_hello_after_remote_peer_disconnect (hello _ _ _ _ _) s = s.remote_peer_disconnected
is_hello_after_remote_peer_disconnect _ s = false

abbrev pub is_misdirected_signal : Body → Options → Bool
is_misdirected_signal (signal from to _) opts =
    not (is_text to opts.peer_id) || str_eq from opts.peer_id
is_misdirected_signal _ opts = false

abbrev pub is_self_authority_workflow_message : Body → Options → Bool
is_self_authority_workflow_message (session_authorization_decision _ host_id _ _ _ _ _) opts =
    str_eq host_id opts.peer_id
is_self_authority_workflow_message (host_consent_decision host_id _ _ _ _) opts =
    str_eq host_id opts.peer_id
is_self_authority_workflow_message (session_authorization_state _ actor _ _ _ _ _) opts =
    str_eq actor opts.peer_id
is_self_authority_workflow_message (session_control _ actor _ _ _) opts = str_eq actor opts.peer_id
is_self_authority_workflow_message (permission_revoked _ actor _ _) opts = str_eq actor opts.peer_id
is_self_authority_workflow_message (audit_event _ actor _ _ _) opts = str_eq actor opts.peer_id
is_self_authority_workflow_message _ opts = false

abbrev pub is_inbound_legacy_host_consent_decision : Body → Bool
is_inbound_legacy_host_consent_decision (host_consent_decision _ _ _ _ _) = true
is_inbound_legacy_host_consent_decision _ = false

abbrev pub is_observed_host_authority : State → String → Bool
is_observed_host_authority s host_peer_id =
    is_role s.observed_peer_role host && is_text s.observed_peer_id host_peer_id

unfoldable pub is_bound_viewer_authorization_authority : Option Snapshot → String → String → Bool
is_bound_viewer_authorization_authority none id actor = false
is_bound_viewer_authorization_authority (some snapshot) id actor =
    str_eq snapshot.authorization_id id && is_text snapshot.authority_peer_id actor

-- What a snapshot's status says, `false` without one.
abbrev pub has_status : Option Snapshot → (Status → Bool) → Bool
has_status none test = false
has_status (some snapshot) test = test snapshot.status

abbrev pub has_bound_viewer_authorization_state_authority : State → String → String → Status → Bool
has_bound_viewer_authorization_state_authority s id actor next =
    is_bound_viewer_authorization_authority s.viewer_authorization id actor
    && has_status s.viewer_authorization
        (λ status. not (is_terminal_authorization_status status) || status_eq status next)

abbrev pub is_terminal_bound_viewer_authorization_decision_replay : State → String → String → Bool
is_terminal_bound_viewer_authorization_decision_replay s id host_peer_id =
    is_bound_viewer_authorization_authority s.viewer_authorization id host_peer_id
    && has_status s.viewer_authorization is_terminal_authorization_status

abbrev pub has_bound_viewer_revocation_authority : State → String → String → Bool
has_bound_viewer_revocation_authority s id actor =
    is_bound_viewer_authorization_authority s.viewer_authorization id actor
    && has_status s.viewer_authorization
        (λ status. not (is_terminal_authorization_status status) || status_eq status revoked)

abbrev pub has_mutable_bound_viewer_control_authority : State → String → String → Bool
has_mutable_bound_viewer_control_authority s id actor =
    is_bound_viewer_authorization_authority s.viewer_authorization id actor
    && has_status s.viewer_authorization (λ status. not (is_terminal_authorization_status status))

-- The `switch`, behind the test of the role.
abbrev pub is_untrusted_lifecycle_message : Body → Options → State → Bool
is_untrusted_lifecycle_message (session_authorization_decision id host_id viewer_id _ _ _ _) opts
      s =
    not (str_eq viewer_id opts.peer_id)
    || not (is_observed_host_authority s host_id)
    || is_terminal_bound_viewer_authorization_decision_replay s id host_id
is_untrusted_lifecycle_message (session_authorization_state id actor status _ _ _ _) opts s =
    not (has_bound_viewer_authorization_state_authority s id actor status)
is_untrusted_lifecycle_message (permission_revoked id actor _ _) opts s =
    not (has_bound_viewer_revocation_authority s id actor)
is_untrusted_lifecycle_message (session_control id actor _ _ _) opts s =
    not (has_mutable_bound_viewer_control_authority s id actor)
is_untrusted_lifecycle_message (audit_event _ actor _ _ _) opts s =
    not (is_observed_host_authority s actor)
is_untrusted_lifecycle_message _ opts s = false

abbrev pub is_untrusted_viewer_authorization_lifecycle_message : Body → Options → State → Bool
is_untrusted_viewer_authorization_lifecycle_message body opts s =
    role_eq opts.role viewer && is_untrusted_lifecycle_message body opts s

abbrev pub is_viewer_authorization_lifecycle_message : Body → Bool
is_viewer_authorization_lifecycle_message (session_authorization_decision _ _ _ _ _ _ _) = true
is_viewer_authorization_lifecycle_message (session_authorization_state _ _ _ _ _ _ _) = true
is_viewer_authorization_lifecycle_message (permission_revoked _ _ _ _) = true
is_viewer_authorization_lifecycle_message (session_control _ _ _ _ _) = true
is_viewer_authorization_lifecycle_message _ = false

abbrev pub is_unbound_host_authorization_request : Body → Options → State → Bool
is_unbound_host_authorization_request (session_authorization_request viewer_id _ _) opts s =
    role_eq opts.role host
    && (not (is_role s.observed_peer_role viewer) || not (is_text s.observed_peer_id viewer_id))
is_unbound_host_authorization_request _ opts s = false

-- The snapshot that a signal is read against.
abbrev pub signal_snapshot : Options → State → Option Snapshot
signal_snapshot opts s =
    if role_eq opts.role host then s.host_authorization else s.viewer_authorization

abbrev pub is_unauthorized_inbound_signal : ℕ → Body → Options → State → Bool
is_unauthorized_inbound_signal now (signal _ _ payload) opts s =
    not (has_active_signal_authorization now (signal_snapshot opts s))
    || not
        (same_text (signal_payload_authorization_id payload) (snapshot_id (signal_snapshot opts s)))
is_unauthorized_inbound_signal now _ opts s = false

-- `toPeerId !== undefined && toPeerId !== options.peerId`
abbrev pub is_for_another : Option String → Options → Bool
is_for_another none opts = false
is_for_another (some to) opts = not (str_eq to opts.peer_id)

abbrev pub is_unauthorized_inbound_remote_interaction : ℕ → Body → Options → State → Bool
is_unauthorized_inbound_remote_interaction now (screen_frame id from to _ _ _ _ _ _ _) opts s =
    not (role_eq opts.role viewer)
    || is_for_another to opts
    || not (is_text s.observed_peer_id from)
    || not (is_role s.observed_peer_role host)
    || not (has_active_remote_interaction_authorization now s.viewer_authorization screen_view)
    || not (is_text (snapshot_id s.viewer_authorization) id)
    || not (is_text (snapshot_remote s.viewer_authorization) from)
is_unauthorized_inbound_remote_interaction now (input_event id from to _ _ _ kind) opts s =
    not (role_eq opts.role host)
    || is_for_another to opts
    || not (is_text s.observed_peer_id from)
    || not (is_role s.observed_peer_role viewer)
    || not (
        has_active_remote_interaction_authorization now s.host_authorization
          (input_event_required_permission kind))
    || not (is_text (snapshot_id s.host_authorization) id)
    || not (is_text (snapshot_remote s.host_authorization) from)
is_unauthorized_inbound_remote_interaction now _ opts s = false

-- The tests in the order of `handleMessage`, on a message that was decoded.
unfoldable pub is_ignored : ℕ → Options → State → ProtocolEnvelope → Bool
is_ignored now opts s envelope =
    let body = envelope.body in
    not (str_eq envelope.session_id opts.session_id)
    || is_self_referential_authorization_request body opts
    || is_foreign_relay_ready body opts
    || is_self_disconnect_notice body opts
    || is_untrusted_peer_disconnect_notice body opts s
    || is_self_hello_message body opts
    || is_same_role_hello_message body opts
    || is_hello_after_remote_peer_disconnect body s
    || is_misdirected_signal body opts
    || is_self_authority_workflow_message body opts
    || is_inbound_legacy_host_consent_decision body
    || is_untrusted_viewer_authorization_lifecycle_message body opts s
    || is_unbound_host_authorization_request body opts s
    || is_unauthorized_inbound_signal now body opts s
    || is_unauthorized_inbound_remote_interaction now body opts s
