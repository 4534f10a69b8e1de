-- ===== src/Agent/Send.antt =====
-- apps/agent-shell/src/runtime.ts: what the runtime sends.
pub mod Allowed
pub mod Interaction
pub mod Routing
use winbridge.Base.{
  ◌≡◌, ◌⊎◌, refl, inl, inr, ℕ, ◌+◌, Bool, true, false, not, ◌&&◌, ◌||◌, String, List, [], ◌∷◌, ◌++◌,
  Option, none, some, Result, ok, err, thrown, Failure, guard, str_eq, non_empty, if◌then◌else◌,
}
use winbridge.Base.Machine.{Machine, ◌>>=◌, ◌>>◌, pure, throw, lift, get, modify, when, try_catch}
use winbridge.Protocol.Session.{SessionRole, host, viewer, role_eq, Permission, screen_view}
use winbridge.Protocol.Messages.{
  Body, hello, session_authorization_request, signal, screen_frame, input_event, audit_event,
  ProtocolEnvelope, AuditOutcome, InputKind, ImageFormat, Entries, end, entry, property, Json, str,
}
use winbridge.Agent.State.{Snapshot, Options, State, World, Timer, signal_probe}
use winbridge.Agent.Gates.{
  is_text, is_role, same_text, has_active_signal_authorization, signal_payload_authorization_id,
  snapshot_id, snapshot_remote, text_of,
}
use winbridge.Agent.Checks.{
  is_open, outcome, refuse_if, check_public_send, assert_interaction_send_authorized,
  assert_remote_interaction_socket_ready,
}

abbrev pub M : Type 0 → Type 0
M A = Machine State A

-- What the socket has taken.
abbrev pub push : Body → State → State
push body s = record s { sent = body ∷ s.sent }

-- `sendProtocol`. The check of the message against its schema and the socket's `send` may both
-- throw; the report of the event may not. The fields of `createMessageBase` are left out.
unfoldable pub send_protocol : World → Body → M (Unit {0})
send_protocol w body =
    lift (guard (is_open w.socket) (thrown "Agent shell socket is not open"))
    >> lift (outcome (w.schema_failure body))
    >> lift (outcome (w.send_failure body))
    >> modify (push body)

-- Three checks, and then a change.
checked-cases :
    (a b c : Result Unit) (f : State → State) (s : State)
    → let r = (lift a >> lift b >> lift c >> modify f) s in
      ((e : Failure) × (r ≡ (s, err e))) ⊎ (r ≡ (f s, ok tt))
checked-cases (err e) b c f s = inl (e, refl)
checked-cases (ok _) (err e) c f s = inl (e, refl)
checked-cases (ok _) (ok _) (err e) f s = inl (e, refl)
checked-cases (ok _) (ok _) (ok _) f s = inr refl

-- It throws and changes nothing, or the socket has taken the message.
pub send_protocol-cases :
    (w : World) (body : Body) (s : State)
    → ((e : Failure) × (send_protocol w body s ≡ (s, err e)))
      ⊎ (send_protocol w body s ≡ (push body s, ok tt))
unfolding send_protocol
send_protocol-cases w body s =
    checked-cases (guard (is_open w.socket) (thrown "Agent shell socket is not open"))
      (outcome (w.schema_failure body)) (outcome (w.send_failure body)) (push body) s

unfoldable pub prepare_development_audit_event : World → Options → String → AuditOutcome → M Body
prepare_development_audit_event w opts action result =
    lift (outcome (w.audit_failure action))
    >> pure (audit_event w.audit_event_id opts.peer_id action result (w.audit_detail action))

unfoldable pub send_public_runtime_message : World → Options → String → Body → M (Unit {0})
unfolding check_public_send send_protocol
send_public_runtime_message w opts session_id body s =
    (lift (check_public_send w opts s session_id body) >> send_protocol w body) s

-- `sendHelloOnce`
unfoldable pub send_hello_once : World → Options → M (Unit {0})
unfolding send_protocol
send_hello_once w opts s =
    when (not (s.hello_sent || s.remote_peer_disconnected))
      (send_protocol w (
          hello opts.peer_id opts.role opts.display_name
            ("session:visible" ∷ "consent:required" ∷ "audit:stdout" ∷ []) s.local_device_identity)
        >> modify (λ t. record t { hello_sent = true }))
      s

abbrev pub has_requests : List Permission → Bool
has_requests [] = false
has_requests (_ ∷ _) = true

unfoldable pub send_viewer_authorization_request : World → Options → M (Unit {0})
unfolding send_protocol
send_viewer_authorization_request w opts = when (has_requests opts.requested_permissions) (
    send_protocol w
      (session_authorization_request opts.peer_id opts.requested_permissions opts.request_reason))

unfoldable pub send_viewer_authorization_request_once : World → Options → M (Unit {0})
unfolding send_viewer_authorization_request
send_viewer_authorization_request_once w opts s =
    when
      (role_eq opts.role viewer
        && not s.viewer_authorization_request_sent
        && is_role s.observed_peer_role host)
      (send_viewer_authorization_request w opts
        >> modify (λ t. record t { viewer_authorization_request_sent = true }))
      s

-- The payload of a probe, and of its acknowledgement.
abbrev pub probe_payload : String → String → String → String → Entries
probe_payload kind id marker_key marker =
    entry "kind" (str kind) (entry "authorizationId" (str id) (entry marker_key (str marker) end))

unfoldable pub invalidate_viewer_signal_probe : State → State
invalidate_viewer_signal_probe s = record s {
  viewer_signal_probe_generation = s.viewer_signal_probe_generation + 1;
  viewer_signal_probe_ack_authorization_id = none;
}

unfoldable pub schedule_viewer_signal_probe : World → Options → State → State
schedule_viewer_signal_probe w opts s = elim opts.viewer_signal_probe_after_ms [
  | none ↦ s
  | some delay_ms ↦ elim s.viewer_authorization [
    | none ↦ s
    | some snapshot ↦
        if not (role_eq opts.role viewer)
          || not (has_active_signal_authorization w.now s.viewer_authorization)
          || is_text s.viewer_signal_probe_authorization_id snapshot.authorization_id
        then s
        else record s {
          viewer_signal_probe_authorization_id = some snapshot.authorization_id;
          timers =
              (
                delay_ms,
                signal_probe s.viewer_signal_probe_generation snapshot.authorization_id
                    snapshot.remote_peer_id,
              )
              ∷ s.timers;
        }
  ]
]

unfoldable pub send_viewer_signal_probe : World → Options → String → Option String → M (Unit {0})
unfolding send_public_runtime_message
send_viewer_signal_probe w opts id remote = send_public_runtime_message w opts opts.session_id (
    signal opts.peer_id remote
      (probe_payload "viewer-signal-probe" id "probe" "viewer-signal-probe-v1"))

-- `payload[key] === marker`
abbrev pub has_marker : String → String → Entries → Bool
has_marker key marker payload = is_text (text_of (property key payload)) marker

abbrev pub should_acknowledge : World → Options → State → String → String → Entries → Bool
should_acknowledge w opts s id from payload =
    opts.host_signal_probe_ack
    && role_eq opts.role host
    && has_marker "probe" "viewer-signal-probe-v1" payload
    && has_active_signal_authorization w.now s.host_authorization
    && is_text (snapshot_remote s.host_authorization) from
    && not (is_text s.host_signal_probe_ack_authorization_id id)

abbrev pub acknowledgement : Options → State → String → Body
acknowledgement opts s id =
    signal opts.peer_id (snapshot_remote s.host_authorization)
      (probe_payload "host-signal-probe-ack" id "probeAck" "host-signal-probe-ack-v1")

unfoldable pub send_host_signal_probe_ack : World → Options → Body → M (Unit {0})
unfolding send_public_runtime_message
send_host_signal_probe_ack w opts (signal from _ payload) s =
    elim (non_empty (signal_payload_authorization_id payload)) [
      | none ↦ (s, ok tt)
      | some id ↦
          when (should_acknowledge w opts s id from payload)
            (send_public_runtime_message w opts opts.session_id (acknowledgement opts s id)
              >> modify (λ t. record t { host_signal_probe_ack_authorization_id = some id }))
            s
    ]
send_host_signal_probe_ack w opts _ s = (s, ok tt)

unfoldable pub record_viewer_signal_probe_ack : World → Options → State → Body → State
record_viewer_signal_probe_ack w opts s (signal from _ payload) =
    elim (non_empty (signal_payload_authorization_id payload)) [
      | none ↦ s
      | some id ↦
          if role_eq opts.role viewer
            && has_marker "probeAck" "host-signal-probe-ack-v1" payload
            && has_active_signal_authorization w.now s.viewer_authorization
            && is_text (snapshot_id s.viewer_authorization) id
            && is_text (snapshot_remote s.viewer_authorization) from
          then record s { viewer_signal_probe_ack_authorization_id = some id }
          else s
    ]
record_viewer_signal_probe_ack w opts s _ = s

-- `toPeerId ?? observedPeerId`, left out where it is empty.
abbrev pub addressee : Option String → State → Option String
addressee none s = non_empty s.observed_peer_id
addressee (some to) s = non_empty (some to)

abbrev pub sanitized : Result (Unit {0}) → Result (Unit {0})
sanitized (ok u) = ok u
sanitized (err e) = err (thrown "Agent shell runtime error")

-- `sendAuditedRemoteInteraction`: the record of the audit comes before the socket.
abbrev pub send_audited_remote_interaction : World → String → Body → M (Unit {0})
send_audited_remote_interaction w action body =
    lift (sanitized (outcome (w.audit_failure action)))
    >> lift (sanitized (outcome (w.send_failure body)))
    >> modify (push body)

abbrev pub parse_remote_interaction_message : World → Body → Result (Unit {0})
parse_remote_interaction_message w body = elim (w.schema_failure body) [
  | none ↦ ok tt
  | some e ↦ err (thrown "Agent shell remote interaction message is invalid")
]

-- What `sendScreenFrame` and `sendInputEvent` share, behind the test of the role.
unfoldable pub send_remote_interaction : World → Options → String → Body → M (Unit {0})
unfolding assert_interaction_send_authorized
send_remote_interaction w opts action body s =
    (lift (assert_remote_interaction_socket_ready w s)
        >> lift (parse_remote_interaction_message w body)
        >> lift (assert_interaction_send_authorized w.now body opts s)
        >> send_audited_remote_interaction w action body)
      s

-- `AgentShellScreenFrameInput` and `AgentShellInputEventInput`, with the default of the time.
pub record ScreenFrameInput : Type 0 where
  pub authorization_id : String
  pub to_peer_id : Option String
  pub frame_id : String
  pub sequence : ℕ
  pub captured_at : ℕ
  pub format : ImageFormat
  pub width : ℕ
  pub height : ℕ
  pub data_base64 : String

pub record InputEventInput : Type 0 where
  pub authorization_id : String
  pub to_peer_id : Option String
  pub event_id : String
  pub sequence : ℕ
  pub occurred_at : ℕ
  pub event : InputKind

abbrev pub screen_frame_of : Options → ScreenFrameInput → State → Body
screen_frame_of opts input s =
    screen_frame input.authorization_id opts.peer_id (addressee input.to_peer_id s) input.frame_id
      input.sequence input.captured_at input.format input.width input.height input.data_base64

abbrev pub input_event_of : Options → InputEventInput → State → Body
input_event_of opts input s =
    input_event input.authorization_id opts.peer_id (addressee input.to_peer_id s) input.event_id
      input.sequence input.occurred_at input.event

unfoldable pub send_development_screen_frame : World → Options → ScreenFrameInput → M (Unit {0})
unfolding send_remote_interaction
send_development_screen_frame w opts input s =
    (lift (
          guard (role_eq opts.role host)
            (thrown "Agent shell screen-frame send is only valid for host runtimes"))
        >> send_remote_interaction w opts "agent-shell.remote-interaction.screen-frame.sent"
            (screen_frame_of opts input s))
      s

unfoldable pub send_development_input_event : World → Options → InputEventInput → M (Unit {0})
unfolding send_remote_interaction
send_development_input_event w opts input s =
    (lift (
          guard (role_eq opts.role viewer)
            (thrown "Agent shell input-event send is only valid for viewer runtimes"))
        >> send_remote_interaction w opts "agent-shell.remote-interaction.input-event.sent"
            (input_event_of opts input s))
      s
