-- ===== src/Tests/Agent.antt =====
-- The agent shell's runtime on concrete sessions.
use winbridge.Base.{◌≡◌, ◌⊎◌, refl, true, false, List, [], ◌∷◌, none, some, ok, err, Failure}
use winbridge.Protocol.Session.{host, viewer, screen_view, input_pointer, includes_permission}
use winbridge.Protocol.Status.{Status}
use winbridge.Protocol.Messages.{
  Body, hello, session_authorization_request, session_authorization_state, input_event,
  screen_frame, ProtocolEnvelope, InputKind, ImageFormat, end,
}
use winbridge.Agent.State.{Snapshot, Options, State, World, approve}
use winbridge.Agent.Send.{
  push, send_public_runtime_message, InputEventInput, send_development_input_event,
  ScreenFrameInput, send_development_screen_frame,
}
use winbridge.Agent.Gates.{is_terminal_authorization_status, input_event_required_permission}
use winbridge.Agent.Send.Allowed.{IsSendable, send-IsSendable}
use winbridge.Agent.Send.Interaction.{Interacts, input_event-Interacts, screen_frame-Interacts}
use winbridge.Agent.Viewer.{update_viewer_authorization_state, revoked_list}
use winbridge.Agent.Viewer.Revoked.{update-revoked_for_good}
use winbridge.Agent.Host.{
  pause_host_authorization, resume_host_authorization, terminate_host_authorization,
}
use winbridge.Agent.Host.Safety.{IsSafe}
use winbridge.Agent.Agreement.{Agrees, Follows, pause-InStep, resume-InStep, terminate-InStep}
use winbridge.Agent.Steps.{Step, receives, decides, pauses, resumes, run, initial}
use winbridge.Agent.Steps.Safety.{run-IsSafe}

abbrev host_options : Options
host_options = record {
  role = host;
  session_id = "session_1";
  peer_id = "host_1";
  display_name = "Host";
  requested_permissions = [];
  request_reason = none;
  host_grant_permissions = none;
  visible_to_host = true;
  decision_reason = none;
  authorization_ttl_ms = some 1000;
  host_revoke_after_ms = none;
  host_revoke_permission = none;
  host_revoke_reason = none;
  host_pause_after_ms = none;
  host_pause_reason = none;
  host_resume_after_ms = none;
  host_resume_reason = none;
  host_terminate_after_ms = none;
  host_terminate_reason = none;
  host_disconnect_after_ms = none;
  host_signal_probe_ack = false;
  host_apply_input = true;
  viewer_signal_probe_after_ms = none;
  has_audit_sink = true;
}

abbrev viewer_options : Options
viewer_options = record host_options {
  role = viewer;
  peer_id = "viewer_1";
  requested_permissions = screen_view ∷ [];
}

abbrev world : World
world = record {
  now = 100;
  socket = some true;
  schema_failure = λ b. none;
  send_failure = λ b. none;
  event_failure = λ i. none;
  audit_failure = λ action. none;
  frame_failure = λ b. none;
  authorization_id = "authz_1";
  audit_event_id = "audit_1";
  audit_detail = λ action. end;
}

abbrev granted : Snapshot
granted = record {
  authorization_id = "authz_1";
  authority_peer_id = none;
  remote_peer_id = some "viewer_1";
  viewer_device_identity = none;
  status = Status.active;
  visible_to_host = true;
  permissions = screen_view ∷ input_pointer ∷ [];
  revoked_permissions = none;
  expires_at = some 1000;
}

abbrev active_host : State
active_host = record initial {
  recipient_available = true;
  observed_peer_id = some "viewer_1";
  observed_peer_role = some viewer;
  host_authorization = some granted;
  host_workflow_state = some 0;
  host_screen_capture_blocked = false;
  host_input_blocked = false;
  workflows = λ r. record {
    terminal_status = none;
    paused = false;
    permissions = screen_view ∷ input_pointer ∷ [];
  };
  next_workflow = 1;
}

abbrev seen : Snapshot
seen = record granted { authority_peer_id = some "host_1"; remote_peer_id = some "host_1" }

abbrev active_viewer : State
active_viewer = record initial {
  recipient_available = true;
  observed_peer_id = some "host_1";
  observed_peer_role = some host;
  viewer_authorization = some seen;
}

abbrev envelope : Body → ProtocolEnvelope
envelope body = record {
  message_id = "message_1";
  session_id = "session_1";
  created_at = 90;
  body = body;
}

abbrev session_steps : List (World × Step)
session_steps =
    (world, receives (some (envelope (hello "viewer_1" viewer "Viewer" [] none))))
    ∷ (world, decides "viewer_1" (screen_view ∷ []) approve)
    ∷ (world, pauses)
    ∷ (world, resumes)
    ∷ []

run-IsSafe_example : IsSafe (run host_options session_steps initial)
run-IsSafe_example = run-IsSafe host_options session_steps refl

abbrev half_revoked : Snapshot
half_revoked = record seen {
  permissions = input_pointer ∷ [];
  revoked_permissions = some (screen_view ∷ []);
}

abbrev half_viewer : State
half_viewer = record active_viewer { viewer_authorization = some half_revoked }

abbrev granting : Body
granting =
    session_authorization_state "authz_1" "host_1" Status.active true
      (screen_view ∷ input_pointer ∷ []) 1000 none

update-revoked_for_good_example :
    (includes_permission (revoked_list half_revoked) screen_view ≡ true)
    × (includes_permission half_revoked.permissions screen_view ≡ false)
unfolding update_viewer_authorization_state
    winbridge.Agent.Inbound.is_bound_viewer_authorization_authority
    winbridge.Agent.Gates.is_terminal_authorization_status
    winbridge.Agent.Viewer.apply_viewer_authorization_revocation_floor
    winbridge.Agent.Viewer.viewer_revoked_permissions_for_authorization
update-revoked_for_good_example =
    update-revoked_for_good viewer_options half_viewer granting half_revoked half_revoked
      screen_view refl refl (refl, tt) refl refl refl

send-IsSendable_example :
    let body = session_authorization_request "viewer_1" (screen_view ∷ []) none in
    let r = send_public_runtime_message world viewer_options "session_1" body active_viewer in
    (IsSendable world viewer_options active_viewer "session_1" body
      × (r ≡ (push body active_viewer, ok tt)))
    ⊎ ((¬ IsSendable world viewer_options active_viewer "session_1" body)
        × (e : Failure) × (r ≡ (active_viewer, err e)))
send-IsSendable_example =
    send-IsSendable world viewer_options active_viewer "session_1"
      (session_authorization_request "viewer_1" (screen_view ∷ []) none)

abbrev moved : InputEventInput
moved = record {
  authorization_id = "authz_1";
  to_peer_id = none;
  event_id = "event_1";
  sequence = 1;
  occurred_at = 95;
  event = InputKind.pointer_move;
}

input_event-Interacts_example :
    let r = send_development_input_event world viewer_options moved active_viewer in
    let body =
      input_event "authz_1" "viewer_1" (some "host_1") "event_1" 1 95 InputKind.pointer_move in
    let Allowed =
      (viewer_options.role ≡ viewer)
      × Interacts world viewer_options active_viewer none
          (some "host_1")
          host
          (some seen)
          input_pointer
          "authz_1"
          "agent-shell.remote-interaction.input-event.sent"
          body in
    (Allowed × (r ≡ (push body active_viewer, ok tt)))
    ⊎ ((¬ Allowed) × (e : Failure) × (r ≡ (active_viewer, err e)))
input_event-Interacts_example = input_event-Interacts world viewer_options moved active_viewer

abbrev frame : ScreenFrameInput
frame = record {
  authorization_id = "authz_1";
  to_peer_id = none;
  frame_id = "frame_1";
  sequence = 1;
  captured_at = 95;
  format = ImageFormat.png;
  width = 2;
  height = 2;
  data_base64 = "AAAA";
}

screen_frame-Interacts_example :
    let r = send_development_screen_frame world host_options frame active_host in
    let body =
      screen_frame "authz_1" "host_1" (some "viewer_1") "frame_1" 1 95 ImageFormat.png 2 2 "AAAA" in
    let Allowed =
      (host_options.role ≡ host)
      × Interacts world host_options active_host none
          (some "viewer_1")
          viewer
          (some granted)
          screen_view
          "authz_1"
          "agent-shell.remote-interaction.screen-frame.sent"
          body in
    (Allowed × (r ≡ (push body active_host, ok tt)))
    ⊎ ((¬ Allowed) × (e : Failure) × (r ≡ (active_host, err e)))
screen_frame-Interacts_example = screen_frame-Interacts world host_options frame active_host

follows : Follows "authz_1" "host_1" (screen_view ∷ input_pointer ∷ []) seen
unfolding is_terminal_authorization_status
follows = record { same_id = refl; by_host = refl; is_open = refl; unrevoked = (refl, (refl, tt)) }

ended : Follows "authz_1" "host_1" [] seen
unfolding is_terminal_authorization_status
ended = record { same_id = refl; by_host = refl; is_open = refl; unrevoked = tt }

pause-InStep_example :
    Agrees viewer_options "host_1" active_host
      (pause_host_authorization world host_options "authz_1" 1000 0 "Pause" active_host).0
      active_viewer
unfolding pause_host_authorization winbridge.Agent.Indicator.is_same_host_indicator
pause-InStep_example =
    pause-InStep world host_options viewer_options "authz_1" "Pause" 1000 0 active_host
      active_viewer seen refl refl follows refl

abbrev paused_host : State
paused_host = (pause_host_authorization world host_options "authz_1" 1000 0 "Pause" active_host).0

resume-InStep_example :
    Agrees viewer_options "host_1" paused_host
      (resume_host_authorization world host_options "authz_1" 1000 0 "Resume" paused_host).0
      active_viewer
unfolding pause_host_authorization resume_host_authorization
    winbridge.Agent.Indicator.is_same_host_indicator
resume-InStep_example =
    resume-InStep world host_options viewer_options "authz_1" "Resume" 1000 0 paused_host
      active_viewer seen refl refl follows refl

terminate-InStep_example :
    Agrees viewer_options "host_1" active_host
      (terminate_host_authorization world host_options "authz_1" 1000 0 "End" active_host).0
      active_viewer
unfolding terminate_host_authorization winbridge.Agent.Indicator.is_same_host_indicator
terminate-InStep_example =
    terminate-InStep world host_options viewer_options "authz_1" "End" 1000 0 active_host
      active_viewer seen refl refl ended refl
