-- ===== src/Agent/Steps.antt =====
-- apps/agent-shell/src/runtime.ts: the steps of a runtime, one for each callback and each control
-- that a caller may use between two turns of the event loop, and runs of them in any order.
pub mod Answers
pub mod Receipts
pub mod Safety
use winbridge.Base.{
  ℕ, Bool, false, true, String, List, [], ◌∷◌, Option, none, some, Result, if◌then◌else◌,
}
use winbridge.Protocol.Session.{Permission}
use winbridge.Protocol.Messages.{Body, ProtocolEnvelope}
use winbridge.Agent.State.{HostDecision, Options, Timer, State, Workflow, World}
use winbridge.Agent.Gates.{reset_connection_scoped_session_state}
use winbridge.Agent.Send.{
  send_public_runtime_message, ScreenFrameInput, send_development_screen_frame, InputEventInput,
  send_development_input_event,
}
use winbridge.Agent.Controls.{pause, resume, terminate, revoke_permission, disconnect}
use winbridge.Agent.Timers.{run_timer}
use winbridge.Agent.Decision.{handle_host_authorization_request}
use winbridge.Agent.Handler.{
  handle_message, InputResult, finish_input, dispatch_message, on_close, stop_runtime, leave,
}

pub data Step : Type 0 where
  starts stops leaves disconnects pauses resumes terminates : Step
  closes : (suppressed : Bool) → Step
  receives : Option ProtocolEnvelope → Step
  applies_input : Body → Result InputResult → Step
  decides : (viewer_peer_id : String) (requested : List Permission) → HostDecision → Step
  fires : Timer → Step
  revokes : Permission → Step
  sends : (session_id : String) → Body → Step
  sends_screen_frame : ScreenFrameInput → Step
  sends_input_event : InputEventInput → Step

unfoldable pub run_step : World → Options → Step → State → State
unfolding pause resume terminate revoke_permission disconnect run_timer
    handle_host_authorization_request handle_message finish_input dispatch_message on_close
    stop_runtime leave send_public_runtime_message send_development_screen_frame
    send_development_input_event reset_connection_scoped_session_state
run_step w opts starts s = reset_connection_scoped_session_state s
run_step w opts stops s = stop_runtime w opts s
run_step w opts leaves s = (leave w opts s).0
run_step w opts disconnects s = (disconnect w opts s).0
run_step w opts pauses s = (pause w opts s).0
run_step w opts resumes s = (resume w opts s).0
run_step w opts terminates s = (terminate w opts s).0
run_step w opts (closes suppressed) s = on_close w opts suppressed s
run_step w opts (receives message) s = (handle_message w opts message s).0
run_step w opts (applies_input body result) s =
    if finish_input w opts body result s then (dispatch_message w opts body s).0 else s
run_step w opts (decides viewer_id requested decision) s =
    (handle_host_authorization_request w opts viewer_id requested decision s).0
run_step w opts (fires timer) s = (run_timer w opts timer s).0
run_step w opts (revokes p) s = (revoke_permission w opts p s).0
run_step w opts (sends session_id body) s = (send_public_runtime_message w opts session_id body s).0
run_step w opts (sends_screen_frame input) s = (send_development_screen_frame w opts input s).0
run_step w opts (sends_input_event input) s = (send_development_input_event w opts input s).0

-- Each step has the world of its own moment.
unfoldable pub run : Options → List (World × Step) → State → State
unfolding run_step
run opts [] s = s
run opts ((w, step) ∷ steps) s = run opts steps (run_step w opts step s)

-- The state that `createAgentShellRuntime` begins with. The store holds no workflow yet.
abbrev pub initial : State
initial = record {
  local_peer_disconnected = false;
  remote_peer_disconnected = false;
  remote_disconnect_reason_code = none;
  recipient_available = false;
  observed_peer_id = none;
  observed_peer_role = none;
  observed_peer_display_name = none;
  observed_peer_device_identity = none;
  local_device_identity = none;
  hello_sent = false;
  viewer_authorization_request_sent = false;
  host_authorization = none;
  host_workflow_state = none;
  viewer_authorization = none;
  viewer_local_inactive_cause = none;
  viewer_signal_probe_authorization_id = none;
  viewer_signal_probe_ack_authorization_id = none;
  viewer_signal_probe_generation = 0;
  host_signal_probe_ack_authorization_id = none;
  host_indicator = none;
  host_screen_capture_blocked = true;
  host_input_blocked = true;
  workflows = λ r. record { terminal_status = none; paused = false; permissions = [] };
  next_workflow = 0;
  timers = [];
  sent = [];
  applied = [];
}
