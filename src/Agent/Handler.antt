-- ===== src/Agent/Handler.antt =====
-- apps/agent-shell/src/runtime.ts: `handleMessage`, and the steps that a runtime takes. The handler
-- awaits twice, for the native input and for the host's decision; it is split there, so that other
-- steps may come between.
pub mod Authority
use winbridge.Base.{
  ℕ, ◌+◌, Bool, true, false, not, ◌&&◌, ◌||◌, String, List, [], ◌∷◌, Option, none, some, Result, ok,
  err, thrown, Failure, leb, str_eq, if◌then◌else◌,
}
use winbridge.Base.Machine.{◌>>=◌, ◌>>◌, pure, lift, get, modify, when}
use winbridge.Protocol.Session.{host, viewer, role_eq, Permission}
use winbridge.Protocol.Messages.{
  Body, hello, session_authorization_request, session_authorization_state, relay_ready,
  peer_disconnected, screen_frame, input_event, signal, InputKind, ProtocolEnvelope,
}
use winbridge.Agent.State.{
  Snapshot, HostDecision, Options, Timer, State, World, Cause, LocalInactiveCause,
}
use winbridge.Agent.Gates.{
  block_host, has_active_signal_authorization, input_event_required_permission,
  reset_connection_scoped_session_state,
}
use winbridge.Agent.Inbound.{is_ignored, is_viewer_authorization_lifecycle_message}
use winbridge.Agent.Viewer.{update_viewer_authorization_state, record_viewer_socket_closed_status}
use winbridge.Agent.Checks.{outcome, get_authorized_windows_input_authorization}
use winbridge.Agent.Send.{
  M, send_hello_once, send_viewer_authorization_request_once, invalidate_viewer_signal_probe,
  schedule_viewer_signal_probe, send_host_signal_probe_ack, record_viewer_signal_probe_ack,
}
use winbridge.Agent.Indicator.{deactivate_host_indicator_best_effort}

-- What a message has led to when the handler stops or awaits: it was ignored; it failed and was
-- reported; it goes on at once; or it waits for the native input.
pub data Stage : Type 0 where
  ignored failed goes_on awaits_input : Stage

abbrev pub block_on_disconnect : Body → State → State
block_on_disconnect (peer_disconnected _ _ _) s = block_host s
block_on_disconnect _ s = s

-- `persistInboundScreenFrameOutput`: its sink and the two audit records are one outside call.
abbrev pub persist_inbound_screen_frame_output : World → Body → Result (Unit {0})
persist_inbound_screen_frame_output w (screen_frame id from to frame sequence at format x y bytes) =
    outcome (w.frame_failure (screen_frame id from to frame sequence at format x y bytes))
persist_inbound_screen_frame_output w _ = ok tt

abbrev pub requested_action : String
requested_action = "agent-shell.remote-interaction.input-event.application-requested"

abbrev pub applied_action : String
applied_action = "agent-shell.remote-interaction.input-event.applied"

abbrev pub hand_over : Option Snapshot → Body → State → State
hand_over none body s = s
hand_over (some snapshot) body s = record s { applied = (snapshot, body) ∷ s.applied }

-- The checks before a native input, in order: whether the host applies inputs, whether it has an
-- audit sink, the authorization, and the record of the audit.
abbrev pub stage_input :
    Bool
    → Bool
    → Result (Option Snapshot)
    → Option Failure
    → (Option Snapshot → State)
    → State
    → State × Stage
stage_input false has_sink got audit f s = (s, goes_on)
stage_input true false got audit f s = (s, failed)
stage_input true true (err e) audit f s = (s, failed)
stage_input true true (ok snapshot) (some e) f s = (s, failed)
stage_input true true (ok snapshot) none f s = (f snapshot, awaits_input)

-- `applyInboundWindowsInput`, up to the call of the native adapter. The session's state has an adapter
-- from its start on, exactly where `hostApplyInput` is true, and nothing takes it away: the test of
-- `windowsInputAdapter` passes wherever it is reached.
unfoldable pub apply_inbound_windows_input : World → Options → Body → State → State × Stage
unfolding get_authorized_windows_input_authorization
apply_inbound_windows_input w opts (input_event id from to event sequence at kind) s =
    stage_input opts.host_apply_input opts.has_audit_sink
      (get_authorized_windows_input_authorization w.now opts s id from
        (input_event_required_permission kind))
      (w.audit_failure requested_action)
      (λ snapshot. hand_over snapshot (input_event id from to event sequence at kind) s) s
apply_inbound_windows_input w opts _ s = (s, goes_on)

-- The handler up to the native input, on a message that was decoded.
unfoldable pub start_message : World → Options → ProtocolEnvelope → State → State × Stage
unfolding is_ignored apply_inbound_windows_input
start_message w opts envelope s =
    if is_ignored w.now opts s envelope
    then (s, ignored)
    else let t = block_on_disconnect envelope.body s in
      elim (persist_inbound_screen_frame_output w envelope.body) [
        | err e ↦ (t, failed)
        | ok u ↦ apply_inbound_windows_input w opts envelope.body t
      ]

-- `WindowsInputApplicationResult`
pub record InputResult : Type 0 where
  pub authorization_id : String
  pub event_id : String
  pub input_kind : InputKind

abbrev pub kind_eq : InputKind → InputKind → Bool
kind_eq InputKind.pointer_move InputKind.pointer_move = true
kind_eq InputKind.pointer_down InputKind.pointer_down = true
kind_eq InputKind.pointer_up InputKind.pointer_up = true
kind_eq InputKind.pointer_wheel InputKind.pointer_wheel = true
kind_eq InputKind.key_down InputKind.key_down = true
kind_eq InputKind.key_up InputKind.key_up = true
kind_eq _ _ = false

-- What follows the native input: whether the handler goes on. The authorization is read again.
unfoldable pub finish_input : World → Options → Body → Result InputResult → State → Bool
unfolding get_authorized_windows_input_authorization
finish_input w opts (input_event id from to event sequence at kind) (ok result) s =
    elim (get_authorized_windows_input_authorization w.now opts s id from
      (input_event_required_permission kind)) [
        | err e ↦ false
        | ok snapshot ↦
            str_eq result.authorization_id id
            && str_eq result.event_id event
            && kind_eq result.input_kind kind
            && elim (w.audit_failure applied_action) [ none ↦ true | some _ ↦ false ]
      ]
finish_input w opts _ _ s = false

-- The last half, in the order of the handler.
unfoldable pub forget_peer : World → Options → Body → State → State
unfolding invalidate_viewer_signal_probe deactivate_host_indicator_best_effort
forget_peer w opts (peer_disconnected _ _ reason_code) s =
    deactivate_host_indicator_best_effort w opts Cause.peer_disconnected
      (record (invalidate_viewer_signal_probe (record s {
        remote_peer_disconnected = true;
        remote_disconnect_reason_code = some reason_code;
      })) {
        recipient_available = false;
        observed_peer_id = none;
        observed_peer_role = none;
        observed_peer_display_name = none;
        observed_peer_device_identity = none;
      })
forget_peer w opts _ s = s

unfoldable pub meet_peer : World → Options → Body → M (Unit {0})
unfolding send_hello_once send_viewer_authorization_request_once schedule_viewer_signal_probe
meet_peer w opts (session_authorization_state _ _ _ _ _ _ _) s =
    (schedule_viewer_signal_probe w opts s, ok tt)
meet_peer w opts (relay_ready _ room_size) s =
    when (leb 2 room_size)
      (modify (λ t. record t { recipient_available = true }) >> send_hello_once w opts) s
meet_peer w opts (hello peer_id role display_name _ identity) s =
    (modify (λ t. record t {
      recipient_available = true;
      observed_peer_id = some peer_id;
      observed_peer_role = some role;
      observed_peer_display_name = some display_name;
      observed_peer_device_identity = identity;
    })
        >> send_hello_once w opts
        >> send_viewer_authorization_request_once w opts)
      s
meet_peer w opts _ s = (s, ok tt)

-- `isViewerAuthorizationLifecycleMessage(envelope) && !hasActiveSignalAuthorization(...)`
unfoldable pub drop_stale_probe : World → Body → State → State
unfolding invalidate_viewer_signal_probe
drop_stale_probe w body s =
    if is_viewer_authorization_lifecycle_message body
      && not (has_active_signal_authorization w.now s.viewer_authorization)
    then invalidate_viewer_signal_probe s
    else s

-- From the update of the viewer's authorization to the host's decision, which `decide` of the steps
-- below takes up. What it throws is reported and dropped.
unfoldable pub dispatch_message : World → Options → Body → M (Unit {0})
unfolding update_viewer_authorization_state record_viewer_signal_probe_ack
    send_host_signal_probe_ack drop_stale_probe forget_peer meet_peer
dispatch_message w opts body =
    modify (λ s. update_viewer_authorization_state opts s body)
    >> modify (λ s. record_viewer_signal_probe_ack w opts s body)
    >> send_host_signal_probe_ack w opts body
    >> modify (drop_stale_probe w body)
    >> modify (forget_peer w opts body)
    >> meet_peer w opts body

abbrev pub go_on : World → Options → Body → State × Stage → State × Stage
go_on w opts body (s, goes_on) = ((dispatch_message w opts body s).0, goes_on)
go_on w opts body r = r

-- The whole handler for a message that does not await: any but a native input. A text that does not
-- decode, `none`, is ignored.
unfoldable pub handle_message : World → Options → Option ProtocolEnvelope → State → State × Stage
unfolding start_message dispatch_message
handle_message w opts none s = (s, ignored)
handle_message w opts (some envelope) s =
    go_on w opts envelope.body (start_message w opts envelope s)

-- The socket has closed.
unfoldable pub on_close : World → Options → Bool → State → State
unfolding invalidate_viewer_signal_probe record_viewer_socket_closed_status
    deactivate_host_indicator_best_effort
on_close w opts suppressed s = deactivate_host_indicator_best_effort w opts Cause.socket_closed (
    record_viewer_socket_closed_status opts
      (invalidate_viewer_signal_probe (record (block_host s) { local_peer_disconnected = true }))
      suppressed)

-- `stopRuntime`, without the wait for the socket: its timers are cleared.
unfoldable pub stop_runtime : World → Options → State → State
unfolding deactivate_host_indicator_best_effort reset_connection_scoped_session_state
stop_runtime w opts s = reset_connection_scoped_session_state (
    deactivate_host_indicator_best_effort w opts Cause.runtime_stop
      (block_host (record s { timers = [] })))

-- `leave()`, whose audit record is best effort.
unfoldable pub leave : World → Options → M (Unit {0})
unfolding stop_runtime
leave w opts s =
    if role_eq opts.role viewer
    then (
      record (stop_runtime w opts s) {
        viewer_local_inactive_cause = some LocalInactiveCause.local_leave;
      },
      ok tt,
    )
    else (s, err (thrown "Agent shell viewer leave is only valid for viewer runtimes"))
