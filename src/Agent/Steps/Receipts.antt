-- ===== src/Agent/Steps/Receipts.antt =====
-- The native input and capture of a host, while its runtime handles a message.
use winbridge.Base.{
  ◌≡◌, refl, inl, inr, Bool, true, false, String, Option, none, some, Result, ok, err, arith,
  Option-cases, non_empty, if◌then◌else◌,
}
use winbridge.Base.Machine.{
  ◌>>◌, modify, when, lift-Triple, state-Triple, Triple, bind-Triple, modify-Triple, Triple-state,
}
use winbridge.Protocol.Session.{host, SessionRole}
use winbridge.Protocol.Messages.{
  Body, ReasonCode, input_event, signal, peer_disconnected, ProtocolEnvelope,
}
use winbridge.Agent.State.{Options, State, World, Cause}
use winbridge.Agent.Checks.{check_public_send}
use winbridge.Agent.Gates.{
  signal_payload_authorization_id, block_host, reset_connection_scoped_session_state,
}
use winbridge.Agent.Send.{
  M, should_acknowledge, acknowledgement, send_host_signal_probe_ack,
  record_viewer_signal_probe_ack, invalidate_viewer_signal_probe, send_public_runtime_message,
}
use winbridge.Agent.Inbound.{is_ignored}
use winbridge.Agent.Viewer.{update_viewer_authorization_state, record_viewer_socket_closed_status}
use winbridge.Agent.Indicator.{deactivate_host_indicator_best_effort}
use winbridge.Agent.Host.Safety.{IsSafe, off, send-Triple}
use winbridge.Agent.Handler.{
  Stage, ignored, failed, InputResult, finish_input, start_message,
  persist_inbound_screen_frame_output, apply_inbound_windows_input, forget_peer, meet_peer,
  drop_stale_probe, dispatch_message, handle_message, go_on, on_close, stop_runtime,
  block_on_disconnect,
}

abbrev pub is_disconnect : Body → Bool
is_disconnect (peer_disconnected _ _ _) = true
is_disconnect _ = false

module _ (w : World) (opts : Options) (h : opts.role ≡ host) where
  update-IsSafe :
      (body : Body) (s : State) → IsSafe s → IsSafe (update_viewer_authorization_state opts s body)
  unfolding update_viewer_authorization_state
  update-IsSafe body s i = ground arith

  record-IsSafe :
      (body : Body) (s : State) → IsSafe s → IsSafe (record_viewer_signal_probe_ack w opts s body)
  unfolding record_viewer_signal_probe_ack
  record-IsSafe body s i = ground arith

  pub send-IsSafe :
      (session_id : String) (body : Body) (s : State)
      → IsSafe s
      → IsSafe (send_public_runtime_message w opts session_id body s).0
  unfolding send_public_runtime_message
  send-IsSafe session_id body s =
      Triple-state
        (bind-Triple (lift-Triple IsSafe (check_public_send w opts s session_id body))
          λ _. send-Triple w opts h body)
        s

  -- What is done only under a test.
  pub when-IsSafe :
      (b : Bool) (m : M (Unit {0})) (s : State) → IsSafe (m s).0 → IsSafe s → IsSafe (when b m s).0
  when-IsSafe true m s k i = k
  when-IsSafe false m s k i = i

  -- With input and capture off, the indicator may go out.
  pub deactivate-IsSafe :
      (cause : Cause) (s : State)
      → s.host_input_blocked ≡ true
      → s.host_screen_capture_blocked ≡ true
      → IsSafe (deactivate_host_indicator_best_effort w opts cause s)
  unfolding deactivate_host_indicator_best_effort
  deactivate-IsSafe cause s input capture = ground arith

  acknowledged-IsSafe :
      (id : String) (s : State)
      → IsSafe s
      → IsSafe (record s { host_signal_probe_ack_authorization_id = some id })
  acknowledged-IsSafe id s i = ground arith

  acknowledge-Triple :
      (body : Body) (id : String)
      → Triple IsSafe
          (send_public_runtime_message w opts opts.session_id body
            >> modify (λ t. record t { host_signal_probe_ack_authorization_id = some id }))
          (λ _. IsSafe)
          IsSafe
  acknowledge-Triple body id =
      bind-Triple
        (state-Triple IsSafe (send_public_runtime_message w opts opts.session_id body)
          (send-IsSafe opts.session_id body))
        λ _. modify-Triple λ s i. acknowledged-IsSafe id s i

  ack-IsSafe :
      (body : Body) (s : State) → IsSafe s → IsSafe (send_host_signal_probe_ack w opts body s).0
  unfolding send_host_signal_probe_ack
  ack-IsSafe (signal from to payload) s i =
      elim (Option-cases (non_empty (signal_payload_authorization_id payload))) [
        | inl q ↦ rw (q, send_host_signal_probe_ack) i
        | inr (id, q) ↦
            rw (q, send_host_signal_probe_ack)
              (when-IsSafe (should_acknowledge w opts s id from payload)
                (send_public_runtime_message w opts opts.session_id (acknowledgement opts s id)
                  >> modify (λ t. record t { host_signal_probe_ack_authorization_id = some id }))
                s (Triple-state (acknowledge-Triple (acknowledgement opts s id) id) s i) i)
      ]
  ack-IsSafe _ s i = i

  drop-IsSafe : (body : Body) (s : State) → IsSafe s → IsSafe (drop_stale_probe w body s)
  unfolding drop_stale_probe invalidate_viewer_signal_probe
  drop-IsSafe body s i = ground arith

  meet-IsSafe : (body : Body) (s : State) → IsSafe s → IsSafe (meet_peer w opts body s).0
  unfolding meet_peer
  meet-IsSafe body s i = ground arith

  forget-IsSafe :
      (body : Body)
      → is_disconnect body ≡ false
      → (s : State) → IsSafe s
      → IsSafe (forget_peer w opts body s)
  unfolding forget_peer
  forget-IsSafe body other s i = ground arith

  -- The last half, for a notice that the peer has left.
  disconnected-IsSafe :
      (id : String) (role : SessionRole) (reason : ReasonCode) (s : State)
      → s.host_input_blocked ≡ true
      → s.host_screen_capture_blocked ≡ true
      → IsSafe (dispatch_message w opts (peer_disconnected id role reason) s).0
  unfolding dispatch_message update_viewer_authorization_state record_viewer_signal_probe_ack
      send_host_signal_probe_ack drop_stale_probe forget_peer invalidate_viewer_signal_probe
      deactivate_host_indicator_best_effort meet_peer
  disconnected-IsSafe id role reason s input capture = ground arith

  -- The last half, for any other message.
  dispatch-Triple :
      (body : Body)
      → is_disconnect body ≡ false
      → Triple IsSafe (dispatch_message w opts body) (λ _. IsSafe) IsSafe
  unfolding dispatch_message
  dispatch-Triple body other =
      bind-Triple
        (bind-Triple
          (bind-Triple
            (bind-Triple
              (bind-Triple (modify-Triple (update-IsSafe body))
                λ _. modify-Triple (record-IsSafe body))
              λ _. state-Triple IsSafe (send_host_signal_probe_ack w opts body) (ack-IsSafe body))
            λ _. modify-Triple (drop-IsSafe body))
          λ _. modify-Triple (forget-IsSafe body other))
        λ _. state-Triple IsSafe (meet_peer w opts body) (meet-IsSafe body)

  choice-IsSafe : (b : Bool) (s t : State) → IsSafe s → IsSafe t → IsSafe (if b then s else t)
  choice-IsSafe true s t i j = i
  choice-IsSafe false s t i j = j

  block-IsSafe : (body : Body) (s : State) → IsSafe s → IsSafe (block_on_disconnect body s)
  block-IsSafe body s i = ground arith

  applied_other-IsSafe :
      (body : Body)
      → is_disconnect body ≡ false
      → (s : State) → IsSafe s
      → IsSafe (go_on w opts body (apply_inbound_windows_input w opts body s)).0
  unfolding apply_inbound_windows_input
  applied_other-IsSafe body other s i =
      let k = Triple-state (dispatch-Triple body other) s i in ground arith

  applied-IsSafe :
      (body : Body) (s : State)
      → IsSafe s
      → IsSafe
          (go_on w opts body
            (apply_inbound_windows_input w opts body (block_on_disconnect body s))).0
  unfolding apply_inbound_windows_input
  applied-IsSafe (peer_disconnected id role reason) s i =
      disconnected-IsSafe id role reason (block_host s) refl refl
  applied-IsSafe body s i = applied_other-IsSafe body refl s i

  started-IsSafe :
      (envelope : ProtocolEnvelope) (ignores : Bool) (persisted : Result (Unit {0})) (s t : State)
      (r : State × Stage)
      → IsSafe s
      → IsSafe t
      → IsSafe (go_on w opts envelope.body r).0
      → IsSafe
          (go_on w opts envelope.body
            (if ignores then (s, ignored) else elim persisted [ err e ↦ (t, failed) | ok u ↦ r ])).0
  started-IsSafe envelope true persisted s t r i j k = i
  started-IsSafe envelope false (err e) s t r i j k = j
  started-IsSafe envelope false (ok u) s t r i j k = k

  pub handle_message-IsSafe :
      (message : Option ProtocolEnvelope) (s : State)
      → IsSafe s
      → IsSafe (handle_message w opts message s).0
  unfolding handle_message start_message
  handle_message-IsSafe none s i = i
  handle_message-IsSafe (some envelope) s i =
      started-IsSafe envelope (is_ignored w.now opts s envelope)
        (persist_inbound_screen_frame_output w envelope.body) s
        (block_on_disconnect envelope.body s)
        (apply_inbound_windows_input w opts envelope.body (block_on_disconnect envelope.body s)) i
        (block-IsSafe envelope.body s i) (applied-IsSafe envelope.body s i)

  pub on_close-IsSafe : (suppressed : Bool) (s : State) → IsSafe (on_close w opts suppressed s)
  unfolding on_close invalidate_viewer_signal_probe record_viewer_socket_closed_status
      deactivate_host_indicator_best_effort
  on_close-IsSafe suppressed s = ground arith

  pub stop-IsSafe : (s : State) → IsSafe (stop_runtime w opts s)
  unfolding stop_runtime reset_connection_scoped_session_state
  stop-IsSafe s = off refl refl

  pub applied_input-IsSafe :
      (body : Body) (result : Result InputResult) (s : State)
      → IsSafe s
      → IsSafe (if finish_input w opts body result s then (dispatch_message w opts body s).0 else s)
  unfolding finish_input
  applied_input-IsSafe (input_event id from to event sequence at kind) result s i =
      let k =
        Triple-state (dispatch-Triple (input_event id from to event sequence at kind) refl) s i in
      choice-IsSafe (finish_input w opts (input_event id from to event sequence at kind) result s) _
        s k i
  applied_input-IsSafe _ result s i = i
