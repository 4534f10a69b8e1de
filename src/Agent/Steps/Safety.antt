-- ===== src/Agent/Steps/Safety.antt =====
-- The native input and the native screen capture of a host, over every run of its runtime.
use winbridge.Base.{
  ℕ, ◌≡◌, ◌⊎◌, inl, inr, refl, Bool, true, false, String, List, [], ◌∷◌, Option, none, some, Result,
  ok, err, arith,
}
use winbridge.Protocol.Session.{host, Permission}
use winbridge.Agent.State.{Options, State, World, Timer, expiration, signal_probe, Cause}
use winbridge.Agent.Send.{
  screen_frame_of, input_event_of, send_viewer_signal_probe, probe_payload, send_remote_interaction,
  send_development_screen_frame, send_development_input_event,
}
use winbridge.Agent.Gates.{reset_connection_scoped_session_state}
use winbridge.Agent.Host.Safety.{
  IsSafe, off, pause-IsSafe, resume-IsSafe, revoke-IsSafe, terminate-IsSafe, expire-IsSafe,
}
use winbridge.Agent.Controls.{
  assert_connected, given, revoke_reason, get_local_host_pause_control,
  get_local_host_resume_control, get_local_host_revoke_control, get_local_host_terminate_control,
  Control, with_control, pause, resume, terminate, revoke_permission, disconnect,
  close_local_host_connection,
}
use winbridge.Agent.Handler.{leave}
use winbridge.Agent.Steps.{
  Step, starts, stops, leaves, disconnects, pauses, resumes, terminates, closes, receives,
  applies_input, decides, fires, revokes, sends, sends_screen_frame, sends_input_event, run_step,
  run, initial,
}
use winbridge.Agent.Steps.Answers.{handle-IsSafe}
use winbridge.Agent.Steps.Receipts.{
  on_close-IsSafe, stop-IsSafe, handle_message-IsSafe, applied_input-IsSafe, deactivate-IsSafe,
  send-IsSafe, when-IsSafe,
}
use winbridge.Agent.Timers.{run_timer, schedule_after}
use winbridge.Agent.Host.{
  pause_host_authorization, resume_host_authorization, revoke_host_permission,
  terminate_host_authorization, expire_host_authorization,
}
use winbridge.Protocol.Messages.{Body, signal}
use winbridge.Base.Machine.{
  lift, ◌>>◌, Triple, state-Triple, modify-Triple, modify, bind-Triple, Triple-state,
}
use winbridge.Agent.Send.{M}

module _ (w : World) (opts : Options) (h : opts.role ≡ host) where
  -- A control that was found changes the state as its step does.
  with_control-IsSafe :
      (found : Result Control) (step : Control → M (Unit {0})) (s : State)
      → ((c : Control) → IsSafe s → IsSafe (step c s).0)
      → IsSafe s
      → IsSafe (with_control found step s).0
  with_control-IsSafe (err e) step s k i = i
  with_control-IsSafe (ok c) step s k i = k c i

  controls-IsSafe :
      (s : State)
      → IsSafe s
      → IsSafe (pause w opts s).0 × IsSafe (resume w opts s).0 × IsSafe (terminate w opts s).0
  unfolding pause resume terminate
  controls-IsSafe s i = (
    with_control-IsSafe
        (winbridge.Base.◌>>◌ (assert_connected w s) (get_local_host_pause_control w opts s)) _ s
        (λ c.
          pause-IsSafe w opts h c.authorization_id
            (given opts.host_pause_reason "Host paused session") c.expires_at c.workflow s)
        i,
    with_control-IsSafe
        (winbridge.Base.◌>>◌ (assert_connected w s) (get_local_host_resume_control w opts s)) _ s
        (λ c.
          resume-IsSafe w opts h c.authorization_id
            (given opts.host_resume_reason "Host resumed session") c.expires_at c.workflow s)
        i,
    with_control-IsSafe
        (winbridge.Base.◌>>◌ (assert_connected w s) (get_local_host_terminate_control w opts s)) _ s
        (λ c.
          terminate-IsSafe w opts h c.authorization_id
            (given opts.host_terminate_reason "Host terminated session") c.expires_at c.workflow s)
        i,
  )

  revoke_permission-IsSafe :
      (p : Permission) (s : State) → IsSafe s → IsSafe (revoke_permission w opts p s).0
  unfolding revoke_permission
  revoke_permission-IsSafe p s i =
      with_control-IsSafe
        (winbridge.Base.◌>>◌ (assert_connected w s) (get_local_host_revoke_control w opts s p)) _ s
        (λ c.
          revoke-IsSafe w opts h c.authorization_id (revoke_reason opts p) c.expires_at c.workflow p
            s)
        i

  close-IsSafe : (s : State) → IsSafe (close_local_host_connection w opts s)
  unfolding close_local_host_connection
  close-IsSafe s = deactivate-IsSafe w opts h Cause.local_disconnect _ refl refl

  disconnect-IsSafe : (s : State) → IsSafe s → IsSafe (disconnect w opts s).0
  unfolding disconnect
  disconnect-IsSafe s i = let c = close-IsSafe s in ground arith

  schedule-IsSafe :
      (delay : Option ℕ) (t : Timer) (s : State) → IsSafe s → IsSafe (schedule_after delay t s)
  schedule-IsSafe delay t s i = ground arith

  paused-Triple :
      (id reason : String) (expires_at r : ℕ) (t : Timer)
      → Triple IsSafe
          (pause_host_authorization w opts id expires_at r reason
            >> modify (schedule_after opts.host_resume_after_ms t))
          (λ _. IsSafe)
          IsSafe
  paused-Triple id reason expires_at r t =
      bind-Triple
        (state-Triple IsSafe (pause_host_authorization w opts id expires_at r reason)
          (pause-IsSafe w opts h id reason expires_at r))
        λ _. modify-Triple (schedule-IsSafe opts.host_resume_after_ms t)

  timer-IsSafe : (t : Timer) (s : State) → IsSafe s → IsSafe (run_timer w opts t s).0
  unfolding run_timer send_viewer_signal_probe
  timer-IsSafe (expiration id expires_at r) s i =
      when-IsSafe w opts h _ (expire_host_authorization w opts id expires_at r) s
        (expire-IsSafe w opts h id expires_at r s i) i
  timer-IsSafe (Timer.revoke id expires_at r p reason) s i =
      when-IsSafe w opts h _ (revoke_host_permission w opts id expires_at r p reason) s
        (revoke-IsSafe w opts h id reason expires_at r p s i) i
  timer-IsSafe (Timer.terminate id expires_at r) s i =
      when-IsSafe w opts h _
        (terminate_host_authorization w opts id expires_at r
          (given opts.host_terminate_reason "Host terminated session"))
        s
        (terminate-IsSafe w opts h id (given opts.host_terminate_reason "Host terminated session")
          expires_at r s i)
        i
  timer-IsSafe (Timer.pause id expires_at r) s i =
      when-IsSafe w opts h _
        (pause_host_authorization w opts id expires_at r
            (given opts.host_pause_reason "Host paused session")
          >> modify (schedule_after opts.host_resume_after_ms (Timer.resume id expires_at r)))
        s
        (Triple-state
          (paused-Triple id (given opts.host_pause_reason "Host paused session") expires_at r
            (Timer.resume id expires_at r))
          s i)
        i
  timer-IsSafe (Timer.resume id expires_at r) s i =
      when-IsSafe w opts h _
        (resume_host_authorization w opts id expires_at r
          (given opts.host_resume_reason "Host resumed session"))
        s
        (resume-IsSafe w opts h id (given opts.host_resume_reason "Host resumed session") expires_at
          r s i)
        i
  timer-IsSafe (Timer.disconnect expires_at r) s i =
      when-IsSafe w opts h _ (modify (close_local_host_connection w opts)) s (close-IsSafe s) i
  timer-IsSafe (signal_probe generation id remote) s i =
      when-IsSafe w opts h _ (send_viewer_signal_probe w opts id remote) s
        (send-IsSafe w opts h opts.session_id
          (signal opts.peer_id remote
            (probe_payload "viewer-signal-probe" id "probe" "viewer-signal-probe-v1"))
          s i)
        i

  interaction-IsSafe :
      (action : String) (body : Body) (s : State)
      → IsSafe s
      → IsSafe (send_remote_interaction w opts action body s).0
  unfolding send_remote_interaction
  interaction-IsSafe action body s i = ground arith

  sends-IsSafe :
      (check : Result (Unit {0})) (action : String) (body : Body) (s : State)
      → IsSafe s
      → IsSafe ((lift check >> send_remote_interaction w opts action body) s).0
  sends-IsSafe (ok u) action body s i = interaction-IsSafe action body s i
  sends-IsSafe (err e) action body s i = i

  step-IsSafe : (step : Step) (s : State) → IsSafe s → IsSafe (run_step w opts step s)
  unfolding run_step reset_connection_scoped_session_state leave send_development_screen_frame
      send_development_input_event
  step-IsSafe starts s i = off refl refl
  step-IsSafe stops s i = stop-IsSafe w opts h s
  step-IsSafe leaves s i = let k = stop-IsSafe w opts h s in ground arith
  step-IsSafe disconnects s i = disconnect-IsSafe s i
  step-IsSafe pauses s i = (controls-IsSafe s i).0
  step-IsSafe resumes s i = (controls-IsSafe s i).1
  step-IsSafe terminates s i = (controls-IsSafe s i).2
  step-IsSafe (closes suppressed) s i = on_close-IsSafe w opts h suppressed s
  step-IsSafe (receives message) s i = handle_message-IsSafe w opts h message s i
  step-IsSafe (applies_input body result) s i = applied_input-IsSafe w opts h body result s i
  step-IsSafe (decides viewer_id requested decision) s i =
      handle-IsSafe w opts h viewer_id requested decision s i
  step-IsSafe (fires timer) s i = timer-IsSafe timer s i
  step-IsSafe (revokes p) s i = revoke_permission-IsSafe p s i
  step-IsSafe (sends session_id body) s i = send-IsSafe w opts h session_id body s i
  step-IsSafe (sends_screen_frame input) s i =
      sends-IsSafe _ "agent-shell.remote-interaction.screen-frame.sent"
        (screen_frame_of opts input s) s i
  step-IsSafe (sends_input_event input) s i =
      sends-IsSafe _ "agent-shell.remote-interaction.input-event.sent" (input_event_of opts input s)
        s i

run_from-IsSafe :
    (opts : Options)
    → opts.role ≡ host
    → (steps : List (World × Step)) (s : State) → IsSafe s
    → IsSafe (run opts steps s)
unfolding run
run_from-IsSafe opts h [] s i = i
run_from-IsSafe opts h ((w, step) ∷ steps) s i =
    run_from-IsSafe opts h steps (run_step w opts step s) (step-IsSafe w opts h step s i)

-- In every state that a host's runtime reaches, by any steps in any order and whatever the outside
-- throws, the native input and the native screen capture are both blocked, or the authorization is
-- active and visible and the indicator shows that very authorization as active.
pub run-IsSafe :
    (opts : Options) (steps : List (World × Step))
    → opts.role ≡ host
    → IsSafe (run opts steps initial)
run-IsSafe opts steps h = run_from-IsSafe opts h steps initial (off refl refl)
