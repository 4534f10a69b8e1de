-- ===== src/Agent/Timers.antt =====
-- apps/agent-shell/src/runtime.ts: the delayed steps of a grant.
use winbridge.Base.{ℕ, ◌-◌, not, ◌&&◌, String, ◌∷◌, Option, none, some, nat_eq, if◌then◌else◌}
use winbridge.Base.Machine.{◌>>◌, modify, when}
use winbridge.Protocol.Session.{includes_permission}
use winbridge.Agent.State.{
  Options, Timer, expiration, revoke, terminate, pause, resume, disconnect, signal_probe, State,
  World,
}
use winbridge.Agent.Gates.{has_authorization_expired, is_text}
use winbridge.Agent.Send.{M, send_viewer_signal_probe}
use winbridge.Agent.Host.{
  pause_host_authorization, resume_host_authorization, revoke_host_permission,
  terminate_host_authorization, expire_host_authorization,
}
use winbridge.Agent.Controls.{
  can_send_delayed_host_workflow, can_send_host_revoke, can_send_host_pause, can_send_host_resume,
  can_send_host_terminate, has_ended, has_local_host_authorization, given, revoke_reason,
  close_local_host_connection,
}

abbrev pub schedule : ℕ → Timer → State → State
schedule delay_ms timer s = record s { timers = (delay_ms, timer) ∷ s.timers }

-- A timer whose delay the options may leave out.
abbrev pub schedule_after : Option ℕ → Timer → State → State
schedule_after none timer s = s
schedule_after (some delay_ms) timer s = schedule delay_ms timer s

-- `Math.max(0, Date.parse(expiresAt) - Date.now())`
unfoldable pub schedule_host_expiration : World → String → ℕ → ℕ → State → State
schedule_host_expiration w id expires_at r s =
    schedule (expires_at - w.now) (expiration id expires_at r) s

unfoldable pub schedule_host_revoke : Options → String → ℕ → ℕ → State → State
schedule_host_revoke opts id expires_at r s = elim opts.host_revoke_permission [
  | none ↦ s
  | some p ↦
      if includes_permission (s.workflows r).permissions p
      then schedule_after opts.host_revoke_after_ms
          (revoke id expires_at r p (revoke_reason opts p)) s
      else s
]

unfoldable pub schedule_host_timers : World → Options → String → ℕ → ℕ → State → State
unfolding schedule_host_expiration schedule_host_revoke
schedule_host_timers w opts id expires_at r s =
    schedule_after opts.host_disconnect_after_ms (disconnect expires_at r) (
      schedule_after opts.host_pause_after_ms (pause id expires_at r) (
        schedule_after opts.host_terminate_after_ms (terminate id expires_at r) (
          schedule_host_revoke opts id expires_at r
            (schedule_host_expiration w id expires_at r s))))

-- The callbacks. What one throws is reported and dropped.
unfoldable pub run_timer : World → Options → Timer → M (Unit {0})
unfolding can_send_delayed_host_workflow can_send_host_revoke can_send_host_pause
    can_send_host_resume can_send_host_terminate close_local_host_connection
    send_viewer_signal_probe
run_timer w opts (expiration id expires_at r) s =
    when (not (has_ended (s.workflows r)) && can_send_delayed_host_workflow w s)
      (expire_host_authorization w opts id expires_at r) s
run_timer w opts (revoke id expires_at r p reason) s =
    when (can_send_host_revoke w s (s.workflows r) expires_at p)
      (revoke_host_permission w opts id expires_at r p reason) s
run_timer w opts (terminate id expires_at r) s =
    when (can_send_host_terminate w s (s.workflows r) expires_at)
      (terminate_host_authorization w opts id expires_at r
        (given opts.host_terminate_reason "Host terminated session"))
      s
run_timer w opts (pause id expires_at r) s =
    when (can_send_host_pause w s (s.workflows r) expires_at)
      (pause_host_authorization w opts id expires_at r
          (given opts.host_pause_reason "Host paused session")
        >> modify (schedule_after opts.host_resume_after_ms (resume id expires_at r)))
      s
run_timer w opts (resume id expires_at r) s =
    when (can_send_host_resume w s (s.workflows r) expires_at)
      (resume_host_authorization w opts id expires_at r
        (given opts.host_resume_reason "Host resumed session"))
      s
run_timer w opts (disconnect expires_at r) s =
    when
      (not (has_ended (s.workflows r))
        && can_send_delayed_host_workflow w s
        && not (has_authorization_expired w.now expires_at)
        && has_local_host_authorization w.now s.host_authorization)
      (modify (close_local_host_connection w opts)) s
run_timer w opts (signal_probe generation id remote) s =
    when
      (nat_eq s.viewer_signal_probe_generation generation
        && is_text s.viewer_signal_probe_authorization_id id)
      (send_viewer_signal_probe w opts id remote) s
