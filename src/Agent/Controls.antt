-- ===== src/Agent/Controls.antt =====
-- apps/agent-shell/src/runtime.ts: the local controls of a host, and the tests of its delayed steps.
use Prim.Native.String.{◌++◌}
use winbridge.Base.{
  ℕ, Bool, true, false, not, ◌&&◌, ◌||◌, String, Option, none, some, Result, ok, err, thrown, guard,
  ◌>>=◌, ◌>>◌, if◌then◌else◌,
}
use winbridge.Protocol.Session.{host, role_eq, Permission, permission_text, includes_permission}
use winbridge.Protocol.Status.{active, paused, status_eq}
use winbridge.Agent.State.{Snapshot, Workflow, Options, State, World, local_disconnect}
use winbridge.Agent.Gates.{has_authorization_expired, is_unexpired, block_host}
use winbridge.Agent.Checks.{
  is_open, is_started, peer_disconnected_message, local_peer_disconnected_message,
}
use winbridge.Agent.Send.{M, sanitized}
use winbridge.Agent.Indicator.{deactivate_host_indicator_best_effort}
use winbridge.Agent.Host.{
  pause_host_authorization, resume_host_authorization, revoke_host_permission,
  terminate_host_authorization,
}

abbrev pub has_ended : Workflow → Bool
has_ended workflow = elim workflow.terminal_status [ none ↦ false | some _ ↦ true ]

unfoldable pub can_send_delayed_host_workflow : World → State → Bool
can_send_delayed_host_workflow w s =
    not s.local_peer_disconnected && not s.remote_peer_disconnected && is_open w.socket

unfoldable pub can_send_host_revoke : World → State → Workflow → ℕ → Permission → Bool
unfolding can_send_delayed_host_workflow
can_send_host_revoke w s workflow expires_at p =
    not (has_ended workflow)
    && includes_permission workflow.permissions p
    && can_send_delayed_host_workflow w s
    && not (has_authorization_expired w.now expires_at)

unfoldable pub can_send_host_pause : World → State → Workflow → ℕ → Bool
unfolding can_send_delayed_host_workflow
can_send_host_pause w s workflow expires_at =
    not (has_ended workflow)
    && not workflow.paused
    && can_send_delayed_host_workflow w s
    && not (has_authorization_expired w.now expires_at)

unfoldable pub can_send_host_resume : World → State → Workflow → ℕ → Bool
unfolding can_send_delayed_host_workflow
can_send_host_resume w s workflow expires_at =
    not (has_ended workflow)
    && workflow.paused
    && can_send_delayed_host_workflow w s
    && not (has_authorization_expired w.now expires_at)

-- `hasLocalHostRevokeAuthorization`, `hasLocalHostTerminateAuthorization` and
-- `hasLocalHostDisconnectAuthorization`, which are one test.
abbrev pub has_local_host_authorization : ℕ → Option Snapshot → Bool
has_local_host_authorization now none = false
has_local_host_authorization now (some snapshot) =
    snapshot.visible_to_host
    && (status_eq snapshot.status active || status_eq snapshot.status paused)
    && is_unexpired now snapshot.expires_at

abbrev pub has_local_host_pause_authorization : ℕ → Option Snapshot → Bool
has_local_host_pause_authorization now none = false
has_local_host_pause_authorization now (some snapshot) =
    snapshot.visible_to_host
    && status_eq snapshot.status active
    && is_unexpired now snapshot.expires_at

abbrev pub has_local_host_resume_authorization : ℕ → Option Snapshot → Bool
has_local_host_resume_authorization now none = false
has_local_host_resume_authorization now (some snapshot) =
    snapshot.visible_to_host
    && status_eq snapshot.status paused
    && is_unexpired now snapshot.expires_at

unfoldable pub can_send_host_terminate : World → State → Workflow → ℕ → Bool
unfolding can_send_delayed_host_workflow
can_send_host_terminate w s workflow expires_at =
    not (has_ended workflow)
    && can_send_delayed_host_workflow w s
    && not (has_authorization_expired w.now expires_at)
    && has_local_host_authorization w.now s.host_authorization

-- `LocalHostWorkflowControl`: the id and the expiry of the snapshot, and the place of the workflow.
pub record Control : Type 0 where
  pub authorization_id : String
  pub expires_at : ℕ
  pub workflow : ℕ

-- The control of the session's snapshot and workflow, if the test accepts the two.
abbrev pub control_of : State → (Workflow → Option Snapshot → Bool) → String → Result Control
control_of s test message = elim s.host_workflow_state [
  | none ↦ err (thrown message)
  | some r ↦
      if not (test (s.workflows r) s.host_authorization)
      then err (thrown message)
      else elim s.host_authorization [
        | none ↦ err (thrown message)
        | some snapshot ↦ elim snapshot.expires_at [
          | none ↦ err (thrown message)
          | some expires_at ↦ ok (record {
            authorization_id = snapshot.authorization_id;
            expires_at = expires_at;
            workflow = r;
          })
        ]
      ]
]

abbrev pub allows : Option Snapshot → Permission → Bool
allows none p = false
allows (some snapshot) p = includes_permission snapshot.permissions p

unfoldable pub get_local_host_revoke_control : World → Options → State → Permission → Result Control
get_local_host_revoke_control w opts s p =
    guard (role_eq opts.role host)
      (thrown "Agent shell revoke control is only valid for host runtimes")
    >> control_of s
        (λ workflow snapshot.
          not (has_ended workflow) && has_local_host_authorization w.now snapshot)
        "Agent shell revoke control requires active or paused visible host authorization"
    >>= λ control.
        if not (includes_permission (s.workflows control.workflow).permissions p)
          || not (allows s.host_authorization p)
        then err (thrown "Agent shell revoke control requires a currently granted host permission")
        else ok control

unfoldable pub get_local_host_pause_control : World → Options → State → Result Control
get_local_host_pause_control w opts s =
    if not (role_eq opts.role host)
    then err (thrown "Agent shell pause control is only valid for host runtimes")
    else control_of s
        (λ workflow snapshot.
          not (has_ended workflow)
          && not workflow.paused
          && has_local_host_pause_authorization w.now snapshot)
        "Agent shell pause control requires active visible host authorization"

unfoldable pub get_local_host_resume_control : World → Options → State → Result Control
get_local_host_resume_control w opts s =
    if not (role_eq opts.role host)
    then err (thrown "Agent shell resume control is only valid for host runtimes")
    else control_of s
        (λ workflow snapshot.
          not (has_ended workflow)
          && workflow.paused
          && has_local_host_resume_authorization w.now snapshot)
        "Agent shell resume control requires paused visible host authorization"

unfoldable pub get_local_host_terminate_control : World → Options → State → Result Control
get_local_host_terminate_control w opts s =
    if not (role_eq opts.role host)
    then err (thrown "Agent shell terminate control is only valid for host runtimes")
    else control_of s
        (λ workflow snapshot.
          not (has_ended workflow) && has_local_host_authorization w.now snapshot)
        "Agent shell terminate control requires active or paused visible host authorization"

-- The tests that `pause`, `resume`, `revokePermission` and `terminate` begin with.
abbrev pub assert_connected : World → State → Result (Unit {0})
assert_connected w s =
    guard (is_started w.socket) (thrown "Agent shell runtime is not started")
    >> guard (not s.local_peer_disconnected) (thrown local_peer_disconnected_message)
    >> guard (not s.remote_peer_disconnected) (thrown peer_disconnected_message)
    >> guard (is_open w.socket) (thrown local_peer_disconnected_message)

-- `try { step } catch { throw createSanitizedRuntimeError(); }`, once the control was found.
abbrev pub sanitize : State × Result (Unit {0}) → State × Result (Unit {0})
sanitize (s, r) = (s, sanitized r)

abbrev pub with_control : Result Control → (Control → M (Unit {0})) → M (Unit {0})
with_control (err e) step s = (s, err e)
with_control (ok control) step s = sanitize (step control s)

abbrev pub given : Option String → String → String
given none default' = default'
given (some reason) default' = reason

-- `runtime.pause()`
unfoldable pub pause : World → Options → M (Unit {0})
unfolding get_local_host_pause_control
pause w opts s =
    with_control (assert_connected w s >> get_local_host_pause_control w opts s)
      (λ c.
        pause_host_authorization w opts c.authorization_id c.expires_at c.workflow
          (given opts.host_pause_reason "Host paused session"))
      s

-- `runtime.resume()`
unfoldable pub resume : World → Options → M (Unit {0})
unfolding get_local_host_resume_control
resume w opts s =
    with_control (assert_connected w s >> get_local_host_resume_control w opts s)
      (λ c.
        resume_host_authorization w opts c.authorization_id c.expires_at c.workflow
          (given opts.host_resume_reason "Host resumed session"))
      s

-- `runtime.terminate()`
unfoldable pub terminate : World → Options → M (Unit {0})
unfolding get_local_host_terminate_control
terminate w opts s =
    with_control (assert_connected w s >> get_local_host_terminate_control w opts s)
      (λ c.
        terminate_host_authorization w opts c.authorization_id c.expires_at c.workflow
          (given opts.host_terminate_reason "Host terminated session"))
      s

abbrev pub revoke_reason : Options → Permission → String
revoke_reason opts p = given opts.host_revoke_reason ("Host revoked " ++ permission_text p)

-- `runtime.revokePermission(permission)`, on a permission that exists.
unfoldable pub revoke_permission : World → Options → Permission → M (Unit {0})
unfolding get_local_host_revoke_control
revoke_permission w opts p s =
    with_control (assert_connected w s >> get_local_host_revoke_control w opts s p)
      (λ c.
        revoke_host_permission w opts c.authorization_id c.expires_at c.workflow p
          (revoke_reason opts p))
      s

-- `closeLocalHostConnection`. The audit record and the logs are best effort, and the socket's own
-- close event comes later.
unfoldable pub close_local_host_connection : World → Options → State → State
close_local_host_connection w opts s =
    deactivate_host_indicator_best_effort w opts local_disconnect
      (record (block_host s) { local_peer_disconnected = true })

-- `runtime.disconnect()`
unfoldable pub disconnect : World → Options → M (Unit {0})
unfolding close_local_host_connection
disconnect w opts s =
    elim (guard (is_started w.socket) (thrown "Agent shell runtime is not started")
      >> guard (not s.local_peer_disconnected) (thrown local_peer_disconnected_message)
      >> guard (not s.remote_peer_disconnected) (thrown peer_disconnected_message)
      >> guard (role_eq opts.role host)
          (thrown "Agent shell local disconnect control is only valid for host runtimes")
      >> guard (has_local_host_authorization w.now s.host_authorization) (
          thrown
            "Agent shell local disconnect control requires active visible host authorization")) [
              | err e ↦ (s, err e)
              | ok u ↦ (close_local_host_connection w opts s, ok u)
            ]
