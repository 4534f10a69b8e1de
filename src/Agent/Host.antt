-- ===== src/Agent/Host.antt =====
-- apps/agent-shell/src/runtime.ts: the workflow of a host's grant. A workflow is read and written at
-- its place in the store, as the source shares the object between the session and its timers.
pub mod Safety
use winbridge.Base.{
  ℕ, Bool, true, false, not, ◌&&◌, ◌||◌, String, List, [], ◌∷◌, Option, none, some, Result, ok, err,
  thrown, nat_eq, length, str_eq, if◌then◌else◌,
}
use winbridge.Base.Machine.{◌>>=◌, ◌>>◌, pure, lift, get, modify, when}
use winbridge.Protocol.Session.{host, Permission, includes_permission, role_eq}
use winbridge.Protocol.Status.{Status, status_eq}
use winbridge.Protocol.Messages.{
  DeviceIdentity, Body, session_authorization_state, permission_revoked, session_control,
  ControlAction, AuditOutcome,
}
use winbridge.Agent.State.{Snapshot, Workflow, Options, Cause, State, World, set_workflow}
use winbridge.Agent.Gates.{
  snapshot_remote, block_host, enable_host_windows_input, enable_host_windows_capture,
}
use winbridge.Agent.Viewer.{without}
use winbridge.Agent.Checks.{is_open}
use winbridge.Agent.Send.{M, send_protocol, prepare_development_audit_event}
use winbridge.Agent.Indicator.{emit_host_indicator_from_authorization}

abbrev pub has_id : Option Snapshot → String → Bool
has_id none id = false
has_id (some snapshot) id = str_eq snapshot.authorization_id id

-- `given ?? (same authorization ? previous : undefined)`
abbrev pub inherit {ℓ} : {A : Type ℓ} → Option A → Bool → Option A → Option A
inherit (some a) same previous = some a
inherit none true previous = previous
inherit none false previous = none

abbrev pub snapshot_identity : Option Snapshot → Option DeviceIdentity
snapshot_identity none = none
snapshot_identity (some snapshot) = snapshot.viewer_device_identity

unfoldable pub set_host_authorization_snapshot : Snapshot → State → State
set_host_authorization_snapshot input s =
    let same = has_id s.host_authorization input.authorization_id in
    record s {
      host_authorization = some (record input {
        remote_peer_id = inherit input.remote_peer_id same (snapshot_remote s.host_authorization);
        viewer_device_identity =
            inherit input.viewer_device_identity same (snapshot_identity s.host_authorization);
      });
    }

-- The snapshot that a change of the workflow sets: visible, and without a peer of its own.
abbrev pub workflow_snapshot : String → Status → List Permission → ℕ → Snapshot
workflow_snapshot id status permissions expires_at = record {
  authorization_id = id;
  authority_peer_id = none;
  remote_peer_id = none;
  viewer_device_identity = none;
  status = status;
  visible_to_host = true;
  permissions = permissions;
  revoked_permissions = none;
  expires_at = some expires_at;
}

abbrev pub enable_host : List Permission → State → State
enable_host permissions s =
    enable_host_windows_capture permissions (enable_host_windows_input permissions s)

-- The state message that ends each change, with its reason.
abbrev pub state_message : Options → String → Status → List Permission → ℕ → String → Body
state_message opts id status permissions expires_at reason =
    session_authorization_state id opts.peer_id status true permissions expires_at (some reason)

unfoldable pub pause_host_authorization : World → Options → String → ℕ → ℕ → String → M (Unit {0})
unfolding send_protocol prepare_development_audit_event emit_host_indicator_from_authorization
    set_host_authorization_snapshot
pause_host_authorization w opts id expires_at r reason =
    modify block_host
    >> prepare_development_audit_event w opts "agent-shell.authorization.paused"
        AuditOutcome.accepted
    >>= λ audit. get (λ s. s.workflows r) >>= λ workflow.
        modify (set_workflow r (record workflow { paused = true }))
        >> modify (
            set_host_authorization_snapshot
              (workflow_snapshot id Status.paused workflow.permissions expires_at))
        >> emit_host_indicator_from_authorization w opts Cause.paused
        >> send_protocol w (session_control id opts.peer_id ControlAction.pause none (some reason))
        >> send_protocol w
            (state_message opts id Status.paused workflow.permissions expires_at reason)
        >> send_protocol w audit

unfoldable pub resume_host_authorization : World → Options → String → ℕ → ℕ → String → M (Unit {0})
unfolding send_protocol prepare_development_audit_event emit_host_indicator_from_authorization
    set_host_authorization_snapshot
resume_host_authorization w opts id expires_at r reason =
    prepare_development_audit_event w opts "agent-shell.authorization.resumed" AuditOutcome.accepted
    >>= λ audit. get (λ s. s.workflows r) >>= λ workflow.
        modify (set_workflow r (record workflow { paused = false }))
        >> send_protocol w (session_control id opts.peer_id ControlAction.resume none (some reason))
        >> modify (
            set_host_authorization_snapshot
              (workflow_snapshot id Status.active workflow.permissions expires_at))
        >> emit_host_indicator_from_authorization w opts Cause.resumed
        >> send_protocol w
            (state_message opts id Status.active workflow.permissions expires_at reason)
        >> send_protocol w audit
        >> modify (enable_host workflow.permissions)

-- What is left of a grant without a permission, and the status that the rest has.
abbrev pub is_final : List Permission → Bool
is_final remaining = nat_eq (length remaining) 0

abbrev pub revoked_status : List Permission → Bool → Status
revoked_status remaining paused =
    if is_final remaining then Status.revoked else if paused then Status.paused else Status.active

unfoldable pub revoke_host_permission :
    World → Options → String → ℕ → ℕ → Permission → String → M (Unit {0})
unfolding send_protocol prepare_development_audit_event emit_host_indicator_from_authorization
    set_host_authorization_snapshot
revoke_host_permission w opts id expires_at r p reason =
    modify block_host >> get (λ s. s.workflows r) >>= λ workflow.
    let remaining = without p workflow.permissions in
    let status = revoked_status remaining workflow.paused in
    prepare_development_audit_event w opts "agent-shell.permission.revoked" AuditOutcome.accepted
    >>= λ audit.
        modify (
          set_workflow r (record workflow {
            permissions = remaining;
            terminal_status =
                if is_final remaining then some Status.revoked else workflow.terminal_status;
          }))
        >> modify
            (set_host_authorization_snapshot (workflow_snapshot id status remaining expires_at))
        >> emit_host_indicator_from_authorization w opts
            (if is_final remaining then Cause.revoked else Cause.permission_revoked)
        >> send_protocol w
            (session_control id opts.peer_id ControlAction.revoke_permission (some p) (some reason))
        >> send_protocol w (permission_revoked id opts.peer_id p reason)
        >> send_protocol w (state_message opts id status remaining expires_at reason)
        >> send_protocol w audit
        >> modify (λ s.
          if not (is_final remaining) && not workflow.paused then enable_host remaining s else s)

unfoldable pub terminate_host_authorization :
    World → Options → String → ℕ → ℕ → String → M (Unit {0})
unfolding send_protocol prepare_development_audit_event emit_host_indicator_from_authorization
    set_host_authorization_snapshot
terminate_host_authorization w opts id expires_at r reason =
    modify block_host
    >> prepare_development_audit_event w opts "agent-shell.authorization.terminated"
        AuditOutcome.accepted
    >>= λ audit.
        modify (
          set_workflow r
            (record { terminal_status = some Status.terminated; paused = false; permissions = [] }))
        >> modify
            (set_host_authorization_snapshot (workflow_snapshot id Status.terminated [] expires_at))
        >> emit_host_indicator_from_authorization w opts Cause.terminated
        >> send_protocol w
            (session_control id opts.peer_id ControlAction.terminate none (some reason))
        >> send_protocol w (state_message opts id Status.terminated [] expires_at reason)
        >> send_protocol w audit

-- The callback of `scheduleHostExpiration`, behind its tests.
unfoldable pub expire_host_authorization : World → Options → String → ℕ → ℕ → M (Unit {0})
unfolding send_protocol prepare_development_audit_event emit_host_indicator_from_authorization
    set_host_authorization_snapshot
expire_host_authorization w opts id expires_at r =
    modify block_host
    >> prepare_development_audit_event w opts "agent-shell.authorization.expired"
        AuditOutcome.accepted
    >>= λ audit.
        modify
          (λ s. set_workflow r (record (s.workflows r) { terminal_status = some Status.expired }) s)
        >> modify
            (set_host_authorization_snapshot (workflow_snapshot id Status.expired [] expires_at))
        >> emit_host_indicator_from_authorization w opts Cause.expired
        >> send_protocol w
            (state_message opts id Status.expired [] expires_at "Authorization expired")
        >> send_protocol w audit
