-- ===== src/Agent/Viewer.antt =====
-- apps/agent-shell/src/runtime.ts: how a viewer's runtime keeps the authorization that the host
-- reports to it.
pub mod Floor
pub mod Revoked
pub mod Report
use winbridge.Base.{
  ℕ, Bool, true, false, not, ◌&&◌, ◌||◌, String, List, [], ◌∷◌, ◌++◌, Option, none, some, nat_eq,
  length, keep, str_eq, if◌then◌else◌,
}
use winbridge.Protocol.Session.{viewer, role_eq, Permission, permission_eq, includes_permission}
use winbridge.Protocol.Status.{Status, denied, approved, paused, revoked, terminated}
use winbridge.Protocol.Messages.{
  Body, session_authorization_decision, session_authorization_state, permission_revoked,
  session_control, ControlAction, pause, resume, terminate, revoke_permission,
}
use winbridge.Agent.State.{Snapshot, Options, State, LocalInactiveCause}
use winbridge.Agent.Gates.{is_terminal_authorization_status}
use winbridge.Agent.Inbound.{
  is_bound_viewer_authorization_authority, has_bound_viewer_authorization_state_authority,
}

abbrev pub without : Permission → List Permission → List Permission
without p = keep (λ existing. not (permission_eq existing p))

-- `snapshot.revokedPermissions ?? []`
abbrev pub revoked_list : Snapshot → List Permission
revoked_list snapshot = elim snapshot.revoked_permissions [ none ↦ [] | some ps ↦ ps ]

abbrev pub is_empty : List Permission → Bool
is_empty [] = true
is_empty (_ ∷ _) = false

abbrev pub removed_status : List Permission → Status → Status
removed_status permissions status = if is_empty permissions then revoked else status

unfoldable pub remove_viewer_authorization_permission : Snapshot → Permission → Snapshot
remove_viewer_authorization_permission snapshot p = record snapshot {
  permissions = without p snapshot.permissions;
  revoked_permissions = some (
      if includes_permission (revoked_list snapshot) p
      then revoked_list snapshot
      else revoked_list snapshot ++ (p ∷ []));
  status = removed_status (without p snapshot.permissions) snapshot.status;
}

abbrev pub revoked_of : Option Snapshot → List Permission
revoked_of none = []
revoked_of (some snapshot) = revoked_list snapshot

unfoldable pub viewer_revoked_permissions_for_authorization :
    Option Snapshot → String → String → List Permission
viewer_revoked_permissions_for_authorization snapshot id authority =
    if is_bound_viewer_authorization_authority snapshot id authority
    then revoked_of snapshot
    else []

-- What the floor leaves of the permissions.
abbrev pub above_floor : List Permission → List Permission → List Permission
above_floor floor permissions = keep (λ p. not (includes_permission floor p)) permissions

abbrev pub floor_status : List Permission → List Permission → Status → Status
floor_status kept before status =
    if not (nat_eq (length kept) (length before))
      && is_empty kept
      && not (is_terminal_authorization_status status)
    then revoked
    else status

unfoldable pub apply_viewer_authorization_revocation_floor : Snapshot → List Permission → Snapshot
apply_viewer_authorization_revocation_floor snapshot floor =
    if is_empty floor then snapshot else record snapshot {
      permissions = above_floor floor snapshot.permissions;
      revoked_permissions = some floor;
      status =
          floor_status (above_floor floor snapshot.permissions) snapshot.permissions
            snapshot.status;
    }

abbrev pub set_viewer_authorization : Snapshot → State → State
set_viewer_authorization snapshot s = record s { viewer_authorization = some snapshot }

-- A snapshot that a message of this authorization and this authority reports, above the floor of the
-- revocations that the viewer has seen for the two.
abbrev pub report : State → String → String → Status → Bool → List Permission → Option ℕ → State
report s id authority status visible permissions expires_at =
    set_viewer_authorization
      (apply_viewer_authorization_revocation_floor
        (record {
          authorization_id = id;
          authority_peer_id = some authority;
          remote_peer_id = some authority;
          viewer_device_identity = none;
          status = status;
          visible_to_host = visible;
          permissions = permissions;
          revoked_permissions = none;
          expires_at = expires_at;
        })
        (viewer_revoked_permissions_for_authorization s.viewer_authorization id authority))
      s

-- A change of the snapshot, if it has this authorization id.
abbrev pub change_of : Option Snapshot → String → (Snapshot → Snapshot) → State → State
change_of none id change s = s
change_of (some snapshot) id change s =
    if str_eq snapshot.authorization_id id then set_viewer_authorization (change snapshot) s else s

unfoldable pub update_viewer_authorization_after_permission_revoke :
    State → String → Permission → State
unfolding remove_viewer_authorization_permission
update_viewer_authorization_after_permission_revoke s id p =
    change_of s.viewer_authorization id
      (λ snapshot. remove_viewer_authorization_permission snapshot p) s

abbrev pub control_change : ControlAction → Option Permission → Snapshot → Snapshot
control_change pause permission snapshot = record snapshot { status = paused }
control_change terminate permission snapshot = record snapshot {
  status = terminated;
  permissions = [];
}
control_change revoke_permission (some p) snapshot =
    remove_viewer_authorization_permission snapshot p
control_change revoke_permission none snapshot = snapshot
control_change resume permission snapshot = snapshot

unfoldable pub update_viewer_authorization_after_session_control :
    State → String → ControlAction → Option Permission → State
update_viewer_authorization_after_session_control s id action permission =
    change_of s.viewer_authorization id (control_change action permission) s

-- The `switch`, behind the test of the role.
abbrev pub update_by : Options → State → Body → State
update_by opts s
      (session_authorization_decision id host_id viewer_id is_approved granted expires _) =
    if not (str_eq viewer_id opts.peer_id)
    then s
    else report s id host_id (if is_approved then approved else denied) false granted expires
update_by opts s (session_authorization_state id actor status visible permissions expires _) =
    if not (has_bound_viewer_authorization_state_authority s id actor status)
    then s
    else report s id actor status visible permissions (some expires)
update_by opts s (permission_revoked id _ p _) =
    update_viewer_authorization_after_permission_revoke s id p
update_by opts s (session_control id _ action permission _) =
    update_viewer_authorization_after_session_control s id action permission
update_by opts s _ = s

unfoldable pub update_viewer_authorization_state : Options → State → Body → State
update_viewer_authorization_state opts s body =
    if not (role_eq opts.role viewer) then s else update_by opts s body

unfoldable pub record_viewer_socket_closed_status : Options → State → Bool → State
record_viewer_socket_closed_status opts s suppressed =
    if not (role_eq opts.role viewer) || suppressed || s.remote_peer_disconnected
    then s
    else record s {
      viewer_authorization = none;
      viewer_local_inactive_cause = some LocalInactiveCause.socket_closed;
    }
