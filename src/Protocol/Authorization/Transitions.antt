-- ===== src/Protocol/Authorization/Transitions.antt =====
-- The transitions of packages/protocol/src/authorization.ts. Each takes `now`, the time that the
-- source reads from its input or the clock, and parses what it is given and what it returns.
-- `stamp` sets one time of the life. An update that leaves a field of the source's spread out
-- keeps it here as well.
use Prim.Native.String.{◌++◌ as str_append}
use winbridge.Base.{
  ℕ, ◌+◌, Bool, true, false, ◌&&◌, ◌||◌, not, String, List, [], ◌∷◌, Option, none, some, Result, ok,
  thrown, ◌>>=◌, ◌>>◌, guard, leb, nat_eq, length, keep, if◌then◌else◌,
}
use winbridge.Protocol.Session.{
  Permission, PermissionListValidationOptions, permission_eq, permission_text, includes_permission,
  parse_permission, parse_permission_list,
}
use winbridge.Protocol.Status.{
  pending, denied, approved, active, paused, revoked, terminated, expired, status_eq, status_text,
}
use winbridge.Protocol.Authorization.{
  Field, denied_at, approved_at, activated_at, paused_at, resumed_at, revoked_at, terminated_at,
  expired_at, field_eq, SessionAuthorization, is_terminal, is_terminable,
}
use winbridge.Protocol.Authorization.Schema.{parse_authorization}

abbrev pub max_authorization_ttl_ms : ℕ
max_authorization_ttl_ms = 2_147_483_647

abbrev pub stamp : Field → ℕ → (Field → Option ℕ) → Field → Option ℕ
stamp f time times g = if field_eq f g then some time else times g

abbrev pub no_times : Field → Option ℕ
no_times f = none

-- `input.reason ?? fallback`
abbrev pub reason_or : Option String → String → Option String
reason_or none fallback = some fallback
reason_or (some reason) fallback = some reason

unfoldable pub is_session_authorization_expired : SessionAuthorization → ℕ → Bool
is_session_authorization_expired a now = leb a.expires_at now

unfoldable pub assert_not_expired : SessionAuthorization → ℕ → Result (Unit {0})
assert_not_expired a now =
    guard (not (is_session_authorization_expired a now)) (thrown "Session authorization is expired")

unfoldable pub assert_safe_authorization_ttl : ℕ → Result (Unit {0})
assert_safe_authorization_ttl ttl =
    guard (leb 1 ttl && leb ttl max_authorization_ttl_ms)
      (thrown "Authorization TTL must be an integer from 1 through 2147483647")

unfoldable pub assert_mutable_pending : SessionAuthorization → ℕ → Result SessionAuthorization
assert_mutable_pending a now = do
  parsed ← parse_authorization a
  guard (status_eq parsed.status pending) (
      thrown
        (str_append "Expected pending session authorization, got " (status_text parsed.status)))
  assert_not_expired parsed now
  ok parsed

abbrev requested_options : PermissionListValidationOptions
requested_options = record {
  allow_empty = false;
  duplicate_message = "Requested permissions must be unique";
  empty_message = "Session authorization requires at least one requested permission";
}

abbrev granted_options : PermissionListValidationOptions
granted_options = record {
  allow_empty = false;
  duplicate_message = "Granted permissions must be unique";
  empty_message = "Session authorization approval requires at least one granted permission";
}

unfoldable pub create_pending_session_authorization :
    (session_id host_peer_id viewer_peer_id : String)
    → List Permission
    → (ttl_ms now : ℕ) → (authorization_id : String) → Result SessionAuthorization
create_pending_session_authorization session_id host_peer_id viewer_peer_id requested ttl_ms now
      authorization_id =
    do
      assert_safe_authorization_ttl ttl_ms
      permissions ← parse_permission_list requested requested_options
      parse_authorization (record {
        authorization_id = authorization_id;
        session_id = session_id;
        host_peer_id = host_peer_id;
        viewer_peer_id = viewer_peer_id;
        status = pending;
        permissions = permissions;
        visible_to_host = false;
        created_at = now;
        updated_at = now;
        expires_at = now + ttl_ms;
        at = no_times;
        reason = none;
      })

-- The loop over the granted permissions.
unfoldable pub assert_all_requested : List Permission → List Permission → Result (Unit {0})
assert_all_requested requested [] = ok tt
assert_all_requested requested (p ∷ ps) = do
  guard (includes_permission requested p)
      (thrown (str_append "Granted permission was not requested: " (permission_text p)))
  assert_all_requested requested ps

unfoldable pub approve_session_authorization :
    SessionAuthorization → List Permission → ℕ → Result SessionAuthorization
approve_session_authorization a granted now = do
  parsed ← assert_mutable_pending a now
  permissions ← parse_permission_list granted granted_options
  assert_all_requested parsed.permissions permissions
  parse_authorization (record parsed {
    status = approved;
    permissions = permissions;
    at = stamp approved_at now parsed.at;
    updated_at = now;
  })

unfoldable pub deny_session_authorization :
    SessionAuthorization → String → ℕ → Result SessionAuthorization
deny_session_authorization a reason now = do
  parsed ← assert_mutable_pending a now
  parse_authorization (record parsed {
    status = denied;
    permissions = [];
    reason = some reason;
    at = stamp denied_at now parsed.at;
    updated_at = now;
  })

-- The tests that the transitions of a visible session share, on what was parsed.
abbrev assert_from : Bool → String → SessionAuthorization → Result (Unit {0})
assert_from allowed verb parsed = guard allowed (
    thrown (
      str_append "Cannot "
        (str_append verb (str_append " from " (str_append (status_text parsed.status) " state")))))

abbrev assert_visible : String → SessionAuthorization → Result (Unit {0})
assert_visible verb parsed =
    guard parsed.visible_to_host
      (thrown (str_append "Cannot " (str_append verb " without visible host session")))

unfoldable pub activate_session_authorization :
    SessionAuthorization → (visible_to_host : Bool) → ℕ → Result SessionAuthorization
activate_session_authorization a visible_to_host now = do
  parsed ← parse_authorization a
  assert_from (status_eq parsed.status approved) "activate session authorization" parsed
  guard visible_to_host
      (thrown "Cannot activate session authorization without visible host session")
  assert_not_expired parsed now
  parse_authorization (record parsed {
    status = active;
    visible_to_host = true;
    at = stamp activated_at now parsed.at;
    updated_at = now;
  })

-- The permissions behind a revocation.
abbrev pub without_permission : Permission → List Permission → List Permission
without_permission p = keep (λ existing. not (permission_eq existing p))

unfoldable pub revoke_session_permission :
    SessionAuthorization → Permission → Option String → ℕ → Result SessionAuthorization
revoke_session_permission a asked reason now = do
  parsed ← parse_authorization a
  permission ← parse_permission asked
  assert_from (is_terminable parsed.status) "revoke permission" parsed
  assert_visible "revoke permission" parsed
  assert_not_expired parsed now
  guard (includes_permission parsed.permissions permission)
      (thrown "Session authorization does not include revoked permission")
  let remaining = without_permission permission parsed.permissions
  parse_authorization (record parsed {
    status = if nat_eq (length remaining) 0 then revoked else parsed.status;
    permissions = remaining;
    at = stamp revoked_at now parsed.at;
    updated_at = now;
    reason = reason_or reason (str_append "Permission revoked: " (permission_text permission));
  })

unfoldable pub pause_session_authorization :
    SessionAuthorization → Option String → ℕ → Result SessionAuthorization
pause_session_authorization a reason now = do
  parsed ← parse_authorization a
  assert_from (status_eq parsed.status active) "pause session authorization" parsed
  assert_visible "pause session authorization" parsed
  assert_not_expired parsed now
  parse_authorization (record parsed {
    status = paused;
    at = stamp paused_at now parsed.at;
    updated_at = now;
    reason = reason_or reason "Host paused session";
  })

unfoldable pub resume_session_authorization :
    SessionAuthorization → Option String → ℕ → Result SessionAuthorization
resume_session_authorization a reason now = do
  parsed ← parse_authorization a
  assert_from (status_eq parsed.status paused) "resume session authorization" parsed
  assert_visible "resume session authorization" parsed
  assert_not_expired parsed now
  parse_authorization (record parsed {
    status = active;
    at = stamp resumed_at now parsed.at;
    updated_at = now;
    reason = reason_or reason "Host resumed session";
  })

unfoldable pub terminate_session_authorization :
    SessionAuthorization → String → ℕ → Result SessionAuthorization
terminate_session_authorization a reason now = do
  parsed ← parse_authorization a
  assert_from (is_terminable parsed.status) "terminate session authorization" parsed
  assert_visible "terminate session authorization" parsed
  assert_not_expired parsed now
  parse_authorization (record parsed {
    status = terminated;
    permissions = [];
    at = stamp terminated_at now parsed.at;
    updated_at = now;
    reason = some reason;
  })

abbrev pub as_expired : SessionAuthorization → ℕ → SessionAuthorization
as_expired parsed now = record parsed {
  status = expired;
  permissions = [];
  at = stamp expired_at now parsed.at;
  updated_at = now;
  reason = some "Authorization expired";
}

unfoldable pub expire_session_authorization : SessionAuthorization → ℕ → Result SessionAuthorization
expire_session_authorization a now = do
  parsed ← parse_authorization a
  if is_terminal parsed.status || not (is_session_authorization_expired parsed now)
      then ok parsed
      else parse_authorization (as_expired parsed now)

unfoldable pub assert_session_action_authorized :
    SessionAuthorization → Permission → ℕ → Result SessionAuthorization
assert_session_action_authorized a asked now = do
  parsed ← parse_authorization a
  authorization ← expire_session_authorization parsed now
  permission ← parse_permission asked
  guard (status_eq authorization.status active) (
      thrown
        (str_append "Session authorization is not active: " (status_text authorization.status)))
  guard authorization.visible_to_host (thrown "Session authorization is not visible to host")
  guard (includes_permission authorization.permissions permission)
      (thrown "Session authorization does not include requested permission")
  ok authorization
