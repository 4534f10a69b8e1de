-- ===== src/Protocol/Authorization/Approval.antt =====
-- The way from a request to an action: that it can be gone.
use winbridge.Base.{
  ℕ, ◌+◌, ◌≤◌, ◌<◌, ◌≡◌, Bool, true, false, String, List, Option, none, Result, ok, ◌>>=◌, arith,
  length,
}
use winbridge.Protocol.Identifier.{is_safe_identifier}
use winbridge.Protocol.Session.{
  Permission, is_unavailable, includes_permission, is_base_permission_list, set_size,
  is_permission_list, parse_permission, parse_permission_list, get_permission_list_issue,
}
use winbridge.Protocol.Status.{Status, pending, approved, active}
use winbridge.Protocol.Authorization.{Field, approved_at, activated_at, SessionAuthorization}
use winbridge.Protocol.Authorization.Schema.{
  is_base, authorization_issues, validate_timestamp_order, validate_lifecycle_timestamp_sequence,
  require_timestamp_not_before, require_lifecycle_timestamp, require_terminal_reason,
  require_post_activation_terminal_history, is_post_activation_terminal_authorization,
  reject_forbidden_lifecycle_timestamps, permission_issues, visibility_issues, resume_issues,
  parse_authorization,
}
use winbridge.Protocol.Authorization.Transitions.{
  stamp, no_times, create_pending_session_authorization, approve_session_authorization,
  activate_session_authorization, assert_session_action_authorized, assert_safe_authorization_ttl,
  max_authorization_ttl_ms, assert_mutable_pending, assert_not_expired,
  is_session_authorization_expired, assert_all_requested, expire_session_authorization,
}

-- The ids of a request.
pub record Parties : Type 0 where
  pub authorization_id : String
  pub session_id : String
  pub host_peer_id : String
  pub viewer_peer_id : String

-- The authorization of the parties in one stage of the way.
abbrev pub stage :
    Parties
    → Status
    → List Permission
    → Bool
    → (created updated expires : ℕ) → (Field → Option ℕ)
    → SessionAuthorization
stage ids status permissions visible created updated expires times = record {
  authorization_id = ids.authorization_id;
  session_id = ids.session_id;
  host_peer_id = ids.host_peer_id;
  viewer_peer_id = ids.viewer_peer_id;
  status = status;
  permissions = permissions;
  visible_to_host = visible;
  created_at = created;
  updated_at = updated;
  expires_at = expires;
  at = times;
  reason = none;
}

-- The ids have the shape of identifiers.
abbrev pub IsNamed : Parties → Type 0
IsNamed ids =
    (is_safe_identifier 8 ids.authorization_id ≡ true)
    × (is_safe_identifier 3 ids.session_id ≡ true)
    × (is_safe_identifier 3 ids.host_peer_id ≡ true)
    × (is_safe_identifier 3 ids.viewer_peer_id ≡ true)

-- A list of permissions that can be asked for: not empty, not too long, available, and no two equal.
abbrev pub IsList : List Permission → Type 0
IsList ps = (0 < length ps) × (is_base_permission_list ps ≡ true) × (set_size ps ≡ length ps)

abbrev pub approved_times : ℕ → Field → Option ℕ
approved_times t = stamp approved_at t no_times

abbrev pub active_times : ℕ → ℕ → Field → Option ℕ
active_times t u = stamp activated_at u (approved_times t)

pending_parses :
    (ids : Parties) (ps : List Permission) (t0 ends : ℕ)
    → IsNamed ids
    → IsList ps
    → t0 < ends
    → parse_authorization (stage ids pending ps false t0 t0 ends no_times)
      ≡ ok (stage ids pending ps false t0 t0 ends no_times)
unfolding parse_authorization is_base is_permission_list authorization_issues
    validate_timestamp_order validate_lifecycle_timestamp_sequence require_timestamp_not_before
    require_lifecycle_timestamp require_terminal_reason require_post_activation_terminal_history
    is_post_activation_terminal_authorization reject_forbidden_lifecycle_timestamps
    permission_issues visibility_issues resume_issues get_permission_list_issue
pending_parses ids ps t0 ends named listed live = ground arith

approved_parses :
    (ids : Parties) (ps : List Permission) (t0 t1 ends : ℕ)
    → IsNamed ids
    → IsList ps
    → t0 ≤ t1
    → t1 < ends
    → parse_authorization (stage ids approved ps false t0 t1 ends (approved_times t1))
      ≡ ok (stage ids approved ps false t0 t1 ends (approved_times t1))
unfolding parse_authorization is_base is_permission_list authorization_issues
    validate_timestamp_order validate_lifecycle_timestamp_sequence require_timestamp_not_before
    require_lifecycle_timestamp require_terminal_reason require_post_activation_terminal_history
    is_post_activation_terminal_authorization reject_forbidden_lifecycle_timestamps
    permission_issues visibility_issues resume_issues get_permission_list_issue
approved_parses ids ps t0 t1 ends named listed le live = ground arith

active_parses :
    (ids : Parties) (ps : List Permission) (t0 t1 t2 ends : ℕ)
    → IsNamed ids
    → IsList ps
    → t0 ≤ t1
    → t1 ≤ t2
    → t2 < ends
    → parse_authorization (stage ids active ps true t0 t2 ends (active_times t1 t2))
      ≡ ok (stage ids active ps true t0 t2 ends (active_times t1 t2))
unfolding parse_authorization is_base is_permission_list authorization_issues
    validate_timestamp_order validate_lifecycle_timestamp_sequence require_timestamp_not_before
    require_lifecycle_timestamp require_terminal_reason require_post_activation_terminal_history
    is_post_activation_terminal_authorization reject_forbidden_lifecycle_timestamps
    permission_issues visibility_issues resume_issues get_permission_list_issue
active_parses ids ps t0 t1 t2 ends named listed le le' live = ground arith

create-ok :
    (ids : Parties) (ps : List Permission) (t0 ttl : ℕ)
    → IsNamed ids
    → IsList ps
    → 1 ≤ ttl
    → ttl ≤ max_authorization_ttl_ms
    → create_pending_session_authorization ids.session_id ids.host_peer_id ids.viewer_peer_id ps ttl
        t0 ids.authorization_id
      ≡ ok (stage ids pending ps false t0 t0 (t0 + ttl) no_times)
unfolding create_pending_session_authorization assert_safe_authorization_ttl parse_permission_list
    get_permission_list_issue
create-ok ids ps t0 ttl named listed least most =
    let parses = pending_parses ids ps t0 (t0 + ttl) named listed (omega arith) in ground arith

approve-ok :
    (ids : Parties) (ps qs : List Permission) (t0 t1 ends : ℕ)
    → IsNamed ids
    → IsList ps
    → IsList qs
    → assert_all_requested ps qs ≡ ok tt
    → t0 ≤ t1
    → t1 < ends
    → approve_session_authorization (stage ids pending ps false t0 t0 ends no_times) qs t1
      ≡ ok (stage ids approved qs false t0 t1 ends (approved_times t1))
unfolding approve_session_authorization assert_mutable_pending assert_not_expired
    is_session_authorization_expired parse_permission_list get_permission_list_issue
approve-ok ids ps qs t0 t1 ends named listed granted requested le live =
    let before = pending_parses ids ps t0 ends named listed (omega arith) in
    let after = approved_parses ids qs t0 t1 ends named granted le live in ground arith

activate-ok :
    (ids : Parties) (qs : List Permission) (t0 t1 t2 ends : ℕ)
    → IsNamed ids
    → IsList qs
    → t0 ≤ t1
    → t1 ≤ t2
    → t2 < ends
    → activate_session_authorization
        (stage ids approved qs false t0 t1 ends (approved_times t1))
        true
        t2
      ≡ ok (stage ids active qs true t0 t2 ends (active_times t1 t2))
unfolding activate_session_authorization assert_not_expired is_session_authorization_expired
activate-ok ids qs t0 t1 t2 ends named granted le le' live =
    let before = approved_parses ids qs t0 t1 ends named granted le (omega arith) in
    let after = active_parses ids qs t0 t1 t2 ends named granted le le' live in ground arith

action-ok :
    (ids : Parties) (qs : List Permission) (t0 t1 t2 t3 ends : ℕ) (p : Permission)
    → IsNamed ids
    → IsList qs
    → t0 ≤ t1
    → t1 ≤ t2
    → t2 ≤ t3
    → t3 < ends
    → includes_permission qs p ≡ true
    → is_unavailable p ≡ false
    → assert_session_action_authorized
        (stage ids active qs true t0 t2 ends (active_times t1 t2))
        p
        t3
      ≡ ok (stage ids active qs true t0 t2 ends (active_times t1 t2))
unfolding assert_session_action_authorized expire_session_authorization
    is_session_authorization_expired parse_permission
action-ok ids qs t0 t1 t2 t3 ends p named granted a b c live held available =
    let after = active_parses ids qs t0 t1 t2 ends named granted a b (omega arith) in ground arith

-- The whole way: a request, its approval, the activation and an action.
unfoldable pub request_to_action :
    Parties
    → (requested granted : List Permission) → (ttl t0 t1 t2 t3 : ℕ) → Permission
    → Result SessionAuthorization
request_to_action ids requested granted ttl t0 t1 t2 t3 p = do
  a ←
      create_pending_session_authorization ids.session_id ids.host_peer_id ids.viewer_peer_id
        requested ttl t0 ids.authorization_id
  b ← approve_session_authorization a granted t1
  c ← activate_session_authorization b true t2
  assert_session_action_authorized c p t3

-- A viewer's request that the host approves, in whole or in part, and then shows, lets through each
-- permission that was granted and is available, while the time of the request lasts: for safe ids, a
-- lifetime in range, lists of permissions that can be asked for, a grant of what was requested, and
-- a clock that does not go back.
pub request_to_action-ok :
    (ids : Parties) (requested granted : List Permission) (ttl t0 t1 t2 t3 : ℕ) (p : Permission)
    → IsNamed ids
    → IsList requested
    → IsList granted
    → assert_all_requested requested granted ≡ ok tt
    → 1 ≤ ttl
    → ttl ≤ max_authorization_ttl_ms
    → t0 ≤ t1
    → t1 ≤ t2
    → t2 ≤ t3
    → t3 < t0 + ttl
    → includes_permission granted p ≡ true
    → is_unavailable p ≡ false
    → request_to_action ids requested granted ttl t0 t1 t2 t3 p
      ≡ ok (stage ids active granted true t0 t2 (t0 + ttl) (active_times t1 t2))
unfolding request_to_action
request_to_action-ok ids requested granted ttl t0 t1 t2 t3 p named asked given subset least most a b
      c live held available =
    rw (create-ok ids requested t0 ttl named asked least most) (
      rw
        (approve-ok ids requested granted t0 t1 (t0 + ttl) named asked given subset a (omega arith))
        (rw (activate-ok ids granted t0 t1 t2 (t0 + ttl) named given a b (omega arith))
          (action-ok ids granted t0 t1 t2 t3 (t0 + ttl) p named given a b c live held available)))
