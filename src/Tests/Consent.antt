-- ===== src/Tests/Consent.antt =====
-- An authorization from the request to its end, as instances of the theorems on it.
use winbridge.Base.{◌+◌, ◌≡◌, ◌≢◌, ◌↔◌, arith, refl, true, false, List, [], ◌∷◌, none, some, ok}
use winbridge.Protocol.Session.{
  Permission, screen_view, input_pointer, input_keyboard, includes_permission,
}
use winbridge.Protocol.Status.{pending, approved, active, terminated}
use winbridge.Protocol.Authorization.{SessionAuthorization, revoked_at, terminated_at}
use winbridge.Protocol.Authorization.Schema.{parse_authorization}
use winbridge.Protocol.Authorization.Transitions.{
  stamp, no_times, assert_all_requested, create_pending_session_authorization,
  assert_session_action_authorized, revoke_session_permission, max_authorization_ttl_ms,
}
use winbridge.Protocol.Authorization.Approval.{
  Parties, stage, approved_times, active_times, request_to_action, request_to_action-ok,
}
use winbridge.Protocol.Authorization.Consent.{
  Call, approve, activate, pause, resume, expire, transition, IsChange, transition-IsChange,
}
use winbridge.Protocol.Authorization.Life.{
  run, IsWithin, run-IsWithin, terminal-final, IsAllowed, assert_session_action_authorized_iff,
}
use winbridge.Protocol.Authorization.History.{
  accepted_calls, IsConsented, assert_session_action_authorized-IsConsented,
}
use winbridge.Protocol.Authorization.Revocation.{revoke-forever}

abbrev parties : Parties
parties = record {
  authorization_id = "authz-0001";
  session_id = "session-1";
  host_peer_id = "host-1";
  viewer_peer_id = "viewer-1";
}

abbrev asked : List Permission
asked = screen_view ∷ input_pointer ∷ input_keyboard ∷ []

abbrev given : List Permission
given = screen_view ∷ input_pointer ∷ []

abbrev requested : SessionAuthorization
requested = stage parties pending asked false 100 100 1_900 no_times

abbrev approved_one : SessionAuthorization
approved_one = stage parties approved given false 100 150 1_900 (approved_times 150)

abbrev active_one : SessionAuthorization
active_one = stage parties active given true 100 200 1_900 (active_times 150 200)

abbrev pointer_revoked : SessionAuthorization
pointer_revoked = record active_one {
  permissions = screen_view ∷ [];
  updated_at = 250;
  at = stamp revoked_at 250 (active_times 150 200);
  reason = some "No control";
}

abbrev ended : SessionAuthorization
ended = record active_one {
  status = terminated;
  permissions = [];
  updated_at = 300;
  at = stamp terminated_at 300 (active_times 150 200);
  reason = some "Done";
}

all_asked : assert_all_requested asked given ≡ ok tt
unfolding assert_all_requested
all_asked = refl

request_to_action-ok_example :
    request_to_action parties asked given 1_800 100 150 200 250 input_pointer ≡ ok active_one
unfolding winbridge.Protocol.Identifier.is_safe_identifier
request_to_action-ok_example =
    request_to_action-ok parties asked given 1_800 100 150 200 250 input_pointer
      (refl, refl, refl, refl) (ground arith, refl, refl) (ground arith, refl, refl) all_asked
      (omega arith) (omega arith) (omega arith) (omega arith) (omega arith) (omega arith) refl refl

abbrev to_active : List Call
to_active = approve given 150 ∷ activate true 200 ∷ []

request_made :
    create_pending_session_authorization "session-1" "host-1" "viewer-1" asked 1_800 100
      "authz-0001"
    ≡ ok requested
unfolding parse_authorization create_pending_session_authorization assert_session_action_authorized
    revoke_session_permission transition run assert_all_requested
    winbridge.Protocol.Authorization.Schema.is_base
    winbridge.Protocol.Authorization.Schema.authorization_issues
    winbridge.Protocol.Authorization.Schema.validate_timestamp_order
    winbridge.Protocol.Authorization.Schema.validate_lifecycle_timestamp_sequence
    winbridge.Protocol.Authorization.Schema.require_timestamp_not_before
    winbridge.Protocol.Authorization.Schema.permission_issues
    winbridge.Protocol.Authorization.Schema.visibility_issues
    winbridge.Protocol.Authorization.Schema.require_lifecycle_timestamp
    winbridge.Protocol.Authorization.Schema.require_terminal_reason
    winbridge.Protocol.Authorization.Schema.require_post_activation_terminal_history
    winbridge.Protocol.Authorization.Schema.is_post_activation_terminal_authorization
    winbridge.Protocol.Authorization.Schema.reject_forbidden_lifecycle_timestamps
    winbridge.Protocol.Authorization.Schema.resume_issues
    winbridge.Protocol.Authorization.Transitions.approve_session_authorization
    winbridge.Protocol.Authorization.Transitions.activate_session_authorization
    winbridge.Protocol.Authorization.Transitions.expire_session_authorization
    winbridge.Protocol.Authorization.Transitions.assert_mutable_pending
    winbridge.Protocol.Authorization.Transitions.assert_not_expired
    winbridge.Protocol.Authorization.Transitions.is_session_authorization_expired
    winbridge.Protocol.Authorization.Transitions.assert_safe_authorization_ttl
    winbridge.Protocol.Session.is_permission_list
    winbridge.Protocol.Session.get_permission_list_issue
    winbridge.Protocol.Session.parse_permission_list winbridge.Protocol.Session.parse_permission
    winbridge.Protocol.Identifier.is_safe_identifier
    winbridge.Protocol.Reason.is_authorization_reason
request_made = refl

pointer_allowed :
    assert_session_action_authorized (run to_active requested) input_pointer 250 ≡ ok active_one
unfolding parse_authorization create_pending_session_authorization assert_session_action_authorized
    revoke_session_permission transition run assert_all_requested
    winbridge.Protocol.Authorization.Schema.is_base
    winbridge.Protocol.Authorization.Schema.authorization_issues
    winbridge.Protocol.Authorization.Schema.validate_timestamp_order
    winbridge.Protocol.Authorization.Schema.validate_lifecycle_timestamp_sequence
    winbridge.Protocol.Authorization.Schema.require_timestamp_not_before
    winbridge.Protocol.Authorization.Schema.permission_issues
    winbridge.Protocol.Authorization.Schema.visibility_issues
    winbridge.Protocol.Authorization.Schema.require_lifecycle_timestamp
    winbridge.Protocol.Authorization.Schema.require_terminal_reason
    winbridge.Protocol.Authorization.Schema.require_post_activation_terminal_history
    winbridge.Protocol.Authorization.Schema.is_post_activation_terminal_authorization
    winbridge.Protocol.Authorization.Schema.reject_forbidden_lifecycle_timestamps
    winbridge.Protocol.Authorization.Schema.resume_issues
    winbridge.Protocol.Authorization.Transitions.approve_session_authorization
    winbridge.Protocol.Authorization.Transitions.activate_session_authorization
    winbridge.Protocol.Authorization.Transitions.expire_session_authorization
    winbridge.Protocol.Authorization.Transitions.assert_mutable_pending
    winbridge.Protocol.Authorization.Transitions.assert_not_expired
    winbridge.Protocol.Authorization.Transitions.is_session_authorization_expired
    winbridge.Protocol.Authorization.Transitions.assert_safe_authorization_ttl
    winbridge.Protocol.Session.is_permission_list
    winbridge.Protocol.Session.get_permission_list_issue
    winbridge.Protocol.Session.parse_permission_list winbridge.Protocol.Session.parse_permission
    winbridge.Protocol.Identifier.is_safe_identifier
    winbridge.Protocol.Reason.is_authorization_reason
pointer_allowed = refl

assert_session_action_authorized-IsConsented_example :
    IsConsented asked (100 + 1_800) (accepted_calls to_active requested) input_pointer 250
assert_session_action_authorized-IsConsented_example =
    assert_session_action_authorized-IsConsented "session-1" "host-1" "viewer-1" asked 1_800 100
      "authz-0001" requested active_one to_active input_pointer 250 request_made pointer_allowed

active_allowed : assert_session_action_authorized active_one input_pointer 250 ≡ ok active_one
unfolding parse_authorization create_pending_session_authorization assert_session_action_authorized
    revoke_session_permission transition run assert_all_requested
    winbridge.Protocol.Authorization.Schema.is_base
    winbridge.Protocol.Authorization.Schema.authorization_issues
    winbridge.Protocol.Authorization.Schema.validate_timestamp_order
    winbridge.Protocol.Authorization.Schema.validate_lifecycle_timestamp_sequence
    winbridge.Protocol.Authorization.Schema.require_timestamp_not_before
    winbridge.Protocol.Authorization.Schema.permission_issues
    winbridge.Protocol.Authorization.Schema.visibility_issues
    winbridge.Protocol.Authorization.Schema.require_lifecycle_timestamp
    winbridge.Protocol.Authorization.Schema.require_terminal_reason
    winbridge.Protocol.Authorization.Schema.require_post_activation_terminal_history
    winbridge.Protocol.Authorization.Schema.is_post_activation_terminal_authorization
    winbridge.Protocol.Authorization.Schema.reject_forbidden_lifecycle_timestamps
    winbridge.Protocol.Authorization.Schema.resume_issues
    winbridge.Protocol.Authorization.Transitions.approve_session_authorization
    winbridge.Protocol.Authorization.Transitions.activate_session_authorization
    winbridge.Protocol.Authorization.Transitions.expire_session_authorization
    winbridge.Protocol.Authorization.Transitions.assert_mutable_pending
    winbridge.Protocol.Authorization.Transitions.assert_not_expired
    winbridge.Protocol.Authorization.Transitions.is_session_authorization_expired
    winbridge.Protocol.Authorization.Transitions.assert_safe_authorization_ttl
    winbridge.Protocol.Session.is_permission_list
    winbridge.Protocol.Session.get_permission_list_issue
    winbridge.Protocol.Session.parse_permission_list winbridge.Protocol.Session.parse_permission
    winbridge.Protocol.Identifier.is_safe_identifier
    winbridge.Protocol.Reason.is_authorization_reason
active_allowed = refl

assert_session_action_authorized_iff_example :
    (assert_session_action_authorized active_one input_pointer 250 ≡ ok active_one)
    ↔ (IsAllowed active_one input_pointer 250 × (active_one ≡ active_one))
assert_session_action_authorized_iff_example =
    assert_session_action_authorized_iff active_one active_one input_pointer 250

approval_made : transition (approve given 150) requested ≡ ok approved_one
unfolding parse_authorization create_pending_session_authorization assert_session_action_authorized
    revoke_session_permission transition run assert_all_requested
    winbridge.Protocol.Authorization.Schema.is_base
    winbridge.Protocol.Authorization.Schema.authorization_issues
    winbridge.Protocol.Authorization.Schema.validate_timestamp_order
    winbridge.Protocol.Authorization.Schema.validate_lifecycle_timestamp_sequence
    winbridge.Protocol.Authorization.Schema.require_timestamp_not_before
    winbridge.Protocol.Authorization.Schema.permission_issues
    winbridge.Protocol.Authorization.Schema.visibility_issues
    winbridge.Protocol.Authorization.Schema.require_lifecycle_timestamp
    winbridge.Protocol.Authorization.Schema.require_terminal_reason
    winbridge.Protocol.Authorization.Schema.require_post_activation_terminal_history
    winbridge.Protocol.Authorization.Schema.is_post_activation_terminal_authorization
    winbridge.Protocol.Authorization.Schema.reject_forbidden_lifecycle_timestamps
    winbridge.Protocol.Authorization.Schema.resume_issues
    winbridge.Protocol.Authorization.Transitions.approve_session_authorization
    winbridge.Protocol.Authorization.Transitions.activate_session_authorization
    winbridge.Protocol.Authorization.Transitions.expire_session_authorization
    winbridge.Protocol.Authorization.Transitions.assert_mutable_pending
    winbridge.Protocol.Authorization.Transitions.assert_not_expired
    winbridge.Protocol.Authorization.Transitions.is_session_authorization_expired
    winbridge.Protocol.Authorization.Transitions.assert_safe_authorization_ttl
    winbridge.Protocol.Session.is_permission_list
    winbridge.Protocol.Session.get_permission_list_issue
    winbridge.Protocol.Session.parse_permission_list winbridge.Protocol.Session.parse_permission
    winbridge.Protocol.Identifier.is_safe_identifier
    winbridge.Protocol.Reason.is_authorization_reason
approval_made = refl

transition-IsChange_example : IsChange requested approved_one
transition-IsChange_example =
    transition-IsChange (approve given 150) requested approved_one approval_made

run-IsWithin_example : IsWithin requested (run to_active requested)
run-IsWithin_example = run-IsWithin to_active requested

pointer_taken :
    revoke_session_permission active_one input_pointer (some "No control") 250 ≡ ok pointer_revoked
unfolding parse_authorization create_pending_session_authorization assert_session_action_authorized
    revoke_session_permission transition run assert_all_requested
    winbridge.Protocol.Authorization.Schema.is_base
    winbridge.Protocol.Authorization.Schema.authorization_issues
    winbridge.Protocol.Authorization.Schema.validate_timestamp_order
    winbridge.Protocol.Authorization.Schema.validate_lifecycle_timestamp_sequence
    winbridge.Protocol.Authorization.Schema.require_timestamp_not_before
    winbridge.Protocol.Authorization.Schema.permission_issues
    winbridge.Protocol.Authorization.Schema.visibility_issues
    winbridge.Protocol.Authorization.Schema.require_lifecycle_timestamp
    winbridge.Protocol.Authorization.Schema.require_terminal_reason
    winbridge.Protocol.Authorization.Schema.require_post_activation_terminal_history
    winbridge.Protocol.Authorization.Schema.is_post_activation_terminal_authorization
    winbridge.Protocol.Authorization.Schema.reject_forbidden_lifecycle_timestamps
    winbridge.Protocol.Authorization.Schema.resume_issues
    winbridge.Protocol.Authorization.Transitions.approve_session_authorization
    winbridge.Protocol.Authorization.Transitions.activate_session_authorization
    winbridge.Protocol.Authorization.Transitions.expire_session_authorization
    winbridge.Protocol.Authorization.Transitions.assert_mutable_pending
    winbridge.Protocol.Authorization.Transitions.assert_not_expired
    winbridge.Protocol.Authorization.Transitions.is_session_authorization_expired
    winbridge.Protocol.Authorization.Transitions.assert_safe_authorization_ttl
    winbridge.Protocol.Session.is_permission_list
    winbridge.Protocol.Session.get_permission_list_issue
    winbridge.Protocol.Session.parse_permission_list winbridge.Protocol.Session.parse_permission
    winbridge.Protocol.Identifier.is_safe_identifier
    winbridge.Protocol.Reason.is_authorization_reason
pointer_taken = refl

revoke-forever_example :
    assert_session_action_authorized
      (run (pause none 260 ∷ resume none 270 ∷ []) pointer_revoked)
      input_pointer
      280
    ≢ ok active_one
revoke-forever_example =
    revoke-forever active_one pointer_revoked active_one input_pointer (some "No control") 250 280
      (pause none 260 ∷ resume none 270 ∷ []) pointer_taken

ended_stays : transition (expire 5_000) ended ≡ ok ended
unfolding parse_authorization create_pending_session_authorization assert_session_action_authorized
    revoke_session_permission transition run assert_all_requested
    winbridge.Protocol.Authorization.Schema.is_base
    winbridge.Protocol.Authorization.Schema.authorization_issues
    winbridge.Protocol.Authorization.Schema.validate_timestamp_order
    winbridge.Protocol.Authorization.Schema.validate_lifecycle_timestamp_sequence
    winbridge.Protocol.Authorization.Schema.require_timestamp_not_before
    winbridge.Protocol.Authorization.Schema.permission_issues
    winbridge.Protocol.Authorization.Schema.visibility_issues
    winbridge.Protocol.Authorization.Schema.require_lifecycle_timestamp
    winbridge.Protocol.Authorization.Schema.require_terminal_reason
    winbridge.Protocol.Authorization.Schema.require_post_activation_terminal_history
    winbridge.Protocol.Authorization.Schema.is_post_activation_terminal_authorization
    winbridge.Protocol.Authorization.Schema.reject_forbidden_lifecycle_timestamps
    winbridge.Protocol.Authorization.Schema.resume_issues
    winbridge.Protocol.Authorization.Transitions.approve_session_authorization
    winbridge.Protocol.Authorization.Transitions.activate_session_authorization
    winbridge.Protocol.Authorization.Transitions.expire_session_authorization
    winbridge.Protocol.Authorization.Transitions.assert_mutable_pending
    winbridge.Protocol.Authorization.Transitions.assert_not_expired
    winbridge.Protocol.Authorization.Transitions.is_session_authorization_expired
    winbridge.Protocol.Authorization.Transitions.assert_safe_authorization_ttl
    winbridge.Protocol.Session.is_permission_list
    winbridge.Protocol.Session.get_permission_list_issue
    winbridge.Protocol.Session.parse_permission_list winbridge.Protocol.Session.parse_permission
    winbridge.Protocol.Identifier.is_safe_identifier
    winbridge.Protocol.Reason.is_authorization_reason
ended_stays = refl

terminal-final_example : ended ≡ ended
terminal-final_example = terminal-final (expire 5_000) ended ended refl ended_stays
