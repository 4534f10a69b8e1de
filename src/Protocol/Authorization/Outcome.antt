-- ===== src/Protocol/Authorization/Outcome.antt =====
-- What each transition of an authorization returns when it does not throw, and what it asked for.
use Prim.Native.String.{◌++◌ as str_append}
use winbridge.Base.{
  ℕ, ◌≤◌, ◌<◌, ◌≡◌, ap, ◌∙◌, Bool, true, false, String, List, [], Option, some, ok, err, Failure,
  arith, nat_eq, length, if◌then◌else◌, Result-cases, inl, inr, ◌⊎◌,
}
use winbridge.Protocol.Session.{
  Permission, permission_text, includes_permission, parse_permission, parse_permission_list,
}
use winbridge.Protocol.Status.{pending, denied, approved, active, paused, revoked, terminated}
use winbridge.Protocol.Authorization.{
  denied_at, approved_at, activated_at, paused_at, resumed_at, revoked_at, terminated_at,
  SessionAuthorization, is_terminal, is_terminable,
}
use winbridge.Protocol.Authorization.Schema.{parse_authorization, authorization_issues, is_base}
use winbridge.Protocol.Authorization.Transitions.{
  is_session_authorization_expired, assert_not_expired, assert_mutable_pending,
  assert_all_requested, approve_session_authorization, deny_session_authorization,
  activate_session_authorization, revoke_session_permission, pause_session_authorization,
  resume_session_authorization, terminate_session_authorization, expire_session_authorization,
  as_expired, without_permission, stamp, reason_or,
}

pub parse_authorization-eq-ok :
    (a b : SessionAuthorization)
    → parse_authorization a ≡ ok b
    → (b ≡ a) × (is_base a ≡ true) × (authorization_issues a ≡ [])
unfolding parse_authorization
parse_authorization-eq-ok a b e = (ground arith, ground arith, ground arith)

pub parse-cases :
    (a : SessionAuthorization)
    → ((e : Failure) × (parse_authorization a ≡ err e)) ⊎ (parse_authorization a ≡ ok a)
parse-cases a = elim (Result-cases (parse_authorization a)) [
  | inl (e, refused) ↦ inl (e, refused)
  | inr (b, parsed) ↦ inr (parsed ∙ ap ok (parse_authorization-eq-ok a b parsed).0)
]

pub approve-eq-ok :
    (a b : SessionAuthorization) (granted : List Permission) (now : ℕ)
    → approve_session_authorization a granted now ≡ ok b
    → (a.status ≡ pending)
      × (now < a.expires_at)
      × (assert_all_requested a.permissions granted ≡ ok tt)
      × (parse_authorization b ≡ ok b)
      × (b ≡ record a {
        status = approved;
        permissions = granted;
        at = stamp approved_at now a.at;
        updated_at = now;
      })
unfolding approve_session_authorization assert_mutable_pending parse_permission_list
    assert_not_expired is_session_authorization_expired
approve-eq-ok a b granted now e =
    let whole = parse-cases a in
    let next = parse-cases (record a {
      status = approved;
      permissions = granted;
      at = stamp approved_at now a.at;
      updated_at = now;
    }) in
    (ground arith, ground arith, ground arith, ground arith, ground arith)

pub deny-eq-ok :
    (a b : SessionAuthorization) (reason : String) (now : ℕ)
    → deny_session_authorization a reason now ≡ ok b
    → (a.status ≡ pending)
      × (now < a.expires_at)
      × (parse_authorization b ≡ ok b)
      × (b ≡ record a {
        status = denied;
        permissions = [];
        reason = some reason;
        at = stamp denied_at now a.at;
        updated_at = now;
      })
unfolding deny_session_authorization assert_mutable_pending assert_not_expired
    is_session_authorization_expired
deny-eq-ok a b reason now e =
    let whole = parse-cases a in
    let next = parse-cases (record a {
      status = denied;
      permissions = [];
      reason = some reason;
      at = stamp denied_at now a.at;
      updated_at = now;
    }) in
    (ground arith, ground arith, ground arith, ground arith)

pub activate-eq-ok :
    (a b : SessionAuthorization) (visible : Bool) (now : ℕ)
    → activate_session_authorization a visible now ≡ ok b
    → (a.status ≡ approved)
      × (now < a.expires_at)
      × (visible ≡ true)
      × (parse_authorization b ≡ ok b)
      × (b ≡ record a {
        status = active;
        visible_to_host = true;
        at = stamp activated_at now a.at;
        updated_at = now;
      })
unfolding activate_session_authorization assert_not_expired is_session_authorization_expired
activate-eq-ok a b visible now e =
    let whole = parse-cases a in
    let next = parse-cases (record a {
      status = active;
      visible_to_host = true;
      at = stamp activated_at now a.at;
      updated_at = now;
    }) in
    (ground arith, ground arith, ground arith, ground arith, ground arith)

pub revoke-eq-ok :
    (a b : SessionAuthorization) (permission : Permission) (reason : Option String) (now : ℕ)
    → revoke_session_permission a permission reason now ≡ ok b
    → (is_terminable a.status ≡ true)
      × (now < a.expires_at)
      × (includes_permission a.permissions permission ≡ true)
      × (parse_authorization b ≡ ok b)
      × (b ≡ record a {
        status =
            (if nat_eq (length (without_permission permission a.permissions)) 0
              then revoked
              else a.status);
        permissions = without_permission permission a.permissions;
        at = stamp revoked_at now a.at;
        updated_at = now;
        reason = reason_or reason (str_append "Permission revoked: " (permission_text permission));
      })
unfolding revoke_session_permission parse_permission assert_not_expired
    is_session_authorization_expired
revoke-eq-ok a b permission reason now e =
    let whole = parse-cases a in
    let next = parse-cases (record a {
      status =
          (if nat_eq (length (without_permission permission a.permissions)) 0
            then revoked
            else a.status);
      permissions = without_permission permission a.permissions;
      at = stamp revoked_at now a.at;
      updated_at = now;
      reason = reason_or reason (str_append "Permission revoked: " (permission_text permission));
    }) in
    (ground arith, ground arith, ground arith, ground arith, ground arith)

pub pause-eq-ok :
    (a b : SessionAuthorization) (reason : Option String) (now : ℕ)
    → pause_session_authorization a reason now ≡ ok b
    → (a.status ≡ active)
      × (now < a.expires_at)
      × (parse_authorization b ≡ ok b)
      × (b ≡ record a {
        status = paused;
        at = stamp paused_at now a.at;
        updated_at = now;
        reason = reason_or reason "Host paused session";
      })
unfolding pause_session_authorization assert_not_expired is_session_authorization_expired
pause-eq-ok a b reason now e =
    let whole = parse-cases a in
    let next = parse-cases (record a {
      status = paused;
      at = stamp paused_at now a.at;
      updated_at = now;
      reason = reason_or reason "Host paused session";
    }) in
    (ground arith, ground arith, ground arith, ground arith)

pub resume-eq-ok :
    (a b : SessionAuthorization) (reason : Option String) (now : ℕ)
    → resume_session_authorization a reason now ≡ ok b
    → (a.status ≡ paused)
      × (now < a.expires_at)
      × (parse_authorization b ≡ ok b)
      × (b ≡ record a {
        status = active;
        at = stamp resumed_at now a.at;
        updated_at = now;
        reason = reason_or reason "Host resumed session";
      })
unfolding resume_session_authorization assert_not_expired is_session_authorization_expired
resume-eq-ok a b reason now e =
    let whole = parse-cases a in
    let next = parse-cases (record a {
      status = active;
      at = stamp resumed_at now a.at;
      updated_at = now;
      reason = reason_or reason "Host resumed session";
    }) in
    (ground arith, ground arith, ground arith, ground arith)

pub terminate-eq-ok :
    (a b : SessionAuthorization) (reason : String) (now : ℕ)
    → terminate_session_authorization a reason now ≡ ok b
    → (is_terminable a.status ≡ true)
      × (now < a.expires_at)
      × (parse_authorization b ≡ ok b)
      × (b ≡ record a {
        status = terminated;
        permissions = [];
        at = stamp terminated_at now a.at;
        updated_at = now;
        reason = some reason;
      })
unfolding terminate_session_authorization assert_not_expired is_session_authorization_expired
terminate-eq-ok a b reason now e =
    let whole = parse-cases a in
    let next = parse-cases (record a {
      status = terminated;
      permissions = [];
      at = stamp terminated_at now a.at;
      updated_at = now;
      reason = some reason;
    }) in
    (ground arith, ground arith, ground arith, ground arith)

-- An expiry changes nothing, or a live authorization whose end has come.
pub expire-eq-ok :
    (a b : SessionAuthorization) (now : ℕ)
    → expire_session_authorization a now ≡ ok b
    → (parse_authorization b ≡ ok b)
      × ((b ≡ a) ⊎ ((is_terminal a.status ≡ false) × (a.expires_at ≤ now) × (b ≡ as_expired a now)))
unfolding expire_session_authorization is_session_authorization_expired
expire-eq-ok a b now e =
    let whole = parse-cases a in
    let next = parse-cases (as_expired a now) in (ground arith, ground arith)
