-- ===== src/Protocol/Authorization/Consent.antt =====
-- What a transition of an authorization may change: a relation between what it takes and what it
-- returns.
use winbridge.Base.{
  ℕ, ◌≡◌, ap, sym, subst, Bool, true, false, not, String, List, [], ◌∷◌, Option, Result, ok, arith,
  keep, any, if◌then◌else◌, inl, inr, ◌⊎◌,
}
use winbridge.Protocol.Session.{Permission, permission_eq, includes_permission}
use winbridge.Protocol.Status.{
  Status, pending, denied, approved, active, paused, revoked, terminated, expired,
}
use winbridge.Protocol.Authorization.{Field, SessionAuthorization, is_terminal, is_terminable}
use winbridge.Protocol.Authorization.Schema.{parse_authorization}
use winbridge.Protocol.Authorization.Transitions.{
  assert_all_requested, approve_session_authorization, deny_session_authorization,
  activate_session_authorization, revoke_session_permission, pause_session_authorization,
  resume_session_authorization, terminate_session_authorization, expire_session_authorization,
  without_permission,
}
use winbridge.Protocol.Authorization.Outcome.{
  approve-eq-ok, deny-eq-ok, activate-eq-ok, revoke-eq-ok, pause-eq-ok, resume-eq-ok,
  terminate-eq-ok, expire-eq-ok,
}

-- A call of a transition, with its arguments.
pub data Call : Type 0 where
  approve : List Permission → ℕ → Call
  deny : String → ℕ → Call
  activate : Bool → ℕ → Call
  revoke : Permission → Option String → ℕ → Call
  pause : Option String → ℕ → Call
  resume : Option String → ℕ → Call
  terminate : String → ℕ → Call
  expire : ℕ → Call

unfoldable pub transition : Call → SessionAuthorization → Result SessionAuthorization
transition (approve granted now) a = approve_session_authorization a granted now
transition (deny reason now) a = deny_session_authorization a reason now
transition (activate visible now) a = activate_session_authorization a visible now
transition (revoke permission reason now) a = revoke_session_permission a permission reason now
transition (pause reason now) a = pause_session_authorization a reason now
transition (resume reason now) a = resume_session_authorization a reason now
transition (terminate reason now) a = terminate_session_authorization a reason now
transition (expire now) a = expire_session_authorization a now

-- The arrows of the state machine.
pub data Arrow : Status → Status → Type 0 where
  to_approved : Arrow pending approved
  to_denied : Arrow pending denied
  to_active : Arrow approved active
  to_paused : Arrow active paused
  to_resumed : Arrow paused active
  to_revoked : (s : Status) → is_terminable s ≡ true → Arrow s revoked
  to_terminated : (s : Status) → is_terminable s ≡ true → Arrow s terminated
  to_expired : (s : Status) → is_terminal s ≡ false → Arrow s expired
  narrowed : (s : Status) → is_terminable s ≡ true → Arrow s s

-- The identities, the creation and the end of an authorization.
pub record IsSameGrant (a b : SessionAuthorization) : Type 0 where
  pub authorization_id : b.authorization_id ≡ a.authorization_id
  pub session_id : b.session_id ≡ a.session_id
  pub host_peer_id : b.host_peer_id ≡ a.host_peer_id
  pub viewer_peer_id : b.viewer_peer_id ≡ a.viewer_peer_id
  pub created_at : b.created_at ≡ a.created_at
  pub expires_at : b.expires_at ≡ a.expires_at

abbrev pub IsNarrower : List Permission → List Permission → Type 0
IsNarrower qs ps =
    (p : Permission) → includes_permission qs p ≡ true → includes_permission ps p ≡ true

-- What one transition may do.
pub record IsChange (a b : SessionAuthorization) : Type 0 where
  pub grant : IsSameGrant a b
  pub narrower : IsNarrower b.permissions a.permissions
  pub valid : parse_authorization b ≡ ok b
  pub arrow : (b ≡ a) ⊎ Arrow a.status b.status

permission_eq-eq : (p q : Permission) → permission_eq p q ≡ true → p ≡ q
permission_eq-eq p q h = ground arith

assert_all_requested-IsNarrower :
    (requested granted : List Permission)
    → assert_all_requested requested granted ≡ ok tt
    → IsNarrower granted requested
unfolding assert_all_requested
assert_all_requested-IsNarrower requested [] e p h = ground arith
assert_all_requested-IsNarrower requested (q ∷ qs) e p h =
    let same = permission_eq-eq p q in
    let rest : includes_permission qs p ≡ true → includes_permission requested p ≡ true =
      assert_all_requested-IsNarrower requested qs (ground arith) p in
    ground arith

any-keep : {A : Type 0} (f g : A → Bool) (xs : List A) → any f (keep g xs) ≡ true → any f xs ≡ true
any-keep f g [] h = h
any-keep f g (x ∷ xs) h = ground (arith, any-keep f g xs)

without-IsNarrower :
    (q : Permission) (ps : List Permission) → IsNarrower (without_permission q ps) ps
without-IsNarrower q ps p h =
    any-keep (permission_eq p) (λ existing. not (permission_eq existing q)) ps h

-- What an update of the status, the permissions, the times and the reason keeps.
same_grant :
    (a b : SessionAuthorization) (status : Status) (permissions : List Permission) (visible : Bool)
    (updated : ℕ) (times : Field → Option ℕ) (reason : Option String)
    → b ≡ record a {
      status = status;
      permissions = permissions;
      visible_to_host = visible;
      updated_at = updated;
      at = times;
      reason = reason;
    }
    → IsSameGrant a b
same_grant a b status permissions visible updated times reason e = record {
  authorization_id = ap (λ (s : SessionAuthorization). s.authorization_id) e;
  session_id = ap (λ (s : SessionAuthorization). s.session_id) e;
  host_peer_id = ap (λ (s : SessionAuthorization). s.host_peer_id) e;
  viewer_peer_id = ap (λ (s : SessionAuthorization). s.viewer_peer_id) e;
  created_at = ap (λ (s : SessionAuthorization). s.created_at) e;
  expires_at = ap (λ (s : SessionAuthorization). s.expires_at) e;
}

IsNarrower-of : (qs rs ps : List Permission) → qs ≡ rs → IsNarrower rs ps → IsNarrower qs ps
IsNarrower-of qs rs ps e h = subst (λ xs. IsNarrower xs ps) (sym e) h

status_of : {a b : SessionAuthorization} → b ≡ a → b.status ≡ a.status
status_of e = ap (λ (s : SessionAuthorization). s.status) e

permissions_of : {a b : SessionAuthorization} → b ≡ a → b.permissions ≡ a.permissions
permissions_of e = ap (λ (s : SessionAuthorization). s.permissions) e

none_IsNarrower : (ps : List Permission) → IsNarrower [] ps
none_IsNarrower ps p h = ground arith

-- A change that is written as an update is a change, if its permissions and its arrow are.
IsChange-of :
    (a b : SessionAuthorization) (status : Status) (permissions : List Permission) (visible : Bool)
    (updated : ℕ) (times : Field → Option ℕ) (reason : Option String)
    → b ≡ record a {
      status = status;
      permissions = permissions;
      visible_to_host = visible;
      updated_at = updated;
      at = times;
      reason = reason;
    }
    → parse_authorization b ≡ ok b
    → IsNarrower permissions a.permissions
    → Arrow a.status status
    → IsChange a b
IsChange-of a b status permissions visible updated times reason e valid narrower arrow = record {
  grant = same_grant a b status permissions visible updated times reason e;
  narrower = IsNarrower-of b.permissions permissions a.permissions (permissions_of e) narrower;
  valid = valid;
  arrow = inr (subst (Arrow a.status) (sym (status_of e)) arrow);
}

arrow_from : (s t u : Status) → s ≡ t → Arrow t u → Arrow s u
arrow_from s t u e arrow = subst (λ v. Arrow v u) (sym e) arrow

approve-IsChange :
    (a b : SessionAuthorization) (granted : List Permission) (now : ℕ)
    → approve_session_authorization a granted now ≡ ok b
    → IsChange a b
approve-IsChange a b granted now e =
    let (from, live, requested, valid, change) = approve-eq-ok a b granted now e in
    IsChange-of a b _ _ _ _ _ _ change valid
      (assert_all_requested-IsNarrower a.permissions granted requested)
      (arrow_from _ _ _ from to_approved)

deny-IsChange :
    (a b : SessionAuthorization) (reason : String) (now : ℕ)
    → deny_session_authorization a reason now ≡ ok b
    → IsChange a b
deny-IsChange a b reason now e =
    let (from, live, valid, change) = deny-eq-ok a b reason now e in
    IsChange-of a b _ _ _ _ _ _ change valid (none_IsNarrower a.permissions)
      (arrow_from _ _ _ from to_denied)

activate-IsChange :
    (a b : SessionAuthorization) (visible : Bool) (now : ℕ)
    → activate_session_authorization a visible now ≡ ok b
    → IsChange a b
activate-IsChange a b visible now e =
    let (from, live, shown, valid, change) = activate-eq-ok a b visible now e in
    IsChange-of a b _ _ _ _ _ _ change valid (λ p h. h) (arrow_from _ _ _ from to_active)

pause-IsChange :
    (a b : SessionAuthorization) (reason : Option String) (now : ℕ)
    → pause_session_authorization a reason now ≡ ok b
    → IsChange a b
pause-IsChange a b reason now e =
    let (from, live, valid, change) = pause-eq-ok a b reason now e in
    IsChange-of a b _ _ _ _ _ _ change valid (λ p h. h) (arrow_from _ _ _ from to_paused)

resume-IsChange :
    (a b : SessionAuthorization) (reason : Option String) (now : ℕ)
    → resume_session_authorization a reason now ≡ ok b
    → IsChange a b
resume-IsChange a b reason now e =
    let (from, live, valid, change) = resume-eq-ok a b reason now e in
    IsChange-of a b _ _ _ _ _ _ change valid (λ p h. h) (arrow_from _ _ _ from to_resumed)

terminate-IsChange :
    (a b : SessionAuthorization) (reason : String) (now : ℕ)
    → terminate_session_authorization a reason now ≡ ok b
    → IsChange a b
terminate-IsChange a b reason now e =
    let (from, live, valid, change) = terminate-eq-ok a b reason now e in
    IsChange-of a b _ _ _ _ _ _ change valid (none_IsNarrower a.permissions)
      (to_terminated a.status from)

revoke_arrow : (b : Bool) (s : Status) → is_terminable s ≡ true → Arrow s (if b then revoked else s)
revoke_arrow true s h = to_revoked s h
revoke_arrow false s h = narrowed s h

revoke-IsChange :
    (a b : SessionAuthorization) (permission : Permission) (reason : Option String) (now : ℕ)
    → revoke_session_permission a permission reason now ≡ ok b
    → IsChange a b
revoke-IsChange a b permission reason now e =
    let (from, live, held, valid, change) = revoke-eq-ok a b permission reason now e in
    IsChange-of a b _ _ _ _ _ _ change valid (without-IsNarrower permission a.permissions)
      (revoke_arrow _ a.status from)

same-IsChange : (a b : SessionAuthorization) → b ≡ a → parse_authorization b ≡ ok b → IsChange a b
same-IsChange a b e valid = record {
  grant = same_grant a b _ _ _ _ _ _ e;
  narrower = IsNarrower-of b.permissions a.permissions a.permissions (permissions_of e) (λ p h. h);
  valid = valid;
  arrow = inl e;
}

expire-IsChange :
    (a b : SessionAuthorization) (now : ℕ)
    → expire_session_authorization a now ≡ ok b
    → IsChange a b
expire-IsChange a b now e =
    let (valid, what) = expire-eq-ok a b now e in
    elim what [
      | inl same ↦ same-IsChange a b same valid
      | inr (live, over, change) ↦
          IsChange-of a b _ _ _ _ _ _ change valid (none_IsNarrower a.permissions)
            (to_expired a.status live)
    ]

-- A transition that succeeds returns an authorization that the schema accepts, for the same
-- session, peers and end, with no permission that was not there before, and it stays where it is
-- or follows an arrow of the state machine.
pub transition-IsChange :
    (c : Call) (a b : SessionAuthorization) → transition c a ≡ ok b → IsChange a b
unfolding transition
transition-IsChange (approve granted now) a b e = approve-IsChange a b granted now e
transition-IsChange (deny reason now) a b e = deny-IsChange a b reason now e
transition-IsChange (activate visible now) a b e = activate-IsChange a b visible now e
transition-IsChange (revoke permission reason now) a b e =
    revoke-IsChange a b permission reason now e
transition-IsChange (pause reason now) a b e = pause-IsChange a b reason now e
transition-IsChange (resume reason now) a b e = resume-IsChange a b reason now e
transition-IsChange (terminate reason now) a b e = terminate-IsChange a b reason now e
transition-IsChange (expire now) a b e = expire-IsChange a b now e
