-- ===== src/Protocol/Authorization/Life.antt =====
-- The life of an authorization: a run of calls, each of which replaces the authorization, or throws
-- and leaves it.
use winbridge.Base.{
  ℕ, ◌<◌, ◌≡◌, ◌↔◌, refl, ap, sym, ◌∙◌, true, false, List, [], ◌∷◌, ok, err, arith, Result-cases,
  inl, inr,
}
use winbridge.Protocol.Session.{Permission, is_unavailable, includes_permission, parse_permission}
use winbridge.Protocol.Status.{active}
use winbridge.Protocol.Authorization.{SessionAuthorization, is_terminal}
use winbridge.Protocol.Authorization.Schema.{parse_authorization}
use winbridge.Protocol.Authorization.Transitions.{
  assert_session_action_authorized, expire_session_authorization, is_session_authorization_expired,
  as_expired,
}
use winbridge.Protocol.Authorization.Outcome.{
  parse-cases, approve-eq-ok, deny-eq-ok, activate-eq-ok, revoke-eq-ok, pause-eq-ok, resume-eq-ok,
  terminate-eq-ok, expire-eq-ok,
}
use winbridge.Protocol.Authorization.Consent.{
  Call, approve, deny, activate, revoke, pause, resume, terminate, expire, transition, IsSameGrant,
  IsNarrower, transition-IsChange,
}

-- The authorization at the end of a run.
unfoldable pub run : List Call → SessionAuthorization → SessionAuthorization
run [] a = a
run (c ∷ cs) a = elim (transition c a) [ ok b ↦ run cs b | err e ↦ run cs a ]

-- What a run may do.
pub record IsWithin (a b : SessionAuthorization) : Type 0 where
  pub grant : IsSameGrant a b
  pub narrower : IsNarrower b.permissions a.permissions

same_IsWithin : (a : SessionAuthorization) → IsWithin a a
same_IsWithin a = record {
  grant = record {
    authorization_id = refl;
    session_id = refl;
    host_peer_id = refl;
    viewer_peer_id = refl;
    created_at = refl;
    expires_at = refl;
  };
  narrower = λ p h. h;
}

IsSameGrant-trans :
    (a b c : SessionAuthorization) → IsSameGrant a b → IsSameGrant b c → IsSameGrant a c
IsSameGrant-trans a b c f g = record {
  authorization_id = g.authorization_id ∙ f.authorization_id;
  session_id = g.session_id ∙ f.session_id;
  host_peer_id = g.host_peer_id ∙ f.host_peer_id;
  viewer_peer_id = g.viewer_peer_id ∙ f.viewer_peer_id;
  created_at = g.created_at ∙ f.created_at;
  expires_at = g.expires_at ∙ f.expires_at;
}

-- However an authorization lives, it stays with its session, its peers and its end, and gains no
-- permission.
pub run-IsWithin : (cs : List Call) (a : SessionAuthorization) → IsWithin a (run cs a)
unfolding run
run-IsWithin [] a = same_IsWithin a
run-IsWithin (c ∷ cs) a = elim (Result-cases (transition c a)) [
  | inl (e, refused) ↦ rw (refused, run) (run-IsWithin cs a)
  | inr (b, changed) ↦
      let change = transition-IsChange c a b changed in
      let rest = run-IsWithin cs b in
      rw (changed, run)
        (record {
          grant = IsSameGrant-trans a b (run cs b) change.grant rest.grant;
          narrower = λ p h. change.narrower p (rest.narrower p h);
        })
]

-- An authorization in a terminal status is final: a transition of it throws or returns it
-- unchanged.
pub terminal-final :
    (c : Call) (a b : SessionAuthorization)
    → is_terminal a.status ≡ true
    → transition c a ≡ ok b
    → b ≡ a
unfolding transition
terminal-final (approve granted now) a b h e =
    let f = approve-eq-ok a b granted now e in ground arith
terminal-final (deny reason now) a b h e = let f = deny-eq-ok a b reason now e in ground arith
terminal-final (activate visible now) a b h e =
    let f = activate-eq-ok a b visible now e in ground arith
terminal-final (revoke permission reason now) a b h e =
    let f = revoke-eq-ok a b permission reason now e in ground arith
terminal-final (pause reason now) a b h e = let f = pause-eq-ok a b reason now e in ground arith
terminal-final (resume reason now) a b h e = let f = resume-eq-ok a b reason now e in ground arith
terminal-final (terminate reason now) a b h e =
    let f = terminate-eq-ok a b reason now e in ground arith
terminal-final (expire now) a b h e = let f = expire-eq-ok a b now e in ground arith

-- What an action that is let through stands on.
pub record IsAllowed (a : SessionAuthorization) (permission : Permission) (now : ℕ) : Type 0 where
  pub valid : parse_authorization a ≡ ok a
  pub is_active : a.status ≡ active
  pub visible : a.visible_to_host ≡ true
  pub live : now < a.expires_at
  pub held : includes_permission a.permissions permission ≡ true
  pub available : is_unavailable permission ≡ false

IsAllowed-of_assert :
    (a b : SessionAuthorization) (p : Permission) (now : ℕ)
    → assert_session_action_authorized a p now ≡ ok b
    → IsAllowed a p now × (b ≡ a)
unfolding assert_session_action_authorized expire_session_authorization
    is_session_authorization_expired parse_permission
IsAllowed-of_assert a b p now e =
    let whole = parse-cases a in
    let next = parse-cases (as_expired a now) in
    (
      record {
        valid = ground arith;
        is_active = ground arith;
        visible = ground arith;
        live = ground arith;
        held = ground arith;
        available = ground arith;
      },
      ground arith,
    )

assert_of_allowed :
    (a : SessionAuthorization) (p : Permission) (now : ℕ)
    → IsAllowed a p now
    → assert_session_action_authorized a p now ≡ ok a
unfolding assert_session_action_authorized expire_session_authorization
    is_session_authorization_expired parse_permission
assert_of_allowed a p now h = ground arith

-- An action is let through exactly when its authorization is one that the schema accepts, active,
-- shown to the host, before its end, with that permission, and the permission is available. The
-- authorization comes back unchanged.
pub assert_session_action_authorized_iff :
    (a b : SessionAuthorization) (p : Permission) (now : ℕ)
    → (assert_session_action_authorized a p now ≡ ok b) ↔ (IsAllowed a p now × (b ≡ a))
assert_session_action_authorized_iff a b p now =
    (IsAllowed-of_assert a b p now, λ q. assert_of_allowed a p now q.0 ∙ ap ok (sym q.1))
