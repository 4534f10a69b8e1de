-- ===== src/Protocol/Authorization/Revocation.antt =====
-- What a revocation rules out.
use winbridge.Base.{
  ℕ, ◌≡◌, ◌≢◌, refl, ap, sym, subst, ◌∙◌, Bool, true, false, not, String, List, [], ◌∷◌, Option, ok,
  arith, any, keep, true≢false,
}
use winbridge.Protocol.Session.{Permission, permission_eq, includes_permission}
use winbridge.Protocol.Authorization.{SessionAuthorization}
use winbridge.Protocol.Authorization.Transitions.{
  assert_session_action_authorized, without_permission, revoke_session_permission,
}
use winbridge.Protocol.Authorization.Outcome.{revoke-eq-ok}
use winbridge.Protocol.Authorization.Consent.{Call}
use winbridge.Protocol.Authorization.Life.{run, run-IsWithin, assert_session_action_authorized_iff}

any-drop :
    {A : Type 0} (f g : A → Bool) (xs : List A)
    → ((x : A) → f x ≡ true → g x ≡ false)
    → any f (keep g xs) ≡ false
any-drop f g [] h = refl
any-drop f g (x ∷ xs) h = let now = h x in ground (arith, any-drop f g xs h)

same_dropped : (p q : Permission) → permission_eq p q ≡ true → not (permission_eq q p) ≡ false
same_dropped p q h = ground arith

-- A permission that was revoked stays revoked: whatever calls follow, no action on it is let
-- through.
pub revoke-forever :
    (a b c : SessionAuthorization) (p : Permission) (reason : Option String) (now later : ℕ)
    (cs : List Call)
    → revoke_session_permission a p reason now ≡ ok b
    → assert_session_action_authorized (run cs b) p later ≢ ok c
revoke-forever a b c p reason now later cs e allowed =
    let (from, live, held, valid, change) = revoke-eq-ok a b p reason now e in
    let (ok_, same) = (assert_session_action_authorized_iff (run cs b) c p later).0 allowed in
    let still : includes_permission b.permissions p ≡ true =
      (run-IsWithin cs b).narrower p ok_.held in
    let gone : includes_permission (without_permission p a.permissions) p ≡ false =
      any-drop (permission_eq p) (λ existing. not (permission_eq existing p)) a.permissions
        (same_dropped p) in
    let left : b.permissions ≡ without_permission p a.permissions =
      ap (λ (s : SessionAuthorization). s.permissions) change in
    let kept : includes_permission (without_permission p a.permissions) p ≡ true =
      subst (λ ps. includes_permission ps p ≡ true) left still in
    true≢false (sym kept ∙ gone)
