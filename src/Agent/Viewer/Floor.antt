-- ===== src/Agent/Viewer/Floor.antt =====
-- The permissions that a viewer has seen revoked.
use winbridge.Base.{
  ℕ, ◌≡◌, inl, inr, refl, Bool, true, false, not, ◌||◌, String, List, [], ◌∷◌, ◌++◌, Option, none,
  some, All, All-keep_map, Bool-cases, str_eq, subst, any, arith, if◌then◌else◌,
}
use winbridge.Protocol.Session.{viewer, role_eq, Permission, permission_eq, includes_permission}
use winbridge.Protocol.Status.{Status, approved, denied}
use winbridge.Protocol.Messages.{
  Body, session_authorization_decision, session_authorization_state, permission_revoked,
  session_control, ControlAction, pause, resume, terminate, revoke_permission,
}
use winbridge.Agent.State.{Snapshot, Options, State}
use winbridge.Agent.Inbound.{has_bound_viewer_authorization_state_authority}
use winbridge.Agent.Viewer.{
  without, change_of, control_change, update_by, report, revoked_list,
  remove_viewer_authorization_permission, viewer_revoked_permissions_for_authorization, above_floor,
  apply_viewer_authorization_revocation_floor, update_viewer_authorization_state,
  update_viewer_authorization_after_permission_revoke,
  update_viewer_authorization_after_session_control,
}

-- No permission of a list is in the other.
abbrev pub Apart : List Permission → List Permission → Type 0
Apart floor permissions = All (λ p. includes_permission floor p ≡ false) permissions

-- A snapshot has none of the permissions that it lists as revoked.
abbrev pub Floored : Option Snapshot → Type 0
Floored none = Unit
Floored (some snapshot) = Apart (revoked_list snapshot) snapshot.permissions

not-false : (b : Bool) → not b ≡ true → b ≡ false
not-false b h = ground arith

pub any-append :
    {A : Type 0} (f : A → Bool) (xs ys : List A) → any f (xs ++ ys) ≡ (any f xs || any f ys)
any-append f [] ys = refl
any-append f (x ∷ xs) ys = ground (arith, any-append f xs ys)

test-Apart : (floor permissions : List Permission) → Apart floor (above_floor floor permissions)
test-Apart floor [] = tt
test-Apart floor (p ∷ permissions) = ground (arith, test-Apart floor permissions)

-- What the floor has grown to, once a permission is revoked.
abbrev pub grown : List Permission → Permission → List Permission
grown floor p = if includes_permission floor p then floor else floor ++ (p ∷ [])

grown-includes :
    (floor : List Permission) (p q : Permission)
    → includes_permission floor q ≡ false
    → not (permission_eq q p) ≡ true
    → includes_permission (grown floor p) q ≡ false
grown-includes floor p q h k =
    let a = any-append (permission_eq q) floor (p ∷ []) in
    let n = not-false (permission_eq q p) k in
    elim (Bool-cases (includes_permission floor p)) [
      | inl holds ↦ rw holds h
      | inr fails ↦ rw fails (rw a (rw (h, n) refl))
    ]

without-Apart :
    (floor permissions : List Permission) (p : Permission)
    → Apart floor permissions
    → Apart (grown floor p) (without p permissions)
without-Apart floor permissions p h =
    All-keep_map (λ q. not (permission_eq q p)) permissions (λ q. grown-includes floor p q) h

empty-Apart : (permissions : List Permission) → Apart [] permissions
empty-Apart [] = tt
empty-Apart (p ∷ permissions) = (refl, empty-Apart permissions)

floor-Floored :
    (snapshot : Snapshot) (floor : List Permission)
    → snapshot.revoked_permissions ≡ none
    → Floored (some (apply_viewer_authorization_revocation_floor snapshot floor))
unfolding apply_viewer_authorization_revocation_floor
floor-Floored snapshot [] fresh = rw fresh (empty-Apart snapshot.permissions)
floor-Floored snapshot (p ∷ floor) fresh = test-Apart (p ∷ floor) snapshot.permissions

remove-Floored :
    (snapshot : Snapshot) (p : Permission)
    → Floored (some snapshot)
    → Floored (some (remove_viewer_authorization_permission snapshot p))
unfolding remove_viewer_authorization_permission
remove-Floored snapshot p h = without-Apart (revoked_list snapshot) snapshot.permissions p h

-- A change that keeps the floor keeps it under any id.
change-Floored :
    (snapshot : Option Snapshot) (id : String) (change : Snapshot → Snapshot) (s : State)
    → ((a : Snapshot) → Floored (some a) → Floored (some (change a)))
    → snapshot ≡ s.viewer_authorization
    → Floored snapshot
    → Floored (change_of snapshot id change s).viewer_authorization
change-Floored none id change s k e h = subst Floored e h
change-Floored (some a) id change s k e h = elim (Bool-cases (str_eq a.authorization_id id)) [
  | inl holds ↦ rw holds (k a h)
  | inr fails ↦ rw fails (subst Floored e h)
]

control-Floored :
    (action : ControlAction) (p : Option Permission) (a : Snapshot)
    → Floored (some a)
    → Floored (some (control_change action p a))
control-Floored pause p a h = h
control-Floored terminate p a h = tt
control-Floored revoke_permission (some p) a h = remove-Floored a p h
control-Floored revoke_permission none a h = h
control-Floored resume p a h = h

report-Floored :
    (s : State) (id authority : String) (status : Status) (visible : Bool)
    (permissions : List Permission) (expires_at : Option ℕ)
    → Floored (report s id authority status visible permissions expires_at).viewer_authorization
report-Floored s id authority status visible permissions expires_at =
    floor-Floored _
      (viewer_revoked_permissions_for_authorization s.viewer_authorization id authority) refl

update_by-Floored :
    (opts : Options) (s : State) (body : Body)
    → Floored s.viewer_authorization
    → Floored (update_by opts s body).viewer_authorization
unfolding update_viewer_authorization_after_permission_revoke
    update_viewer_authorization_after_session_control
update_by-Floored opts s (session_authorization_decision id host_id viewer_id ok' granted at _) h =
    elim (Bool-cases (str_eq viewer_id opts.peer_id)) [
      | inl holds ↦
          rw holds (report-Floored s id host_id (if ok' then approved else denied) false granted at)
      | inr fails ↦ rw fails h
    ]
update_by-Floored opts s (session_authorization_state id actor status visible permissions at _) h =
    elim (Bool-cases (has_bound_viewer_authorization_state_authority s id actor status)) [
      | inl holds ↦ rw holds (report-Floored s id actor status visible permissions (some at))
      | inr fails ↦ rw fails h
    ]
update_by-Floored opts s (permission_revoked id _ p _) h =
    change-Floored s.viewer_authorization id
      (λ snapshot. remove_viewer_authorization_permission snapshot p) s
      (λ snapshot. remove-Floored snapshot p) refl h
update_by-Floored opts s (session_control id _ action permission _) h =
    change-Floored s.viewer_authorization id (control_change action permission) s
      (control-Floored action permission) refl h
update_by-Floored opts s _ h = h

pub update-Floored :
    (opts : Options) (body : Body) (s : State)
    → Floored s.viewer_authorization
    → Floored (update_viewer_authorization_state opts s body).viewer_authorization
unfolding update_viewer_authorization_state
update-Floored opts body s h = elim (Bool-cases (role_eq opts.role viewer)) [
  | inl holds ↦ rw holds (update_by-Floored opts s body h)
  | inr fails ↦ rw fails h
]
