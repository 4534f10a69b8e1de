-- ===== src/Agent/Viewer/Revoked.antt =====
-- A permission that a viewer has seen revoked stays revoked.
use winbridge.Base.{
  ℕ, ◌≡◌, inl, inr, refl, Bool, true, false, String, List, [], ◌∷◌, Option, none, some, true≢false,
  Bool-cases, str_eq, subst, eq_iff, eq_refl, arith, sym, ◌∙◌, if◌then◌else◌,
}
use winbridge.Protocol.Session.{Permission, permission_eq, includes_permission, role_eq, viewer}
use winbridge.Protocol.Status.{Status, approved, denied}
use winbridge.Protocol.Messages.{
  Body, session_authorization_decision, session_authorization_state, permission_revoked,
  session_control, ControlAction, pause, resume, terminate, revoke_permission,
}
use winbridge.Agent.State.{Snapshot, Options, State}
use winbridge.Agent.Inbound.{
  is_bound_viewer_authorization_authority, has_bound_viewer_authorization_state_authority,
}
use winbridge.Agent.Viewer.Floor.{Apart, Floored, update-Floored, grown, any-append}
use winbridge.Agent.Viewer.{
  change_of, control_change, update_by, report, revoked_list,
  remove_viewer_authorization_permission, viewer_revoked_permissions_for_authorization,
  apply_viewer_authorization_revocation_floor, update_viewer_authorization_state,
  update_viewer_authorization_after_permission_revoke,
  update_viewer_authorization_after_session_control,
}

-- If the second snapshot is for the same authorization of the same authority, it lists the
-- permission as revoked.
abbrev pub KeepsRevoked : Permission → Snapshot → Option Snapshot → Type 0
KeepsRevoked p a none = Unit
KeepsRevoked p a (some b) =
    b.authorization_id ≡ a.authorization_id
    → b.authority_peer_id ≡ a.authority_peer_id
    → includes_permission (revoked_list b) p ≡ true

floor-id :
    (snapshot : Snapshot) (floor : List Permission)
    → let b = apply_viewer_authorization_revocation_floor snapshot floor in
      (b.authorization_id ≡ snapshot.authorization_id)
      × (b.authority_peer_id ≡ snapshot.authority_peer_id)
unfolding apply_viewer_authorization_revocation_floor
floor-id snapshot [] = (refl, refl)
floor-id snapshot (p ∷ floor) = (refl, refl)

floor-revoked :
    (snapshot : Snapshot) (floor : List Permission) (p : Permission)
    → includes_permission floor p ≡ true
    → includes_permission
        (revoked_list (apply_viewer_authorization_revocation_floor snapshot floor))
        p
      ≡ true
unfolding apply_viewer_authorization_revocation_floor
floor-revoked snapshot [] p h = ground arith
floor-revoked snapshot (q ∷ floor) p h = h

bound-revoked :
    (a : Snapshot) (id authority : String)
    → id ≡ a.authorization_id
    → some authority ≡ a.authority_peer_id
    → viewer_revoked_permissions_for_authorization (some a) id authority ≡ revoked_list a
unfolding viewer_revoked_permissions_for_authorization is_bound_viewer_authorization_authority
bound-revoked a id authority e f = ground (arith, eq_iff a.authorization_id id, eq_refl authority)

report-KeepsRevoked :
    (s : State) (a : Snapshot) (p : Permission) (id authority : String) (status : Status)
    (visible : Bool) (permissions : List Permission) (expires_at : Option ℕ)
    → s.viewer_authorization ≡ some a
    → includes_permission (revoked_list a) p ≡ true
    → KeepsRevoked p a
        (report s id authority status visible permissions expires_at).viewer_authorization
report-KeepsRevoked s a p id authority status visible permissions expires_at q h same_id
      same_authority =
    let (kept_id, kept_authority) =
      floor-id _
        (viewer_revoked_permissions_for_authorization s.viewer_authorization id authority) in
    floor-revoked _
      (viewer_revoked_permissions_for_authorization s.viewer_authorization id authority) p
      (rw
        (
          q,
          bound-revoked a id authority (sym kept_id ∙ same_id)
              (sym kept_authority ∙ same_authority),
        )
        h)

grown-keeps :
    (floor : List Permission) (p q : Permission)
    → includes_permission floor q ≡ true
    → includes_permission (grown floor p) q ≡ true
grown-keeps floor p q h = elim (Bool-cases (includes_permission floor p)) [
  | inl holds ↦ rw holds h
  | inr fails ↦ rw fails (rw (any-append (permission_eq q) floor (p ∷ [])) (rw h refl))
]

control-revoked :
    (action : ControlAction) (changed : Option Permission) (a : Snapshot) (p : Permission)
    → includes_permission (revoked_list a) p ≡ true
    → includes_permission (revoked_list (control_change action changed a)) p ≡ true
unfolding remove_viewer_authorization_permission
control-revoked pause changed a p h = h
control-revoked terminate changed a p h = h
control-revoked revoke_permission (some q) a p h = grown-keeps (revoked_list a) q p h
control-revoked revoke_permission none a p h = h
control-revoked resume changed a p h = h

change-KeepsRevoked :
    (a : Snapshot) (p : Permission) (id : String) (change : Snapshot → Snapshot) (s : State)
    → s.viewer_authorization ≡ some a
    → includes_permission (revoked_list a) p ≡ true
    → includes_permission (revoked_list (change a)) p ≡ true
    → KeepsRevoked p a (change_of s.viewer_authorization id change s).viewer_authorization
change-KeepsRevoked a p id change s q h k = elim (Bool-cases (str_eq a.authorization_id id)) [
  | inl holds ↦ rw q (rw holds (λ e f. k))
  | inr fails ↦ rw q (rw fails (λ e f. h))
]

same-KeepsRevoked :
    (a : Snapshot) (p : Permission) (after : Option Snapshot)
    → after ≡ some a
    → includes_permission (revoked_list a) p ≡ true
    → KeepsRevoked p a after
same-KeepsRevoked a p after q h = rw q (λ e f. h)

update_by-KeepsRevoked :
    (opts : Options) (s : State) (body : Body) (a : Snapshot) (p : Permission)
    → s.viewer_authorization ≡ some a
    → includes_permission (revoked_list a) p ≡ true
    → KeepsRevoked p a (update_by opts s body).viewer_authorization
unfolding update_viewer_authorization_after_permission_revoke
    update_viewer_authorization_after_session_control remove_viewer_authorization_permission
update_by-KeepsRevoked opts s (session_authorization_decision id host_id viewer_id ok' granted at _)
      a p q h =
    elim (Bool-cases (str_eq viewer_id opts.peer_id)) [
      | inl holds ↦ rw holds (
          report-KeepsRevoked s a p id host_id (if ok' then approved else denied) false granted at q
            h)
      | inr fails ↦ rw fails (same-KeepsRevoked a p s.viewer_authorization q h)
    ]
update_by-KeepsRevoked opts s (session_authorization_state id actor status visible permissions at _)
      a p q h =
    elim (Bool-cases (has_bound_viewer_authorization_state_authority s id actor status)) [
      | inl holds ↦
          rw holds (report-KeepsRevoked s a p id actor status visible permissions (some at) q h)
      | inr fails ↦ rw fails (same-KeepsRevoked a p s.viewer_authorization q h)
    ]
update_by-KeepsRevoked opts s (permission_revoked id _ changed _) a p q h =
    change-KeepsRevoked a p id (λ b. remove_viewer_authorization_permission b changed) s q h
      (grown-keeps (revoked_list a) changed p h)
update_by-KeepsRevoked opts s (session_control id _ action changed _) a p q h =
    change-KeepsRevoked a p id (control_change action changed) s q h
      (control-revoked action changed a p h)
update_by-KeepsRevoked opts s _ a p q h = same-KeepsRevoked a p s.viewer_authorization q h

update-KeepsRevoked :
    (opts : Options) (s : State) (body : Body) (a : Snapshot) (p : Permission)
    → s.viewer_authorization ≡ some a
    → includes_permission (revoked_list a) p ≡ true
    → KeepsRevoked p a (update_viewer_authorization_state opts s body).viewer_authorization
unfolding update_viewer_authorization_state
update-KeepsRevoked opts s body a p q h = elim (Bool-cases (role_eq opts.role viewer)) [
  | inl holds ↦ rw holds (update_by-KeepsRevoked opts s body a p q h)
  | inr fails ↦ rw fails (same-KeepsRevoked a p s.viewer_authorization q h)
]

permission_eq_sound : (p q : Permission) → permission_eq p q ≡ true → p ≡ q
permission_eq_sound p q h = ground arith

Apart-absent :
    (floor permissions : List Permission) (p : Permission)
    → Apart floor permissions
    → includes_permission floor p ≡ true
    → includes_permission permissions p ≡ false
Apart-absent floor [] p h k = refl
Apart-absent floor (q ∷ permissions) p (f, h) k = elim (Bool-cases (permission_eq p q)) [
  | inl same ↦ absurd (
      true≢false (
        sym k
        ∙ (subst (λ r. includes_permission floor r ≡ false) (sym (permission_eq_sound p q same))
            f)))
  | inr other ↦ rw (other, Apart-absent floor permissions p h k) refl
]

-- Once a viewer's snapshot lists a permission as revoked, no message gives it back: whatever the
-- runtime takes in next, if its snapshot is then still for the same authorization of the same
-- authority, the permission is listed as revoked and is not among the permissions. This holds for a
-- snapshot that has none of the permissions that it lists as revoked.
pub update-revoked_for_good :
    (opts : Options) (s : State) (body : Body) (a b : Snapshot) (p : Permission)
    → s.viewer_authorization ≡ some a
    → (update_viewer_authorization_state opts s body).viewer_authorization ≡ some b
    → Floored (some a)
    → includes_permission (revoked_list a) p ≡ true
    → b.authorization_id ≡ a.authorization_id
    → b.authority_peer_id ≡ a.authority_peer_id
    → (includes_permission (revoked_list b) p ≡ true)
      × (includes_permission b.permissions p ≡ false)
update-revoked_for_good opts s body a b p before after f h same_id same_authority =
    let kept = subst (KeepsRevoked p a) after (update-KeepsRevoked opts s body a p before h) in
    let floored = subst Floored after (update-Floored opts body s (subst Floored (sym before) f)) in
    let revoked = kept same_id same_authority in
    (revoked, Apart-absent (revoked_list b) b.permissions p floored revoked)
