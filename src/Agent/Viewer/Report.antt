-- ===== src/Agent/Viewer/Report.antt =====
-- A viewer's snapshot, once the host has reported a state.
use winbridge.Base.{
  ℕ, ◌≡◌, ◌⊎◌, inl, inr, refl, true, false, not, ◌||◌, String, List, [], ◌∷◌, Option, none, some,
  arith, eq_iff, eq_refl, subst, sym, ◌∙◌,
}
use winbridge.Protocol.Session.{viewer, Permission}
use winbridge.Protocol.Status.{Status, status_eq}
use winbridge.Protocol.Messages.{session_authorization_state}
use winbridge.Agent.State.{Snapshot, Options, State}
use winbridge.Agent.Gates.{is_terminal_authorization_status}
use winbridge.Agent.Inbound.{
  is_bound_viewer_authorization_authority, has_bound_viewer_authorization_state_authority,
}
use winbridge.Agent.Viewer.{
  revoked_list, above_floor, floor_status, viewer_revoked_permissions_for_authorization,
  apply_viewer_authorization_revocation_floor, update_viewer_authorization_state,
}
use winbridge.Agent.Viewer.Floor.{Apart}

-- The second snapshot is what the first is to the side of this host.
pub record InStep (host_id : String) (a v : Snapshot) : Type 0 where
  pub same_id : v.authorization_id ≡ a.authorization_id
  pub by_host : v.authority_peer_id ≡ some host_id
  pub same_status : v.status ≡ a.status
  pub same_visible : v.visible_to_host ≡ a.visible_to_host
  pub same_permissions : v.permissions ≡ a.permissions
  pub same_end : v.expires_at ≡ a.expires_at

above-all :
    (floor permissions : List Permission)
    → Apart floor permissions
    → above_floor floor permissions ≡ permissions
above-all floor [] h = refl
above-all floor (p ∷ permissions) (q, h) = ground (arith, above-all floor permissions h)

floor_status-same :
    (permissions : List Permission) (status : Status)
    → floor_status permissions permissions status ≡ status
floor_status-same permissions status = ground arith

-- A floor that meets none of the permissions changes neither them nor the status.
floor-same :
    (snapshot : Snapshot) (floor : List Permission)
    → Apart floor snapshot.permissions
    → let b = apply_viewer_authorization_revocation_floor snapshot floor in
      (b.permissions ≡ snapshot.permissions)
      × (b.status ≡ snapshot.status)
      × (b.authorization_id ≡ snapshot.authorization_id)
      × (b.authority_peer_id ≡ snapshot.authority_peer_id)
      × (b.visible_to_host ≡ snapshot.visible_to_host)
      × (b.expires_at ≡ snapshot.expires_at)
unfolding apply_viewer_authorization_revocation_floor
floor-same snapshot [] h = (refl, refl, refl, refl, refl, refl)
floor-same snapshot (p ∷ floor) h =
    let same = above-all (p ∷ floor) snapshot.permissions h in
    (same, rw same (floor_status-same snapshot.permissions snapshot.status), refl, refl, refl, refl)

bound-lem :
    (v : Snapshot) (id host_id : String)
    → v.authorization_id ≡ id
    → v.authority_peer_id ≡ some host_id
    → (is_bound_viewer_authorization_authority (some v) id host_id ≡ true)
      × (viewer_revoked_permissions_for_authorization (some v) id host_id ≡ revoked_list v)
unfolding viewer_revoked_permissions_for_authorization is_bound_viewer_authorization_authority
bound-lem v id host_id e f = ground (arith, eq_iff v.authorization_id id, eq_refl host_id)

status-lem :
    (status next : Status)
    → (is_terminal_authorization_status status ≡ false) ⊎ (status ≡ next)
    → (not (is_terminal_authorization_status status) || status_eq status next) ≡ true
unfolding is_terminal_authorization_status
status-lem status next (inl open') = ground arith
status-lem status next (inr same) = ground arith

accepts-state :
    (s : State) (v : Snapshot) (id host_id : String) (status : Status)
    → s.viewer_authorization ≡ some v
    → v.authorization_id ≡ id
    → v.authority_peer_id ≡ some host_id
    → (is_terminal_authorization_status v.status ≡ false) ⊎ (v.status ≡ status)
    → has_bound_viewer_authorization_state_authority s id host_id status ≡ true
accepts-state s v id host_id status q e f g =
    rw (q, (bound-lem v id host_id e f).0) (status-lem v.status status g)

-- The snapshot that the message is read into.
abbrev reported : Snapshot → String → ℕ → Snapshot
reported a host_id expires_at = record {
  authorization_id = a.authorization_id;
  authority_peer_id = some host_id;
  remote_peer_id = some host_id;
  viewer_device_identity = none;
  status = a.status;
  visible_to_host = a.visible_to_host;
  permissions = a.permissions;
  revoked_permissions = none;
  expires_at = some expires_at;
}

-- A state that the host reports for the viewer's authorization, with none of the permissions that
-- the viewer has seen revoked, is the viewer's afterwards.
pub state-InStep :
    (opts : Options) (s : State) (v a : Snapshot) (host_id : String) (expires_at : ℕ)
    (reason : Option String)
    → opts.role ≡ viewer
    → s.viewer_authorization ≡ some v
    → v.authorization_id ≡ a.authorization_id
    → v.authority_peer_id ≡ some host_id
    → (is_terminal_authorization_status v.status ≡ false) ⊎ (v.status ≡ a.status)
    → Apart (revoked_list v) a.permissions
    → a.expires_at ≡ some expires_at
    → let message =
        session_authorization_state a.authorization_id host_id a.status a.visible_to_host
          a.permissions expires_at reason in
      (b : Snapshot) × ((update_viewer_authorization_state opts s message).viewer_authorization
        ≡ some b)
      × InStep host_id a b
unfolding update_viewer_authorization_state apply_viewer_authorization_revocation_floor
state-InStep opts s v a host_id expires_at reason is_viewer q same_id by_host g apart end =
    let accepted = accepts-state s v a.authorization_id host_id a.status q same_id by_host g in
    let floor =
      viewer_revoked_permissions_for_authorization s.viewer_authorization a.authorization_id
        host_id in
    let is_floor =
      subst
        (λ o.
          viewer_revoked_permissions_for_authorization o a.authorization_id host_id
          ≡ revoked_list v)
        (sym q) (bound-lem v a.authorization_id host_id same_id by_host).1 in
    let (permissions, status, id, authority, visible, ending) =
      floor-same (reported a host_id expires_at) floor
        (subst (λ f. Apart f a.permissions) (sym is_floor) apart) in
    (
      apply_viewer_authorization_revocation_floor (reported a host_id expires_at) floor,
      rw (is_viewer, accepted) refl,
      record {
        same_id = id;
        by_host = authority;
        same_status = status;
        same_visible = visible;
        same_permissions = permissions;
        same_end = ending ∙ sym end;
      },
    )
