-- ===== src/Agent/Gates/Grants.antt =====
-- An authorization that lets a remote interaction through.
use winbridge.Base.{
  ℕ, ◌<◌, ◌≡◌, refl, inl, inr, true, String, Option, none, some, arith, eq_iff, Option-cases, sym,
  ap, ◌∙◌, true≢false,
}
use winbridge.Protocol.Session.{Permission, includes_permission}
use winbridge.Protocol.Status.{Status}
use winbridge.Agent.State.{Snapshot}
use winbridge.Agent.Gates.{
  is_text, same_text, has_authorization_expired, has_active_remote_interaction_authorization,
}

-- An authorization that is active, visible and unexpired, with this permission and this id, and
-- bound to this peer.
pub record Grants (now : ℕ) (p : Permission) (id peer : String) (a : Snapshot) : Type 0 where
  pub is_active : a.status ≡ Status.active
  pub is_visible : a.visible_to_host ≡ true
  pub unexpired : (at : ℕ) × (a.expires_at ≡ some at) × now < at
  pub permitted : includes_permission a.permissions p ≡ true
  pub same_id : a.authorization_id ≡ id
  pub same_peer : a.remote_peer_id ≡ some peer

pub id_eq : (a b : String) → is_text (some a) b ≡ true → a ≡ b
id_eq a b h = ground (arith, eq_iff a b)

pub is_text_sound : (a : Option String) (b : String) → is_text a b ≡ true → a ≡ some b
is_text_sound none b h = absurd (true≢false (sym h))
is_text_sound (some a) b h = ap some (id_eq a b h)

pub same_text_sound : (a b : Option String) → same_text a b ≡ true → a ≡ b
same_text_sound none none h = refl
same_text_sound (some a) (some b) h = ap some (id_eq a b h)
same_text_sound none (some b) h = absurd (true≢false (sym h))
same_text_sound (some a) none h = absurd (true≢false (sym h))

pub active-lem :
    (now : ℕ) (a : Snapshot) (p : Permission)
    → has_active_remote_interaction_authorization now (some a) p ≡ true
    → (a.status ≡ Status.active)
      × (a.visible_to_host ≡ true)
      × ((at : ℕ) × (a.expires_at ≡ some at) × now < at)
      × (includes_permission a.permissions p ≡ true)
unfolding has_active_remote_interaction_authorization has_authorization_expired
active-lem now a p h = elim (Option-cases a.expires_at) [
  | inl q ↦ ground (arith, q)
  | inr (at, q) ↦ ground (arith, q)
]

pub no_snapshot :
    (now : ℕ) (a : Option Snapshot) (p : Permission)
    → a ≡ none
    → has_active_remote_interaction_authorization now a p ≡ true
    → ⊥
unfolding has_active_remote_interaction_authorization
no_snapshot now a p q h = ground (arith, q)

pub Grants-of :
    (now : ℕ) (p : Permission) (id peer : String) (a : Snapshot)
    → has_active_remote_interaction_authorization now (some a) p ≡ true
    → is_text (some a.authorization_id) id ≡ true
    → a.remote_peer_id ≡ some peer
    → Grants now p id peer a
Grants-of now p id peer a active same_id same_peer =
    let (is_active, is_visible, unexpired, permitted) = active-lem now a p active in
    record {
      is_active = is_active;
      is_visible = is_visible;
      unexpired = unexpired;
      permitted = permitted;
      same_id = id_eq a.authorization_id id same_id;
      same_peer = same_peer;
    }

pub active_of :
    (now : ℕ) (p : Permission) (id from : String) (a : Snapshot) (observed : Option String)
    → has_active_remote_interaction_authorization now (some a) p ≡ true
    → is_text (some a.authorization_id) id ≡ true
    → same_text a.remote_peer_id observed ≡ true
    → is_text a.remote_peer_id from ≡ true
    → Grants now p id from a × (observed ≡ some from)
active_of now p id from a observed active same_id same_peer from_peer =
    let bound = is_text_sound a.remote_peer_id from from_peer in
    (
      Grants-of now p id from a active same_id bound,
      sym (same_text_sound a.remote_peer_id observed same_peer) ∙ bound,
    )
