-- ===== src/Agent/Send/Routing.antt =====
-- The checks of an interaction's route and of its authorization, as equations.
use winbridge.Base.{
  ℕ, ◌≡◌, ◌≢◌, ◌⊎◌, inl, inr, refl, true, false, String, Option, none, some, ok, arith, eq_iff,
  eq_refl, ap, ◌∙◌, Option-cases, Bool-cases, str_eq,
}
use winbridge.Protocol.Session.{SessionRole, Permission}
use winbridge.Agent.State.{Snapshot, Options, State}
use winbridge.Agent.Gates.{
  same_text, is_other, is_role, is_text, has_active_remote_interaction_authorization,
  has_authorization_expired, snapshot_id, snapshot_remote,
}
use winbridge.Agent.Gates.Grants.{Grants, no_snapshot, Grants-of, same_text_sound}
use winbridge.Agent.Checks.{assert_remote_interaction_peer_routing, assert_authorized_interaction}
use winbridge.Agent.Send.{addressee}
use winbridge.Agent.Send.Allowed.{role_eq_sound, role_eq_refl}

-- To whom an interaction goes: to the peer that it names, which is the observed one, or to nobody by
-- name, where the caller asked for an empty one.
abbrev pub IsAddressed : Option String → String → Option String → Type 0
IsAddressed wanted peer to = (to ≡ some peer) ⊎ ((to ≡ none) × (wanted ≡ some ""))

authorized :
    (now : ℕ) (snapshot : Option Snapshot) (p : Permission) (id : String) (s : State)
    → assert_authorized_interaction now snapshot p id s ≡ ok tt
    → (has_active_remote_interaction_authorization now snapshot p ≡ true)
      × (is_text (snapshot_id snapshot) id ≡ true)
      × (same_text (snapshot_remote snapshot) s.observed_peer_id ≡ true)
unfolding assert_authorized_interaction
authorized now snapshot p id s h = ground arith

pub authorized-Grants :
    (now : ℕ) (snapshot : Option Snapshot) (p : Permission) (id peer : String) (s : State)
    → s.observed_peer_id ≡ some peer
    → assert_authorized_interaction now snapshot p id s ≡ ok tt
    → (a : Snapshot) × (snapshot ≡ some a) × Grants now p id peer a
authorized-Grants now none p id peer s observed h =
    absurd (no_snapshot now none p refl (authorized now none p id s h).0)
authorized-Grants now (some a) p id peer s observed h =
    let (active, same_id, same_peer) = authorized now (some a) p id s h in
    (
      a,
      refl,
      Grants-of now p id peer a active same_id
          (same_text_sound a.remote_peer_id s.observed_peer_id same_peer ∙ observed),
    )

pub Grants-authorized :
    (now : ℕ) (snapshot : Option Snapshot) (p : Permission) (id peer : String) (s : State)
    (a : Snapshot)
    → s.observed_peer_id ≡ some peer
    → snapshot ≡ some a
    → Grants now p id peer a
    → assert_authorized_interaction now snapshot p id s ≡ ok tt
unfolding assert_authorized_interaction has_active_remote_interaction_authorization
    has_authorization_expired
Grants-authorized now snapshot p id peer s a observed is_current g =
    let (at, ends, later) = g.unexpired in
    rw (is_current, observed, g.is_active, g.is_visible, ends, g.permitted, g.same_id, g.same_peer)
      (ground (arith, eq_refl id, eq_refl peer))

pub IsAddressed-cases :
    (wanted : Option String) (peer : String) (s : State)
    → s.observed_peer_id ≡ some peer
    → peer ≢ ""
    → is_other (addressee wanted s) s.observed_peer_id ≡ false
    → IsAddressed wanted peer (addressee wanted s)
IsAddressed-cases none peer s observed named h =
    inl (rw observed (ground (arith, eq_iff peer "", named)))
IsAddressed-cases (some to) peer s observed named h = elim (Bool-cases (str_eq to "")) [
  | inl empty ↦ inr (rw empty refl, ground (arith, eq_iff to "", empty))
  | inr full ↦ inl (ground (arith, full, observed, h, eq_iff to peer))
]

pub IsAddressed-routed :
    (wanted to : Option String) (peer : String)
    → IsAddressed wanted peer to
    → is_other to (some peer) ≡ false
IsAddressed-routed wanted to peer (inl e) = rw e (ground (arith, eq_refl peer))
IsAddressed-routed wanted to peer (inr (e, _)) = rw e refl

is_role_sound :
    (a : Option SessionRole) (role : SessionRole) → is_role a role ≡ true → a ≡ some role
is_role_sound none role h = ground (arith, h)
is_role_sound (some a) role h = ap some (role_eq_sound a role h)

is_text-other : (a : Option String) (b : String) → is_text a b ≡ false → a ≢ some b
is_text-other none b h = ground arith
is_text-other (some a) b h = λ e. ground (arith, h, e, eq_iff a b)

other-is_text : (a : Option String) (b : String) → a ≢ some b → is_text a b ≡ false
other-is_text none b h = refl
other-is_text (some a) b h = ground (arith, h, eq_iff a b)

absent :
    (to : Option String) (opts : Options) (s : State) (role : SessionRole)
    → s.observed_peer_id ≡ none
    → assert_remote_interaction_peer_routing opts.peer_id to opts s role ≡ ok tt
    → ⊥
unfolding assert_remote_interaction_peer_routing
absent to opts s role q h = ground (arith, q)

abbrev pub Routes : Options → State → Option String → SessionRole → String → Type 0
Routes opts s to role peer =
    (s.observed_peer_id ≡ some peer)
    × (peer ≢ "")
    × (s.observed_peer_role ≡ some role)
    × (s.recipient_available ≡ true)
    × (to ≢ some opts.peer_id)
    × (is_other to s.observed_peer_id ≡ false)

pub routed :
    (to : Option String) (opts : Options) (s : State) (role : SessionRole)
    → assert_remote_interaction_peer_routing opts.peer_id to opts s role ≡ ok tt
    → (peer : String) × Routes opts s to role peer
unfolding assert_remote_interaction_peer_routing
routed to opts s role h = elim (Option-cases s.observed_peer_id) [
  | inl q ↦ absurd (absent to opts s role q h)
  | inr (peer, q) ↦
      let routes : Routes opts s to role peer = (
        q,
        ground (arith, q, h, eq_iff peer ""),
        is_role_sound s.observed_peer_role role (ground (arith, h)),
        ground (arith, h),
        is_text-other to opts.peer_id (ground (arith, h)),
        ground (arith, h),
      ) in
      (peer, routes)
]

pub Routes-routed :
    (to : Option String) (opts : Options) (s : State) (role : SessionRole) (peer : String)
    → Routes opts s to role peer
    → assert_remote_interaction_peer_routing opts.peer_id to opts s role ≡ ok tt
unfolding assert_remote_interaction_peer_routing
Routes-routed to opts s role peer (observed, named, observed_role, available, other, h) =
    let elsewhere = other-is_text to opts.peer_id other in
    ground (arith, eq_iff peer "", eq_refl opts.peer_id, role_eq_refl role)
