-- ===== src/Protocol/Authorization/History.antt =====
-- What must have happened before an action is let through.
use winbridge.Base.{
  ℕ, ◌+◌, ◌<◌, ◌≡◌, refl, ap, sym, subst, ◌∙◌, Bool, true, false, String, List, [], ◌∷◌, none, ok,
  err, Failure, arith, any, Result-cases, inl, inr, ◌⊎◌, Bool-cases,
}
use winbridge.Protocol.Session.{Permission, includes_permission, parse_permission_list}
use winbridge.Protocol.Status.{pending, approved, active}
use winbridge.Protocol.Authorization.{SessionAuthorization, is_terminal}
use winbridge.Protocol.Authorization.Transitions.{
  create_pending_session_authorization, assert_session_action_authorized, no_times,
}
use winbridge.Protocol.Authorization.Outcome.{
  parse-cases, approve-eq-ok, deny-eq-ok, activate-eq-ok, revoke-eq-ok, pause-eq-ok, resume-eq-ok,
  terminate-eq-ok, expire-eq-ok,
}
use winbridge.Protocol.Authorization.Consent.{
  Call, approve, deny, activate, revoke, pause, resume, terminate, expire, transition,
}
use winbridge.Protocol.Authorization.Life.{
  run, run-IsWithin, terminal-final, assert_session_action_authorized_iff,
}

-- A call that grants the permission.
abbrev pub is_approval : Permission → Call → Bool
is_approval p (approve granted now) = includes_permission granted p
is_approval p _ = false

-- A call that makes the session visible.
abbrev pub is_activation : Call → Bool
is_activation (activate visible now) = visible
is_activation _ = false

terminal_run :
    (cs : List Call) (a : SessionAuthorization) → is_terminal a.status ≡ true → run cs a ≡ a
unfolding run
terminal_run [] a h = refl
terminal_run (c ∷ cs) a h = elim (Result-cases (transition c a)) [
  | inl (e, refused) ↦ rw (refused, run) (terminal_run cs a h)
  | inr (b, changed) ↦
      let same = terminal-final c a b h changed in
      let ends : is_terminal b.status ≡ true = ground arith in
      rw (changed, run) (terminal_run cs b ends ∙ same)
]

-- A call on a pending authorization that succeeds leaves it pending, ends it, or approves it.
from_pending :
    (c : Call) (a b : SessionAuthorization) (p : Permission)
    → a.status ≡ pending
    → transition c a ≡ ok b
    → (b.status ≡ pending)
      ⊎ ((is_terminal b.status ≡ true) ⊎ (includes_permission b.permissions p ≡ is_approval p c))
unfolding transition
from_pending (approve granted now) a b p h e =
    let (from, live, requested, valid, change) = approve-eq-ok a b granted now e in
    inr (inr (ap (λ (s : SessionAuthorization). includes_permission s.permissions p) change))
from_pending (deny reason now) a b p h e = let f = deny-eq-ok a b reason now e in ground arith
from_pending (activate visible now) a b p h e =
    let f = activate-eq-ok a b visible now e in ground arith
from_pending (revoke permission reason now) a b p h e =
    let f = revoke-eq-ok a b permission reason now e in ground arith
from_pending (pause reason now) a b p h e = let f = pause-eq-ok a b reason now e in ground arith
from_pending (resume reason now) a b p h e = let f = resume-eq-ok a b reason now e in ground arith
from_pending (terminate reason now) a b p h e =
    let f = terminate-eq-ok a b reason now e in ground arith
from_pending (expire now) a b p h e = let f = expire-eq-ok a b now e in ground arith

-- A call on an authorization that was not activated keeps that, or ends it, or activates it.
from_inactive :
    (c : Call) (a b : SessionAuthorization)
    → (a.status ≡ pending) ⊎ (a.status ≡ approved)
    → transition c a ≡ ok b
    → ((b.status ≡ pending) ⊎ (b.status ≡ approved))
      ⊎ ((is_terminal b.status ≡ true) ⊎ (is_activation c ≡ true))
unfolding transition
from_inactive (approve granted now) a b h e =
    let f = approve-eq-ok a b granted now e in ground arith
from_inactive (deny reason now) a b h e = let f = deny-eq-ok a b reason now e in ground arith
from_inactive (activate visible now) a b h e =
    let f = activate-eq-ok a b visible now e in ground arith
from_inactive (revoke permission reason now) a b h e =
    let f = revoke-eq-ok a b permission reason now e in ground arith
from_inactive (pause reason now) a b h e = let f = pause-eq-ok a b reason now e in ground arith
from_inactive (resume reason now) a b h e = let f = resume-eq-ok a b reason now e in ground arith
from_inactive (terminate reason now) a b h e =
    let f = terminate-eq-ok a b reason now e in ground arith
from_inactive (expire now) a b h e = let f = expire-eq-ok a b now e in ground arith

run-refused :
    (c : Call) (cs : List Call) (a : SessionAuthorization) (e : Failure)
    → transition c a ≡ err e
    → run cs a ≡ run (c ∷ cs) a
unfolding run
run-refused c cs a e refused = rw (refused, run)

run-changed :
    (c : Call) (cs : List Call) (a b : SessionAuthorization)
    → transition c a ≡ ok b
    → run cs b ≡ run (c ∷ cs) a
unfolding run
run-changed c cs a b changed = rw (changed, run)

-- The calls of a run that succeed, each on the authorization that it meets.
unfoldable pub accepted_calls : List Call → SessionAuthorization → List Call
accepted_calls [] a = []
accepted_calls (c ∷ cs) a = elim (transition c a) [
  | ok b ↦ c ∷ accepted_calls cs b
  | err e ↦ accepted_calls cs a
]

accepted_calls-refused :
    (c : Call) (cs : List Call) (a : SessionAuthorization) (e : Failure)
    → transition c a ≡ err e
    → accepted_calls cs a ≡ accepted_calls (c ∷ cs) a
unfolding accepted_calls
accepted_calls-refused c cs a e refused = rw (refused, accepted_calls)

accepted_calls-changed :
    (c : Call) (cs : List Call) (a b : SessionAuthorization)
    → transition c a ≡ ok b
    → c ∷ accepted_calls cs b ≡ accepted_calls (c ∷ cs) a
unfolding accepted_calls
accepted_calls-changed c cs a b changed = rw (changed, accepted_calls)

not_ended :
    (cs : List Call) (a z : SessionAuthorization)
    → run cs a ≡ z
    → z.status ≡ active
    → is_terminal a.status ≡ false
not_ended cs a z r e = elim (Bool-cases (is_terminal a.status)) [
  | inl ended ↦
      let same : z.status ≡ a.status =
        ap (λ (s : SessionAuthorization). s.status) (sym r ∙ terminal_run cs a ended) in
      ground arith
  | inr live ↦ live
]

approved_before :
    (cs : List Call) (a z : SessionAuthorization) (p : Permission)
    → a.status ≡ pending
    → run cs a ≡ z
    → z.status ≡ active
    → includes_permission z.permissions p ≡ true
    → any (is_approval p) (accepted_calls cs a) ≡ true
unfolding run
approved_before [] a z p h r e i =
    let same : z.status ≡ a.status = ap (λ (s : SessionAuthorization). s.status) (sym r) in
    ground arith
approved_before (c ∷ cs) a z p h r e i = elim (Result-cases (transition c a)) [
  | inl (f, refused) ↦
      let rest = approved_before cs a z p h (run-refused c cs a f refused ∙ r) e i in
      subst (λ cs'. any (is_approval p) cs' ≡ true) (accepted_calls-refused c cs a f refused) rest
  | inr (b, changed) ↦
      let then_ = run-changed c cs a b changed ∙ r in
      let live = not_ended cs b z then_ e in
      subst (λ cs'. any (is_approval p) cs' ≡ true) (accepted_calls-changed c cs a b changed)
        (elim (from_pending c a b p h changed) [
          | inl waits ↦ let rest = approved_before cs b z p waits then_ e i in ground arith
          | inr (inl ended) ↦ ground arith
          | inr (inr same) ↦
              let granted : includes_permission b.permissions p ≡ true =
                (run-IsWithin cs b).narrower p
                  (subst (λ s. includes_permission s.permissions p ≡ true) (sym then_) i) in
              ground arith
        ])
]

activated_before :
    (cs : List Call) (a z : SessionAuthorization)
    → (a.status ≡ pending) ⊎ (a.status ≡ approved)
    → run cs a ≡ z
    → z.status ≡ active
    → any is_activation (accepted_calls cs a) ≡ true
unfolding run
activated_before [] a z h r e =
    let same : z.status ≡ a.status = ap (λ (s : SessionAuthorization). s.status) (sym r) in
    ground arith
activated_before (c ∷ cs) a z h r e = elim (Result-cases (transition c a)) [
  | inl (f, refused) ↦
      let rest = activated_before cs a z h (run-refused c cs a f refused ∙ r) e in
      subst (λ cs'. any is_activation cs' ≡ true) (accepted_calls-refused c cs a f refused) rest
  | inr (b, changed) ↦
      let then_ = run-changed c cs a b changed ∙ r in
      let live = not_ended cs b z then_ e in
      subst (λ cs'. any is_activation cs' ≡ true) (accepted_calls-changed c cs a b changed)
        (elim (from_inactive c a b h changed) [
          | inl waits ↦ let rest = activated_before cs b z waits then_ e in ground arith
          | inr (inl ended) ↦ ground arith
          | inr (inr shown) ↦ ground arith
        ])
]

-- What the pending authorization of a request is.
created :
    (session host viewer : String) (requested : List Permission) (ttl now : ℕ) (id : String)
    (a : SessionAuthorization)
    → create_pending_session_authorization session host viewer requested ttl now id ≡ ok a
    → (a.status ≡ pending)
      × (a.permissions ≡ requested)
      × (a.expires_at ≡ now + ttl)
      × (a.session_id ≡ session)
      × (a.host_peer_id ≡ host)
      × (a.viewer_peer_id ≡ viewer)
unfolding create_pending_session_authorization parse_permission_list
created session host viewer requested ttl now id a e =
    let whole = parse-cases (record {
      authorization_id = id;
      session_id = session;
      host_peer_id = host;
      viewer_peer_id = viewer;
      status = pending;
      permissions = requested;
      visible_to_host = false;
      created_at = now;
      updated_at = now;
      expires_at = now + ttl;
      at = no_times;
      reason = none;
    }) in
    (ground arith, ground arith, ground arith, ground arith, ground arith, ground arith)

-- What lies behind an action that is let through.
pub record IsConsented (requested : List Permission) (ends : ℕ) (calls : List Call) (p : Permission)
    (now : ℕ) : Type 0 where
  pub was_requested : includes_permission requested p ≡ true
  pub was_granted : any (is_approval p) calls ≡ true
  pub was_shown : any is_activation calls ≡ true
  pub in_time : now < ends

-- If an action is let through by an authorization that was requested and then went through calls,
-- the viewer requested the permission, one of the calls that succeeded granted it, one of them made
-- the session visible, and the time that the request gave it has not run out.
pub assert_session_action_authorized-IsConsented :
    (session host viewer : String) (requested : List Permission) (ttl now : ℕ) (id : String)
    (a b : SessionAuthorization) (cs : List Call) (p : Permission) (later : ℕ)
    → create_pending_session_authorization session host viewer requested ttl now id ≡ ok a
    → assert_session_action_authorized (run cs a) p later ≡ ok b
    → IsConsented requested (now + ttl) (accepted_calls cs a) p later
assert_session_action_authorized-IsConsented session host viewer requested ttl now id a b cs p later
      made allowed =
    let (waits, asked, ends, s1, s2, s3) =
      created session host viewer requested ttl now id a made in
    let (ok_, same) = (assert_session_action_authorized_iff (run cs a) b p later).0 allowed in
    let within = run-IsWithin cs a in
    record {
      was_requested =
          subst (λ ps. includes_permission ps p ≡ true) asked (within.narrower p ok_.held);
      was_granted = approved_before cs a (run cs a) p waits refl ok_.is_active ok_.held;
      was_shown = activated_before cs a (run cs a) (inl waits) refl ok_.is_active;
      in_time = subst (λ t. later < t) (within.grant.expires_at ∙ ends) ok_.live;
    }
