-- ===== src/Base/Machine.antt =====
-- Steps on a state that may throw: what a step changed before it threw stays changed.
use mathlib.Core.Bool.{Bool, true, false}
use winbridge.Base.Throws.{Result, ok, err, Failure}

abbrev pub Machine : Type 0 → Type 0 → Type 0
Machine S A = S → S × Result A

module _ {S : Type 0} where
  abbrev pub continue : {A B : Type 0} → S × Result A → (A → Machine S B) → S × Result B
  continue (s, ok a) f = f a s
  continue (s, err e) f = (s, err e)

  abbrev pub handle : {A : Type 0} → S × Result A → (Failure → Machine S A) → S × Result A
  handle (s, ok a) h = (s, ok a)
  handle (s, err e) h = h e s

infixl 5 ◌>>=◌ ◌>>◌
abbrev pub ◌>>=◌ : {S A B : Type 0} → Machine S A → (A → Machine S B) → Machine S B
◌>>=◌ m f s = continue (m s) f

abbrev pub ◌>>◌ : {S A B : Type 0} → Machine S A → Machine S B → Machine S B
m >> k = m >>= λ _. k

module _ {S : Type 0} where
  abbrev pub pure : {A : Type 0} → A → Machine S A
  pure a s = (s, ok a)

  abbrev pub throw : {A : Type 0} → Failure → Machine S A
  throw e s = (s, err e)

  -- A check that changes nothing.
  abbrev pub lift : {A : Type 0} → Result A → Machine S A
  lift r s = (s, r)

  abbrev pub get : {A : Type 0} → (S → A) → Machine S A
  get f s = (s, ok (f s))

  abbrev pub modify : (S → S) → Machine S (Unit {0})
  modify f s = (f s, ok tt)

  -- `if (test) { m }`
  abbrev pub when : Bool → Machine S (Unit {0}) → Machine S (Unit {0})
  when true m s = m s
  when false m s = (s, ok tt)

  -- `try { m } catch (error) { h(error) }`
  abbrev pub try_catch : {A : Type 0} → Machine S A → (Failure → Machine S A) → Machine S A
  try_catch m h s = handle (m s) h

  -- How a step ends: with a value and a state as `Q` says, or thrown, with a state as `E` says.
  abbrev pub Ends : {A : Type 0} → (A → S → Type 0) → (S → Type 0) → S × Result A → Type 0
  Ends Q E (s, ok a) = Q a s
  Ends Q E (s, err e) = E s

  -- From every state as `P` says, the step ends so.
  pub data Triple {A : Type 0} (P : S → Type 0) (m : Machine S A) (Q : A → S → Type 0)
      (E : S → Type 0) : Type 0 where
    triple : ((s : S) → P s → Ends Q E (m s)) → Triple P m Q E

  continue-Ends :
      {A B : Type 0} (Q : A → S → Type 0) (R : B → S → Type 0) (E : S → Type 0) (r : S × Result A)
      (f : A → Machine S B)
      → Ends Q E r
      → ((a : A) → Triple (Q a) (f a) R E)
      → Ends R E (continue r f)
  continue-Ends Q R E (s, ok a) f q k = elim (k a) [ triple h ↦ h s q ]
  continue-Ends Q R E (s, err e) f q k = q

  -- One step after another.
  pub bind-Triple :
      {A B : Type 0} {P : S → Type 0} {m : Machine S A} {f : A → Machine S B} {Q : A → S → Type 0}
      {R : B → S → Type 0} {E : S → Type 0}
      → Triple P m Q E
      → ((a : A) → Triple (Q a) (f a) R E)
      → Triple P (m >>= f) R E
  bind-Triple {m = m} {f = f} {Q = Q} {R = R} {E = E} (triple h) k =
      triple λ s p. continue-Ends Q R E (m s) f (h s p) k

  state-Ends : {A : Type 0} (P : S → Type 0) (r : S × Result A) → Ends (λ _. P) P r → P r.0
  state-Ends P (s, ok a) h = h
  state-Ends P (s, err e) h = h

  -- Where both ends agree, the state is as they say.
  pub Triple-state :
      {A : Type 0} {P E : S → Type 0} {m : Machine S A}
      → Triple P m (λ _. E) E
      → (s : S) → P s
      → E (m s).0
  Triple-state {E = E} {m = m} (triple h) s p = state-Ends E (m s) (h s p)

  pub lift-Triple : {A : Type 0} (P : S → Type 0) (r : Result A) → Triple P (lift r) (λ _. P) P
  lift-Triple P (ok a) = triple λ s p. p
  lift-Triple P (err e) = triple λ s p. p

  pub modify-Triple :
      {P Q E : S → Type 0} {f : S → S} → ((s : S) → P s → Q (f s)) → Triple P (modify f) (λ _. Q) E
  modify-Triple h = triple h

  pub when-Triple :
      {P : S → Type 0} {m : Machine S (Unit {0})} (b : Bool)
      → Triple P m (λ _. P) P
      → Triple P (when b m) (λ _. P) P
  when-Triple true (triple h) = triple h
  when-Triple false t = triple λ s p. p

  both-Ends : {A : Type 0} (P : S → Type 0) (r : S × Result A) → P r.0 → Ends (λ _. P) P r
  both-Ends P (s, ok a) h = h
  both-Ends P (s, err e) h = h

  -- The converse of `Triple-state`.
  pub state-Triple :
      {A : Type 0} (P : S → Type 0) (m : Machine S A)
      → ((s : S) → P s → P (m s).0)
      → Triple P m (λ _. P) P
  state-Triple P m h = triple λ s p. both-Ends P (m s) (h s p)
