-- ===== src/Relay/RateLimit/Window.antt =====
-- The limiter against the whole history of the attempts that it let through.
use mathlib.Core.Path.{ap₂}
use mathlib.Core.List.{append-nil}
use winbridge.Base.{
  ℕ, ◌≤◌, ◌≡◌, refl, Bool, true, ◌&&◌, String, List, [], ◌∷◌, ◌++◌, arith, ltb, length, keep,
  if◌then◌else◌, eq_iff, str_eq, Bool-cases, inl, inr,
}
use winbridge.Base.Dict.{lookup-insert}
use winbridge.Relay.RateLimit.{Limiter, in_window, attempts_of, admit, consume}

pub keep-append : (p : ℕ → Bool) (xs ys : List ℕ) → keep p (xs ++ ys) ≡ keep p xs ++ keep p ys
keep-append p [] ys = refl
keep-append p (x ∷ xs) ys = ground (arith, keep-append p xs ys)

-- An older window keeps what a later one keeps.
keep-keep :
    (w s t : ℕ) (xs : List ℕ)
    → s ≤ t
    → keep (in_window w t) (keep (in_window w s) xs) ≡ keep (in_window w t) xs
keep-keep w s t [] h = refl
keep-keep w s t (x ∷ xs) h = ground (arith, keep-keep w s t xs)

pub length-keep_mono :
    (p q : ℕ → Bool) (xs : List ℕ)
    → ((x : ℕ) → p x ≡ true → q x ≡ true)
    → length (keep p xs) ≤ length (keep q xs)
length-keep_mono p q [] h = omega arith
length-keep_mono p q (x ∷ xs) h = ground (arith, h x, length-keep_mono p q xs h)

-- The specification keeps every attempt that was let through, newest last.
abbrev pub History : Type 0
History = List (String × ℕ)

abbrev pub times : String → History → List ℕ
times key [] = []
times key ((k, t) ∷ h) = if str_eq k key then t ∷ times key h else times key h

times-append :
    (key k : String) (t : ℕ) (h : History)
    → times key (h ++ (k, t) ∷ []) ≡ times key h ++ (if str_eq k key then t ∷ [] else [])
times-append key k t [] = ground arith
times-append key k t ((j, s) ∷ h) = ground (arith, times-append key k t h)

abbrev pub spec_allows : ℕ → ℕ → History → String → ℕ → Bool
spec_allows limit w h key t = ltb (length (keep (in_window w t) (times key h))) limit

abbrev pub spec_next : ℕ → ℕ → History → String → ℕ → History
spec_next limit w h key t = if spec_allows limit w h key t then h ++ (key, t) ∷ [] else h

-- From time `t` on, the limiter and the history keep the same entries of each key.
abbrev pub Refines : Limiter → History → ℕ → Type 0
Refines l h t =
    (k : String) (now : ℕ)
    → t ≤ now
    → keep (in_window l.window_ms now) (attempts_of l k)
      ≡ keep (in_window l.window_ms now) (times k h)

attempts_of-consume :
    (l : Limiter) (key k : String) (t : ℕ)
    → attempts_of (consume l key t).0 k ≡ (
        if str_eq key k
        then (admit l.limit (keep (in_window l.window_ms t) (attempts_of l key)) t).0
        else attempts_of l k)
unfolding consume
attempts_of-consume l key k t = ground (
  arith,
  lookup-insert key k (admit l.limit (keep (in_window l.window_ms t) (attempts_of l key)) t).0
      l.attempts,
)

admit-keep :
    (limit w t now : ℕ) (xs ys : List ℕ)
    → t ≤ now
    → keep (in_window w t) xs ≡ keep (in_window w t) ys
    → keep (in_window w now) (admit limit (keep (in_window w t) xs) t).0
      ≡ keep
          (in_window w now)
          (if ltb (length (keep (in_window w t) ys)) limit then ys ++ t ∷ [] else ys)
unfolding admit
admit-keep limit w t now xs ys le e = rw e (
    ground (
      arith,
      keep-keep w t now ys le,
      keep-append (in_window w now) (keep (in_window w t) ys) (t ∷ []),
      keep-append (in_window w now) ys (t ∷ []),
    ))

pub times-spec_next :
    (limit w t : ℕ) (h : History) (key k : String)
    → times k (spec_next limit w h key t) ≡ (
        if str_eq key k && ltb (length (keep (in_window w t) (times key h))) limit
        then times k h ++ t ∷ []
        else times k h)
times-spec_next limit w t h key k = ground (arith, times-append k key t h, append-nil (times k h))

pub consume-allowed :
    (l : Limiter) (h : History) (t : ℕ) (key : String)
    → keep (in_window l.window_ms t) (attempts_of l key)
      ≡ keep (in_window l.window_ms t) (times key h)
    → (consume l key t).1.allowed ≡ spec_allows l.limit l.window_ms h key t
unfolding consume admit
consume-allowed l h t key e = rw e (ground arith)

pub consume-window_ms :
    (l : Limiter) (key : String) (t : ℕ)
    → ((consume l key t).0.window_ms ≡ l.window_ms) × ((consume l key t).0.limit ≡ l.limit)
unfolding consume
consume-window_ms l key t = (refl, refl)

-- One call keeps the refinement.
pub consume-Refines :
    (l : Limiter) (h : History) (last t : ℕ) (key : String)
    → Refines l h last
    → last ≤ t
    → Refines (consume l key t).0 (spec_next l.limit l.window_ms h key t) t
consume-Refines l h last t key r le k now lt =
    rw
      (
        (consume-window_ms l key t).0,
        attempts_of-consume l key k t,
        times-spec_next l.limit l.window_ms t h key k,
      )
      (elim (Bool-cases (str_eq key k)) [
        | inl same ↦
            let e : key ≡ k = (eq_iff key k).0 same in
            rw same (
              ground (
                arith,
                e,
                admit-keep l.limit l.window_ms t now (attempts_of l key) (times key h) lt
                    (r key t le),
              ))
        | inr other ↦ rw other (r k now (omega arith))
      ])

-- Time does not run backwards along a list of attempts that starts at `last`.
abbrev pub Monotone : ℕ → History → Type 0
Monotone last [] = Unit
Monotone last ((k, t) ∷ as') = (last ≤ t) × Monotone t as'

-- The decisions of a run of the limiter, and those of the specification.
pub decisions : Limiter → History → List Bool
decisions l [] = []
decisions l ((k, t) ∷ as') = let r = consume l k t in r.1.allowed ∷ decisions r.0 as'

pub spec_decisions : ℕ → ℕ → History → History → List Bool
spec_decisions limit w h [] = []
spec_decisions limit w h ((k, t) ∷ as') =
    spec_allows limit w h k t ∷ spec_decisions limit w (spec_next limit w h k t) as'

pub decisions_refine :
    (l : Limiter) (h : History) (last : ℕ) (as' : History)
    → Refines l h last
    → Monotone last as'
    → decisions l as' ≡ spec_decisions l.limit l.window_ms h as'
unfolding decisions spec_decisions
decisions_refine l h last [] r m = refl
decisions_refine l h last ((k, t) ∷ as') r (le, m) =
    let ih =
      decisions_refine (consume l k t).0 (spec_next l.limit l.window_ms h k t) t as'
        (consume-Refines l h last t k r le) m in
    let e = rw ((consume-window_ms l k t).0, (consume-window_ms l k t).1) at ih in
    ap₂ ◌∷◌ (consume-allowed l h t k (r k t le)) e
