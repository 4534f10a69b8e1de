-- ===== src/Relay/RateLimit/Bound.antt =====
-- How many attempts of one key get through in any window.
use winbridge.Base.{
  ℕ, ◌≤◌, ◌≡◌, true, ◌&&◌, String, List, [], ◌∷◌, ◌++◌, ok, arith, ltb, leb, length, keep,
  if◌then◌else◌, eq_iff, str_eq, Bool-cases, inl, inr, length-append,
}
use winbridge.Base.Dict.{lookup}
use winbridge.Relay.RateLimit.{Limiter, in_window, attempts_of, new_limiter, consume}
use winbridge.Relay.RateLimit.Window.{
  History, times, spec_next, Refines, Monotone, keep-append, length-keep_mono, times-spec_next,
  consume-allowed, consume-window_ms, consume-Refines, decisions, spec_decisions, decisions_refine,
}

-- The attempts that a run of the limiter lets through, behind those of `h`.
pub accepted : Limiter → History → History → History
accepted l h [] = h
accepted l h ((k, t) ∷ as') =
    let r = consume l k t in accepted r.0 (if r.1.allowed then h ++ (k, t) ∷ [] else h) as'

-- The entries in the window that ends at `now`, `now` included.
abbrev pub window_count : ℕ → ℕ → List ℕ → ℕ
window_count w now xs = length (keep (λ e. leb e now && in_window w now e) xs)

abbrev IsBounded : ℕ → ℕ → History → Type 0
IsBounded limit w h = (k : String) (now : ℕ) → window_count w now (times k h) ≤ limit

window_count-append :
    (limit w t now : ℕ) (xs : List ℕ)
    → ltb (length (keep (in_window w t) xs)) limit ≡ true
    → window_count w now xs ≤ limit
    → window_count w now (xs ++ t ∷ []) ≤ limit
window_count-append limit w t now xs room h =
    rw (keep-append (λ e. leb e now && in_window w now e) xs (t ∷ [])) (
      rw
        (length-append (keep (λ e. leb e now && in_window w now e) xs)
          (keep (λ e. leb e now && in_window w now e) (t ∷ [])))
        (elim (Bool-cases (leb t now)) [
          | inl past ↦ ground (
            arith,
            length-keep_mono (λ e. leb e now && in_window w now e) (in_window w t) xs
                (λ e p. ground arith),
          )
          | inr future ↦ ground arith
        ]))

spec_next-IsBounded :
    (limit w t : ℕ) (h : History) (key : String)
    → IsBounded limit w h
    → IsBounded limit w (spec_next limit w h key t)
spec_next-IsBounded limit w t h key b k now =
    rw (times-spec_next limit w t h key k) (elim (Bool-cases (str_eq key k)) [
      | inl same ↦
          let e : key ≡ k = (eq_iff key k).0 same in
          elim (Bool-cases (ltb (length (keep (in_window w t) (times key h))) limit)) [
            | inl room ↦
                rw (same, room)
                  (rw (← e) (window_count-append limit w t now (times key h) room (b key now)))
            | inr full ↦ rw (same, full) (b k now)
          ]
      | inr other ↦ rw other (b k now)
    ])

accepted-IsBounded :
    (l : Limiter) (h : History) (last : ℕ) (as' : History)
    → Refines l h last
    → IsBounded l.limit l.window_ms h
    → Monotone last as'
    → IsBounded l.limit l.window_ms (accepted l h as')
unfolding accepted
accepted-IsBounded l h last [] r b m = b
accepted-IsBounded l h last ((k, t) ∷ as') r b (le, m) =
    let (ew, el) = consume-window_ms l k t in
    let next = spec_next l.limit l.window_ms h k t in
    let held = spec_next-IsBounded l.limit l.window_ms t h k b in
    let ih =
      accepted-IsBounded (consume l k t).0 next t as' (consume-Refines l h last t k r le)
        (rw (ew, el) held) m in
    rw (consume-allowed l h t k (r k t le)) (rw (ew, el) at ih)

new_limiter-Refines :
    (limit w : ℕ) (l : Limiter)
    → new_limiter limit w ≡ ok l
    → Refines l [] 0 × (l.limit ≡ limit) × (l.window_ms ≡ w)
unfolding new_limiter attempts_of lookup
new_limiter-Refines limit w l e = (λ k now le. ground arith, ground arith, ground arith)

-- A fresh limiter decides as the specification over the whole history does.
pub consume_refines_history :
    (limit w : ℕ) (l : Limiter) (as' : History)
    → new_limiter limit w ≡ ok l
    → Monotone 0 as'
    → decisions l as' ≡ spec_decisions limit w [] as'
consume_refines_history limit w l as' e m =
    let (r, el, ew) = new_limiter-Refines limit w l e in
    rw (← el, ← ew) (decisions_refine l [] 0 as' r m)

-- Of one key, at most `limit` attempts get through in any window of `windowMs` milliseconds.
pub accepted_bounded :
    (limit w : ℕ) (l : Limiter) (as' : History) (key : String) (now : ℕ)
    → new_limiter limit w ≡ ok l
    → Monotone 0 as'
    → window_count w now (times key (accepted l [] as')) ≤ limit
accepted_bounded limit w l as' key now e m =
    let (r, el, ew) = new_limiter-Refines limit w l e in
    rw (← el, ← ew) (accepted-IsBounded l [] 0 as' r (λ k t. omega arith) m key now)
