-- ===== src/Protocol/Pattern.antt =====
-- The regular expressions of packages/protocol/src/audit.ts, as `RegExp.prototype.test` reads them:
-- over code units, with the unit before the place for `\b`. Every repetition in those expressions
-- repeats a single class of units.
use winbridge.Base.{
  ℕ, ◌+◌, Bool, true, false, ◌&&◌, ◌||◌, not, String, List, [], ◌∷◌, Option, none, some, leb,
  nat_eq, codes, units, is_space, if◌then◌else◌,
}

pub data Pattern : Type 0 where
  empty : Pattern
  one : (ℕ → Bool) → Pattern
  many : (ℕ → Bool) → Pattern
  boundary : Pattern
  seq alt : Pattern → Pattern → Pattern

abbrev pub is_word : ℕ → Bool
is_word c =
    (leb b'a' c && leb c b'z')
    || (leb b'A' c && leb c b'Z')
    || (leb b'0' c && leb c b'9')
    || nat_eq c b'_'

abbrev pub is_word_before : Option ℕ → Bool
is_word_before none = false
is_word_before (some c) = is_word c

abbrev pub is_word_after : List ℕ → Bool
is_word_after [] = false
is_word_after (c ∷ cs) = is_word c

abbrev pub differ : Bool → Bool → Bool
differ true b = not b
differ false b = b

-- What has to match behind a pattern.
abbrev pub Rest : Type 0
Rest = Option ℕ → List ℕ → Bool

unfoldable pub repeat : (ℕ → Bool) → Option ℕ → List ℕ → Rest → Bool
repeat p before [] k = k before []
repeat p before (c ∷ cs) k = elim (k before (c ∷ cs)) [
  | true ↦ true
  | false ↦ elim (p c) [ true ↦ repeat p (some c) cs k | false ↦ false ]
]

abbrev pub one_unit : (ℕ → Bool) → List ℕ → Rest → Bool
one_unit p [] k = false
one_unit p (c ∷ cs) k = elim (p c) [ true ↦ k (some c) cs | false ↦ false ]

unfoldable pub matches : Pattern → Option ℕ → List ℕ → Rest → Bool
unfolding repeat
matches empty before cs k = k before cs
matches (one p) before cs k = one_unit p cs k
matches (many p) before cs k = repeat p before cs k
matches boundary before cs k = elim (differ (is_word_before before) (is_word_after cs)) [
  | true ↦ k before cs
  | false ↦ false
]
matches (seq a b) before cs k = matches a before cs (λ before' cs'. matches b before' cs' k)
matches (alt a b) before cs k = elim (matches a before cs k) [
  | true ↦ true
  | false ↦ matches b before cs k
]

-- `pattern.test(text)`: a match that begins anywhere.
unfoldable pub test_from : Pattern → Option ℕ → List ℕ → Bool
unfolding matches
test_from p before [] = matches p before [] (λ _ _. true)
test_from p before (c ∷ cs) = elim (matches p before (c ∷ cs) (λ _ _. true)) [
  | true ↦ true
  | false ↦ test_from p (some c) cs
]

unfoldable pub test : Pattern → String → Bool
unfolding test_from
test p text = test_from p none (units text)

-- A literal under the flag `i`.
abbrev pub fold_case : ℕ → ℕ
fold_case c = if leb b'A' c && leb c b'Z' then c + 32 else c

abbrev pub literal_units : List ℕ → Pattern
literal_units [] = empty
literal_units (l ∷ ls) = seq (one (λ c. nat_eq (fold_case c) (fold_case l))) (literal_units ls)

abbrev pub literal : String → Pattern
literal text = literal_units (codes text)

abbrev pub opt : Pattern → Pattern
opt p = alt p empty

abbrev pub any_of : List Pattern → Pattern
any_of [] = one (λ c. false)
any_of (p ∷ []) = p
any_of (p ∷ q ∷ ps) = alt p (any_of (q ∷ ps))

-- `[\s_-]*`, `\s*`, `\s+` and `\S+`.
abbrev pub gap : Pattern
gap = many (λ c. is_space c || nat_eq c b'_' || nat_eq c b'-')

abbrev pub spaces : Pattern
spaces = many is_space

abbrev pub spaces_1 : Pattern
spaces_1 = seq (one is_space) (many is_space)

abbrev pub non_spaces_1 : Pattern
non_spaces_1 = seq (one (λ c. not (is_space c))) (many (λ c. not (is_space c)))

-- Words with a gap between them.
abbrev pub gapped : String → String → Pattern
gapped a b = seq (literal a) (seq gap (literal b))
