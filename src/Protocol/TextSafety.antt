-- ===== src/Protocol/TextSafety.antt =====
-- packages/protocol/src/text-safety.ts. The first loop walks code units, the second code points.
use winbridge.Base.{
  ℕ, Bool, true, false, ◌&&◌, ◌||◌, String, List, [], ◌∷◌, ltb, leb, nat_eq, codes, units,
}

abbrev pub is_ascii_control : ℕ → Bool
is_ascii_control code = ltb code 32 || nat_eq code 127

abbrev pub is_format_control : ℕ → Bool
is_format_control code_point =
    nat_eq code_point 0x061c
    || nat_eq code_point 0x200b
    || nat_eq code_point 0x200c
    || nat_eq code_point 0x200d
    || nat_eq code_point 0x200e
    || nat_eq code_point 0x200f
    || nat_eq code_point 0x2060
    || nat_eq code_point 0xfeff
    || (leb 0x202a code_point && leb code_point 0x202e)
    || (leb 0x2066 code_point && leb code_point 0x2069)

-- The loop of `hasAsciiControlCharacter`, over the code units that are left.
unfoldable pub scan_ascii_control : List ℕ → Bool
scan_ascii_control [] = false
scan_ascii_control (code ∷ rest) = elim (is_ascii_control code) [
  | true ↦ true
  | false ↦ scan_ascii_control rest
]

unfoldable pub has_ascii_control_character : String → Bool
unfolding scan_ascii_control
has_ascii_control_character value = scan_ascii_control (units value)

-- The loop of `hasUnsafeTextFormatControl`, over the code points that are left.
unfoldable pub scan_format_control : List ℕ → Bool
scan_format_control [] = false
scan_format_control (code_point ∷ rest) = elim (is_format_control code_point) [
  | true ↦ true
  | false ↦ scan_format_control rest
]

unfoldable pub has_unsafe_text_format_control : String → Bool
unfolding scan_format_control
has_unsafe_text_format_control value = scan_format_control (codes value)
