-- ===== src/CLib.antt =====
-- What the program uses of the C library on strings: `strchr`, `atoi`, `sscanf` of a decimal behind
-- a prefix, and `strcspn` of the line end; and the exit status of a failure. Values beyond int, where
-- C leaves the result undefined, stay exact here.
use list_server.Base.{
  ℕ, ◌+◌, ◌-◌, ◌*◌, Bool, ◌&&◌, ◌||◌, Option, none, some, [], ◌∷◌, ◌==◌, leb, if◌then◌else◌, CStr,
  ℤ, pos, ◌-ℤ◌,
}

-- EXIT_FAILURE
abbrev pub exit_failure : ℤ
exit_failure = pos 1

abbrev pub is_digit : ℕ → Bool
is_digit c = leb b'0' c && leb c b'9'

-- The value of the decimal digits at the front, behind those already read.
unfoldable pub digits_value : ℕ → CStr → ℕ
digits_value acc [] = acc
digits_value acc (c ∷ cs) =
    let more = digits_value (acc * 10 + (c - b'0')) cs in if is_digit c then more else acc

-- A sign, then digits; `none` if no digit stands there.
unfoldable pub unsigned : CStr → Option ℕ
unsigned [] = none
unsigned (c ∷ cs) = if is_digit c then some (digits_value 0 (c ∷ cs)) else none

unfoldable pub signed : CStr → Option ℤ
signed [] = none
signed (c ∷ cs) =
    if c == b'-'
    then elim (unsigned cs) [ none ↦ none | some n ↦ some (pos 0 -ℤ pos n) ]
    else elim (unsigned (if c == b'+' then cs else c ∷ cs)) [ none ↦ none | some n ↦ some (pos n) ]

abbrev pub is_space : ℕ → Bool
is_space c = c == 32 || (leb 9 c && leb c 13)

unfoldable pub skip_spaces : CStr → CStr
skip_spaces [] = []
skip_spaces (c ∷ cs) = if is_space c then skip_spaces cs else c ∷ cs

-- 0 for a text that is no number.
unfoldable pub atoi : CStr → ℤ
atoi s = elim (signed (skip_spaces s)) [ none ↦ pos 0 | some n ↦ n ]

-- The text before the first `c` and the text behind it; `none` if there is none.
unfoldable pub split_at : ℕ → CStr → Option (CStr × CStr)
split_at c [] = none
split_at c (x ∷ xs) =
    let later = split_at c xs in
    if x == c then some ([], xs) else elim later [ none ↦ none | some (a, b) ↦ some (x ∷ a, b) ]

unfoldable pub after_prefix : CStr → CStr → Option CStr
after_prefix [] s = some s
after_prefix (p ∷ ps) [] = none
after_prefix (p ∷ ps) (c ∷ cs) = if p == c then after_prefix ps cs else none

-- `sscanf(s, "<prefix>%d", &n) == 1`, with n
unfoldable pub scan_int : CStr → CStr → Option ℤ
scan_int prefix s = elim (after_prefix prefix s) [
  | none ↦ none
  | some rest ↦ signed (skip_spaces rest)
]

-- `s[strcspn(s, "\r\n")] = '\0'`
unfoldable pub cut_line : CStr → CStr
cut_line [] = []
cut_line (c ∷ cs) = if c == 13 || c == 10 then [] else c ∷ cut_line cs
