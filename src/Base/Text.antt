-- ===== src/Base/Text.antt =====
-- The text functions of JavaScript that the program calls: split on a character, trim, join,
-- `x || d`. White space is that of ECMAScript.
use Prim.Native.Char.{Char, code}
use Prim.Native.String
use ichibi_lake.Base.{
  ℕ, zero, suc, ◌+◌, String, Bool, true, false, ◌||◌, ◌&&◌, Option, none, some, List, [], ◌∷◌, ◌==◌,
  nat_eq, leb, ltb, ◌/◌, ◌%◌, if◌then◌else◌,
}

infixl 6 ◌⊕◌
abbrev pub ◌⊕◌ : String → String → String
◌⊕◌ = String.◌++◌

unfoldable pub is_space : ℕ → Bool
is_space c =
    (leb 9 c && leb c 13)
    || nat_eq c 32
    || nat_eq c 160
    || nat_eq c 0x1680
    || (leb 0x2000 c && leb c 0x200a)
    || nat_eq c 0x2028
    || nat_eq c 0x2029
    || nat_eq c 0x202f
    || nat_eq c 0x205f
    || nat_eq c 0x3000
    || nat_eq c 0xfeff

unfoldable pub trim_start : String → String
trim_start String.[] = ""
trim_start (String.◌∷◌ c s) =
    let rest = trim_start s in if is_space (code c) then rest else String.◌∷◌ c s

trim_end : String → String
trim_end String.[] = ""
trim_end (String.◌∷◌ c s) =
    let rest = trim_end s in if is_space (code c) && rest == "" then "" else String.◌∷◌ c rest

-- s.trim()
unfoldable pub trim : String → String
unfolding trim_start trim_end is_space
trim s = trim_end (trim_start s)

abbrev push_first : Char → List String → List String
push_first c [] = String.◌∷◌ c "" ∷ []
push_first c (w ∷ ws) = String.◌∷◌ c w ∷ ws

-- s.split(sep) for a separator of one character
unfoldable pub split : ℕ → String → List String
split sep String.[] = "" ∷ []
split sep (String.◌∷◌ c s) =
    let rest = split sep s in if nat_eq (code c) sep then "" ∷ rest else push_first c rest

-- xs.join(',')
unfoldable pub join_comma : List String → String
join_comma [] = ""
join_comma (w ∷ []) = w
join_comma (w ∷ v ∷ ws) = String.◌++◌ w (String.◌++◌ "," (join_comma (v ∷ ws)))

-- x || d, where x may be undefined, null or empty
abbrev pub or_text : Option String → String → String
or_text none d = d
or_text (some s) d = if s == "" then d else s

abbrev pub is_given : Option String → Bool
is_given none = Bool.false
is_given (some s) = if s == "" then Bool.false else Bool.true

-- A letter of ASCII in lower case, as a number: what /.../i compares.
unfoldable pub fold_case : ℕ → ℕ
fold_case c = if leb b'A' c && leb c b'Z' then c + 32 else c

unfoldable pub matches_prefix : String → String → Bool
unfolding fold_case
matches_prefix String.[] s = true
matches_prefix (String.◌∷◌ c pattern) String.[] = false
matches_prefix (String.◌∷◌ c pattern) (String.◌∷◌ d s) =
    nat_eq (fold_case (code c)) (fold_case (code d)) && matches_prefix pattern s

-- /pattern/i.test(s) for a pattern of plain characters
unfoldable pub matches : String → String → Bool
unfolding matches_prefix
matches pattern String.[] = pattern == ""
matches pattern (String.◌∷◌ c s) = matches_prefix pattern (String.◌∷◌ c s) || matches pattern s

abbrev pub is_letter : ℕ → Bool
is_letter c = (leb b'A' c && leb c b'Z') || (leb b'a' c && leb c b'z') || nat_eq c b'_'

abbrev pub is_digit : ℕ → Bool
is_digit c = leb b'0' c && leb c b'9'

abbrev pub text_length : String → ℕ
text_length String.[] = 0
text_length (String.◌∷◌ c s) = suc (text_length s)

abbrev pub all_word : String → Bool
all_word String.[] = true
all_word (String.◌∷◌ c s) = (is_letter (code c) || is_digit (code c)) && all_word s

-- SAFE_IDENTIFIER_RE: /^[A-Za-z_][A-Za-z0-9_]{0,62}$/
unfoldable pub is_safe_identifier : String → Bool
is_safe_identifier String.[] = false
is_safe_identifier (String.◌∷◌ c s) = is_letter (code c) && all_word s && leb (text_length s) 62

-- /^[A-Za-z_][A-Za-z0-9_]*$/
unfoldable pub is_identifier : String → Bool
is_identifier String.[] = false
is_identifier (String.◌∷◌ c s) = is_letter (code c) && all_word s

-- s.startsWith(prefix)
unfoldable pub has_prefix : String → String → Bool
has_prefix String.[] s = true
has_prefix (String.◌∷◌ c prefix) String.[] = false
has_prefix (String.◌∷◌ c prefix) (String.◌∷◌ d s) = nat_eq (code c) (code d) && has_prefix prefix s

-- What follows a prefix of the text, upper and lower case letters of ASCII being alike.
unfoldable pub after_prefix : String → String → Option String
unfolding fold_case
after_prefix String.[] s = some s
after_prefix (String.◌∷◌ c prefix) String.[] = none
after_prefix (String.◌∷◌ c prefix) (String.◌∷◌ d s) =
    elim (nat_eq (fold_case (code c)) (fold_case (code d))) [
      | true ↦ after_prefix prefix s
      | false ↦ none
    ]

-- /^pattern$/i.test(s) for a pattern of plain characters
unfoldable pub same_word : String → String → Bool
unfolding after_prefix
same_word pattern s = elim (after_prefix pattern s) [ none ↦ false | some rest ↦ rest == "" ]

-- s.length, which counts the characters above U+FFFF twice
unfoldable pub code_units : String → ℕ
code_units String.[] = 0
code_units (String.◌∷◌ c s) = (if leb 0x10000 (code c) then 2 else 1) + code_units s

abbrev digit_text : ℕ → String
digit_text n =
    if nat_eq n 0
    then "0"
    else if nat_eq n 1
    then "1"
    else if nat_eq n 2
    then "2"
    else if nat_eq n 3
    then "3"
    else if nat_eq n 4
    then "4"
    else if nat_eq n 5
    then "5"
    else if nat_eq n 6
    then "6"
    else if nat_eq n 7
    then "7"
    else if nat_eq n 8
    then "8"
    else "9"

decimal_from : ℕ → ℕ → String
decimal_from zero n = digit_text n
decimal_from (suc fuel) n = elim (ltb n 10) [
  | true ↦ digit_text n
  | false ↦ decimal_from fuel (n / 10) ⊕ digit_text (n % 10)
]

-- String(n): each step divides by 10, so that n steps are enough.
unfoldable pub decimal : ℕ → String
unfolding decimal_from
decimal n = decimal_from n n

-- xs.join(sep)
unfoldable pub join_with : String → List String → String
join_with sep [] = ""
join_with sep (w ∷ []) = w
join_with sep (w ∷ v ∷ ws) = w ⊕ sep ⊕ join_with sep (v ∷ ws)
