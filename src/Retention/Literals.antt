-- ===== src/Retention/Literals.antt =====
-- A quoted text of src/console/retention.js, as the reader of SQL has it: up to a quote that
-- is not doubled.
use Prim.Native.Char.{Char, char, code}
use text.Mathlib.TextLemmas.{append_assoc, cons-append, nil-append}
use ichibi_lake.Base.{
  ℕ, String, ◌≡◌, refl, Bool, true, false, Option, none, some, nat_eq, arith, Bool-cases, inl, inr,
  if◌then◌else◌,
}
use ichibi_lake.Base.Text.{◌⊕◌}
use ichibi_lake.Retention.Quoting.{double_quotes, sql_literal, quote_ident}

abbrev with_char : Char → Option (String × String) → Option (String × String)
with_char c none = none
with_char c (some r) = some (String.◌∷◌ c r.0, r.1)

-- The text up to the closing quote, with doubled quotes made single, and what follows it.
unfoldable pub read_quoted : ℕ → String → Option (String × String)
read_quoted quote String.[] = none
read_quoted quote (String.◌∷◌ c String.[]) = if nat_eq (code c) quote then some ("", "") else none
read_quoted quote (String.◌∷◌ c (String.◌∷◌ d s)) =
    let after_pair = read_quoted quote s in
    let after_one = read_quoted quote (String.◌∷◌ d s) in
    if nat_eq (code c) quote
    then (if nat_eq (code d) quote then with_char c after_pair else some ("", String.◌∷◌ d s))
    else with_char c after_one

-- A quoted text at the start of the SQL, and the SQL that follows it.
unfoldable pub read_sql_quoted : ℕ → String → Option (String × String)
read_sql_quoted quote String.[] = none
read_sql_quoted quote (String.◌∷◌ c s) =
    let text = read_quoted quote s in if nat_eq (code c) quote then text else none

abbrev pub starts_with_quote : ℕ → String → Bool
starts_with_quote quote String.[] = false
starts_with_quote quote (String.◌∷◌ c s) = nat_eq (code c) quote

read-close :
    (q : Char) (rest : String)
    → starts_with_quote (code q) rest ≡ false
    → read_quoted (code q) (String.◌∷◌ q rest) ≡ some ("", rest)
unfolding read_quoted
read-close q String.[] h = ground arith
read-close q (String.◌∷◌ d s) h = ground (arith, h)

read-plain :
    (quote : ℕ) (c : Char) (s : String)
    → nat_eq (code c) quote ≡ false
    → read_quoted quote (String.◌∷◌ c s) ≡ with_char c (read_quoted quote s)
unfolding read_quoted
read-plain quote c String.[] h = ground (arith, h)
read-plain quote c (String.◌∷◌ d s) h = ground (arith, h)

read-pair :
    (quote : ℕ) (c : Char) (s : String)
    → nat_eq (code c) quote ≡ true
    → read_quoted quote (String.◌∷◌ c (String.◌∷◌ c s)) ≡ with_char c (read_quoted quote s)
unfolding read_quoted
read-pair quote c s h = ground (arith, h)

read-double_quotes :
    (q : Char) (s rest : String)
    → starts_with_quote (code q) rest ≡ false
    → read_quoted (code q) (double_quotes (code q) s ⊕ String.◌∷◌ q rest) ≡ some (s, rest)
unfolding double_quotes
read-double_quotes q String.[] rest h = rw (nil-append (String.◌∷◌ q rest)) (read-close q rest h)
read-double_quotes q (String.◌∷◌ c s) rest h =
    let ih = read-double_quotes q s rest h in
    let tail = double_quotes (code q) s in
    elim (Bool-cases (nat_eq (code c) (code q))) [
      | inl same ↦
          rw
            (
              same,
              cons-append c (String.◌∷◌ c tail) (String.◌∷◌ q rest),
              cons-append c tail (String.◌∷◌ q rest),
              read-pair (code q) c (tail ⊕ String.◌∷◌ q rest) same,
              ih,
            )
            refl
      | inr apart ↦
          rw
            (
              apart,
              cons-append c tail (String.◌∷◌ q rest),
              read-plain (code q) c (tail ⊕ String.◌∷◌ q rest) apart,
              ih,
            )
            refl
    ]

read-quoted :
    (q : Char) (s rest : String)
    → starts_with_quote (code q) rest ≡ false
    → nat_eq (code q) (code q) ≡ true
    → read_sql_quoted (code q) (String.◌∷◌ q "" ⊕ double_quotes (code q) s ⊕ String.◌∷◌ q "" ⊕ rest)
      ≡ some (s, rest)
unfolding read_sql_quoted
read-quoted q s rest h r =
    rw
      (
        append_assoc (String.◌∷◌ q "" ⊕ double_quotes (code q) s) (String.◌∷◌ q "") rest,
        cons-append q "" rest,
        nil-append rest,
        append_assoc (String.◌∷◌ q "") (double_quotes (code q) s) (String.◌∷◌ q rest),
        cons-append q "" (double_quotes (code q) s ⊕ String.◌∷◌ q rest),
        nil-append (double_quotes (code q) s ⊕ String.◌∷◌ q rest),
        r,
        read-double_quotes q s rest h,
      )
      refl

-- Whatever text a value or a name of a rule is, SQL reads its quoted form back as that very
-- text and ends it where the quoted form ends, provided that the SQL after it does not start
-- with the same quote.
pub read-sql_literal-quote_ident :
    (text rest : String)
    → starts_with_quote b'\'' rest ≡ false
    → starts_with_quote b'"' rest ≡ false
    → (read_sql_quoted b'\'' (sql_literal text ⊕ rest) ≡ some (text, rest))
      × (read_sql_quoted b'"' (quote_ident text ⊕ rest) ≡ some (text, rest))
unfolding sql_literal quote_ident
read-sql_literal-quote_ident text rest h k =
    (read-quoted (char 39 _) text rest h refl, read-quoted (char 34 _) text rest k refl)
