-- ===== src/Retention/Quoting.antt =====
-- src/console/retention.js: the quoting of values and names in the SQL of a rule: sqlLiteral,
-- quoteIdent and likeEscape.
use Prim.Native.Char.{code}
use ichibi_lake.Base.{ℕ, String, ◌||◌, nat_eq, if◌then◌else◌}
use ichibi_lake.Base.Text.{◌⊕◌}

-- s.replace(/q/g, 'qq'), for a quote q of code `quote`
unfoldable pub double_quotes : ℕ → String → String
double_quotes quote String.[] = ""
double_quotes quote (String.◌∷◌ c s) =
    let rest = String.◌∷◌ c (double_quotes quote s) in
    if nat_eq (code c) quote then String.◌∷◌ c rest else rest

unfoldable pub sql_literal : String → String
unfolding double_quotes
sql_literal value = "'" ⊕ double_quotes b'\'' value ⊕ "'"

unfoldable pub quote_ident : String → String
unfolding double_quotes
quote_ident name = "\"" ⊕ double_quotes b'"' name ⊕ "\""

-- s.replace(/[\\%_]/g, m => `\\${m}`)
unfoldable pub like_escape : String → String
like_escape String.[] = ""
like_escape (String.◌∷◌ c s) =
    let rest = String.◌∷◌ c (like_escape s) in
    if nat_eq (code c) b'\\' || nat_eq (code c) b'%' || nat_eq (code c) b'_'
    then "\\" ⊕ rest
    else rest
