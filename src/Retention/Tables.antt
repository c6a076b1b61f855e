-- ===== src/Retention/Tables.antt =====
-- src/console/retention.js: the tables that a rule selects, isSystemTable, assertPrunable,
-- splitPatterns, globToRegex and matchTables.
use Prim.Native.Char.{code}
use ichibi_lake.Base.{
  ℕ, String, Bool, true, false, not, ◌||◌, ◌&&◌, List, [], ◌∷◌, ◌==◌, nat_eq, any, filter,
  if◌then◌else◌,
}
use ichibi_lake.Base.Text.{is_safe_identifier, has_prefix, fold_case}
use ichibi_lake.Retention.Columns.{is_word_of}
use ichibi_lake.Retention.Conditions.{comma_list}

abbrev protected_tables : List String
protected_tables =
    "_rbac_users" ∷ "_rbac_user_roles" ∷ "_rbac_table_permissions" ∷ "_table_acls"
    ∷ "_graph_registry" ∷ "_gateway_meta" ∷ "_console_users" ∷ "_console_settings"
    ∷ "_console_audit" ∷ "_console_prune_rules" ∷ "_console_prune_runs" ∷ "_console_retention" ∷ []

-- isSystemTable; the names of the list are in lower case already.
unfoldable pub is_system_table : String → Bool
unfolding has_prefix
is_system_table name = has_prefix "_" name || is_word_of protected_tables name

-- assertPrunable, which throws where this is false
unfoldable pub is_prunable : String → Bool
unfolding is_system_table is_safe_identifier
is_prunable name = not (is_system_table name || not (is_safe_identifier name))

abbrev some_suffix : (String → Bool) → String → Bool
some_suffix p String.[] = p ""
some_suffix p (String.◌∷◌ c s) = p (String.◌∷◌ c s) || some_suffix p s

abbrev after_first : (String → Bool) → String → Bool
after_first p String.[] = false
after_first p (String.◌∷◌ c s) = p s

abbrev same_first : ℕ → (String → Bool) → String → Bool
same_first c p String.[] = false
same_first c p (String.◌∷◌ d s) = nat_eq (fold_case c) (fold_case (code d)) && p s

-- globToRegex(glob).test(name): `*` stands for any characters, `?` for one.
unfoldable pub glob_matches : String → String → Bool
unfolding fold_case
glob_matches String.[] String.[] = true
glob_matches String.[] (String.◌∷◌ c s) = false
glob_matches (String.◌∷◌ g glob) name =
    if nat_eq (code g) b'*'
    then some_suffix (glob_matches glob) name
    else if nat_eq (code g) b'?'
    then after_first (glob_matches glob) name
    else same_first (code g) (glob_matches glob) name

-- include.some(r => r.test(t)) && !exclude.some(r => r.test(t))
unfoldable pub is_selected : String → String → String → Bool
unfolding glob_matches comma_list
is_selected include exclude name =
    any (λ g. glob_matches g name) (comma_list include)
    && not (any (λ g. glob_matches g name) (comma_list exclude))

-- matchTables; `sort` is sort with localeCompare.
unfoldable pub match_tables :
    (List String → List String) → List String → String → String → List String
unfolding is_system_table is_selected
match_tables sort names include exclude =
    sort (filter (is_selected include exclude) (filter (λ t. not (is_system_table t)) names))

-- isLegacyMultiTable
unfoldable pub is_legacy_multi_table : String → String → Bool
is_legacy_multi_table exclude pattern = not (exclude == "") || not (is_safe_identifier pattern)
