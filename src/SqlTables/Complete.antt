-- ===== src/SqlTables/Complete.antt =====
-- The walk of src/sql-tables.js misses nothing that a statement reads.
use ichibi_lake.Base.{
  String, ◌≡◌, refl, sym, ap, ◌∙◌, true, false, List, [], ◌∷◌, ◌++◌, ◌⊎◌, inl, inr, ◌==◌, arith,
  Bool-cases,
}
use ichibi_lake.Base.Exec.{ok, err}
use ichibi_lake.SqlTables.Ast.{Json, Items, nil, cons, Fields, end, field}
use ichibi_lake.SqlTables.Walk.{Refs, Out, Scope, join_refs, both}
use ichibi_lake.SqlTables.Extract.{walk, walk_items, walk_fields, walk_node}
use ichibi_lake.SqlTables.Reads.{IsItem, IsEntry, term_scope}

abbrev pub IsIn : List String → List (List String) → Type 0
IsIn path [] = ⊥
IsIn path (p ∷ ps) = (path ≡ p) ⊎ IsIn path ps

pub IsIn-left :
    (path : List String) (ps qs : List (List String)) → IsIn path ps → IsIn path (ps ++ qs)
IsIn-left path [] qs h = elim h [ ]
IsIn-left path (p ∷ ps) qs (inl e) = inl e
IsIn-left path (p ∷ ps) qs (inr h) = inr (IsIn-left path ps qs h)

pub IsIn-right :
    (path : List String) (ps qs : List (List String)) → IsIn path qs → IsIn path (ps ++ qs)
IsIn-right path [] qs h = h
IsIn-right path (p ∷ ps) qs h = inr (IsIn-right path ps qs h)

-- Everything in the first is in the second, as far as tables are named and functions called.
pub record Within (r refs : Refs) : Type 0 where
  pub tables : (path : List String) → IsIn path r.tables → IsIn path refs.tables
  pub functions : refs.functions ≡ [] → r.functions ≡ []

pub Within-trans : {a b c : Refs} → Within a b → Within b c → Within a c
Within-trans f g = record {
  tables = λ path i. g.tables path (f.tables path i);
  functions = λ none_called. f.functions (g.functions none_called);
}

no_left : (xs ys : List String) → (xs ++ ys) ≡ [] → xs ≡ []
no_left [] ys h = refl
no_left (x ∷ xs) ys h = absurd (ground (arith, h))

no_right : (xs ys : List String) → (xs ++ ys) ≡ [] → ys ≡ []
no_right [] ys h = h
no_right (x ∷ xs) ys h = absurd (ground (arith, h))

pub Within-left : (x y : Refs) {refs : Refs} → join_refs x y ≡ refs → Within x refs
Within-left x y e = record {
  tables = λ path i. rw (← e) (IsIn-left path x.tables y.tables i);
  functions = λ h. no_left x.functions y.functions (ap (λ r. r.functions) e ∙ h);
}

pub Within-right : (x y : Refs) {refs : Refs} → join_refs x y ≡ refs → Within y refs
Within-right x y e = record {
  tables = λ path i. rw (← e) (IsIn-right path x.tables y.tables i);
  functions = λ h. no_right x.functions y.functions (ap (λ r. r.functions) e ∙ h);
}

-- Everything that a walk returned is in what the whole returned.
abbrev pub Feeds : Out → Refs → Type 0
Feeds out refs = (r : Refs) × (out ≡ ok r) × Within r refs

pub both_left : (a b : Out) (refs : Refs) → both a b ≡ ok refs → Feeds a refs
both_left (err e) b refs h = absurd (ground (arith, h))
both_left (ok x) (err e) refs h = absurd (ground (arith, h))
both_left (ok x) (ok y) refs h = (x, refl, Within-left x y (ground (arith, h)))

pub both_right : (a b : Out) (refs : Refs) → both a b ≡ ok refs → Feeds b refs
both_right (err e) b refs h = absurd (ground (arith, h))
both_right (ok x) (err e) refs h = absurd (ground (arith, h))
both_right (ok x) (ok y) refs h = (y, refl, Within-right x y (ground (arith, h)))

pub Feeds-trans :
    (a b : Out) (refs : Refs) → Feeds b refs → ((r : Refs) → b ≡ ok r → Feeds a r) → Feeds a refs
Feeds-trans a b refs (r, e, whole) f = let (q, d, below) = f r e in (q, d, Within-trans below whole)

module _ (lower : String → String) where
  pub walk_items-Feeds :
      (v : Json) (xs : Items) (scope : Scope) (refs : Refs)
      → IsItem v xs
      → walk_items lower xs scope ≡ ok refs
      → Feeds (walk lower v scope) refs
  unfolding walk_items
  walk_items-Feeds v nil scope refs i h = elim i [ ]
  walk_items-Feeds v (cons w rest) scope refs (inl e) h = rw e (both_left _ _ refs h)
  walk_items-Feeds v (cons w rest) scope refs (inr i) h =
      Feeds-trans _ _ refs (both_right _ _ refs h) (λ r e. walk_items-Feeds v rest scope r i e)

  pub walk_fields-Feeds :
      (k : String) (v : Json) (fields : Fields) (scope : Scope) (refs : Refs)
      → IsEntry k v fields
      → walk_fields lower fields scope ≡ ok refs
      → Feeds (walk lower v scope) refs
  unfolding walk_fields
  walk_fields-Feeds k v end scope refs i h = elim i [ ]
  walk_fields-Feeds k v (field j w rest) scope refs (inl (_, e)) h = rw e (both_left _ _ refs h)
  walk_fields-Feeds k v (field j w rest) scope refs (inr i) h =
      Feeds-trans _ _ refs (both_right _ _ refs h) (λ r e. walk_fields-Feeds k v rest scope r i e)

  walk_node-entry :
      (t j name : String) (w : Json) (rest : Fields) (scope : Scope)
      → (j == "cte_map") ≡ false
      → walk_node lower (field j w rest) t name scope
        ≡ both (walk lower w (term_scope lower t j name scope)) (walk_node lower rest t name scope)
  unfolding walk_node
  walk_node-entry t j name w rest scope h = rw (h, walk_node) refl

  walk_node-skip :
      (t j name : String) (w : Json) (rest : Fields) (scope : Scope)
      → (j == "cte_map") ≡ true
      → walk_node lower (field j w rest) t name scope ≡ walk_node lower rest t name scope
  unfolding walk_node
  walk_node-skip t j name w rest scope h = rw (h, walk_node) refl

  pub walk_node-Feeds :
      (t k name : String) (v : Json) (node : Fields) (scope : Scope) (refs : Refs)
      → IsEntry k v node
      → (k == "cte_map") ≡ false
      → walk_node lower node t name scope ≡ ok refs
      → Feeds (walk lower v (term_scope lower t k name scope)) refs
  unfolding walk_node
  walk_node-Feeds t k name v end scope refs i other h = elim i [ ]
  walk_node-Feeds t k name v (field j w rest) scope refs (inl (e, f)) other h =
      rw (e, f)
        (both_left _ _ refs (
          sym (walk_node-entry t j name w rest scope (ap (λ x. x == "cte_map") (sym e) ∙ other))
          ∙ h))
  walk_node-Feeds t k name v (field j w rest) scope refs (inr i) other h =
      elim (Bool-cases (j == "cte_map")) [
        | inl skipped ↦
            walk_node-Feeds t k name v rest scope refs i other
              (sym (walk_node-skip t j name w rest scope skipped) ∙ h)
        | inr walked ↦
            Feeds-trans _ _ refs
              (both_right _ _ refs (sym (walk_node-entry t j name w rest scope walked) ∙ h))
              (λ r e. walk_node-Feeds t k name v rest scope r i other e)
      ]
