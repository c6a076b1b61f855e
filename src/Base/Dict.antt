-- ===== src/Base/Dict.antt =====
-- A JavaScript `Map` with text keys, as an association list in insertion order: `set` on a key
-- that is there keeps its place, on a new key it appends.
use ichibi_lake.Base.{
  Bool, true, false, String, ◌≡◌, refl, Option, none, some, List, [], ◌∷◌, arith, ◌==◌, eq_iff,
  if◌then◌else◌,
}

-- A property of a test on two texts, from the two cases.
pub if_split {ℓ} :
    (topic t : String) (p : Bool → Type ℓ)
    → (topic ≡ t → p true)
    → ((topic == t) ≡ false → p false)
    → p (topic == t)
if_split topic t p same apart =
    elim (topic == t) as (λ b. (topic == t) ≡ b → p b) [
      | true ↦ λ h. same ((eq_iff topic t).0 h)
      | false ↦ apart
    ]
      refl

abbrev pub Dict {ℓ} : Type ℓ → Type ℓ
Dict V = List (String × V)

module _ {ℓ} {V : Type ℓ} where
  -- map.get(key)
  unfoldable pub lookup : String → Dict V → Option V
  lookup key [] = none
  lookup key (entry ∷ rest) = if entry.0 == key then some entry.1 else lookup key rest

  -- map.set(key, value)
  unfoldable pub insert : String → V → Dict V → Dict V
  insert key value [] = (key, value) ∷ []
  insert key value (entry ∷ rest) =
      if entry.0 == key then (key, value) ∷ rest else entry ∷ insert key value rest

  -- map.delete(key)
  unfoldable pub erase : String → Dict V → Dict V
  erase key [] = []
  erase key (entry ∷ rest) =
      let others = erase key rest in if entry.0 == key then others else entry ∷ others

  pub lookup-insert :
      (key other : String) (value : V) (map : Dict V)
      → lookup other (insert key value map)
        ≡ (if key == other then some value else lookup other map)
  unfolding lookup insert
  lookup-insert key other value [] = refl
  lookup-insert key other value (entry ∷ rest) = ground (
    arith,
    lookup-insert key other value rest,
    eq_iff entry.0 key,
    eq_iff entry.0 other,
    eq_iff key other,
  )

  pub lookup-erase :
      (key other : String) (map : Dict V)
      → lookup other (erase key map) ≡ (if key == other then none else lookup other map)
  unfolding lookup erase
  lookup-erase key other [] = ground arith
  lookup-erase key other (entry ∷ rest) = ground (
    arith,
    lookup-erase key other rest,
    eq_iff entry.0 key,
    eq_iff entry.0 other,
    eq_iff key other,
  )

pub ruleset dict_laws = (lookup-insert, lookup-erase)
