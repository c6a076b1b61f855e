-- ===== src/TableKeys/Accepted.antt =====
-- What normaliseKeyList of src/table-keys.js accepts.
use ichibi_lake.Base.{
  ◌≤◌, String, ◌≡◌, refl, true, false, ◌||◌, Option, none, some, List, [], ◌∷◌, ◌++◌, map, ◌==◌,
  eq_iff, arith, includes, length, All, ◌⊎◌, inl, inr, Bool-cases,
}
use ichibi_lake.Base.Exec.{Result, ok, err}
use ichibi_lake.Base.Text.{is_safe_identifier, split, trim}
use ichibi_lake.TableKeys.KeyList.{
  Requested, one_text, array_of, other, KeyError, key_name, add_key, collect_keys, at_most_16,
  normalise_key_list,
}

abbrev pub IsDistinct : List String → Type 0
IsDistinct [] = Unit
IsDistinct (k ∷ ks) = (includes k ks ≡ false) × IsDistinct ks

abbrev pub AreSafe : List String → Type 0
AreSafe keys = All (λ k. is_safe_identifier k ≡ true) keys

includes-append :
    (k : String) (xs : List String) (y : String)
    → includes k (xs ++ y ∷ []) ≡ includes k xs || y == k
includes-append k [] y = ground arith
includes-append k (x ∷ xs) y = ground (arith, includes-append k xs y)

append-IsDistinct :
    (xs : List String) (y : String)
    → IsDistinct xs
    → includes y xs ≡ false
    → IsDistinct (xs ++ y ∷ [])
append-IsDistinct [] y d h = (refl, tt)
append-IsDistinct (x ∷ xs) y (f, d) h = (
  ground (arith, includes-append x xs y, f, h, eq_iff x y, eq_iff y x),
  append-IsDistinct xs y d (ground (arith, h)),
)

append-AreSafe :
    (xs : List String) (y : String)
    → AreSafe xs
    → is_safe_identifier y ≡ true
    → AreSafe (xs ++ y ∷ [])
append-AreSafe [] y a h = (h, tt)
append-AreSafe (x ∷ xs) y (b, a) h = (b, append-AreSafe xs y a h)

add_key_lem :
    (out : List String) (name : String)
    → AreSafe out
    → IsDistinct out
    → is_safe_identifier name ≡ true
    → AreSafe (add_key out name) × IsDistinct (add_key out name)
unfolding add_key
add_key_lem out name a d h = elim (Bool-cases (includes name out)) [
  | inl there ↦ rw there (a, d)
  | inr new ↦ rw new (append-AreSafe out name a h, append-IsDistinct out name d new)
]

-- The texts among the items, trimmed.
abbrev pub trimmed : List (Option String) → List String
trimmed [] = []
trimmed (none ∷ ks) = trimmed ks
trimmed (some k ∷ ks) = trim k ∷ trimmed ks

abbrev pub items : Requested → List (Option String)
items (one_text keys) = map some (split b',' keys)
items (array_of keys) = keys
items other = []

already :
    (n name : String) (out : List String)
    → includes name out ≡ true
    → includes n out ≡ includes n out || name == n
already n name [] h = absurd (ground (arith, h))
already n name (x ∷ out) h = elim (Bool-cases (x == name)) [
  | inl same ↦ rw ((eq_iff x name).0 same) (ground arith)
  | inr differs ↦ let ih = already n name out (ground (arith, h, differs)) in ground (arith, ih)
]

includes-add_key :
    (n name : String) (out : List String)
    → includes n (add_key out name) ≡ includes n out || name == n
unfolding add_key
includes-add_key n name out = elim (Bool-cases (includes name out)) [
  | inl there ↦ rw there (already n name out there)
  | inr new ↦ rw new (includes-append n out name)
]

key_name-cases :
    (k : Option String) (name : String)
    → key_name k ≡ ok name
    → (is_safe_identifier name ≡ true) × (trimmed (k ∷ []) ≡ name ∷ [])
unfolding key_name
key_name-cases none name h = absurd (ground (arith, h))
key_name-cases (some k) name h = elim (Bool-cases (is_safe_identifier (trim k))) [
  | inl safe ↦ let e : trim k ≡ name = ground (arith, h, safe) in rw (← e) (safe, refl)
  | inr unsafe ↦ absurd (ground (arith, h, unsafe))
]

trimmed-first :
    (n name : String) (k : Option String) (ks : List (Option String))
    → trimmed (k ∷ []) ≡ name ∷ []
    → includes n (trimmed (k ∷ ks)) ≡ name == n || includes n (trimmed ks)
trimmed-first n name none ks h = absurd (ground (arith, h))
trimmed-first n name (some k) ks h = let e : trim k ≡ name = ground (arith, h) in rw e refl

abbrev Yields : List String → List (Option String) → List String → Type 0
Yields out ks final =
    AreSafe final
    × IsDistinct final
    × ((n : String) → includes n final ≡ includes n out || includes n (trimmed ks))

Result-cases :
    {A : Type 0} (r : Result KeyError A) → ((e : KeyError) × (r ≡ err e)) ⊎ ((a : A) × (r ≡ ok a))
Result-cases (err e) = inl (e, refl)
Result-cases (ok a) = inr (a, refl)

collect_keys_lem :
    (ks : List (Option String)) (out final : List String)
    → AreSafe out
    → IsDistinct out
    → collect_keys out ks ≡ ok final
    → Yields out ks final
unfolding collect_keys
collect_keys_lem [] out final a d h =
    let e : out ≡ final = ground (arith, h) in rw (← e) (a, d, (λ n. ground arith))
collect_keys_lem (k ∷ ks) out final a d h = elim (Result-cases (key_name k)) [
  | inl (e, refused) ↦ absurd (ground (arith, h, refused))
  | inr (name, found) ↦
      let (safe, first) = key_name-cases k name found in
      let (a', d') = add_key_lem out name a d safe in
      let (b, c, whole) =
        collect_keys_lem ks (add_key out name) final a' d' (ground (arith, h, found)) in
      (
        b,
        c,
        (λ n.
            ground (arith, whole n, includes-add_key n name out, trimmed-first n name k ks first)),
      )
]

accepted :
    (ks : List (Option String)) (keys : List String)
    → at_most_16 (collect_keys [] ks) ≡ ok keys
    → AreSafe keys
      × IsDistinct keys
      × (length keys ≤ 16)
      × ((n : String) → includes n keys ≡ includes n (trimmed ks))
accepted ks keys h = elim (Result-cases (collect_keys [] ks)) [
  | inl (e, refused) ↦ absurd (ground (arith, h, refused))
  | inr (out, found) ↦
      let same : out ≡ keys = ground (arith, h, found) in
      let few : length out ≤ 16 = ground (arith, h, found) in
      let (a, d, whole) = collect_keys_lem ks [] out tt tt found in rw (← same) (a, d, few, whole)
]

-- A list that normaliseKeyList accepts holds the requested names, trimmed, and no others; each is a
-- safe identifier, no name stands twice, and there are at most 16.
pub normalise_key_list_lem :
    (r : Requested) (keys : List String)
    → normalise_key_list r ≡ ok keys
    → AreSafe keys
      × IsDistinct keys
      × (length keys ≤ 16)
      × ((n : String) → includes n keys ≡ includes n (trimmed (items r)))
unfolding normalise_key_list
normalise_key_list_lem (one_text t) keys h = accepted (map some (split b',' t)) keys h
normalise_key_list_lem (array_of ks) keys h = accepted ks keys h
normalise_key_list_lem other keys h = absurd (ground (arith, h))
