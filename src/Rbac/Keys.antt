-- ===== src/Rbac/Keys.antt =====
-- The cache keys `${apiKey}::${tableName}` of src/rbac.js.
use Prim.Native.Char.{Char, code}
use mathlib.Core.Path.{ap₂, subst}
use text.Mathlib.TextLemmas.{nil-append, cons-append}
use ichibi_lake.Base.{String, ◌≡◌, ◌≢◌, refl, ap, sym, ◌∙◌}
use ichibi_lake.Rbac.Lookups.{cache_key}

-- Table names are identifiers; a colon in one would let two pairs share a cache entry.
abbrev pub NoColon : String → Type 0
NoColon String.[] = Unit
NoColon (String.◌∷◌ c s) = (code c ≢ b':') × NoColon s

cache_key_nil : (t : String) → cache_key "" t ≡ String.◌∷◌ ":" (String.◌∷◌ ":" t)
unfolding cache_key
cache_key_nil t = rw nil-append (rw cons-append (rw cons-append (rw nil-append)))

cache_key_cons :
    (c : Char) (k t : String) → cache_key (String.◌∷◌ c k) t ≡ String.◌∷◌ c (cache_key k t)
unfolding cache_key
cache_key_cons c k t = cons-append c k _

not-NoColon-cache_key : (k t : String) → NoColon (cache_key k t) → ⊥
not-NoColon-cache_key String.[] t h = (rw (cache_key_nil t) at h).0 refl
not-NoColon-cache_key (String.◌∷◌ c k) t h =
    not-NoColon-cache_key k t (rw (cache_key_cons c k t) at h).1

abbrev head_of : Char → String → Char
head_of d String.[] = d
head_of d (String.◌∷◌ c s) = c

abbrev tail_of : String → String
tail_of String.[] = ""
tail_of (String.◌∷◌ c s) = s

-- A text with a single leading colon is no cache key.
one_colon : (j t u : String) → NoColon t → String.◌∷◌ ":" t ≡ cache_key j u → ⊥
one_colon String.[] t u h e = (subst NoColon (ap tail_of (e ∙ cache_key_nil u)) h).0 refl
one_colon (String.◌∷◌ c j) t u h e =
    not-NoColon-cache_key j u (subst NoColon (ap tail_of (e ∙ cache_key_cons c j u)) h)

-- Two pairs share a cache entry only if they are the same pair.
pub cache_key-injective :
    (k j t u : String) → NoColon t → NoColon u → cache_key k t ≡ cache_key j u → (k ≡ j) × (t ≡ u)
cache_key-injective String.[] String.[] t u ht hu e =
    (refl, ap (λ s. tail_of (tail_of s)) (sym (cache_key_nil t) ∙ e ∙ cache_key_nil u))
cache_key-injective String.[] (String.◌∷◌ c j) t u ht hu e =
    absurd (one_colon j t u ht (ap tail_of (sym (cache_key_nil t) ∙ e ∙ cache_key_cons c j u)))
cache_key-injective (String.◌∷◌ c k) String.[] t u ht hu e =
    absurd (one_colon k u t hu (ap tail_of (sym (cache_key_nil u) ∙ sym e ∙ cache_key_cons c k t)))
cache_key-injective (String.◌∷◌ c k) (String.◌∷◌ d j) t u ht hu e =
    let e' = sym (cache_key_cons c k t) ∙ e ∙ cache_key_cons d j u in
    let (same, rest) = cache_key-injective k j t u ht hu (ap tail_of e') in
    (ap₂ String.◌∷◌ (ap (head_of c) e') same, rest)

-- The entry of a pair is never the one that `apiKey` alone would name.
pub cache_key-ne-key : (k t : String) → cache_key k t ≢ k
cache_key-ne-key String.[] t e = cc (sym (cache_key_nil t) ∙ e)
cache_key-ne-key (String.◌∷◌ c k) t e =
    cache_key-ne-key k t (ap tail_of (sym (cache_key_cons c k t) ∙ e))
