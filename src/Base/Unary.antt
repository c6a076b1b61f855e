-- ===== src/Base/Unary.antt =====
-- Texts that tell numbers apart, as tokens and other names for tests.
use ichibi_lake.Base.{ℕ, zero, suc, String, ◌≡◌, refl, sym, ap, ◌∙◌}

unfoldable pub unary : ℕ → String
unary zero = ""
unary (suc n) = String.◌∷◌ "a" (unary n)

size_of : String → ℕ
size_of String.[] = 0
size_of (String.◌∷◌ c s) = suc (size_of s)

size_of-unary : (n : ℕ) → size_of (unary n) ≡ n
unfolding size_of unary
size_of-unary zero = refl
size_of-unary (suc n) = ap suc (size_of-unary n)

pub unary-injective : (p q : ℕ) → unary p ≡ unary q → p ≡ q
unary-injective p q h = sym (size_of-unary p) ∙ ap size_of h ∙ size_of-unary q
