-- ===== src/Prelude/Strings.antt =====
-- Go strings: sequences of bytes, with `==`.
use Prim.Native.Nat.{ℕ, ◌<◌}
use Prim.Native.Char.{code}
use Prim.Native.String.{String}
use mathlib.Core.Path.{◌≡◌, refl}
use mathlib.Core.Logic.{◌↔◌, ◌≢◌}
use mathlib.Core.Bool.{Bool, true, false, ◌&&◌}
use mathlib.Core.List.{List, [], ◌∷◌}
use native.Mathlib.Omega.{arith}
use receptor.Prelude.Tests.{◌==◌}
use receptor.Prelude.Lists.{All}

abbrev pub Bytes : Type 0
Bytes = List ℕ

-- The bytes of a literal that is ASCII.
abbrev pub codes : String → Bytes
codes String.[] = []
codes (String.◌∷◌ c s) = code c ∷ codes s

abbrev pub IsBytes : Bytes → Type 0
IsBytes = All (λ b. b < 256)

unfoldable pub same : Bytes → Bytes → Bool
same [] [] = true
same (x ∷ xs) (y ∷ ys) = x == y && same xs ys
same _ _ = false

-- `strings.HasPrefix`
abbrev pub has_prefix : Bytes → Bytes → Bool
has_prefix text [] = true
has_prefix [] (p ∷ prefix) = false
has_prefix (b ∷ text) (p ∷ prefix) = b == p && has_prefix text prefix

pub same_refl : (a : Bytes) → same a a ≡ true
unfolding same
same_refl [] = refl
same_refl (x ∷ a) = ground (arith, same_refl a)

pub same→eq : (a b : Bytes) → same a b ≡ true → a ≡ b
unfolding same
same→eq [] [] h = refl
same→eq (x ∷ a) (y ∷ b) h = ground (arith, same→eq a b)
same→eq [] (y ∷ b) h = ground arith
same→eq (x ∷ a) [] h = ground arith

pub same_iff : (a b : Bytes) → (same a b ≡ true) ↔ (a ≡ b)
same_iff a b = (same→eq a b, λ e. ground (arith, same_refl a))

pub same_ne : (a b : Bytes) → a ≢ b → same a b ≡ false
same_ne a b h = ground (arith, same_iff a b)
