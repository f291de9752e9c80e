-- ===== src/Base/Totals.antt =====
-- Sums over lists, which do not depend on their order.
use mathlib.Core.Path.{◌≡◌, refl, ap, ◌∙◌}
use mathlib.Core.Logic.{∥∥₁_elim}
use mathlib.Core.List.{List, [], ◌∷◌, ◌++◌, Perm, Permᴰ}
use Prim.Native.Nat.{ℕ, ◌+◌}
use native.Mathlib.Omega.{arith}
use native.Mathlib.Nat.{ℕ_set}

module _ {ℓ} {A : Type ℓ} (f : A → ℕ) where
  abbrev pub total : List A → ℕ
  total [] = 0
  total (x ∷ xs) = f x + total xs

  pub total-append : (xs ys : List A) → total (xs ++ ys) ≡ total xs + total ys
  total-append [] ys = omega arith
  total-append (x ∷ xs) ys = omega (arith, total-append xs ys)

  total-Permᴰ : {xs ys : List A} → Permᴰ xs ys → total xs ≡ total ys
  total-Permᴰ Permᴰ.nil = refl
  total-Permᴰ (Permᴰ.cons e d) = omega (arith, ap f e, total-Permᴰ d)
  total-Permᴰ (Permᴰ.swap e g) = omega (arith, ap f e, ap f g)
  total-Permᴰ (Permᴰ.trans d e) = total-Permᴰ d ∙ total-Permᴰ e

  pub total-perm : {xs ys : List A} → Perm xs ys → total xs ≡ total ys
  total-perm {xs} {ys} d = ∥∥₁_elim d (ℕ_set (total xs) (total ys)) total-Permᴰ
