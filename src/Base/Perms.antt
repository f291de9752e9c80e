-- ===== src/Base/Perms.antt =====
-- A property of all elements does not depend on their order.
use mathlib.Core.Path.{subst}
use mathlib.Core.HLevel.{×_prop}
use mathlib.Core.Logic.{∥∥₁_elim}
use mathlib.Core.List.{List, [], ◌∷◌, Perm, Permᴰ}
use autodialer_core.Base.Lists.{All}

module _ {ℓ κ} {A : Type ℓ} (P : A → Type κ) where
  All-Permᴰ : {xs ys : List A} → Permᴰ xs ys → All P xs → All P ys
  All-Permᴰ Permᴰ.nil h = h
  All-Permᴰ (Permᴰ.cons e d) h = (subst P e h.0, All-Permᴰ d h.1)
  All-Permᴰ (Permᴰ.swap e f) h = (subst P f h.1.0, (subst P e h.0, h.1.1))
  All-Permᴰ (Permᴰ.trans d e) h = All-Permᴰ e (All-Permᴰ d h)

  All-IsProp : ((x : A) → IsProp (P x)) → (xs : List A) → IsProp (All P xs)
  All-IsProp p [] = hlevel
  All-IsProp p (x ∷ xs) = ×_prop (p x) (All-IsProp p xs)

  pub All-perm : ((x : A) → IsProp (P x)) → {xs ys : List A} → Perm xs ys → All P xs → All P ys
  All-perm p {ys = ys} d h = ∥∥₁_elim d (All-IsProp p ys) (λ e. All-Permᴰ e h)
