-- ===== src/Config/Keys.antt =====
-- Lists of src/main.c in which no number stands twice.
use mathlib.Core.Path.{subst}
use autodialer_core.Base.{
  sym, ◌∙◌, of_some, ℕ, ◌≡◌, ◌≢◌, inl, inr, Bool-cases, none, some, List, [], ◌∷◌, ◌++◌, All,
  All-append, All-imp, ◌==◌, arith,
}
use autodialer_core.Rows.{find_by, put, unlink}

module _ {ℓ} {A : Type ℓ} (key : A → ℕ) where
  -- No two entries have the same number.
  abbrev pub Unique : List A → Type 0
  Unique [] = Unit
  Unique (x ∷ xs) = All (λ y. key y ≢ key x) xs × Unique xs

  pub find_by-none : (id : ℕ) (xs : List A) → find_by key id xs ≡ none → All (λ y. key y ≢ id) xs
  unfolding find_by
  find_by-none id [] e = tt
  find_by-none id (x ∷ xs) e = elim (Bool-cases (key x == id)) [
    | inl hit ↦ cc (rw hit at e)
    | inr miss ↦ (ground arith, find_by-none id xs (rw miss at e))
  ]

  pub find_by-some {κ} :
      (P : A → Type κ) (id : ℕ) (xs : List A) (x : A)
      → find_by key id xs ≡ some x
      → All P xs
      → P x × (key x ≡ id)
  unfolding find_by
  find_by-some P id [] x e h = cc
  find_by-some P id (y ∷ ys) x e h = elim (Bool-cases (key y == id)) [
    | inl hit ↦ subst (λ z. P z × (key z ≡ id)) (of_some (rw hit at e)) (h.0, ground arith)
    | inr miss ↦ find_by-some P id ys x (rw miss at e) h.1
  ]

  pub Unique-snoc :
      (x : A) (xs : List A) → Unique xs → All (λ y. key y ≢ key x) xs → Unique (xs ++ x ∷ [])
  Unique-snoc x [] u h = (tt, tt)
  Unique-snoc x (y ∷ ys) u h =
      (All-append _ ys (x ∷ []) u.0 ((λ e. h.0 (sym e)), tt), Unique-snoc x ys u.1 h.1)

  pub put-All {κ} : (P : A → Type κ) (x : A) (xs : List A) → P x → All P xs → All P (put key x xs)
  unfolding put
  put-All P x [] p h = tt
  put-All P x (y ∷ ys) p h = elim (Bool-cases (key y == key x)) [
    | inl hit ↦ rw hit (p, h.1)
    | inr miss ↦ rw miss (h.0, put-All P x ys p h.1)
  ]

  pub unlink-All {κ} : (P : A → Type κ) (id : ℕ) (xs : List A) → All P xs → All P (unlink key id xs)
  unfolding unlink
  unlink-All P id [] h = tt
  unlink-All P id (y ∷ ys) h = elim (Bool-cases (key y == id)) [
    | inl hit ↦ rw hit h.1
    | inr miss ↦ rw miss (h.0, unlink-All P id ys h.1)
  ]

  pub put-Unique : (x : A) (xs : List A) → Unique xs → Unique (put key x xs)
  unfolding put
  put-Unique x [] u = tt
  put-Unique x (y ∷ ys) u = elim (Bool-cases (key y == key x)) [
    | inl hit ↦
        let same : key y ≡ key x = ground arith in
        rw hit (All-imp ys (λ z n e. n (e ∙ sym same)) u.0, u.1)
    | inr miss ↦ rw miss (put-All (λ z. key z ≢ key y) x ys (ground arith) u.0, put-Unique x ys u.1)
  ]

  pub unlink-Unique : (id : ℕ) (xs : List A) → Unique xs → Unique (unlink key id xs)
  unfolding unlink
  unlink-Unique id [] u = tt
  unlink-Unique id (y ∷ ys) u = elim (Bool-cases (key y == id)) [
    | inl hit ↦ rw hit u.1
    | inr miss ↦ rw miss (unlink-All (λ z. key z ≢ key y) id ys u.0, unlink-Unique id ys u.1)
  ]

  -- A new entry that stands last is the one that is changed, or unlinked.
  pub put-snoc :
      (x z : A) (xs : List A)
      → All (λ y. key y ≢ key x) xs
      → key z ≡ key x
      → put key x (xs ++ z ∷ []) ≡ xs ++ x ∷ []
  unfolding put
  put-snoc x z [] h e = ground arith
  put-snoc x z (y ∷ ys) h e = ground (arith, put-snoc x z ys h.1 e)

  pub unlink-snoc :
      (id : ℕ) (z : A) (xs : List A)
      → All (λ y. key y ≢ id) xs
      → key z ≡ id
      → unlink key id (xs ++ z ∷ []) ≡ xs
  unfolding unlink
  unlink-snoc id z [] h e = ground arith
  unlink-snoc id z (y ∷ ys) h e = ground (arith, unlink-snoc id z ys h.1 e)

  -- No other entry has the number of the one that is unlinked.
  pub unlink_gone : (id : ℕ) (xs : List A) → Unique xs → All (λ y. key y ≢ id) (unlink key id xs)
  unfolding unlink
  unlink_gone id [] u = tt
  unlink_gone id (y ∷ ys) u = elim (Bool-cases (key y == id)) [
    | inl hit ↦
        let same : key y ≡ id = ground arith in rw hit (All-imp ys (λ z n e. n (e ∙ sym same)) u.0)
    | inr miss ↦ rw miss (ground arith, unlink_gone id ys u.1)
  ]
