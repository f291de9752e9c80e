-- ===== src/Rtp/Ownership/Frame.antt =====
-- An operation for one group of sessions leaves the other groups what they have.
use mathlib.Core.Path.{subst}
use mathlib.Core.List.{append_assoc}
use autodialer_core.Base.{ℕ, ◌≡◌, sym, ◌∙◌, List, [], ◌∷◌, ◌++◌, All, some}
use autodialer_core.Rtp.{Rtp}
use autodialer_core.Rtp.Pool.{IsPool, InUse}
use autodialer_core.Rtp.Ownership.{In, Disjoint, Apart, IsHeld, Clean, Owns, Moves}

All-zip {ℓ κ μ ν} :
    {A : Type ℓ} {P : A → Type κ} {Q : A → Type μ} {R : A → Type ν} (xs : List A)
    → ((x : A) → P x → Q x → R x)
    → All P xs
    → All Q xs
    → All R xs
All-zip [] f p q = tt
All-zip (x ∷ xs) f p q = (f x p.0 q.0, All-zip xs f p.1 q.1)

All-replace {ℓ κ} :
    {A : Type ℓ} (P : A → Type κ) (xs : List A) (x y : A) (ys : List A)
    → (P x → P y)
    → All P (xs ++ x ∷ ys)
    → All P (xs ++ y ∷ ys)
All-replace P [] x y ys f h = (f h.0, h.1)
All-replace P (z ∷ xs) x y ys f h = (h.0, All-replace P xs x y ys f h.1)

All-at {ℓ κ} :
    {A : Type ℓ} (P : A → Type κ) (xs : List A) (x : A) (ys : List A) → All P (xs ++ x ∷ ys) → P x
All-at P [] x ys h = h.0
All-at P (z ∷ xs) x ys h = All-at P xs x ys h.1

Disjoint-nil : (h : List ℕ) → Disjoint [] h
Disjoint-nil [] = tt
Disjoint-nil (i ∷ h) = (tt, Disjoint-nil h)

Disjoint-sym : (h g : List ℕ) → Disjoint h g → Disjoint g h
Disjoint-sym h [] d = Disjoint-nil h
Disjoint-sym h (j ∷ g) d = All-zip h (λ i n m. ((λ e. n (sym e)), m)) d.0 (Disjoint-sym h g d.1)

module _ {p q : Rtp} {h h' : List ℕ} (m : Moves p q h h') where
  closed_on :
      (g js : List ℕ)
      → Disjoint h js
      → All (InUse p) js
      → All (λ i. (k : ℕ) → (p.sessions i).remote ≡ some k → In k g) js
      → All (λ i. (k : ℕ) → (q.sessions i).remote ≡ some k → In k g) js
  closed_on g [] d u l = tt
  closed_on g (j ∷ js) d u l =
      ((λ k e. l.0 k (sym (m.keeps j d.0 u.0).1 ∙ e)), closed_on g js d.1 u.1 l.1)

  other_IsHeld : (g : List ℕ) → Disjoint h g → IsHeld p g → IsHeld q g
  other_IsHeld g d v = record {
    used = All-zip g (λ j away u. (m.keeps j away u).0) d v.used;
    once = v.once;
    closed = closed_on g g d v.used v.closed;
  }

  other_Disjoint : (g : List ℕ) → Disjoint h g → All (InUse p) g → Disjoint h' g
  other_Disjoint g d u = All-zip g m.fresh d u

  frame_rest :
      (gs : List (List ℕ))
      → All (Disjoint h) gs
      → All (IsHeld p) gs
      → All (IsHeld q) gs × All (Disjoint h') gs
  frame_rest [] d v = (tt, tt)
  frame_rest (g ∷ gs) d v =
      let (a, b) = frame_rest gs d.1 v.1 in
      ((other_IsHeld g d.0 v.0, a), (other_Disjoint g d.0 v.0.used, b))

  frame_groups :
      (xs ys : List (List ℕ))
      → All (IsHeld p) (xs ++ h ∷ ys)
      → Apart (xs ++ h ∷ ys)
      → All (IsHeld q) (xs ++ h' ∷ ys) × Apart (xs ++ h' ∷ ys)
  frame_groups [] ys v a = let (w, d) = frame_rest ys a.0 v.1 in ((m.held, w), (d, a.1))
  frame_groups (x ∷ xs) ys v a =
      let (w, b) = frame_groups xs ys v.1 a.1 in
      let d = Disjoint-sym x h (All-at (Disjoint x) xs h ys a.0) in
      (
        (other_IsHeld x d v.0, w),
        (
          All-replace (Disjoint x) xs h h' ys (λ _. Disjoint-sym h' x (other_Disjoint x d v.0.used))
              a.0,
          b,
        ),
      )

-- However many other groups there are, the change of one group keeps the pool owned.
frame :
    {p q : Rtp} {h h' : List ℕ} (xs ys : List (List ℕ))
    → Moves p q h h'
    → Owns p (xs ++ h ∷ ys)
    → Owns q (xs ++ h' ∷ ys)
frame xs ys m v =
    let (w, a) = frame_groups m xs ys v.held v.apart in
    record { pool = m.pool; clean = m.clean; held = w; apart = a }

-- The groups `gs` become `gs'`, among whatever others.
pub record Evolves (p q : Rtp) (gs gs' : List (List ℕ)) : Type 0 where
  pub among : (xs ys : List (List ℕ)) → Owns p (xs ++ (gs ++ ys)) → Owns q (xs ++ (gs' ++ ys))

pub Moves-Evolves :
    {p q : Rtp} {h h' : List ℕ}
    → (IsPool p → Clean p → IsHeld p h → Moves p q h h')
    → Evolves p q (h ∷ []) (h' ∷ [])
Moves-Evolves {p} {h = h} f = record {
  among = λ xs ys v. frame xs ys (f v.pool v.clean (All-at (IsHeld p) xs h ys v.held)) v;
}

pub Evolves-refl : {p : Rtp} {gs : List (List ℕ)} → Evolves p p gs gs
Evolves-refl = record { among = λ xs ys v. v }

pub Evolves-trans :
    {p q r : Rtp} {gs hs ks : List (List ℕ)}
    → Evolves p q gs hs
    → Evolves q r hs ks
    → Evolves p r gs ks
Evolves-trans f g = record { among = λ xs ys v. g.among xs ys (f.among xs ys v) }

regroup {ℓ} :
    {A : Type ℓ} (xs ls gs rs ys : List A)
    → xs ++ ((ls ++ (gs ++ rs)) ++ ys) ≡ (xs ++ ls) ++ (gs ++ (rs ++ ys))
regroup xs ls gs rs ys = simp (append_assoc)

-- It makes no difference which groups stand beside.
pub Evolves-beside :
    {p q : Rtp} {gs hs : List (List ℕ)} (ls rs : List (List ℕ))
    → Evolves p q gs hs
    → Evolves p q (ls ++ (gs ++ rs)) (ls ++ (hs ++ rs))
Evolves-beside {p} {q} {gs} {hs} ls rs f = record {
  among = λ xs ys v.
      subst (Owns q) (sym (regroup xs ls hs rs ys))
        (f.among (xs ++ ls) (rs ++ ys) (subst (Owns p) (regroup xs ls gs rs ys) v));
}

-- One group, and then those after it.
pub Evolves-cons :
    {p q r : Rtp} {h h' : List ℕ} {gs gs' : List (List ℕ)}
    → Evolves p q (h ∷ []) (h' ∷ [])
    → Evolves q r gs gs'
    → Evolves p r (h ∷ gs) (h' ∷ gs')
Evolves-cons {p} {q} {r} {h} {h'} {gs} {gs'} f g = record {
  among = λ xs ys v. subst (Owns r) (append_assoc xs (h' ∷ []) (gs' ++ ys)) (
      g.among (xs ++ h' ∷ []) ys
        (subst (Owns q) (sym (append_assoc xs (h' ∷ []) (gs ++ ys))) (f.among xs (gs ++ ys) v)));
}

less_held :
    (P : List ℕ → Type 0) (xs ys : List (List ℕ)) (h : List ℕ)
    → All P (xs ++ h ∷ ys)
    → All P (xs ++ ys)
less_held P [] ys h a = a.1
less_held P (x ∷ xs) ys h a = (a.0, less_held P xs ys h a.1)

less-Apart : (xs ys : List (List ℕ)) (h : List ℕ) → Apart (xs ++ h ∷ ys) → Apart (xs ++ ys)
less-Apart [] ys h a = a.1
less-Apart (x ∷ xs) ys h a = (less_held (Disjoint x) xs ys h a.0, less-Apart xs ys h a.1)

more_held :
    (P : List ℕ → Type 0) (xs ys : List (List ℕ)) (h : List ℕ)
    → P h
    → All P (xs ++ ys)
    → All P (xs ++ h ∷ ys)
more_held P [] ys h w a = (w, a)
more_held P (x ∷ xs) ys h w a = (a.0, more_held P xs ys h w a.1)

all_Disjoint : (gs : List (List ℕ)) → All (Disjoint []) gs
all_Disjoint [] = tt
all_Disjoint (g ∷ gs) = (Disjoint-nil g, all_Disjoint gs)

more-Apart : (xs ys : List (List ℕ)) → Apart (xs ++ ys) → Apart (xs ++ [] ∷ ys)
more-Apart [] ys a = (all_Disjoint ys, a)
more-Apart (x ∷ xs) ys a = (more_held (Disjoint x) xs ys [] tt a.0, more-Apart xs ys a.1)

-- A group may be forgotten, and an empty one is no claim.
pub Evolves-less : {p : Rtp} {h : List ℕ} → Evolves p p (h ∷ []) []
Evolves-less {p} {h} = record {
  among = λ xs ys v. record {
    pool = v.pool;
    clean = v.clean;
    held = less_held (IsHeld p) xs ys h v.held;
    apart = less-Apart xs ys h v.apart;
  };
}

pub Evolves-more : {p : Rtp} {gs : List (List ℕ)} → Evolves p p gs ([] ∷ gs)
Evolves-more {p} {gs} = record {
  among = λ xs ys v. record {
    pool = v.pool;
    clean = v.clean;
    held =
        more_held (IsHeld p) xs (gs ++ ys) [] (record { used = tt; once = tt; closed = tt }) v.held;
    apart = more-Apart xs (gs ++ ys) v.apart;
  };
}

pub Evolves-forget : {p : Rtp} (gs : List (List ℕ)) → Evolves p p gs []
Evolves-forget [] = Evolves-refl
Evolves-forget (h ∷ gs) = Evolves-trans (Evolves-beside [] gs Evolves-less) (Evolves-forget gs)
