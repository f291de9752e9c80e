-- ===== src/Dialer/Fill/Prefix.antt =====
-- The loop that fills the process list in src/main.c takes the first destinations that are due.
use mathlib.Core.List.{append-nil, append_assoc}
use autodialer_core.Base.{
  ℕ, zero, suc, ◌-◌, ◌≤◌, ◌<◌, ◌≡◌, refl, ◌∙◌, inl, inr, Bool-cases, List, [], ◌∷◌, ◌++◌, length,
  length-append, take, leb, if◌then◌else◌, arith,
}
use autodialer_core.Structs.{Destination}
use autodialer_core.Dialer.Fill.{too_early, fill}

-- Those past their retry delay.
abbrev pub due : ℕ → ℕ → List Destination → List Destination
due now delay [] = []
due now delay (d ∷ ds) =
    let rest = due now delay ds in if too_early now delay d then rest else d ∷ rest

take_first :
    (limit : ℕ) (d : Destination) (pl ds : List Destination)
    → length pl < limit
    → take (limit - length pl) (d ∷ ds) ≡ d ∷ take (limit - length (pl ++ d ∷ [])) ds
take_first limit d pl ds h =
    let n : limit - length pl ≡ suc (limit - length (pl ++ d ∷ [])) =
      omega (arith, length-append pl (d ∷ [])) in
    rw n refl

take_none :
    (limit : ℕ) (pl ds : List Destination) → limit ≤ length pl → take (limit - length pl) ds ≡ []
take_none limit pl ds h = let n : limit - length pl ≡ 0 = omega arith in rw n refl

take_nil : (n : ℕ) → take {A = Destination} n [] ≡ []
take_nil zero = refl
take_nil (suc n) = refl

-- With room in the process list, the loop appends to it the first destinations that are past their
-- retry delay, in their order, as many as the limit allows.
pub fill_takes :
    (now delay limit : ℕ) (ds pl : List Destination)
    → length pl < limit
    → (fill now delay limit ds pl).1 ≡ pl ++ take (limit - length pl) (due now delay ds)
unfolding fill
fill_takes now delay limit [] pl h = rw (take_nil (limit - length pl), append-nil pl) refl
fill_takes now delay limit (d ∷ ds) pl h = elim (Bool-cases (too_early now delay d)) [
  | inl early ↦ rw early (fill_takes now delay limit ds pl h)
  | inr ready ↦ elim (Bool-cases (leb limit (length (pl ++ d ∷ [])))) [
    | inl full ↦
        rw
          (
            ready,
            full,
            take_first limit d pl (due now delay ds) h,
            take_none limit (pl ++ d ∷ []) (due now delay ds) (ground arith),
          )
          refl
    | inr room ↦
        rw (ready, room, take_first limit d pl (due now delay ds) h)
          (fill_takes now delay limit ds (pl ++ d ∷ []) (ground arith) ∙ append_assoc pl (d ∷ []) _)
  ]
]
