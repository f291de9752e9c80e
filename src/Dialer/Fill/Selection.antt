-- ===== src/Dialer/Fill/Selection.antt =====
-- Which destinations start_fake_calling of src/main.c moves to the process list.
use mathlib.Core.List.{Perm, append-nil, append_assoc, perm_middle}
use mathlib.Core.List.Perm
use autodialer_core.Base.{
  ℕ, ◌≤◌, ◌<◌, ◌≡◌, refl, sym, ◌∙◌, Bool, true, false, inl, inr, List, [], ◌∷◌, ◌++◌, length,
  length-append, All, All-imp, ltb, leb, arith, Bool-cases,
}
use autodialer_core.Structs.{Destination}
use autodialer_core.Dialer.Fill.{destination_sort_handler, too_early, fill, fill_processl}

-- Tried least first.
abbrev pub Ordered : List Destination → Type 0
Ordered [] = Unit
Ordered (d ∷ ds) = All (λ e. d.try_count ≤ e.try_count) ds × Ordered ds

-- What stays was there before.
fill-All {ℓ} :
    (P : Destination → Type ℓ) (now delay limit : ℕ) (ds pl : List Destination)
    → All P ds
    → All P (fill now delay limit ds pl).0
unfolding fill
fill-All P now delay limit [] pl h = tt
fill-All P now delay limit (d ∷ ds) pl h = elim (Bool-cases (too_early now delay d)) [
  | inl early ↦ rw early (h.0, fill-All P now delay limit ds pl h.1)
  | inr due ↦ elim (Bool-cases (leb limit (length (pl ++ d ∷ [])))) [
    | inl full ↦ rw (due, full) h.1
    | inr room ↦ rw (due, room) (fill-All P now delay limit ds (pl ++ d ∷ []) h.1)
  ]
]

-- The result of the loop: `moved` went to the end of the process list.
pub record Filled (now delay limit : ℕ) (ds pl : List Destination)
    (r : List Destination × List Destination) : Type 0 where
  pub moved : List Destination
  -- the process list grows at its end,
  pub grown : r.1 ≡ pl ++ moved
  -- no destination is lost or doubled,
  pub same : Perm (r.0 ++ moved) ds
  -- none is called before its retry delay is over,
  pub due : All (λ d. too_early now delay d ≡ false) moved
  -- the limit is kept,
  pub fits : length r.1 ≤ limit
  -- a place stays free only if all that is left has to wait,
  pub used : length r.1 < limit → All (λ d. too_early now delay d ≡ true) r.0
  -- and nobody who could be called is passed over for one who was tried more often.
  pub fair :
      Ordered ds
      → All (λ m. All (λ k. too_early now delay k ≡ false → m.try_count ≤ k.try_count) r.0) moved

Filled-nil :
    (now delay limit : ℕ) (pl : List Destination)
    → length pl < limit
    → Filled now delay limit [] pl ([], pl)
Filled-nil now delay limit pl h = record {
  moved = [];
  grown = sym (append-nil pl);
  same = Perm.rfl;
  due = tt;
  fits = omega arith;
  used = λ _. tt;
  fair = λ _. tt;
}

Filled-skip :
    (now delay limit : ℕ) (d : Destination) (ds pl : List Destination)
    {r : List Destination × List Destination}
    → too_early now delay d ≡ true
    → Filled now delay limit ds pl r
    → Filled now delay limit (d ∷ ds) pl (d ∷ r.0, r.1)
Filled-skip now delay limit d ds pl {r} e f = record {
  moved = f.moved;
  grown = f.grown;
  same = Perm.cons d f.same;
  due = f.due;
  fits = f.fits;
  used = λ h. (e, f.used h);
  fair = λ o. All-imp f.moved (λ m h. ((λ due. cc), h)) (f.fair o.1);
}

Filled-last :
    (now delay limit : ℕ) (d : Destination) (ds pl : List Destination)
    → length pl < limit
    → too_early now delay d ≡ false
    → leb limit (length (pl ++ d ∷ [])) ≡ true
    → Filled now delay limit (d ∷ ds) pl (ds, pl ++ d ∷ [])
Filled-last now delay limit d ds pl h e full = record {
  moved = d ∷ [];
  grown = refl;
  same = Perm.trans (perm_middle ds []) (rw append-nil Perm.rfl);
  due = (e, tt);
  fits = omega (arith, length-append pl (d ∷ []));
  used = λ short. absurd (ground arith);
  fair = λ o. (All-imp ds (λ k le _. le) o.0, tt);
}

Filled-more :
    (now delay limit : ℕ) (d : Destination) (ds pl : List Destination)
    {r : List Destination × List Destination}
    → too_early now delay d ≡ false
    → ((All (λ k. d.try_count ≤ k.try_count) ds) → All (λ k. d.try_count ≤ k.try_count) r.0)
    → Filled now delay limit ds (pl ++ d ∷ []) r
    → Filled now delay limit (d ∷ ds) pl r
Filled-more now delay limit d ds pl {r} e kept f = record {
  moved = d ∷ f.moved;
  grown = f.grown ∙ append_assoc pl (d ∷ []) f.moved;
  same = Perm.trans (perm_middle r.0 f.moved) (Perm.cons d f.same);
  due = (e, f.due);
  fits = f.fits;
  used = f.used;
  fair = λ o. (All-imp r.0 (λ k le _. le) (kept o.0), f.fair o.1);
}

fill-Filled :
    (now delay limit : ℕ) (ds pl : List Destination)
    → length pl < limit
    → Filled now delay limit ds pl (fill now delay limit ds pl)
unfolding fill
fill-Filled now delay limit [] pl h = Filled-nil now delay limit pl h
fill-Filled now delay limit (d ∷ ds) pl h = elim (Bool-cases (too_early now delay d)) [
  | inl early ↦
      rw early (Filled-skip now delay limit d ds pl early (fill-Filled now delay limit ds pl h))
  | inr due ↦ elim (Bool-cases (leb limit (length (pl ++ d ∷ [])))) [
    | inl full ↦ rw (due, full) (Filled-last now delay limit d ds pl h due full)
    | inr room ↦
        rw (due, room)
          (Filled-more now delay limit d ds pl due (fill-All _ now delay limit ds (pl ++ d ∷ []))
            (fill-Filled now delay limit ds (pl ++ d ∷ []) (ground arith)))
  ]
]

-- Each entry stands before the later ones by the handler.
abbrev pub Pairs : (Destination → Destination → Bool) → List Destination → Type 0
Pairs h [] = Unit
Pairs h (d ∷ ds) = All (λ e. h d e ≡ true) ds × Pairs h ds

-- A handler that `list_sort` can sort by.
pub record IsOrder (h : Destination → Destination → Bool) : Type 0 where
  pub total : (d e : Destination) → h d e ≡ false → h e d ≡ true
  pub trans : (d e f : Destination) → h d e ≡ true → h e f ≡ true → h d f ≡ true

-- What `list_sort` documents: the same entries, in the order of the handler.
pub record IsSort
    (list_sort : (Destination → Destination → Bool) → List Destination → List Destination)
    : Type 0 where
  pub sort-perm :
      (h : Destination → Destination → Bool) (ds : List Destination) → Perm (list_sort h ds) ds
  pub sort-Pairs :
      (h : Destination → Destination → Bool) (ds : List Destination)
      → IsOrder h
      → Pairs h (list_sort h ds)

destination_sort_handler-IsOrder : IsOrder destination_sort_handler
unfolding destination_sort_handler
destination_sort_handler-IsOrder = record {
  total = λ d e h. ground arith;
  trans = λ d e f h k. ground arith;
}

Pairs-Ordered : (ds : List Destination) → Pairs destination_sort_handler ds → Ordered ds
unfolding destination_sort_handler
Pairs-Ordered [] h = tt
Pairs-Ordered (d ∷ ds) h = (All-imp ds (λ e t. ground arith) h.0, Pairs-Ordered ds h.1)

-- `start_fake_calling` fills the process list from the sorted destinations. With `list_sort` a sort
-- and room in the process list: it grows at its end and keeps the call limit, no destination is
-- lost or doubled, each one moved is past its retry delay, a place stays free only if all that are
-- left have to wait, and none that could be called is passed over for one tried more often.
pub fill_processl-Filled :
    (list_sort : (Destination → Destination → Bool) → List Destination → List Destination)
    (now delay limit : ℕ) (ds pl : List Destination)
    → IsSort list_sort
    → length pl < limit
    → let r = fill_processl list_sort now delay limit ds pl in
      (f : Filled now delay limit (list_sort destination_sort_handler ds) pl r) × Perm
        (r.0 ++ f.moved)
        ds
      × All (λ m. All (λ k. too_early now delay k ≡ false → m.try_count ≤ k.try_count) r.0) f.moved
unfolding fill_processl
fill_processl-Filled list_sort now delay limit ds pl law h =
    let sorted = list_sort destination_sort_handler ds in
    let f = fill-Filled now delay limit sorted pl h in
    let open_list : ltb (length pl) limit ≡ true = ground arith in
    rw open_list (
      f,
      Perm.trans f.same (law.sort-perm destination_sort_handler ds),
      f.fair (
          Pairs-Ordered _
            (law.sort-Pairs destination_sort_handler ds destination_sort_handler-IsOrder)),
    )
