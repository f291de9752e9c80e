-- ===== src/Dialer/Fill.antt =====
-- start_fake_calling of src/main.c, first half: destinations move to the process list.
pub mod Selection
pub mod Prefix
use autodialer_core.Base.{
  ℕ, ◌+◌, Bool, true, false, ◌&&◌, List, [], ◌∷◌, ◌++◌, length, ltb, leb, if◌then◌else◌,
}
use autodialer_core.Structs.{Destination}

-- The order for `list_sort`: the first stays in front unless it was tried more often.
unfoldable pub destination_sort_handler : Destination → Destination → Bool
destination_sort_handler d1 d2 = if ltb d2.try_count d1.try_count then false else true

-- `dest->try_count > 0 && time(NULL) - dest->last_try < cp->retry_delay`, with a signed difference.
unfoldable pub too_early : ℕ → ℕ → Destination → Bool
too_early now delay d = ltb 0 d.try_count && ltb now (d.last_try + delay)

-- The `while(le)` loop: the destinations that stay, and the process list.
unfoldable pub fill :
    ℕ → ℕ → ℕ → List Destination → List Destination → List Destination × List Destination
unfolding too_early
fill now delay limit [] pl = ([], pl)
fill now delay limit (d ∷ ds) pl =
    let skip : List Destination × List Destination =
      let (kept, pl') = fill now delay limit ds pl in (d ∷ kept, pl') in
    let take : List Destination × List Destination =
      let more = fill now delay limit ds (pl ++ d ∷ []) in
      if leb limit (length (pl ++ d ∷ [])) then (ds, pl ++ d ∷ []) else more in
    if too_early now delay d then skip else take

-- With `list_sort` of libre as an argument. A full process list is left alone.
unfoldable pub fill_processl :
    ((Destination → Destination → Bool) → List Destination → List Destination)
    → ℕ
    → ℕ
    → ℕ
    → List Destination
    → List Destination
    → List Destination × List Destination
unfolding fill
fill_processl list_sort now delay limit ds pl =
    if ltb (length pl) limit
    then fill now delay limit (list_sort destination_sort_handler ds) pl
    else (ds, pl)
