-- ===== src/Dialer/Groups.antt =====
-- The sessions of the calls of src/main.c: each destination has a group, that of its call.
use autodialer_core.Base.{ℕ, ◌≡◌, refl, ap, false, Option, none, some, List, [], ◌∷◌, ◌++◌}
use autodialer_core.Structs.{Leg, Call, Destination}
use autodialer_core.Call.Ownership.{held}

abbrev pub held_by : Option Call → List ℕ
held_by none = []
held_by (some c) = held c

abbrev pub group : Destination → List ℕ
group d = held_by d.call

abbrev pub groups : List Destination → List (List ℕ)
groups [] = []
groups (d ∷ ds) = group d ∷ groups ds

-- A call that has not been forwarded has no call to the PBX.
abbrev pub Sane : Option Call → Type 0
Sane none = Unit
Sane (some c) = c.forwarded ≡ false → c.pbx_call ≡ none

abbrev pub IsSane : Destination → Type 0
IsSane d = Sane d.call

abbrev pub own : Leg → Call
own l = record { leg = l; pbx_call = none }

pub groups-append : (xs ys : List Destination) → groups (xs ++ ys) ≡ groups xs ++ groups ys
groups-append [] ys = refl
groups-append (d ∷ xs) ys = ap (λ gs. group d ∷ gs) (groups-append xs ys)
