-- ===== src/Dialer/Campaigns/Calls.antt =====
-- Who holds the RTP sessions of src/call.c, over all campaigns of src/main.c.
use mathlib.Core.List.{append_assoc}
use autodialer_core.Base.{ℕ, ◌≡◌, refl, ap, ◌∙◌, sym, false, is_some, List, [], ◌∷◌, ◌++◌, All}
use autodialer_core.Structs.{Destination, Campaign}
use autodialer_core.Dialer.Groups.{groups, IsSane}

abbrev pub Idle : Destination → Type 0
Idle d = is_some d.call ≡ false

-- The calls are those of the process list, and one that is not forwarded has no call to the PBX.
pub record IsTidy (cp : Campaign) : Type 0 where
  pub idle : All Idle cp.destinations
  pub sane : All IsSane cp.processl

abbrev pub calls : Campaign → List (List ℕ)
calls cp = groups cp.processl

-- The sessions of every destination in a process list.
abbrev pub all_calls : List Campaign → List (List ℕ)
all_calls [] = []
all_calls (cp ∷ cps) = calls cp ++ all_calls cps

pub all_calls-append : (xs ys : List Campaign) → all_calls (xs ++ ys) ≡ all_calls xs ++ all_calls ys
all_calls-append [] ys = refl
all_calls-append (cp ∷ xs) ys =
    ap (◌++◌ (calls cp)) (all_calls-append xs ys)
    ∙ sym (append_assoc (calls cp) (all_calls xs) (all_calls ys))
