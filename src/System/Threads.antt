-- ===== src/System/Threads.antt =====
-- The two threads of src/main.c, a row of the database thread's round at a time: between the rows
-- the main thread may take a message or run a timer or handler.
pub mod Safety
pub mod Numbers
pub mod Walking
pub mod Messages
pub mod Timely
pub mod Timers
pub mod Waiting
pub mod Dangling
pub mod Rounds
use autodialer_core.Base.{
  ◌≡◌, Bool, true, false, ℕ, Option, none, some, List, [], ◌∷◌, ◌++◌, if◌then◌else◌,
}
use autodialer_core.Structs.{Destination, Campaign}
use autodialer_core.Rows.{Parsers, GatewayRow, CampaignRow}
use autodialer_core.Config.{Answered, Services, load_gateway, load_campaign, prepare}
use autodialer_core.Dialer.Dial.{Setup}
use autodialer_core.System.{System, services_of}
use autodialer_core.System

-- Where the database thread stands in DbThread and pull_groups: before db_sync, before the first
-- query, and in each of the three loops with what is left of it.
pub data Phase : Type 0 where
  asleep : Phase
  synced : Phase
  gateways : (rows : List GatewayRow) → Phase
  campaigns : (rows : List CampaignRow) → Phase
  preparing : (left : List ℕ) → Phase

pub record Threads : Type 0 where
  pub system : System
  pub phase : Phase

-- A failed query ends the round.
abbrev pub first_loop : Option (List GatewayRow) → Phase
first_loop none = asleep
first_loop (some rows) = gateways rows

abbrev pub second_loop : Option (List CampaignRow) → Phase
second_loop none = asleep
second_loop (some rows) = campaigns rows

abbrev pub numbers : List Campaign → List ℕ
numbers [] = []
numbers (cp ∷ cps) = cp.campaign_id ∷ numbers cps

abbrev pub with_loaded : System → Services → System
with_loaded st sv = record st { gateways = sv.gateways; services = sv.services; rtp = sv.rtp }

abbrev pub pushes : System → List Campaign → Campaign → Bool → List Campaign → System
pushes st before c pushed after = record st {
  services = before ++ c ∷ after;
  messages = st.messages ++ (if pushed then c.campaign_id ∷ [] else []);
}

module _ (list_sort : (Destination → Destination → Bool) → List Destination → List Destination)
    (s : Setup) where
  -- The steps of the main thread.
  abbrev pub IsMain : {st st' : System} → System.Step list_sort s st st' → Type 0
  IsMain (System.pulls u q r e at) = ⊥
  IsMain (System.syncs at) = ⊥
  IsMain (System.handles answers now id rest before cp after d sent at same e done) = Unit
  IsMain (System.works before cp after d at step own done) = Unit

module _ (list_sort : (Destination → Destination → Bool) → List Destination → List Destination)
    (s : Setup) (t : Parsers) where
  pub data Step (x y : Threads) : Type 0 where
    syncs :
        x.phase ≡ asleep
        → y ≡ record { system = record x.system { sqllist = [] }; phase = synced }
        → Step x y
    asks :
        (answer : Option (List GatewayRow))
        → x.phase ≡ synced
        → y ≡ record x { phase = first_loop answer }
        → Step x y
    loads_gateway :
        (r : GatewayRow) (rows : List GatewayRow)
        → x.phase ≡ gateways (r ∷ rows)
        → y ≡ record {
          system = record x.system { gateways = load_gateway t r x.system.gateways };
          phase = gateways rows;
        }
        → Step x y
    asks_again :
        (answer : Option (List CampaignRow))
        → x.phase ≡ gateways []
        → y ≡ record x { phase = second_loop answer }
        → Step x y
    loads_campaign :
        (r : CampaignRow) (rows : List CampaignRow)
        → x.phase ≡ campaigns (r ∷ rows)
        → y ≡ record {
          system = with_loaded x.system (load_campaign t r (services_of x.system));
          phase = campaigns rows;
        }
        → Step x y
    looks :
        x.phase ≡ campaigns []
        → y ≡ record x { phase = preparing (numbers x.system.services) }
        → Step x y
    prepares :
        (q : Answered) (id : ℕ) (left : List ℕ) (before : List Campaign) (cp : Campaign)
        (after : List Campaign) (c : Campaign) (pushed : Bool)
        → x.phase ≡ preparing (id ∷ left)
        → x.system.services ≡ before ++ cp ∷ after
        → cp.campaign_id ≡ id
        → prepare t q x.system.gateways cp ≡ some (c, pushed)
        → y ≡ record { system = pushes x.system before c pushed after; phase = preparing left }
        → Step x y
    sleeps : x.phase ≡ preparing [] → y ≡ record x { phase = asleep } → Step x y
    main :
        (st : System) (step : System.Step list_sort s x.system st)
        → IsMain list_sort s step
        → y ≡ record x { system = st }
        → Step x y

  pub data Reach (x : Threads) : Threads → Type 0 where
    here : Reach x x
    next : {y z : Threads} → Reach x y → Step y z → Reach x z
