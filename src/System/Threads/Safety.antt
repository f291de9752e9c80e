-- ===== src/System/Threads/Safety.antt =====
-- The calls and the settings of src/main.c, with the two threads interleaved row by row.
use mathlib.Core.Path.{subst}
use autodialer_core.Base.{◌≡◌, sym, Bool, some, List, [], ◌∷◌, ◌++◌}
use autodialer_core.Rtp.Ownership.Frame.{Evolves, Evolves-refl}
use autodialer_core.Structs.{Destination, Campaign}
use autodialer_core.Rows.{Parsers, GatewayRow, CampaignRow}
use autodialer_core.Config.{
  Answered, load_gateway, load_gateways, load_campaign, load_campaigns, prepare,
}
use autodialer_core.Config.Loading.{IsLoaded, load_gateways-Unique, load_campaigns-Loaded}
use autodialer_core.Config.Preparing.{prepare_settings}
use autodialer_core.Config.Sparing.{load_campaigns-Spares}
use autodialer_core.Config.Sparing.Rounds.{prepare-IsTidy}
use autodialer_core.Dialer.Groups.{groups}
use autodialer_core.Dialer.Fill.Selection.{IsSort}
use autodialer_core.Dialer.Dial.{Setup}
use autodialer_core.Dialer.Campaigns.{Dialer}
use autodialer_core.Dialer.Campaigns.Calls.{calls}
use autodialer_core.System.{System, services_of, dialer_of}
use autodialer_core.System.Isolation.{IsOwned, Evolves-Owns, turn_IsOwned, Step-IsOwned}
use autodialer_core.System.Settings.{placed-IsLoaded, Step-IsLoaded}
use autodialer_core.System.Threads.{
  Threads, pushes, with_loaded, Step, syncs, asks, loads_gateway, asks_again, loads_campaign, looks,
  prepares, sleeps, main, Reach, here, next,
}

-- The calls hold their sessions apart, and the lists are loaded.
pub record IsSafe (st : System) : Type 0 where
  pub owned : IsOwned st
  pub loaded : IsLoaded st.gateways st.services

loads_gateway-IsSafe :
    (t : Parsers) (r : GatewayRow) (st : System)
    → IsSafe st
    → IsSafe (record st { gateways = load_gateway t r st.gateways })
unfolding load_gateways
loads_gateway-IsSafe t r st v = record {
  owned = record { owns = v.owned.owns; tidy = v.owned.tidy };
  loaded = record {
    gateways_once = load_gateways-Unique t (r ∷ []) st.gateways v.loaded.gateways_once;
    campaigns_once = v.loaded.campaigns_once;
    configured = v.loaded.configured;
  };
}

loads_campaign-IsSafe :
    (t : Parsers) (r : CampaignRow) (st : System)
    → IsSafe st
    → IsSafe (with_loaded st (load_campaign t r (services_of st)))
unfolding load_campaigns
loads_campaign-IsSafe t r st v =
    let (e, tidy) = load_campaigns-Spares t (r ∷ []) (services_of st) v.owned.tidy in
    record {
      owned = record { owns = Evolves-Owns e v.owned.owns; tidy = tidy };
      loaded = load_campaigns-Loaded t (r ∷ []) (services_of st) v.loaded;
    }

prepares-IsSafe :
    (t : Parsers) (q : Answered) (st : System) (before : List Campaign) (cp : Campaign)
    (after : List Campaign) (c : Campaign) (pushed : Bool)
    → st.services ≡ before ++ cp ∷ after
    → prepare t q st.gateways cp ≡ some (c, pushed)
    → IsSafe st
    → IsSafe (pushes st before c pushed after)
prepares-IsSafe t q st before cp after c pushed at e v =
    let d : Dialer = dialer_of st c in
    let (same, sound) = prepare_settings t q st.gateways cp c pushed e in
    let turned =
      turn_IsOwned st before cp after d at
        (λ tidy.
          let (kept, tidy') = prepare-IsTidy t q st.gateways cp c pushed tidy e in
          (subst (λ l. Evolves st.rtp st.rtp (calls cp) (groups l)) (sym kept) Evolves-refl, tidy'))
        v.owned in
    record {
      owned = record { owns = turned.owns; tidy = turned.tidy };
      loaded = placed-IsLoaded st before cp c after at same sound v.loaded;
    }

module _ (list_sort : (Destination → Destination → Bool) → List Destination → List Destination)
    (s : Setup) (t : Parsers) where
  Step-IsSafe :
      {x y : Threads}
      → IsSort list_sort
      → Step list_sort s t x y
      → IsSafe x.system
      → IsSafe y.system
  Step-IsSafe {x} law (syncs at e) v =
      subst (λ z. IsSafe z.system) (sym e)
        (record { owned = record { owns = v.owned.owns; tidy = v.owned.tidy }; loaded = v.loaded })
  Step-IsSafe law (asks answer at e) v = subst (λ z. IsSafe z.system) (sym e) v
  Step-IsSafe {x} law (loads_gateway r rows at e) v =
      subst (λ z. IsSafe z.system) (sym e) (loads_gateway-IsSafe t r x.system v)
  Step-IsSafe law (asks_again answer at e) v = subst (λ z. IsSafe z.system) (sym e) v
  Step-IsSafe {x} law (loads_campaign r rows at e) v =
      subst (λ z. IsSafe z.system) (sym e) (loads_campaign-IsSafe t r x.system v)
  Step-IsSafe law (looks at e) v = subst (λ z. IsSafe z.system) (sym e) v
  Step-IsSafe {x} law (prepares q id left before cp after c pushed at has same done e) v =
      subst (λ z. IsSafe z.system) (sym e)
        (prepares-IsSafe t q x.system before cp after c pushed has done v)
  Step-IsSafe law (sleeps at e) v = subst (λ z. IsSafe z.system) (sym e) v
  Step-IsSafe {x} law (main st step mine e) v =
      subst (λ z. IsSafe z.system) (sym e)
        (record {
          owned = Step-IsOwned list_sort s law step v.owned;
          loaded = Step-IsLoaded list_sort s step v.loaded;
        })

  -- Whatever the database answers, and wherever between two rows of a round the messages, the
  -- timers and the events of the calls come: if the pool of RTP sessions is sound and its free
  -- sessions are linked to none, every call's sessions are in use, pass packets on within the call
  -- and its call to the PBX only, and belong to no other call, destinations that wait have no call,
  -- a call that is not forwarded has no call to the PBX, no gateway and no campaign stands twice,
  -- and the settings of each campaign are in their bounds, that holds ever after. `list_sort` is
  -- taken to sort.
  pub Reach-IsSafe :
      {x y : Threads}
      → IsSort list_sort
      → IsSafe x.system
      → Reach list_sort s t x y
      → IsSafe y.system
  Reach-IsSafe law v here = v
  Reach-IsSafe law v (next r step) = Step-IsSafe law step (Reach-IsSafe law v r)
