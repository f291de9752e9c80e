-- ===== src/Config/Sparing.antt =====
-- pull_groups of src/main.c leaves the calls and their RTP sessions alone.
pub mod Rounds
use mathlib.Core.Path.{subst}
use mathlib.Core.List.{append-nil}
use autodialer_core.Base.{
  ℕ, ◌≡◌, ◌≢◌, refl, sym, ap, ◌∙◌, Bool, true, false, ◌&&◌, inl, inr, Bool-cases, Option,
  Option-cases, if◌then◌else◌, ◌>>=◌, none, some, List, [], ◌∷◌, ◌++◌, All, All-append, ltb,
  is_empty, ◌==◌, arith, >>=-eq-some, of_some,
}
use autodialer_core.Rtp.{Rtp}
use autodialer_core.Rtp.Ownership.Frame.{
  Evolves, Evolves-refl, Evolves-trans, Evolves-beside, Evolves-forget,
}
use autodialer_core.Structs.{Gateway, Destination, Campaign}
use autodialer_core.Rows.{find_by, put, unlink, Parsers, CallRow, CampaignRow, parse_int}
use autodialer_core.Call.Release.{deref_call}
use autodialer_core.Config.{
  set_campaign, new_campaign, new_destination, flush, campaign_destructor, Services, keep_campaign,
  campaign_entry, load_campaign, map_rows, Answered, prepare, prepare_all, load_gateways,
  load_campaigns, pull_groups, load_actions,
}
use autodialer_core.Config.Keys.{
  find_by-none, find_by-some, put-All, unlink-All, put-snoc, unlink-snoc,
}
use autodialer_core.Config.Loading.{campaign_key}
use autodialer_core.Dialer.Groups.{groups}
use autodialer_core.Dialer.Campaigns.Tries.{none_of}
use autodialer_core.Dialer.Campaigns.Calls.{Idle, IsTidy, calls, all_calls, all_calls-append}

-- No call's session is touched; the calls of a campaign that is gone are forgotten.
abbrev pub Spares : Services → Services → Type 0
Spares a b =
    Evolves a.rtp b.rtp (all_calls a.services) (all_calls b.services) × All IsTidy b.services

set_campaign-IsTidy :
    (t : Parsers) (gs : List Gateway) (r : CampaignRow) (c : Campaign)
    → IsTidy c
    → IsTidy (set_campaign t gs r c)
unfolding set_campaign
set_campaign-IsTidy t gs r c v = record { idle = v.idle; sane = v.sane }

set_campaign-key :
    (t : Parsers) (gs : List Gateway) (r : CampaignRow) (c : Campaign)
    → ((set_campaign t gs r c).campaign_id ≡ parse_int t r.id)
      × ((set_campaign t gs r c).processl ≡ c.processl)
unfolding set_campaign
set_campaign-key t gs r c = (refl, refl)

pub flush-Idle : (ds : List Destination) (p : Rtp) → All Idle ds → flush ds p ≡ p
unfolding flush deref_call
flush-Idle [] p h = refl
flush-Idle (d ∷ ds) p h = rw (none_of d.call h.0) (flush-Idle ds p h.1)

campaign_destructor_over :
    (cp : Campaign) (p : Rtp) → IsTidy cp → cp.processl ≡ [] → campaign_destructor cp p ≡ p
unfolding campaign_destructor flush
campaign_destructor_over cp p t e = rw e (flush-Idle cp.destinations p t.idle)

unlink-Evolves :
    (p : Rtp) (id : ℕ) (cps : List Campaign)
    → Evolves p p (all_calls cps) (all_calls (unlink campaign_key id cps))
unfolding unlink
unlink-Evolves p id [] = Evolves-refl
unlink-Evolves p id (c ∷ cs) = elim (Bool-cases (campaign_key c == id)) [
  | inl hit ↦ rw hit (Evolves-beside [] (all_calls cs) (Evolves-forget (calls c)))
  | inr miss ↦ rw miss (
      rw (append-nil (all_calls cs), append-nil (all_calls (unlink campaign_key id cs))) at
        (Evolves-beside (calls c) [] (unlink-Evolves p id cs)))
]

put_calls :
    (id : ℕ) (c cp : Campaign) (cps : List Campaign)
    → find_by campaign_key id cps ≡ some c
    → cp.campaign_id ≡ id
    → cp.processl ≡ c.processl
    → all_calls (put campaign_key cp cps) ≡ all_calls cps
unfolding put find_by
put_calls id c cp [] e k same = refl
put_calls id c cp (x ∷ xs) e k same = elim (Bool-cases (campaign_key x == id)) [
  | inl hit ↦
      let found : x ≡ c = of_some (rw hit at e) in
      let here : (campaign_key x == cp.campaign_id) ≡ true = rw k hit in
      rw here (ap (λ l. groups l ++ all_calls xs) (same ∙ ap (λ y. y.processl) (sym found)))
  | inr miss ↦
      let away : (campaign_key x == cp.campaign_id) ≡ false = rw k miss in
      rw away (ap (◌++◌ (calls x)) (put_calls id c cp xs (rw miss at e) k same))
]

empty_list : (ds : List Destination) → is_empty ds ≡ true → ds ≡ []
empty_list [] e = refl
empty_list (d ∷ ds) e = cc

keep_campaign-Spares :
    (t : Parsers) (r : CampaignRow) (st : Services) (c : Campaign)
    → find_by campaign_key (parse_int t r.id) st.services ≡ some c
    → All IsTidy st.services
    → Spares st (keep_campaign t r st c st.services)
unfolding keep_campaign
keep_campaign-Spares t r st c e v =
    let cp = set_campaign t st.gateways r c in
    let tidy =
      set_campaign-IsTidy t st.gateways r c
        (find_by-some campaign_key IsTidy (parse_int t r.id) st.services c e v).0 in
    elim (Bool-cases (ltb 3 cp.campaign_status && is_empty cp.processl)) [
      | inl over ↦
          let idle : is_empty cp.processl ≡ true = ground arith in
          rw (over, campaign_destructor_over cp st.rtp tidy (empty_list cp.processl idle))
            (
              unlink-Evolves st.rtp cp.campaign_id st.services,
              unlink-All campaign_key IsTidy cp.campaign_id st.services v,
            )
      | inr goes_on ↦
          let (key, same) = set_campaign-key t st.gateways r c in
          rw (goes_on, put_calls (parse_int t r.id) c cp st.services e key same)
            (Evolves-refl, put-All campaign_key IsTidy cp st.services tidy v)
    ]

snoc_calls :
    (cps : List Campaign) (cp : Campaign)
    → cp.processl ≡ []
    → all_calls (cps ++ cp ∷ []) ≡ all_calls cps
snoc_calls cps cp e = rw (all_calls-append, e) (append-nil (all_calls cps))

keep_campaign-Spares_new :
    (t : Parsers) (r : CampaignRow) (st : Services)
    → let id = parse_int t r.id in
      All (λ c. campaign_key c ≢ id) st.services
      → All IsTidy st.services
      → Spares st (keep_campaign t r st (new_campaign id) (st.services ++ new_campaign id ∷ []))
unfolding keep_campaign
keep_campaign-Spares_new t r st h v =
    let c = new_campaign (parse_int t r.id) in
    let cp = set_campaign t st.gateways r c in
    let tidy = set_campaign-IsTidy t st.gateways r c (record { idle = tt; sane = tt }) in
    let (key, none_left) = set_campaign-key t st.gateways r c in
    let away : All (λ x. campaign_key x ≢ cp.campaign_id) st.services = rw key h in
    elim (Bool-cases (ltb 3 cp.campaign_status && is_empty cp.processl)) [
      | inl over ↦
          rw
            (
              over,
              campaign_destructor_over cp st.rtp tidy none_left,
              unlink-snoc campaign_key cp.campaign_id c st.services away (sym key),
            )
            (Evolves-refl, v)
      | inr goes_on ↦
          rw
            (
              goes_on,
              put-snoc campaign_key cp c st.services away (sym key),
              snoc_calls st.services cp none_left,
            )
            (Evolves-refl, All-append IsTidy st.services (cp ∷ []) v (tidy, tt))
    ]

campaign_entry-Spares :
    (t : Parsers) (r : CampaignRow) (st : Services) (found : Option Campaign)
    → find_by campaign_key (parse_int t r.id) st.services ≡ found
    → All IsTidy st.services
    → Spares st (campaign_entry t r st found)
unfolding campaign_entry
campaign_entry-Spares t r st (some c) e v = keep_campaign-Spares t r st c e v
campaign_entry-Spares t r st none e v = elim (Bool-cases (parse_int t r.status == 2)) [
  | inl runs ↦ rw runs (
      keep_campaign-Spares_new t r st (find_by-none campaign_key (parse_int t r.id) st.services e)
        v)
  | inr other ↦ rw other (Evolves-refl, v)
]

pub load_campaigns-Spares :
    (t : Parsers) (rs : List CampaignRow) (st : Services)
    → All IsTidy st.services
    → Spares st (load_campaigns t rs st)
unfolding load_campaigns load_campaign
load_campaigns-Spares t [] st v = (Evolves-refl, v)
load_campaigns-Spares t (r ∷ rs) st v =
    let (e, w) = campaign_entry-Spares t r st _ refl v in
    let (f, x) = load_campaigns-Spares t rs (load_campaign t r st) w in (Evolves-trans e f, x)

pub new_destinations-Idle :
    (t : Parsers) (rs : List CallRow) → All Idle (map_rows (new_destination t) rs)
new_destinations-Idle t [] = tt
new_destinations-Idle t (r ∷ rs) = (refl, new_destinations-Idle t rs)
