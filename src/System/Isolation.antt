-- ===== src/System/Isolation.antt =====
-- The calls of src/main.c stay apart from each other, over all campaigns and rounds of loading.
use mathlib.Core.Path.{subst}
use mathlib.Core.List.{append-nil}
use autodialer_core.Base.{
  ℕ, ◌≡◌, sym, Bool, List, [], ◌∷◌, ◌++◌, All, All-append, All-append_left, All-append_right,
}
use autodialer_core.Rtp.{Rtp}
use autodialer_core.Rtp.Ownership.{Owns}
use autodialer_core.Rtp.Ownership.Frame.{Evolves, Evolves-beside}
use autodialer_core.Structs.{Destination, Campaign}
use autodialer_core.Dialer.Fill.Selection.{IsSort}
use autodialer_core.Dialer.Dial.{Setup}
use autodialer_core.Dialer.Campaigns.{Dialer}
use autodialer_core.Dialer.Campaigns.History
use autodialer_core.Dialer.Campaigns.Calls.{IsTidy, all_calls, all_calls-append}
use autodialer_core.Dialer.Campaigns.Sessions.{Turns}
use autodialer_core.Dialer.Campaigns.Sessions.Steps.{Step-Turns}
use autodialer_core.Config.Sparing.Rounds.{pull_groups-Spares}
use autodialer_core.System.{
  System, services_of, dialer_of, setup_of, with_dialer, Step, pulls, syncs, handles, works, Reach,
  here, next,
}

-- The session pool is sound and free sessions are linked to none, every call holds its sessions and
-- is linked within itself, no session is in two calls, waiting destinations have no call, and a
-- call that is not forwarded has none to the PBX.
pub record IsOwned (st : System) : Type 0 where
  pub owns : Owns st.rtp (all_calls st.services)
  pub tidy : All IsTidy st.services

pub Evolves-Owns : {p q : Rtp} {gs hs : List (List ℕ)} → Evolves p q gs hs → Owns p gs → Owns q hs
Evolves-Owns {p} {q} {gs} {hs} e v =
    subst (Owns q) (append-nil hs) (e.among [] [] (subst (Owns p) (sym (append-nil gs)) v))

-- One campaign's turn, among the others.
pub turn_IsOwned :
    (st : System) (before : List Campaign) (cp : Campaign) (after : List Campaign) (d : Dialer)
    → st.services ≡ before ++ cp ∷ after
    → (IsTidy cp → Turns (dialer_of st cp) d)
    → IsOwned st
    → IsOwned (with_dialer st before d after)
turn_IsOwned st before cp after d at turns v =
    let tidy = subst (All IsTidy) at v.tidy in
    let here = All-append_right IsTidy before (cp ∷ after) tidy in
    let (e, tidy') = turns here.0 in
    let owns = subst (λ l. Owns st.rtp (all_calls l)) at v.owns in
    record {
      owns = rw all_calls-append (
          Evolves-Owns (Evolves-beside (all_calls before) (all_calls after) e)
            (rw all_calls-append at owns));
      tidy =
          All-append IsTidy before (d.cp ∷ after) (All-append_left IsTidy before (cp ∷ after) tidy)
            (tidy', here.1);
    }

module _ (list_sort : (Destination → Destination → Bool) → List Destination → List Destination)
    (s : Setup) where
  pub Step-IsOwned :
      {st st' : System} → IsSort list_sort → Step list_sort s st st' → IsOwned st → IsOwned st'
  Step-IsOwned {st} law (pulls t q r e at) v =
      let (f, w) = pull_groups-Spares t q (services_of st) r v.tidy e in
      subst IsOwned (sym at) (record { owns = Evolves-Owns f v.owns; tidy = w })
  Step-IsOwned {st} law (syncs at) v =
      subst IsOwned (sym at) (record { owns = v.owns; tidy = v.tidy })
  Step-IsOwned {st} law (handles answers now id rest before cp after d sent at same e done) v =
      let w =
        turn_IsOwned st before cp after d at
          (λ t.
            Step-Turns list_sort (setup_of s st) (dialer_of st cp) d law t
              (History.serves answers now e))
          v in
      subst IsOwned (sym done) (record { owns = w.owns; tidy = w.tidy })
  Step-IsOwned {st} law (works before cp after d at step own done) v = subst IsOwned (sym done) (
      turn_IsOwned st before cp after d at
        (λ t. Step-Turns list_sort (setup_of s st) (dialer_of st cp) d law t step) v)

  -- Whatever the database answers, and in whatever order the database thread's rounds, the
  -- messages, the timers and the events of the calls come: if the pool of RTP sessions is sound and
  -- its free sessions are linked to none, every call's sessions are in use, pass packets on within
  -- the call and its call to the PBX only, and belong to no other call, destinations that wait have
  -- no call, and a call that is not forwarded has no call to the PBX, that holds ever after.
  -- `list_sort` is taken to sort.
  Reach-IsOwned :
      {st st' : System} → IsSort list_sort → IsOwned st → Reach list_sort s st st' → IsOwned st'
  Reach-IsOwned law v here = v
  Reach-IsOwned law v (next r step) = Step-IsOwned law step (Reach-IsOwned law v r)
