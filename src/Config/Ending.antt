-- ===== src/Config/Ending.antt =====
-- The destruction of campaigns in src/main.c gives back the RTP sessions of all their calls.
use autodialer_core.Base.{ℕ, Option, none, some, List, [], ◌∷◌, ◌++◌, All, All-imp, All-append, sym}
use mathlib.Core.Path.{subst}
use autodialer_core.Rtp.{Rtp}
use autodialer_core.Rtp.Ownership.{Owns}
use autodialer_core.Rtp.Ownership.Frame.{Evolves-less, Moves-Evolves}
use autodialer_core.Structs.{Call, Destination, Campaign}
use autodialer_core.Call.Release.{deref_call, call_destructor}
use autodialer_core.Call.Ownership.Ending.{IsIdle, call_destructor-IsIdle, call_destructor-Moves}
use autodialer_core.Config.{flush, campaign_destructor}
use autodialer_core.Config.Sparing.{flush-Idle}
use autodialer_core.Dialer.Groups.{held_by, groups}
use autodialer_core.Dialer.Campaigns.Calls.{IsTidy, calls}

-- The groups `gs` are given up: their sessions are free, and what was free stays so.
pub record Frees (p q : Rtp) (gs rest : List (List ℕ)) : Type 0 where
  pub owns : Owns q rest
  pub idle : All (All (IsIdle q)) gs
  pub stays : (j : ℕ) → IsIdle p j → IsIdle q j

deref_call-Frees :
    (o : Option Call) (p : Rtp) (rest : List (List ℕ))
    → Owns p (held_by o ∷ rest)
    → Frees p (deref_call o p) (held_by o ∷ []) rest
unfolding deref_call call_destructor
deref_call-Frees none p rest v = record {
  owns = Evolves-less.among [] rest v;
  idle = (tt, tt);
  stays = λ j e. e;
}
deref_call-Frees (some c) p rest v =
    let (idle, stays) = call_destructor-IsIdle c p in
    record {
      owns =
          Evolves-less.among [] rest ((Moves-Evolves (call_destructor-Moves c p)).among [] rest v);
      idle = (idle, tt);
      stays = stays;
    }

pub Frees-trans :
    {p q r : Rtp} {gs hs rest rest' : List (List ℕ)}
    → Frees p q gs rest
    → Frees q r hs rest'
    → Frees p r (gs ++ hs) rest'
Frees-trans {gs = gs} {hs = hs} f g = record {
  owns = g.owns;
  idle = All-append _ gs hs (All-imp gs (λ h a. All-imp h (λ j e. g.stays j e) a) f.idle) g.idle;
  stays = λ j e. g.stays j (f.stays j e);
}

flush-Frees :
    (ds : List Destination) (p : Rtp) (rest : List (List ℕ))
    → Owns p (groups ds ++ rest)
    → Frees p (flush ds p) (groups ds) rest
unfolding flush
flush-Frees [] p rest v = record { owns = v; idle = tt; stays = λ j e. e }
flush-Frees (d ∷ ds) p rest v =
    let f = deref_call-Frees d.call p (groups ds ++ rest) v in
    Frees-trans f (flush-Frees ds (deref_call d.call p) rest f.owns)

pub campaign_destructor-Frees :
    (cp : Campaign) (p : Rtp) (rest : List (List ℕ))
    → IsTidy cp
    → Owns p (calls cp ++ rest)
    → Frees p (campaign_destructor cp p) (calls cp) rest
unfolding campaign_destructor flush
campaign_destructor-Frees cp p rest t v =
    subst (λ q. Frees p (flush cp.processl q) (calls cp) rest)
      (sym (flush-Idle cp.destinations p t.idle)) (flush-Frees cp.processl p rest v)
