-- ===== src/Dialer/Dial/Attempts.antt =====
-- What one round of the dialling loop of src/main.c does to the destinations.
use mathlib.Core.Path.{subst}
use autodialer_core.Base.{
  ℕ, suc, ◌+◌, ◌<◌, ◌≡◌, true, false, none, some, List, [], ◌∷◌, u8, >>=-eq-some, of_some, All,
  arith, is_some,
}
use autodialer_core.Rtp.{Rtp}
use autodialer_core.Structs.{Destination, Campaign, Gateway, gateway_at}
use autodialer_core.Call.Alloc.{Answers, Allocated, call_alloc}
use autodialer_core.Dialer.Dial.{Setup, Dialled, Round, dial_dest, dial}

-- An attempt counts if and only if a call comes of it; then its time is noted and the timer runs.
abbrev pub Attempt : ℕ → Destination → Destination → Type 0
Attempt now d e =
    (e.dest_id ≡ d.dest_id)
    × (e.dest ≡ d.dest)
    × (is_some d.call ≡ true → e ≡ d)
    × (is_some e.call ≡ false → e.try_count ≡ d.try_count)
    × (is_some d.call ≡ false
        → is_some e.call ≡ true
        → (e.try_count ≡ u8 (d.try_count + 1)) × (e.last_try ≡ now) × (e.tmr ≡ true))

dial_dest-Attempt :
    (s : Setup) (cp : Campaign) (a : Answers) (now : ℕ) (d : Destination) (p : Rtp) (r : Dialled)
    → d.try_count < 256
    → dial_dest s cp a now d p ≡ some r
    → Attempt now d r.dest
unfolding dial_dest
dial_dest-Attempt s cp a now d p r w e = ground arith

-- The two lists go together entry by entry.
abbrev pub Each :
    (Destination → Destination → Type 0) → List Destination → List Destination → Type 0
Each R [] [] = Unit
Each R [] (y ∷ ys) = ⊥
Each R (x ∷ xs) [] = ⊥
Each R (x ∷ xs) (y ∷ ys) = R x y × Each R xs ys

-- In a round of the dialling loop that meets no fault, the process list keeps its entries in
-- order; a destination with a call is left alone; an attempt counts, at this time and with the
-- timer started, exactly if a call comes of it. The counts are of 8 bits.
pub dial-Attempt :
    (s : Setup) (cp : Campaign) (answers : ℕ → Answers) (now k : ℕ) (ds : List Destination)
    (p : Rtp) (r : Round)
    → All (λ d. d.try_count < 256) ds
    → dial s cp answers now k ds p ≡ some r
    → Each (Attempt now) ds r.dests
unfolding dial
dial-Attempt s cp answers now k [] p r w e =
    subst (λ x. Each (Attempt now) [] x.dests) (of_some e) tt
dial-Attempt s cp answers now k (d ∷ ds) p r w e =
    let (one, e1, f1) = >>=-eq-some (dial_dest s cp (answers k) now d p) _ e in
    let (rest, e2, f2) = >>=-eq-some (dial s cp answers now (suc k) ds one.rtp) _ f1 in
    subst (λ x. Each (Attempt now) (d ∷ ds) x.dests) (of_some f2)
      (
        dial_dest-Attempt s cp (answers k) now d p one w.0 e1,
        dial-Attempt s cp answers now (suc k) ds one.rtp rest w.1 e2,
      )

-- If `call_alloc` fails for a destination without a call, of a campaign with a gateway, the
-- dialling loop goes on from the list element that `mem_deref(dest)` freed: the handler faults.
dial_failed_faults :
    (s : Setup) (cp : Campaign) (answers : ℕ → Answers) (now k g : ℕ) (gw : Gateway)
    (d : Destination) (ds : List Destination) (p : Rtp) (r : Allocated)
    → d.call ≡ none
    → cp.gateway ≡ some g
    → gateway_at g s.gateways ≡ some gw
    → call_alloc s.lib (answers k) s.laddr d.dest gw.sip_uri none now p ≡ some r
    → r.call ≡ none
    → dial s cp answers now k (d ∷ ds) p ≡ none
unfolding dial dial_dest
dial_failed_faults s cp answers now k g gw d ds p r h1 h2 h3 h4 h5 = ground arith
