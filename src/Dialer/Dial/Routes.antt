-- ===== src/Dialer/Dial/Routes.antt =====
-- The calls that the dialling loop of src/main.c begins.
use mathlib.Core.Path.{subst}
use autodialer_core.Base.{
  ℕ, suc, ◌≡◌, refl, sym, ap, ◌∙◌, inl, inr, true, false, Option, Option-cases, none, some, is_some,
  List, [], ◌∷◌, >>=-eq-some, of_some, ◌>>=◌, All, arith,
}
use autodialer_core.Rtp.{Rtp}
use autodialer_core.Structs.{gateway_at, Leg, Call, Destination, Campaign}
use autodialer_core.Call.Alloc.{Answers, call_alloc}
use autodialer_core.Call.Alloc.Totality.{call_alloc_new}
use autodialer_core.Dialer.Dial.{Setup, Dialled, Round, start_call, dial_dest, dial}
use autodialer_core.Dialer.Supervise.Routes.{leads, Routed}

start_call_new :
    (s : Setup) (cp : Campaign) (now : ℕ) (d : Destination) (l : Leg) (p : Rtp) (r : Dialled)
    (c : Call)
    → start_call s cp now d l p ≡ some r
    → r.dest.call ≡ some c
    → l.join_pbx ≡ false
    → (c.event_received ≡ l.event_received)
      × (c.pbx_call ≡ none)
      × (c.join_pbx ≡ true → (is_some cp.pbx_gateway ≡ true) × (is_some cp.file_name ≡ false))
unfolding start_call
start_call_new s cp now d l p r c e h k = ground arith

start_call-Routed :
    (s : Setup) (cp : Campaign) (now : ℕ) (d : Destination) (l : Leg) (p : Rtp) (r : Dialled)
    (o : Option Call)
    → (is_some cp.pbx_gateway ≡ true → leads s cp.pbx_gateway ≡ true)
    → start_call s cp now d l p ≡ some r
    → r.dest.call ≡ o
    → l.join_pbx ≡ false
    → l.event_received ≡ false
    → Routed s cp.pbx_gateway cp.file_name o
start_call-Routed s cp now d l p r none known e h k n = tt
start_call-Routed s cp now d l p r (some c) known e h k n =
    let (ev, alone, join) = start_call_new s cp now d l p r c e h k in
    record {
      noted = λ noted. cc (noted, ev, n);
      joins = λ j. (known (join j).0, (join j).1);
      linked = λ w. cc (w, ap is_some alone);
    }

pub dial_dest_held :
    (s : Setup) (cp : Campaign) (a : Answers) (now : ℕ) (d : Destination) (p : Rtp) (c : Call)
    → d.call ≡ some c
    → dial_dest s cp a now d p ≡ some (record { dest = d; rtp = p; stmts = [] })
unfolding dial_dest
dial_dest_held s cp a now d p c held = ground (arith, held)

dial_dest_unset :
    (s : Setup) (cp : Campaign) (a : Answers) (now : ℕ) (d : Destination) (p : Rtp)
    → d.call ≡ none
    → cp.gateway ≡ none
    → dial_dest s cp a now d p ≡ some (record { dest = d; rtp = p; stmts = [] })
unfolding dial_dest
dial_dest_unset s cp a now d p idle none_set = ground (arith, idle, none_set)

pub dial_dest_calls :
    (s : Setup) (cp : Campaign) (a : Answers) (now : ℕ) (d : Destination) (p : Rtp) (g : ℕ)
    → d.call ≡ none
    → cp.gateway ≡ some g
    → dial_dest s cp a now d p ≡ (
        gateway_at g s.gateways >>= λ gw.
        call_alloc s.lib a s.laddr d.dest gw.sip_uri none now p >>= λ r.
        r.call >>= λ c. start_call s cp now d c.leg r.rtp)
unfolding dial_dest
dial_dest_calls s cp a now d p g idle set = ground (arith, idle, set)

dial_dest-Routed :
    (s : Setup) (cp : Campaign) (a : Answers) (now : ℕ) (d : Destination) (p : Rtp) (r : Dialled)
    → (is_some cp.pbx_gateway ≡ true → leads s cp.pbx_gateway ≡ true)
    → Routed s cp.pbx_gateway cp.file_name d.call
    → dial_dest s cp a now d p ≡ some r
    → Routed s cp.pbx_gateway cp.file_name r.dest.call
unfolding dial_dest
dial_dest-Routed s cp a now d p r known v e = elim (Option-cases d.call) [
  | inr (c, held) ↦
      subst (λ x. Routed s cp.pbx_gateway cp.file_name x.dest.call)
        (of_some (sym (dial_dest_held s cp a now d p c held) ∙ e)) v
  | inl idle ↦ elim (Option-cases cp.gateway) [
    | inl none_set ↦
        subst (λ x. Routed s cp.pbx_gateway cp.file_name x.dest.call)
          (of_some (sym (dial_dest_unset s cp a now d p idle none_set) ∙ e)) v
    | inr (g, set) ↦
        let e0 = sym (dial_dest_calls s cp a now d p g idle set) ∙ e in
        let (gw, e1, f1) = >>=-eq-some (gateway_at g s.gateways) _ e0 in
        let (m, e2, f2) =
          >>=-eq-some (call_alloc s.lib a s.laddr d.dest gw.sip_uri none now p) _ f1 in
        let (c, e3, f3) = >>=-eq-some m.call _ f2 in
        let (ev, join, _) = call_alloc_new s.lib a s.laddr d.dest gw.sip_uri none now p m c e2 e3 in
        start_call-Routed s cp now d c.leg m.rtp r r.dest.call known f3 refl join ev
  ]
]

pub dial-Routed :
    (s : Setup) (cp : Campaign) (answers : ℕ → Answers) (now k : ℕ) (ds : List Destination)
    (p : Rtp) (r : Round)
    → (is_some cp.pbx_gateway ≡ true → leads s cp.pbx_gateway ≡ true)
    → All (λ d. Routed s cp.pbx_gateway cp.file_name d.call) ds
    → dial s cp answers now k ds p ≡ some r
    → All (λ d. Routed s cp.pbx_gateway cp.file_name d.call) r.dests
unfolding dial
dial-Routed s cp answers now k [] p r known v e =
    subst (λ x. All (λ d. Routed s cp.pbx_gateway cp.file_name d.call) x.dests) (of_some e) tt
dial-Routed s cp answers now k (d ∷ ds) p r known v e =
    let (one, e1, f1) = >>=-eq-some (dial_dest s cp (answers k) now d p) _ e in
    let (rest, e2, f2) = >>=-eq-some (dial s cp answers now (suc k) ds one.rtp) _ f1 in
    subst (λ x. All (λ y. Routed s cp.pbx_gateway cp.file_name y.call) x.dests) (of_some f2)
      (
        dial_dest-Routed s cp (answers k) now d p one known v.0 e1,
        dial-Routed s cp answers now (suc k) ds one.rtp rest known v.1 e2,
      )
