-- ===== src/Dialer/Dial/Sessions.antt =====
-- The dialling loop of src/main.c gives each new call a session that nobody has.
use mathlib.Core.Path.{subst}
use autodialer_core.Base.{
  ℕ, suc, ◌+◌, ◌≡◌, refl, ◌⊎◌, sym, inl, inr, Bool, true, false, ◌&&◌, Option-cases, none, some,
  List, [], ◌∷◌, ◌++◌, ◌>>=◌, >>=-eq-some, of_some, arith, All, is_some, if◌then◌else◌, u8,
}
use autodialer_core.Rtp.{Rtp}
use autodialer_core.Rtp.Pool.{IsPool}
use autodialer_core.Rtp.Ownership.{IsHeld, Clean, Moves, Moves-refl, Moves-trans}
use autodialer_core.Rtp.Ownership.Frame.{Evolves, Evolves-refl, Evolves-cons, Moves-Evolves}
use autodialer_core.Structs.{Leg, Call, Destination, Campaign, gateway_at, codes}
use autodialer_core.Call.Release.Sessions.{to_list}
use autodialer_core.Call.Alloc.{Answers, Allocated, call_alloc}
use autodialer_core.Call.Ownership.{held, Gains, call_alloc-Gains}
use autodialer_core.Call.Ownership.Ending.{call_destructor-Moves}
use autodialer_core.Dialer.Groups.{held_by, group, groups, Sane, IsSane, own}
use autodialer_core.Dialer.Dial.{
  Setup, Dialled, Round, base_name, keep_call, drop_call, start_call, dial_dest, dial,
}

-- The destination has what it gained, and its call is not forwarded.
abbrev Started : Rtp → List ℕ → Dialled → Type 0
Started p h r = Moves p r.rtp h (group r.dest) × IsSane r.dest

choice_Started :
    (b : Bool) (p q : Rtp) (d : Destination) (l l' : Leg)
    → Moves p q [] (held (own l))
    → Moves p q [] (held (own l'))
    → Started p [] (if b then keep_call d l q else drop_call d l' q)
unfolding keep_call drop_call
choice_Started true p q d l l' m n = (m, λ _. refl)
choice_Started false p q d l l' m n =
    (Moves-trans n (call_destructor-Moves (own l') q n.pool n.clean n.held), tt)

start_call-Started :
    (s : Setup) (cp : Campaign) (now : ℕ) (d : Destination) (l : Leg) (p q : Rtp) (r : Dialled)
    → Moves p q [] (held (own l))
    → start_call s cp now d l q ≡ some r
    → Started p [] r
unfolding start_call
start_call-Started s cp now d l p q r m e =
    let d' : Destination = record d { try_count = u8 (d.try_count + 1); last_try = now } in
    elim (Option-cases cp.file_name) [
      | inl none_given ↦ subst (Started p []) (of_some (rw (none_given, start_call) at e)) (
          choice_Started (is_some cp.pbx_gateway && is_some cp.pbx_number) p q d'
            (record l { join_pbx = true }) l m m)
      | inr (f, given) ↦
          let (b, _, e1) = >>=-eq-some (base_name f) _ (rw (given, start_call) at e) in
          let audio = s.audio_path ++ (codes "/" ++ (b ++ codes ".wav")) in
          subst (Started p []) (of_some e1) (
            choice_Started (s.access audio) p q d' (record l { audio = some audio })
              (record l { audio = some audio }) m m)
    ]

Gains-own : (p q : Rtp) (c : Call) → Gains p [] q (some c) → Moves p q [] (held (own c.leg))
Gains-own p q c (b, e, _, m) = subst (λ o. Moves p q [] (to_list o ++ [])) (sym e) m

dial_given-Started :
    (s : Setup) (cp : Campaign) (now : ℕ) (d : Destination) (p : Rtp) (a : Allocated) (r : Dialled)
    → Gains p [] a.rtp a.call
    → (a.call >>= λ c. start_call s cp now d c.leg a.rtp) ≡ some r
    → Started p [] r
dial_given-Started s cp now d p a r g e =
    let (c, e0, e1) = >>=-eq-some a.call _ e in
    start_call-Started s cp now d c.leg p a.rtp r
      (Gains-own p a.rtp c (subst (Gains p [] a.rtp) e0 g)) e1

idle_Started :
    (d : Destination) (p : Rtp)
    → IsPool p
    → Clean p
    → IsHeld p (group d)
    → IsSane d
    → Started p (group d) (record { dest = d; rtp = p; stmts = [] })
idle_Started d p v c g s = (Moves-refl v c g, s)

dial_dest-Started :
    (s : Setup) (cp : Campaign) (a : Answers) (now : ℕ) (d : Destination) (p : Rtp) (r : Dialled)
    → IsPool p
    → Clean p
    → IsHeld p (group d)
    → IsSane d
    → dial_dest s cp a now d p ≡ some r
    → Started p (group d) r
unfolding dial_dest
dial_dest-Started s cp a now d p r v c g w e = elim (Option-cases d.call) [
  | inr (x, busy) ↦
      subst (Started p (group d)) (of_some (rw (busy, dial_dest) at e)) (idle_Started d p v c g w)
  | inl free ↦ elim (Option-cases cp.gateway) [
    | inl nowhere ↦
        subst (Started p (group d)) (of_some (rw (free, nowhere, dial_dest) at e))
          (idle_Started d p v c g w)
    | inr (id, known) ↦
        let e0 : (gateway_at id s.gateways >>= λ gw.
        call_alloc s.lib a s.laddr d.dest gw.sip_uri none now p >>= λ x.
        x.call >>= λ y. start_call s cp now d y.leg x.rtp)
            ≡ some r =
          rw (free, known, dial_dest) at e in
        let (gw, _, e1) = >>=-eq-some (gateway_at id s.gateways) _ e0 in
        let (x, e2, e3) =
          >>=-eq-some (call_alloc s.lib a s.laddr d.dest gw.sip_uri none now p) _ e1 in
        let gains =
          call_alloc-Gains s.lib a s.laddr d.dest gw.sip_uri none now p [] x v c
            (record { used = tt; once = tt; closed = tt }) e2 in
        subst (λ o. Started p (held_by o) r) (sym free)
          (dial_given-Started s cp now d p x r gains e3)
  ]
]

dial_dest_calls :
    (s : Setup) (cp : Campaign) (a : Answers) (now : ℕ) (d : Destination) (p : Rtp) (r : Dialled)
    (c : Call)
    → dial_dest s cp a now d p ≡ some r
    → r.dest.call ≡ some c
    → (d.call ≡ some c) ⊎ (c.pbx_call ≡ none)
unfolding dial_dest
dial_dest_calls s cp a now d p r c e h = ground arith

dial_dest-IsSane :
    (s : Setup) (cp : Campaign) (a : Answers) (now : ℕ) (d : Destination) (p : Rtp) (r : Dialled)
    → IsSane d
    → dial_dest s cp a now d p ≡ some r
    → IsSane r.dest
dial_dest-IsSane s cp a now d p r w e = elim (Option-cases r.dest.call) [
  | inl none_left ↦ subst Sane (sym none_left) tt
  | inr (c, at) ↦ subst Sane (sym at) (elim (dial_dest_calls s cp a now d p r c e at) [
    | inl same ↦ subst Sane same w
    | inr first ↦ λ x. first
  ])
]

-- A round of the dialling loop, among whatever other groups.
pub dial-Evolves :
    (s : Setup) (cp : Campaign) (answers : ℕ → Answers) (now k : ℕ) (ds : List Destination)
    (p : Rtp) (r : Round)
    → All IsSane ds
    → dial s cp answers now k ds p ≡ some r
    → Evolves p r.rtp (groups ds) (groups r.dests) × All IsSane r.dests
unfolding dial
dial-Evolves s cp answers now k [] p r w e =
    subst (λ x. Evolves p x.rtp [] (groups x.dests) × All IsSane x.dests) (of_some e)
      (Evolves-refl, tt)
dial-Evolves s cp answers now k (d ∷ ds) p r w e =
    let (one, e1, f1) = >>=-eq-some (dial_dest s cp (answers k) now d p) _ e in
    let (rest, e2, f2) = >>=-eq-some (dial s cp answers now (suc k) ds one.rtp) _ f1 in
    let (later, sane) = dial-Evolves s cp answers now (suc k) ds one.rtp rest w.1 e2 in
    let first : Evolves p one.rtp (group d ∷ []) (group one.dest ∷ []) =
      Moves-Evolves (λ v c g. (dial_dest-Started s cp (answers k) now d p one v c g w.0 e1).0) in
    subst (λ x. Evolves p x.rtp (groups (d ∷ ds)) (groups x.dests) × All IsSane x.dests)
      (of_some f2)
      (Evolves-cons first later, (dial_dest-IsSane s cp (answers k) now d p one w.0 e1, sane))
