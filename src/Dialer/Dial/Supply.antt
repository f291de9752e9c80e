-- ===== src/Dialer/Dial/Supply.antt =====
-- The dialling loop of src/main.c comes to its end if there are sessions enough.
use mathlib.Core.Path.{subst}
use autodialer_core.Base.{
  ℕ, suc, ◌+◌, ◌≤◌, ◌<◌, ◌≡◌, refl, ◌∙◌, inl, inr, Bool, true, false, Option, Option-cases, none,
  some, is_some, List, [], ◌∷◌, ◌++◌, ◌&&◌, Text, length, length-append, if◌then◌else◌, ◌>>=◌,
  >>=-eq-some, u8, arith,
}
use autodialer_core.Rtp.{Rtp, release_rtp_session}
use autodialer_core.Rtp.Pool.{InUse, IsPool}
use autodialer_core.Structs.{gateway_at, Leg, Call, Destination, Campaign, codes}
use autodialer_core.Call.Release.{release_opt, call_destructor}
use autodialer_core.Call.Release.Sessions.{call_destructor-Returned}
use autodialer_core.Call.Alloc.{Answers}
use autodialer_core.Call.Alloc.Sessions.{AllocOutcome, call_alloc_outcome}
use autodialer_core.Call.Alloc.Supply.{IsFine, call_alloc_supplies}
use autodialer_core.Dialer.Dial.{
  Setup, base_name, Dialled, Round, keep_call, drop_call, start_call, dial_dest, dial,
}
use autodialer_core.Dialer.Dial.Routes.{dial_dest_held, dial_dest_calls}
use autodialer_core.Dialer.Supervise.Routes.{leads, bind_some, given_by}

-- A file, if there is one, has a '.' in its name.
abbrev pub Named : Option Text → Type 0
Named none = Unit
Named (some f) = is_some (base_name f) ≡ true

-- The pool is sound, and has no fewer sessions to give.
abbrev Supplied : Rtp → Rtp → Type 0
Supplied p q = IsPool q × (length p.rtp_sessions ≤ length q.rtp_sessions)

release_opt_grows :
    (p : Rtp) (o : Option ℕ) → length p.rtp_sessions ≤ length (release_opt p o).rtp_sessions
unfolding release_opt release_rtp_session
release_opt_grows p none = omega arith
release_opt_grows p (some i) = omega (arith, length-append p.rtp_sessions (i ∷ []))

drop_call_supplies :
    (d : Destination) (l : Leg) (p : Rtp) (i : ℕ)
    → IsPool p
    → l.rtp_sess ≡ some i
    → InUse p i
    → Supplied p (drop_call d l p).rtp
unfolding drop_call call_destructor release_opt
drop_call_supplies d l p i v e u =
    let c : Call = record { leg = l; pbx_call = none } in
    ((call_destructor-Returned p c i v e u tt).0, release_opt_grows p l.rtp_sess)

choice_supplies :
    (b : Bool) (d : Destination) (l l' : Leg) (p : Rtp) (i : ℕ)
    → IsPool p
    → l'.rtp_sess ≡ some i
    → InUse p i
    → Supplied p (if b then keep_call d l p else drop_call d l' p).rtp
unfolding keep_call
choice_supplies true d l l' p i v e u = (v, omega arith)
choice_supplies false d l l' p i v e u = drop_call_supplies d l' p i v e u

start_call_supplies :
    (s : Setup) (cp : Campaign) (now : ℕ) (d : Destination) (l : Leg) (p : Rtp) (i : ℕ)
    → Named cp.file_name
    → IsPool p
    → l.rtp_sess ≡ some i
    → InUse p i
    → (r : Dialled) × (start_call s cp now d l p ≡ some r) × Supplied p r.rtp
unfolding start_call
start_call_supplies s cp now d l p i n v e u =
    let d' : Destination = record d { try_count = u8 (d.try_count + 1); last_try = now } in
    elim (Option-cases cp.file_name) [
      | inl without ↦
          let l' : Leg = record l { join_pbx = true } in
          let b = is_some cp.pbx_gateway && is_some cp.pbx_number in
          (
            if b then keep_call d' l' p else drop_call d' l p,
            ground (arith, without),
            choice_supplies b d' l' l p i v e u,
          )
      | inr (f, file) ↦
          let (base, named) = given_by (base_name f) (subst Named file n) in
          let audio = s.audio_path ++ (codes "/" ++ (base ++ codes ".wav")) in
          let l' : Leg = record l { audio = some audio } in
          (
            if s.access audio then keep_call d' l' p else drop_call d' l' p,
            ground (arith, file, named),
            choice_supplies (s.access audio) d' l' l' p i v e u,
          )
    ]

-- A destination without a call needs one session.
dial_dest_supplies :
    (s : Setup) (cp : Campaign) (a : Answers) (now : ℕ) (d : Destination) (p : Rtp)
    → Named cp.file_name
    → leads s cp.gateway ≡ true
    → IsFine a
    → IsPool p
    → d.call ≡ none
    → 0 < length p.rtp_sessions
    → (r : Dialled) × (dial_dest s cp a now d p ≡ some r)
      × IsPool r.rtp
      × (length p.rtp_sessions ≤ length r.rtp.rtp_sessions + 1)
dial_dest_supplies s cp a now d p n own f v idle room =
    let (gw, found) = given_by (cp.gateway >>= λ id. gateway_at id s.gateways) own in
    let (g, set, at) = >>=-eq-some cp.gateway _ found in
    let (m, c, e, given, less) =
      call_alloc_supplies s.lib a s.laddr d.dest gw.sip_uri none now p v f room in
    let (w, out) = call_alloc_outcome s.lib a s.laddr d.dest gw.sip_uri none now p m v e in
    let (none_left, (i, has, holds), sess, going, alone) = subst (AllocOutcome a p m) given out in
    let (r, started, more) =
      start_call_supplies s cp now d c.leg m.rtp i n w has (holds.0, holds.1) in
    (
      r,
      dial_dest_calls s cp a now d p g idle set
          ∙ bind_some (gateway_at g s.gateways) _ at
              (bind_some _ _ e (bind_some m.call _ given started)),
      more.0,
      omega (arith, less, more.1),
    )

-- How many destinations have no call.
unfoldable pub wanting : List Destination → ℕ
wanting [] = 0
wanting (d ∷ ds) = (if is_some d.call then 0 else 1) + wanting ds

pub dial_supplies :
    (s : Setup) (cp : Campaign) (answers : ℕ → Answers) (now k : ℕ) (ds : List Destination)
    (p : Rtp)
    → Named cp.file_name
    → leads s cp.gateway ≡ true
    → ((j : ℕ) → IsFine (answers j))
    → IsPool p
    → wanting ds ≤ length p.rtp_sessions
    → (r : Round) × (dial s cp answers now k ds p ≡ some r)
unfolding dial wanting
dial_supplies s cp answers now k [] p n own f v w = (_, refl)
dial_supplies s cp answers now k (d ∷ ds) p n own f v w = elim (Option-cases d.call) [
  | inr (c, held) ↦
      let (rest, e) =
        dial_supplies s cp answers now (suc k) ds p n own f v (ground (arith, w, held)) in
      (
        _,
        bind_some (dial_dest s cp (answers k) now d p) _
            (dial_dest_held s cp (answers k) now d p c held)
            (bind_some (dial s cp answers now (suc k) ds p) _ e refl),
      )
  | inl idle ↦
      let (one, e1, v', less) =
        dial_dest_supplies s cp (answers k) now d p n own (f k) v idle (ground (arith, w, idle)) in
      let (rest, e2) =
        dial_supplies s cp answers now (suc k) ds one.rtp n own f v'
          (ground (arith, w, idle, less)) in
      (
        _,
        bind_some (dial_dest s cp (answers k) now d p) _ e1
            (bind_some (dial s cp answers now (suc k) ds one.rtp) _ e2 refl),
      )
]
