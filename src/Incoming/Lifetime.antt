-- ===== src/Incoming/Lifetime.antt =====
-- What src/in_call.c makes of a call that comes in, and how long it lasts.
use native.Mathlib.Nat.{div-lt_iff_lt-mul, lt-mul-div-succ}
use autodialer_core.Base.{
  ℕ, ◌+◌, ◌*◌, ◌-◌, ◌/◌, ◌≤◌, ◌<◌, ◌≡◌, ◌≢◌, refl, true, false, Option, none, some, Text, arith,
  ◌==◌, List, [], ◌∷◌, if◌then◌else◌, Bool-cases, inl, inr, sym, ap, of_some,
}
use autodialer_core.Incoming.{
  InCall, zeroed, Ring, Setup, Accepted, decode_sdp_offer, get_max_duration, in_call_tmr_handler,
  incoming_call_alloc,
}

-- A draw up to `a`, divided by the size of one of `n` shares, is below `n`.
share_below : (a n r : ℕ) → 0 < n → r ≤ a → r / (a / n + 1) < n
share_below a n r h le =
    let last : a < n * (a / n + 1) = lt-mul-div-succ a h in
    (div-lt_iff_lt-mul {k = a / n + 1} {x = r} {y = n} (omega arith)).1 (omega (arith, last))

-- For every draw up to RAND_MAX, `get_max_duration` lies between its bounds, both included.
get_max_duration_bounds :
    (rand_max min max r : ℕ)
    → min ≤ max
    → r ≤ rand_max
    → (min ≤ get_max_duration rand_max min max r) × (get_max_duration rand_max min max r ≤ max)
unfolding get_max_duration
get_max_duration_bounds rand_max min max r o h =
    let d = share_below rand_max (max - min + 1) r (omega arith) h in
    (omega arith, omega (arith, d))

-- How a call goes on from a tick of its timer.
abbrev pub Answered : InCall → Type 0
Answered c = (c.established ≡ true) × ((d : ℕ) × (c.tmr ≡ some d) × (420000 ≤ d) × (d ≤ 900000))

abbrev pub Goes : InCall → Option InCall → Type 0
Goes c none = Unit
Goes c (some c') = (c.established ≡ false) × Answered c'

-- A call lives through one tick of its timer at most: the first one answers it, for 7 to 15
-- minutes, and the next one destroys it. `rand` keeps to RAND_MAX.
pub in_call_tmr_handler-Goes :
    (g : Ring) (c : InCall)
    → g.rand_duration ≤ g.rand_max
    → Goes c (in_call_tmr_handler g c)
      × ((c' : InCall)
          → in_call_tmr_handler g c ≡ some c'
          → (h : Ring) → in_call_tmr_handler h c' ≡ none)
unfolding in_call_tmr_handler
in_call_tmr_handler-Goes g c h =
    let d = get_max_duration_bounds g.rand_max 7 15 g.rand_duration (omega arith) h in
    elim (Bool-cases c.established) [
      | inl done ↦ rw done (tt, (λ c' e k. cc))
      | inr rings ↦ elim (Bool-cases (g.sdp_encode == 0)) [
        | inr failed ↦ rw (rings, failed) (tt, (λ c' e k. cc))
        | inl fine ↦
            rw (rings, fine)
              (
                (refl, (refl, (_, refl, omega (arith, d), omega (arith, d)))),
                (λ c' e k. rw (sym (ap (λ x. x.established) (of_some e))) refl),
              )
      ]
    ]

-- The first code of some calls that is an error, or 0.
abbrev pub first_error : List ℕ → ℕ
first_error [] = 0
first_error (e ∷ es) = if e == 0 then first_error es else e

-- The errors up to the format for telephone events.
abbrev pub begin_error : Setup → ℕ
begin_error s = first_error (
    (if s.zalloc then 0 else 1)
    ∷ s.sdp_session_alloc
    ∷ s.sdp_media_add
    ∷ s.format_g729
    ∷ s.format_g723
    ∷ [])

-- The offer was read.
abbrev pub Decoded : Setup → Text → Type 0
Decoded s body =
    (begin_error s ≡ 0)
    × (s.format_event ≡ 0)
    × (decode_sdp_offer s.sdp_decode s.mbuf_alloc body ≡ 0)

abbrev pub Destroyed : Accepted → ℕ → Type 0
Destroyed r code = (r.call ≡ none) × (r.err ≡ code) × (code ≢ 0)

-- A call that is alive with neither a timer nor a session that could end it.
abbrev pub Leaked : Accepted → ℕ → Type 0
Leaked r code =
    (c : InCall) × ((r.call ≡ some c) × (r.err ≡ code) × (c.tmr ≡ none) × (c.sess ≡ false))

abbrev pub Rings : Setup → Accepted → Type 0
Rings s r =
    (c : InCall) × ((r.call ≡ some c)
      × (r.err ≡ 0)
      × (c.tmr ≡ some 7000)
      × (c.rs ≡ true)
      × (c.rtp_dest ≡ s.raddr)
      × (c.established ≡ false))

abbrev pub Settled : Setup → Text → Accepted → Type 0
Settled s body r =
    (begin_error s ≢ 0 → Destroyed r (begin_error s))
    × (begin_error s ≡ 0 → s.format_event ≢ 0 → Leaked r s.format_event)
    × (begin_error s ≡ 0
        → s.format_event ≡ 0
        → decode_sdp_offer s.sdp_decode s.mbuf_alloc body ≢ 0
        → Destroyed r (decode_sdp_offer s.sdp_decode s.mbuf_alloc body))
    × (Decoded s body → s.rformat ≡ false → Leaked r 0)
    × (Decoded s body → s.rformat ≡ true → s.rtp_alloc ≢ 0 → Destroyed r s.rtp_alloc)
    × (Decoded s body → s.rformat ≡ true → s.rtp_alloc ≡ 0 → Rings s r)

-- `incoming_call_alloc` destroys the call and returns the first error of its calls, with two
-- exceptions, in which the call is left with neither a timer nor a session: an error of the format
-- for telephone events is returned for a call that is not destroyed, and an offer without a common
-- format makes it return 0. If all goes well, the call rings for seven seconds. The code of
-- `sipsess_accept` makes no difference.
pub incoming_call_alloc_outcome :
    (s : Setup) (body : Text) → Settled s body (incoming_call_alloc s body)
unfolding incoming_call_alloc
incoming_call_alloc_outcome s body = (
  (λ e. ground arith),
  (λ e f. (record zeroed { sdp = true }, ground arith)),
  (λ e f g. ground arith),
  (λ d f. (record zeroed { sdp = true; rtp_dest = s.raddr }, ground arith)),
  (λ d f g. ground arith),
  (λ d f g. (
    record zeroed {
      sdp = true;
      rtp_dest = s.raddr;
      sess = s.sipsess_accept == 0;
      tmr = some 7000;
      rs = true;
    },
    ground arith,
  )),
)
