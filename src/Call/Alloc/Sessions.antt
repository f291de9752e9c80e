-- ===== src/Call/Alloc/Sessions.antt =====
-- What call_alloc and call_destructor of src/call.c do to the pool of RTP sessions.
use mathlib.Core.Path.{subst}
use autodialer_core.Base.{
  ℕ, ◌<◌, ◌≡◌, ◌≢◌, refl, inl, inr, true, false, Bool-cases, Option, none, some, [], ◌∷◌, Text,
  ◌==◌, >>=-eq-some, of_some, arith,
}
use autodialer_core.Rtp.{Sa, Rtp, find_rtp_session, set_session}
use autodialer_core.Rtp.Pool.{
  IsPool, Takes, find_rtp_session-Takes, find_rtp_session-IsPool, release-IsPool,
}
use autodialer_core.Rtp.Writes.{set_session-IsPool}
use autodialer_core.Structs.{Uri, Call, Libre, Sdp}
use autodialer_core.Call.Alloc.{
  Answers, SdpResult, first_error, Allocated, sdp_with_session, sdp_given, connect_call, from_media,
  sdp_sess_alloc, payload_type, call_alloc,
}

-- A call that has session `i` of the pool.
abbrev pub Holds : Rtp → Rtp → ℕ → Type 0
Holds p q i =
    (i < q.total)
    × ((q.sessions i).in_use ≡ true)
    × (q.total ≡ p.total)
    × (p.rtp_sessions ≡ i ∷ q.rtp_sessions)

abbrev pub SdpOutcome : Rtp → SdpResult → Option (Sdp × ℕ) → Type 0
SdpOutcome p r none = r.err ≢ 0
SdpOutcome p r (some (offer, i)) = (r.err ≡ 0) × Holds p r.rtp i

sdp_with_session-outcome :
    (a : Answers) (pt i : ℕ) (p q : Rtp) (r : SdpResult)
    → IsPool q
    → Holds p q i
    → sdp_with_session a pt i q ≡ some r
    → IsPool r.rtp × SdpOutcome p r r.media
unfolding sdp_with_session
sdp_with_session-outcome a pt i p q r v h e = elim (Bool-cases (a.sdp_session_alloc == 0)) [
  | inr bad ↦ cc (rw bad at e)
  | inl fine ↦
      let e' = rw (fine, sdp_with_session) at e in
      elim (Bool-cases
        (first_error (a.sdp_media_add ∷ a.sdp_format_add ∷ a.telephone_event_add ∷ []) == 0)) [
          | inr failed ↦
              subst (λ x. IsPool x.rtp × SdpOutcome p x x.media) (of_some (rw failed at e'))
                (v, ground arith)
          | inl done ↦
              subst (λ x. IsPool x.rtp × SdpOutcome p x x.media) (of_some (rw done at e'))
                (
                  set_session-IsPool q i (record (q.sessions i) { connected = true }) refl v,
                  (refl, (h.0, ground arith, h.2, h.3)),
                )
        ]
]

sdp_given-outcome :
    (a : Answers) (pt : ℕ) (p : Rtp) (found : Option ℕ × Rtp) (r : SdpResult)
    → Takes p found
    → IsPool found.1
    → sdp_given a pt found ≡ some r
    → IsPool r.rtp × SdpOutcome p r r.media
unfolding sdp_given
sdp_given-outcome a pt p (none, q) r t v e =
    subst (λ x. IsPool x.rtp × SdpOutcome p x x.media) (of_some e) (v, omega arith)
sdp_given-outcome a pt p (some i, q) r t v e =
    sdp_with_session-outcome a pt i p q r v (omega (arith, t.0, t.5), t.2, t.5, t.3) e

-- `sdp_sess_alloc` keeps the pool sound. It reports an error, or hands out a free session which
-- is then in use and no longer listed.
sdp_sess_alloc_outcome :
    (a : Answers) (pt : ℕ) (p : Rtp) (r : SdpResult)
    → IsPool p
    → sdp_sess_alloc a pt p ≡ some r
    → IsPool r.rtp × SdpOutcome p r r.media
unfolding sdp_sess_alloc
sdp_sess_alloc_outcome a pt p r v e =
    sdp_given-outcome a pt p (find_rtp_session p) r (find_rtp_session-Takes p v)
      (find_rtp_session-IsPool p v) e

-- A call that was set up holds a session; its SIP session is there only if `sipsess_connect` said
-- so.
abbrev pub AllocOutcome : Answers → Rtp → Allocated → Option Call → Type 0
AllocOutcome a p r none = r.err ≢ 0
AllocOutcome a p r (some c) =
    (r.err ≡ 0)
    × ((i : ℕ) × (c.rtp_sess ≡ some i) × Holds p r.rtp i)
    × (c.sess ≡ (a.sipsess_connect == 0))
    × (c.ended ≡ false)
    × (c.pbx_call ≡ none)

connect_call-outcome :
    (lib : Libre) (a : Answers) (laddr : Sa) (tel : Text) (gateway : Uri) (now pt : ℕ) (offer : Sdp)
    (i : ℕ) (p q : Rtp)
    → IsPool q
    → Holds p q i
    → let r = connect_call lib a laddr tel gateway now pt offer i q in
      IsPool r.rtp × AllocOutcome a p r r.call
unfolding connect_call
connect_call-outcome lib a laddr tel gateway now pt offer i p q v h =
    let owned = set_session q i (record (q.sessions i) { arg = true }) in
    let w = set_session-IsPool q i (record (q.sessions i) { arg = true }) refl v in
    let busy_still : (owned.sessions i).in_use ≡ true = ground (arith, h.1) in
    elim (Bool-cases (a.sdp_encode == 0)) [
      | inr bad ↦ rw bad (release-IsPool q i v h.0 h.1, ground arith)
      | inl fine ↦ elim (Bool-cases (a.rtp_alloc == 0)) [
        | inr failed ↦ rw (fine, failed) (release-IsPool owned i w h.0 busy_still, ground arith)
        | inl done ↦
            rw (fine, done) (w, (refl, (i, refl, (h.0, busy_still, h.2, h.3)), refl, refl, refl))
      ]
    ]

from_media-outcome :
    (lib : Libre) (a : Answers) (laddr : Sa) (tel : Text) (gateway : Uri) (now pt err : ℕ)
    (media : Option (Sdp × ℕ)) (p q : Rtp)
    → IsPool q
    → SdpOutcome p (record { err = err; media = media; rtp = q }) media
    → let r =
        from_media lib a laddr tel gateway now pt (record { err = err; media = media; rtp = q }) in
      IsPool r.rtp × AllocOutcome a p r r.call
unfolding from_media
from_media-outcome lib a laddr tel gateway now pt err none p q v h = (v, h)
from_media-outcome lib a laddr tel gateway now pt err (some (offer, i)) p q v h =
    connect_call-outcome lib a laddr tel gateway now pt offer i p q v h.1

-- `call_alloc` keeps the pool sound. It reports an error and sets up no call, or sets up a call
-- with a session that was free and is then in use and unlisted. Then the call is good whatever
-- `sipsess_connect` returned: it has a SIP session only if that was 0.
pub call_alloc_outcome :
    (lib : Libre) (a : Answers) (laddr : Sa) (tel : Text) (gateway : Uri) (pbx_pt : Option ℕ)
    (now : ℕ) (p : Rtp) (r : Allocated)
    → IsPool p
    → call_alloc lib a laddr tel gateway pbx_pt now p ≡ some r
    → IsPool r.rtp × AllocOutcome a p r r.call
unfolding call_alloc sdp_sess_alloc
call_alloc_outcome lib a laddr tel gateway pbx_pt now p r v e = elim (Bool-cases a.zalloc) [
  | inr full ↦
      subst (λ x. IsPool x.rtp × AllocOutcome a p x x.call) (of_some (rw (full, call_alloc) at e))
        (v, omega arith)
  | inl fine ↦
      let (m, e1, e2) =
        >>=-eq-some (sdp_sess_alloc a (payload_type lib gateway pbx_pt) p) _
          (rw (fine, call_alloc) at e) in
      let (w, out) = sdp_sess_alloc_outcome a (payload_type lib gateway pbx_pt) p m v e1 in
      subst (λ x. IsPool x.rtp × AllocOutcome a p x x.call) (of_some e2)
        (from_media-outcome lib a laddr tel gateway now (payload_type lib gateway pbx_pt) m.err
          m.media p m.rtp w out)
]
