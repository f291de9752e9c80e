-- ===== src/Call/Alloc/Leaks.antt =====
-- How call_alloc of src/call.c loses an RTP session.
use autodialer_core.Base.{
  ℕ, ◌≡◌, ◌≢◌, refl, ap, ◌∙◌, true, Option, none, some, List, [], ◌∷◌, Text, arith,
}
use autodialer_core.Rtp.{Sa, Rtp, find_rtp_session}
use autodialer_core.Rtp.Pool.{IsPool, Takes, find_rtp_session-Takes}
use autodialer_core.Structs.{Uri, Libre}
use autodialer_core.Call.Alloc.{
  Answers, SdpResult, first_error, Allocated, sdp_with_session, sdp_given, from_media,
  sdp_sess_alloc, payload_type, call_alloc,
}

sdp_with_session_leaks :
    (a : Answers) (pt i : ℕ) (q : Rtp)
    → a.sdp_session_alloc ≡ 0
    → first_error (a.sdp_media_add ∷ a.sdp_format_add ∷ a.telephone_event_add ∷ []) ≢ 0
    → (r : SdpResult) × (sdp_with_session a pt i q ≡ some r) × (r.media ≡ none) × (r.rtp ≡ q)
unfolding sdp_with_session
sdp_with_session_leaks a pt i q h k = (
  record {
    err = first_error (a.sdp_media_add ∷ a.sdp_format_add ∷ a.telephone_event_add ∷ []);
    media = none;
    rtp = q;
  },
  ground arith,
  refl,
  refl,
)

-- The list without its first entry, which is in use.
abbrev Lost : SdpResult → ℕ → List ℕ → Type 0
Lost r i is = (r.media ≡ none) × (r.rtp.rtp_sessions ≡ is) × ((r.rtp.sessions i).in_use ≡ true)

sdp_given_leaks :
    (a : Answers) (pt : ℕ) (p : Rtp) (found : Option ℕ × Rtp) (i : ℕ) (is : List ℕ)
    → Takes p found
    → p.rtp_sessions ≡ i ∷ is
    → a.sdp_session_alloc ≡ 0
    → first_error (a.sdp_media_add ∷ a.sdp_format_add ∷ a.telephone_event_add ∷ []) ≢ 0
    → (r : SdpResult) × (sdp_given a pt found ≡ some r) × Lost r i is
unfolding sdp_given
sdp_given_leaks a pt p (none, q) i is t at h k = absurd (cc (t.1, at))
sdp_given_leaks a pt p (some j, q) i is t at h k =
    let (r, e, empty, same) = sdp_with_session_leaks a pt j q h k in
    let first : i ≡ j = cc (t.3, at) in
    let later : q.rtp_sessions ≡ is = cc (t.3, at) in
    (
      r,
      e,
      (
        empty,
        ap (λ x. x.rtp_sessions) same ∙ later,
        ap (λ x. (x.sessions i).in_use) same ∙ (ap (λ x. (q.sessions x).in_use) first ∙ t.2),
      ),
    )

sdp_sess_alloc_leaks :
    (a : Answers) (pt : ℕ) (p : Rtp) (i : ℕ) (is : List ℕ)
    → IsPool p
    → p.rtp_sessions ≡ i ∷ is
    → a.sdp_session_alloc ≡ 0
    → first_error (a.sdp_media_add ∷ a.sdp_format_add ∷ a.telephone_event_add ∷ []) ≢ 0
    → (r : SdpResult) × (sdp_sess_alloc a pt p ≡ some r) × Lost r i is
unfolding sdp_sess_alloc
sdp_sess_alloc_leaks a pt p i is v at h k =
    sdp_given_leaks a pt p (find_rtp_session p) i is (find_rtp_session-Takes p v) at h k

-- A session is lost when the SDP session is made and a later step of `sdp_sess_alloc` fails: there
-- is no call, and the session that stood first in the list is in use and no longer listed.
pub call_alloc_leaks :
    (lib : Libre) (a : Answers) (laddr : Sa) (tel : Text) (gateway : Uri) (pbx_pt : Option ℕ)
    (now : ℕ) (p : Rtp) (i : ℕ) (is : List ℕ)
    → IsPool p
    → p.rtp_sessions ≡ i ∷ is
    → a.zalloc ≡ true
    → a.sdp_session_alloc ≡ 0
    → first_error (a.sdp_media_add ∷ a.sdp_format_add ∷ a.telephone_event_add ∷ []) ≢ 0
    → (r : Allocated) × (call_alloc lib a laddr tel gateway pbx_pt now p ≡ some r)
      × (r.call ≡ none)
      × (r.rtp.rtp_sessions ≡ is)
      × ((r.rtp.sessions i).in_use ≡ true)
unfolding call_alloc
call_alloc_leaks lib a laddr tel gateway pbx_pt now p i is v at z h k =
    let pt = payload_type lib gateway pbx_pt in
    let (m, e, lost) = sdp_sess_alloc_leaks a pt p i is v at h k in
    (
      from_media lib a laddr tel gateway now pt m,
      ground (arith, e),
      ground (arith, lost),
      ground (arith, lost),
      ground (arith, lost),
    )
