-- ===== src/Call/Alloc/Totality.antt =====
-- call_alloc of src/call.c comes to an end, with a call that has done nothing yet.
use autodialer_core.Base.{
  ℕ, ◌≡◌, refl, Bool-cases, inl, inr, ap, ◌∙◌, true, false, Option, none, some, is_some, Text,
  >>=-eq-some, of_some, arith,
}
use autodialer_core.Rtp.{Sa, Rtp, find_rtp_session}
use autodialer_core.Structs.{Uri, Call, Libre}
use autodialer_core.Call.Alloc.{
  Answers, SdpResult, Allocated, from_media, sdp_with_session, sdp_given, sdp_sess_alloc,
  payload_type, call_alloc,
}

sdp_given_total :
    (a : Answers) (pt : ℕ) (found : Option ℕ × Rtp)
    → a.sdp_session_alloc ≡ 0
    → is_some (sdp_given a pt found) ≡ true
unfolding sdp_given sdp_with_session
sdp_given_total a pt (none, q) h = refl
sdp_given_total a pt (some i, q) h = rw h refl

-- If `sdp_session_alloc` returns 0, `call_alloc` returns.
pub call_alloc_total :
    (lib : Libre) (a : Answers) (laddr : Sa) (tel : Text) (gateway : Uri) (pbx_pt : Option ℕ)
    (now : ℕ) (p : Rtp)
    → a.sdp_session_alloc ≡ 0
    → is_some (call_alloc lib a laddr tel gateway pbx_pt now p) ≡ true
unfolding call_alloc sdp_sess_alloc
call_alloc_total lib a laddr tel gateway pbx_pt now p h =
    ground (arith, sdp_given_total a (payload_type lib gateway pbx_pt) (find_rtp_session p) h)

from_media_new :
    (lib : Libre) (a : Answers) (laddr : Sa) (tel : Text) (gateway : Uri) (now pt : ℕ)
    (m : SdpResult) (c : Call)
    → (from_media lib a laddr tel gateway now pt m).call ≡ some c
    → (c.event_received ≡ false) × (c.join_pbx ≡ false) × (c.pbx_call ≡ none)
unfolding from_media
from_media_new lib a laddr tel gateway now pt m c e = ground arith

-- A new call has noted no digit, and neither joins a PBX nor is forwarded.
pub call_alloc_new :
    (lib : Libre) (a : Answers) (laddr : Sa) (tel : Text) (gateway : Uri) (pbx_pt : Option ℕ)
    (now : ℕ) (p : Rtp) (r : Allocated) (c : Call)
    → call_alloc lib a laddr tel gateway pbx_pt now p ≡ some r
    → r.call ≡ some c
    → (c.event_received ≡ false) × (c.join_pbx ≡ false) × (c.pbx_call ≡ none)
unfolding call_alloc sdp_sess_alloc
call_alloc_new lib a laddr tel gateway pbx_pt now p r c e h = elim (Bool-cases a.zalloc) [
  | inr full ↦ cc (of_some (rw full at e), h)
  | inl room ↦
      let (m, e1, e2) =
        >>=-eq-some (sdp_sess_alloc a (payload_type lib gateway pbx_pt) p) _ (rw room at e) in
      from_media_new lib a laddr tel gateway now (payload_type lib gateway pbx_pt) m c
        (ap (λ x. x.call) (of_some e2) ∙ h)
]
