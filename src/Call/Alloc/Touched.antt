-- ===== src/Call/Alloc/Touched.antt =====
-- call_alloc of src/call.c touches one session of the pool at most, which nobody had.
use mathlib.Core.Path.{subst}
use autodialer_core.Base.{
  ℕ, ◌≡◌, ◌≢◌, refl, ◌∙◌, ◌⊎◌, inl, inr, true, false, Bool-cases, Option, none, some, [], ◌∷◌, Text,
  ◌==◌, >>=-eq-some, of_some, arith,
}
use autodialer_core.Rtp.{Sa, RtpSession, Rtp, find_rtp_session, set_session, release_rtp_session}
use autodialer_core.Rtp.Pool.{IsPool, Takes, find_rtp_session-Takes}
use autodialer_core.Rtp.Ownership.{Clean}
use autodialer_core.Structs.{Uri, Libre, Sdp}
use autodialer_core.Call.Alloc.{
  Answers, SdpResult, first_error, Allocated, sdp_with_session, sdp_given, connect_call, from_media,
  sdp_sess_alloc, payload_type, call_alloc,
}

-- Session `b` was free, and is linked to no other; the rest is as it was.
pub record Touched (p q : Rtp) (b : ℕ) : Type 0 where
  pub idle : (p.sessions b).in_use ≡ false
  pub size : q.total ≡ p.total
  pub same : (j : ℕ) → j ≢ b → q.sessions j ≡ p.sessions j
  pub unlinked : (q.sessions b).remote ≡ none

abbrev Found : Rtp → Option ℕ × Rtp → Type 0
Found p (none, q) = q ≡ p
Found p (some i, q) = Touched p q i

find_rtp_session-remote :
    (p : Rtp) (j : ℕ) → ((find_rtp_session p).1.sessions j).remote ≡ (p.sessions j).remote
unfolding find_rtp_session
find_rtp_session-remote p j = ground arith

Found-Found :
    (p : Rtp) (f : Option ℕ × Rtp)
    → Clean p
    → Takes p f
    → ((j : ℕ) → (f.1.sessions j).remote ≡ (p.sessions j).remote)
    → Found p f
Found-Found p (none, q) c t l = t.0
Found-Found p (some i, q) c t l = record {
  idle = t.1;
  size = t.5;
  same = t.6;
  unlinked = l i ∙ c i t.1;
}

-- A further write to the session that leaves it unlinked.
write-Touched :
    (p q : Rtp) (b : ℕ) (r : RtpSession)
    → Touched p q b
    → r.remote ≡ none
    → Touched p (set_session q b r) b
write-Touched p q b r t e = record {
  idle = t.idle;
  size = t.size;
  same = λ j n. ground (arith, t.same j n);
  unlinked = ground arith;
}

release-Touched : (p q : Rtp) (b : ℕ) → Touched p q b → Touched p (release_rtp_session q b) b
unfolding release_rtp_session
release-Touched p q b t = record {
  idle = t.idle;
  size = t.size;
  same = λ j n. ground (arith, t.same j n);
  unlinked = ground arith;
}

-- What an allocation may leave behind.
abbrev pub Touches : Rtp → Rtp → Type 0
Touches p q = (q ≡ p) ⊎ ((b : ℕ) × Touched p q b)

abbrev Media : Rtp → Option (Sdp × ℕ) → Rtp → Type 0
Media p none q = Touches p q
Media p (some (offer, i)) q = Touched p q i

sdp_with_session-Touched :
    (a : Answers) (pt i : ℕ) (p q : Rtp) (r : SdpResult)
    → Touched p q i
    → sdp_with_session a pt i q ≡ some r
    → Media p r.media r.rtp
unfolding sdp_with_session
sdp_with_session-Touched a pt i p q r t e = elim (Bool-cases (a.sdp_session_alloc == 0)) [
  | inr bad ↦ cc (rw bad at e)
  | inl fine ↦
      let e' = rw (fine, sdp_with_session) at e in
      elim (Bool-cases
        (first_error (a.sdp_media_add ∷ a.sdp_format_add ∷ a.telephone_event_add ∷ []) == 0)) [
          | inr failed ↦ subst (λ x. Media p x.media x.rtp) (of_some (rw failed at e')) (inr (i, t))
          | inl done ↦
              subst (λ x. Media p x.media x.rtp) (of_some (rw done at e'))
                (write-Touched p q i (record (q.sessions i) { connected = true }) t t.unlinked)
        ]
]

sdp_given-Touched :
    (a : Answers) (pt : ℕ) (p : Rtp) (f : Option ℕ × Rtp) (r : SdpResult)
    → Found p f
    → sdp_given a pt f ≡ some r
    → Media p r.media r.rtp
unfolding sdp_given
sdp_given-Touched a pt p (none, q) r t e = subst (λ x. Media p x.media x.rtp) (of_some e) (inl t)
sdp_given-Touched a pt p (some i, q) r t e = sdp_with_session-Touched a pt i p q r t e

connect_call-Touched :
    (lib : Libre) (a : Answers) (laddr : Sa) (tel : Text) (gateway : Uri) (now pt : ℕ) (offer : Sdp)
    (i : ℕ) (p q : Rtp)
    → Touched p q i
    → Touched p (connect_call lib a laddr tel gateway now pt offer i q).rtp i
unfolding connect_call
connect_call-Touched lib a laddr tel gateway now pt offer i p q t =
    let w = write-Touched p q i (record (q.sessions i) { arg = true }) t t.unlinked in
    elim (Bool-cases (a.sdp_encode == 0)) [
      | inr failed ↦ rw failed (release-Touched p q i t)
      | inl done ↦ elim (Bool-cases (a.rtp_alloc == 0)) [
        | inl fine ↦ rw (done, fine) w
        | inr bad ↦ rw (done, bad) (release-Touched p _ i w)
      ]
    ]

from_media-Touches :
    (lib : Libre) (a : Answers) (laddr : Sa) (tel : Text) (gateway : Uri) (now pt err : ℕ)
    (m : Option (Sdp × ℕ)) (p q : Rtp)
    → Media p m q
    → Touches p
        (from_media lib a laddr tel gateway now pt (record { err = err; media = m; rtp = q })).rtp
unfolding from_media
from_media-Touches lib a laddr tel gateway now pt err none p q t = t
from_media-Touches lib a laddr tel gateway now pt err (some (offer, i)) p q t =
    inr (i, connect_call-Touched lib a laddr tel gateway now pt offer i p q t)

-- In a sound pool, `call_alloc` changes nothing, or one session that was free.
pub call_alloc-Touches :
    (lib : Libre) (a : Answers) (laddr : Sa) (tel : Text) (gateway : Uri) (pbx_pt : Option ℕ)
    (now : ℕ) (p : Rtp) (r : Allocated)
    → IsPool p
    → Clean p
    → call_alloc lib a laddr tel gateway pbx_pt now p ≡ some r
    → Touches p r.rtp
unfolding call_alloc sdp_sess_alloc
call_alloc-Touches lib a laddr tel gateway pbx_pt now p r v c e = elim (Bool-cases a.zalloc) [
  | inr full ↦ subst (λ x. Touches p x.rtp) (of_some (rw (full, call_alloc) at e)) (inl refl)
  | inl fine ↦
      let pt = payload_type lib gateway pbx_pt in
      let (m, e1, e2) = >>=-eq-some (sdp_sess_alloc a pt p) _ (rw (fine, call_alloc) at e) in
      let found =
        Found-Found p (find_rtp_session p) c (find_rtp_session-Takes p v)
          (find_rtp_session-remote p) in
      subst (λ x. Touches p x.rtp) (of_some e2)
        (from_media-Touches lib a laddr tel gateway now pt m.err m.media p m.rtp
          (sdp_given-Touched a pt p (find_rtp_session p) m found e1))
]
