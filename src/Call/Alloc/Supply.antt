-- ===== src/Call/Alloc/Supply.antt =====
-- call_alloc of src/call.c sets up a call if a session is free and no step fails.
use autodialer_core.Base.{
  ℕ, ◌+◌, ◌<◌, ◌≡◌, refl, ap, true, Option, none, some, [], ◌∷◌, Text, length, arith,
}
use autodialer_core.Rtp.{Sa, Rtp, find_rtp_session, set_session}
use autodialer_core.Rtp.Pool.{IsPool, Takes, find_rtp_session-Takes}
use autodialer_core.Structs.{Uri, Sdp, Call, Libre}
use autodialer_core.Call.Alloc.{
  Answers, SdpResult, Allocated, sdp_with_session, sdp_given, sdp_sess_alloc, connect_call,
  from_media, payload_type, call_alloc, offered_format,
}

-- No step fails.
pub record IsFine (a : Answers) : Type 0 where
  pub memory : a.zalloc ≡ true
  pub session : a.sdp_session_alloc ≡ 0
  pub media : a.sdp_media_add ≡ 0
  pub format : a.sdp_format_add ≡ 0
  pub event : a.telephone_event_add ≡ 0
  pub offer : a.sdp_encode ≡ 0
  pub socket : a.rtp_alloc ≡ 0

-- What was taken, with the sessions that are left.
sdp_given_supplies :
    (a : Answers) (pt : ℕ) (p : Rtp) (found : Option ℕ × Rtp)
    → IsFine a
    → Takes p found
    → 0 < length p.rtp_sessions
    → (m : SdpResult) × (offer : Sdp) × (i : ℕ) × (sdp_given a pt found ≡ some m)
      × (m.media ≡ some (offer, i))
      × (length m.rtp.rtp_sessions + 1 ≡ length p.rtp_sessions)
unfolding sdp_given sdp_with_session
sdp_given_supplies a pt p (none, q) f t w = absurd (omega (arith, ap length t.1, w))
sdp_given_supplies a pt p (some i, q) f t w =
    let given : Sdp = record {
      media_port = (q.sessions i).local_ip.port;
      formats = offered_format pt ∷ 101 ∷ [];
    } in
    (
      record {
        err = 0;
        media = some (given, i);
        rtp = set_session q i (record (q.sessions i) { connected = true });
      },
      given,
      i,
      ground (arith, f.session, f.media, f.format, f.event),
      refl,
      omega (arith, ap length t.3),
    )

connect_call_supplies :
    (lib : Libre) (a : Answers) (laddr : Sa) (tel : Text) (gateway : Uri) (now pt : ℕ) (offer : Sdp)
    (i : ℕ) (p : Rtp)
    → IsFine a
    → let r = connect_call lib a laddr tel gateway now pt offer i p in
      (c : Call) × (r.call ≡ some c) × (r.rtp.rtp_sessions ≡ p.rtp_sessions)
unfolding connect_call
connect_call_supplies lib a laddr tel gateway now pt offer i p f =
    rw (f.offer, f.socket) (_, refl, refl)

-- Then a call is set up, and one session less is free.
pub call_alloc_supplies :
    (lib : Libre) (a : Answers) (laddr : Sa) (tel : Text) (gateway : Uri) (pbx_pt : Option ℕ)
    (now : ℕ) (p : Rtp)
    → IsPool p
    → IsFine a
    → 0 < length p.rtp_sessions
    → (r : Allocated) × (c : Call) × (call_alloc lib a laddr tel gateway pbx_pt now p ≡ some r)
      × (r.call ≡ some c)
      × (length r.rtp.rtp_sessions + 1 ≡ length p.rtp_sessions)
unfolding call_alloc sdp_sess_alloc from_media
call_alloc_supplies lib a laddr tel gateway pbx_pt now p v f w =
    let pt = payload_type lib gateway pbx_pt in
    let (m, offer, i, e, given, less) =
      sdp_given_supplies a pt p (find_rtp_session p) f (find_rtp_session-Takes p v) w in
    let (c, set, same) = connect_call_supplies lib a laddr tel gateway now pt offer i m.rtp f in
    (
      connect_call lib a laddr tel gateway now pt offer i m.rtp,
      c,
      ground (arith, f.memory, e, given),
      set,
      omega (arith, ap length same, less),
    )
