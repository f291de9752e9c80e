-- ===== src/Rtp/Writes.antt =====
-- Writes to a session of src/call.c that leave its place in the pool alone.
use autodialer_core.Base.{ℕ, zero, suc, ◌≡◌, refl, false, List, [], ◌∷◌, All, update, arith}
use autodialer_core.Rtp.{RtpSession, Rtp, set_session}
use autodialer_core.Rtp.Pool.{IsPool, busy}

-- A write that leaves the flag `in_use` alone keeps the pool sound.
busy-update_flag :
    (s : ℕ → RtpSession) (i : ℕ) (r : RtpSession) (n : ℕ)
    → r.in_use ≡ (s i).in_use
    → busy (update s i r) n ≡ busy s n
unfolding busy
busy-update_flag s i r zero h = refl
busy-update_flag s i r (suc n) h = ground (arith, busy-update_flag s i r n h)

idle-update_flag :
    (s : ℕ → RtpSession) (i : ℕ) (r : RtpSession) (is : List ℕ)
    → r.in_use ≡ (s i).in_use
    → All (λ j. (s j).in_use ≡ false) is
    → All (λ j. (update s i r j).in_use ≡ false) is
idle-update_flag s i r [] e h = tt
idle-update_flag s i r (j ∷ is) e h = (ground arith, idle-update_flag s i r is e h.1)

pub set_session-IsPool :
    (p : Rtp) (i : ℕ) (r : RtpSession)
    → r.in_use ≡ (p.sessions i).in_use
    → IsPool p
    → IsPool (set_session p i r)
set_session-IsPool p i r e v = record {
  idle = idle-update_flag p.sessions i r p.rtp_sessions e v.idle;
  stored = v.stored;
  distinct = v.distinct;
  counted = omega (arith, v.counted, busy-update_flag p.sessions i r p.total e);
}
