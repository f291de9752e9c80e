-- ===== src/Samples/Pool.antt =====
-- The pool of RTP sessions on small inputs.
use autodialer_core.Base.{ℕ, ◌≡◌, refl, true, length, if◌then◌else◌, ◌==◌, arith, ◌≤◌}
use autodialer_core.Rtp.{
  Os, udp_range_listen, fresh_session, rtp_session_allocate, find_rtp_session,
}
use autodialer_core.Rtp.Pool.{IsPool, Takes, find_rtp_session-Takes}
use autodialer_core.Rtp.Filling.{rtp_session_allocate-IsPool}
use autodialer_core.Rtp.Ports.{Bound, udp_range_listen-Bound}
use autodialer_core.Samples.{half_used, half_used-IsPool, localhost, program}

find_rtp_session-Takes_example : Takes half_used (find_rtp_session half_used)
find_rtp_session-Takes_example = find_rtp_session-Takes half_used half_used-IsPool

-- The tenth session finds no port.
abbrev sockets : ℕ → Os
sockets i = record { zalloc = true; rand = λ k. 7; listen = λ port. if i == 9 then 98 else 0 }

rtp_session_allocate-IsPool_example :
    let p = rtp_session_allocate sockets localhost in
    IsPool p × (length p.rtp_sessions ≡ p.total) × (p.total ≤ 100)
rtp_session_allocate-IsPool_example = rtp_session_allocate-IsPool sockets localhost

-- Port 8000 is taken, and the second draw is 8006.
abbrev draws : ℕ → ℕ
draws k = if k == 0 then 1 else 7

abbrev taken : ℕ → ℕ
taken port = if port == 8000 then 98 else 0

udp_range_listen-Bound_example :
    Bound taken 8000 20000
      (udp_range_listen draws taken 8000 20000 64 0 0 (fresh_session localhost)).1
unfolding program
udp_range_listen-Bound_example =
    udp_range_listen-Bound draws taken 8000 20000 (omega arith) (omega arith) refl 64 0 0
      (fresh_session localhost) (omega arith) refl
