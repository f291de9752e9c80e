-- ===== src/Stack/Setup.antt =====
-- What sipcall_alloc of src/call.c has set up when it returns.
use autodialer_core.Base.{ℕ, ◌≡◌, ◌≢◌, refl, true, false, none, some, length, arith}
use autodialer_core.Rtp.{Sa, Os, empty_pool, rtp_session_allocate}
use autodialer_core.Rtp.Pool.{IsPool}
use autodialer_core.Rtp.Filling.{rtp_session_allocate-IsPool}
use autodialer_core.Stack.{Stack, no_stack, Codes, sipcall_alloc}

-- A stack that can make calls: its sockets and address are set, and all of its sessions are free.
pub record IsReady (sip_ip : Sa) (s : Stack) : Type 0 where
  pub dnsc_set : s.dnsc ≡ true
  pub sip_set : s.sip ≡ true
  pub sess_sock_set : s.sess_sock ≡ true
  pub laddr_set : s.laddr ≡ some sip_ip
  pub pool : IsPool s.rtp
  pub all_free : length s.rtp.rtp_sessions ≡ s.rtp.total

-- What the code of `sipcall_alloc` promises.
abbrev pub Promised : Sa → ℕ × Stack → Type 0
Promised sip_ip (err, s) =
    (err ≡ 0 → IsReady sip_ip s)
    × (err ≢ 0 → (s.laddr ≡ none) × (s.sess_sock ≡ false) × (s.rtp ≡ empty_pool))

-- From scratch, `sipcall_alloc` returns 0 only for a stack with its sockets, its address and a
-- sound pool of free sessions; on an error there is no session socket, no address and no session.
pub sipcall_alloc-Promised :
    (c : Codes) (os : ℕ → Os) (sip_ip : Sa) → Promised sip_ip (sipcall_alloc c os sip_ip no_stack)
unfolding sipcall_alloc
sipcall_alloc-Promised c os sip_ip =
    let (sound, free, few) = rtp_session_allocate-IsPool os sip_ip in
    let ready : Stack = record {
      dnsc = true;
      sip = true;
      sess_sock = true;
      laddr = some sip_ip;
      rtp = rtp_session_allocate os sip_ip;
    } in
    let is_ready : IsReady sip_ip ready = record {
      dnsc_set = refl;
      sip_set = refl;
      sess_sock_set = refl;
      laddr_set = refl;
      pool = sound;
      all_free = free;
    } in
    ground (arith, is_ready)
