-- ===== src/Stack.antt =====
-- The SIP stack of src/call.c: sipcall_alloc and close_sip. libre's codes are arguments.
pub mod Setup
use autodialer_core.Base.{ℕ, Bool, true, false, not, Option, none, some, [], ◌==◌, if◌then◌else◌}
use autodialer_core.Rtp.{Sa, Rtp, Os, empty_pool, rtp_session_allocate}

-- The static pointers of call.c, its address, and the RTP sessions.
pub record Stack : Type 0 where
  pub dnsc : Bool
  pub sip : Bool
  pub sess_sock : Bool
  pub laddr : Option Sa
  pub rtp : Rtp

-- Before anything is set up.
abbrev pub no_stack : Stack
no_stack = record { dnsc = false; sip = false; sess_sock = false; laddr = none; rtp = empty_pool }

pub record Codes : Type 0 where
  pub dns_srv_get : ℕ
  pub dnsc_alloc : ℕ
  pub sip_alloc : ℕ
  pub sip_transp_add : ℕ
  pub sipsess_listen : ℕ

-- The code that is returned, and the stack. An error leaves what was set up before it.
unfoldable pub sipcall_alloc : Codes → (ℕ → Os) → Sa → Stack → ℕ × Stack
sipcall_alloc c os sip_ip s =
    let s1 : Stack = record s { dnsc = true } in
    let s2 : Stack = record s1 { sip = true } in
    let s3 : Stack = record s2 { sess_sock = true } in
    if not (c.dns_srv_get == 0)
    then (1, s)
    else if not (c.dnsc_alloc == 0)
    then (1, s)
    else if not (c.sip_alloc == 0)
    then (1, s1)
    else if not (c.sip_transp_add == 0)
    then (1, s2)
    else if not (c.sipsess_listen == 0)
    then (1, s2)
    else (0, record s3 { laddr = some sip_ip; rtp = rtp_session_allocate os sip_ip })

-- `rtp_session_destroy` flushes the list of free sessions.
abbrev pub rtp_session_destroy : Rtp → Rtp
rtp_session_destroy p = record p { rtp_sessions = [] }

unfoldable pub close_sip : Stack → Stack
close_sip s = record s {
  dnsc = false;
  sip = false;
  sess_sock = false;
  rtp = rtp_session_destroy s.rtp;
}
