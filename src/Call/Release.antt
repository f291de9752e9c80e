-- ===== src/Call/Release.antt =====
-- call_destructor of src/call.c.
pub mod Sessions
use autodialer_core.Base.{Bool, false, Option, none, some, ℕ}
use autodialer_core.Rtp.{Rtp, release_rtp_session}
use autodialer_core.Structs.{Leg, Call}

-- `if(call->rtp_sess) release_rtp_session(call->rtp_sess)`
unfoldable pub release_opt : Rtp → Option ℕ → Rtp
release_opt p none = p
release_opt p (some i) = release_rtp_session p i

-- What the destruction of a call does: the RTP thread is told to end and is joined if there is
-- one, the session goes back to the pool, and then the call to the PBX is destroyed, too.
pub record Destroyed : Type 0 where
  pub rtp : Rtp
  pub joined : Bool
  pub pbx_joined : Bool

abbrev pub pbx_session : Option Leg → Option ℕ
pbx_session none = none
pbx_session (some l) = l.rtp_sess

abbrev pbx_thread : Option Leg → Bool
pbx_thread none = false
pbx_thread (some l) = l.thrd_created

unfoldable pub call_destructor : Call → Rtp → Destroyed
unfolding release_opt
call_destructor c p = record {
  rtp = release_opt (release_opt p c.rtp_sess) (pbx_session c.pbx_call);
  joined = c.thrd_created;
  pbx_joined = pbx_thread c.pbx_call;
}

-- `mem_deref` of the pointer to a destination's call.
unfoldable pub deref_call : Option Call → Rtp → Rtp
unfolding call_destructor
deref_call none p = p
deref_call (some c) p = (call_destructor c p).rtp
