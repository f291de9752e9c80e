-- ===== src/Samples/Incoming.antt =====
-- Incoming calls and the SIP stack on small inputs.
use autodialer_core.Base.{ℕ, ◌≡◌, refl, true, false, inr, none, some, [], leb, arith}
use autodialer_core.Rtp.{Os}
use autodialer_core.Media.{Thread, Outside}
use autodialer_core.Media.Stream.{Spaced}
use autodialer_core.Incoming.{
  InCall, zeroed, Ring, Setup, Incoming, g729, in_call_tmr_handler, incoming_call_alloc,
  incoming_thread,
}
use autodialer_core.Incoming.Lifetime.{
  Goes, Settled, in_call_tmr_handler-Goes, incoming_call_alloc_outcome,
}
use autodialer_core.Incoming.Playing.{incoming_thread-Spaced}
use autodialer_core.Stack.{no_stack, Codes, sipcall_alloc}
use autodialer_core.Stack.Setup.{Promised, sipcall_alloc-Promised}
use autodialer_core.Samples.{localhost}

abbrev tick : Ring
tick = record {
  sdp_encode = 0;
  rand_max = 32767;
  rand_duration = 20000;
  rand_ts = 5;
  thrd_create = true;
}

-- A call that rings.
abbrev ringing : InCall
ringing = record zeroed { sess = true; sdp = true; rs = true; tmr = some 7000 }

in_call_tmr_handler-Goes_example :
    Goes ringing (in_call_tmr_handler tick ringing)
    × ((c' : InCall)
        → in_call_tmr_handler tick ringing ≡ some c'
        → (h : Ring) → in_call_tmr_handler h c' ≡ none)
in_call_tmr_handler-Goes_example = in_call_tmr_handler-Goes tick ringing (omega arith)

-- An offer without a common format.
abbrev no_format : Setup
no_format = record {
  zalloc = true;
  sdp_session_alloc = 0;
  sdp_media_add = 0;
  format_g729 = 0;
  format_g723 = 0;
  format_event = 0;
  sdp_decode = λ body. 0;
  mbuf_alloc = true;
  raddr = localhost;
  rformat = false;
  sipsess_accept = 0;
  rtp_alloc = 0;
}

incoming_call_alloc_outcome_example : Settled no_format [] (incoming_call_alloc no_format [])
incoming_call_alloc_outcome_example = incoming_call_alloc_outcome no_format []

abbrev outside : Outside
outside = record { stop = λ j. leb 3 j; access = λ k. false; fopen = λ k. none }

abbrev ready : Thread
ready = record { ts = 7; num_play = 0; sent = []; looks = 0 }

abbrev listening : Incoming
listening = record { udpsock = true; silence = none; telev = false }

incoming_thread-Spaced_example :
    (u : Thread) × (incoming_thread listening outside 9 ready ≡ some u) × Spaced g729 7 u.sent u.ts
incoming_thread-Spaced_example =
    incoming_thread-Spaced listening outside 3 9 ready (λ j h. ground arith) (omega arith)
      (omega arith) (λ k fs e. cc) (inr refl) refl

abbrev good : Codes
good = record {
  dns_srv_get = 0;
  dnsc_alloc = 0;
  sip_alloc = 0;
  sip_transp_add = 0;
  sipsess_listen = 0;
}

abbrev sockets : ℕ → Os
sockets i = record { zalloc = true; rand = λ k. 7; listen = λ port. 0 }

sipcall_alloc-Promised_example : Promised localhost (sipcall_alloc good sockets localhost no_stack)
sipcall_alloc-Promised_example = sipcall_alloc-Promised good sockets localhost
