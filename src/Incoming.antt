-- ===== src/Incoming.antt =====
-- src/in_call.c: calls that come in ring for seven seconds, are answered, and are played an audio
-- file for some minutes. libre's answers are arguments. A call that is destroyed is `none`.
pub mod Lifetime
pub mod Playing
use autodialer_core.Base.{
  ℕ, zero, suc, ◌+◌, ◌*◌, ◌-◌, ◌/◌, Bool, true, false, not, Option, none, some, List, [], ◌∷◌, ◌++◌,
  Text, u32, ◌==◌, if◌then◌else◌, ◌>>=◌, take,
}
use autodialer_core.Rtp.{Sa}
use autodialer_core.Media.{Codec, Thread, Outside, look, send_frame, play_frames}

-- `struct in_call`. `tmr` is the delay of the running timer in milliseconds.
pub record InCall : Type 0 where
  pub sess : Bool
  pub sdp : Bool
  pub rs : Bool
  pub rtp_dest : Sa
  pub ts : ℕ
  pub thrd_created : Bool
  pub tmr : Option ℕ
  pub established : Bool
  pub ended : Bool

-- A call as `mem_zalloc` leaves it.
abbrev pub zeroed : InCall
zeroed = record {
  sess = false;
  sdp = false;
  rs = false;
  rtp_dest = record { host = 0; port = 0 };
  ts = 0;
  thrd_created = false;
  tmr = none;
  established = false;
  ended = false;
}

unfoldable pub establish_handler : InCall → InCall
establish_handler c = if c.established then c else record c { established = true }

-- The peer hangs up: the call is destroyed.
unfoldable pub close_handler : InCall → Option InCall
close_handler c = none

-- An offer that cannot be decoded is tried again with an empty line at its end.
unfoldable pub decode_sdp_offer : (Text → ℕ) → Bool → Text → ℕ
decode_sdp_offer sdp_decode mbuf_alloc body =
    if sdp_decode body == 0
    then 0
    else if mbuf_alloc
    then sdp_decode (body ++ 13 ∷ 10 ∷ [])
    else sdp_decode body

-- `min + rand() / (RAND_MAX / (max - min + 1) + 1)`
unfoldable pub get_max_duration : ℕ → ℕ → ℕ → ℕ → ℕ
get_max_duration rand_max min max r = min + r / (rand_max / (max - min + 1) + 1)

-- What the timer's handler meets: the code of `sdp_encode`, two draws of `rand`, and whether the
-- thread starts.
pub record Ring : Type 0 where
  pub sdp_encode : ℕ
  pub rand_max : ℕ
  pub rand_duration : ℕ
  pub rand_ts : ℕ
  pub thrd_create : Bool

unfoldable pub in_call_tmr_handler : Ring → InCall → Option InCall
unfolding get_max_duration
in_call_tmr_handler g c =
    if c.established
    then none
    else if g.sdp_encode == 0
    then some (record c {
      established = true;
      tmr = some (get_max_duration g.rand_max 7 15 g.rand_duration * 1000 * 60);
      ts = u32 g.rand_ts;
      thrd_created = if g.thrd_create then true else c.thrd_created;
    })
    else none

-- The codes of the calls that set up an incoming call.
pub record Setup : Type 0 where
  pub zalloc : Bool
  pub sdp_session_alloc : ℕ
  pub sdp_media_add : ℕ
  pub format_g729 : ℕ
  pub format_g723 : ℕ
  pub format_event : ℕ
  pub sdp_decode : Text → ℕ
  pub mbuf_alloc : Bool
  pub raddr : Sa
  pub rformat : Bool
  pub sipsess_accept : ℕ
  pub rtp_alloc : ℕ

-- The code that is returned, and the call, unless it was destroyed.
pub record Accepted : Type 0 where
  pub err : ℕ
  pub call : Option InCall

-- `out:`
abbrev out : ℕ → InCall → Accepted
out err c = record { err = err; call = if err == 0 then some c else none }

-- From a decoded offer on. `list` is a null pointer, so `list_append` does nothing, and the code of
-- `sipsess_accept` is overwritten.
answer_offer : Setup → InCall → Accepted
answer_offer s c =
    let found : InCall = record c { rtp_dest = s.raddr } in
    if s.rformat
    then out s.rtp_alloc
        (record found { sess = s.sipsess_accept == 0; tmr = some 7000; rs = s.rtp_alloc == 0 })
    else out 0 found

-- An error of the last `sdp_format_add` returns at once.
unfoldable pub incoming_call_alloc : Setup → Text → Accepted
unfolding decode_sdp_offer answer_offer
incoming_call_alloc s body =
    let c : InCall = record zeroed { sdp = true } in
    if not s.zalloc
    then record { err = 1; call = none }
    else if not (s.sdp_session_alloc == 0)
    then out s.sdp_session_alloc zeroed
    else if not (s.sdp_media_add == 0)
    then out s.sdp_media_add c
    else if not (s.format_g729 == 0)
    then out s.format_g729 c
    else if not (s.format_g723 == 0)
    then out s.format_g723 c
    else if not (s.format_event == 0)
    then record { err = s.format_event; call = some c }
    else if not (decode_sdp_offer s.sdp_decode s.mbuf_alloc body == 0)
    then out (decode_sdp_offer s.sdp_decode s.mbuf_alloc body) c
    else answer_offer s c

-- The static state: the socket, the bytes of silence, and the reader of telephone events.
pub record Incoming : Type 0 where
  pub udpsock : Bool
  pub silence : Option (List ℕ)
  pub telev : Bool

-- What `init_incoming` meets: the code of `udp_listen`, whether the file of silence is there, the
-- bytes of the buffer if the file can be opened (those of the file if `fread` fills 50, else those
-- that `mbuf_alloc` leaves), and the code of `telev_alloc`.
pub record Start : Type 0 where
  pub udp_listen : ℕ
  pub access : Bool
  pub fopen : Option (List ℕ)
  pub telev_alloc : ℕ

-- Without the file, `fopen` is given a path that was never written: a fault.
unfoldable pub init_incoming : Start → Option Incoming
init_incoming s =
    let bound = s.udp_listen == 0 in
    if s.access
    then some (elim s.fopen [
      | none ↦ record { udpsock = bound; silence = none; telev = false }
      | some bytes ↦ record { udpsock = bound; silence = some bytes; telev = s.telev_alloc == 0 }
    ])
    else none

-- The destruction of a call: whether its thread was joined, and what is left of it.
unfoldable pub in_call_destructor : InCall → Bool × InCall
in_call_destructor c =
    (c.thrd_created, record c { ended = true; rs = false; sess = false; sdp = false; tmr = none })

-- No call is in the list that is flushed here.
unfoldable pub destroy_incoming : Incoming → Incoming
destroy_incoming i = record { udpsock = false; silence = none; telev = false }

-- G.729: 40 bytes for 40 milliseconds, 320 units of the timestamp.
abbrev pub g729 : Codec
g729 = record { pt = 18; frame_size = 40; frame_ts = 320; frame_sleep = 40 }

-- The payload of a packet of silence: 40 bytes of the buffer, or nothing.
abbrev pub silent : Option (List ℕ) → List ℕ
silent none = []
silent (some bytes) = take 40 bytes

-- One round of `rtpThread` before its final look: none if the file cannot be opened.
unfoldable pub incoming_round : Outside → List ℕ → ℕ → Thread → Option Thread
incoming_round o quiet k t =
    if not (o.access k)
    then some (send_frame g729 quiet t)
    else (o.fopen k >>= λ fs. some (play_frames o g729 fs t))

-- Its `while(1)` loop on fuel; `none` if the fuel runs out.
unfoldable pub incoming_loop : Outside → List ℕ → ℕ → ℕ → Thread → Option Thread
incoming_loop o quiet zero k t = none
incoming_loop o quiet (suc fuel) k t = elim (incoming_round o quiet k t) [
  | none ↦ some t
  | some u ↦
      let more = incoming_loop o quiet fuel (suc k) (look u) in
      if o.stop u.looks then some (look u) else more
]

-- Without a socket the thread returns at once.
unfoldable pub incoming_thread : Incoming → Outside → ℕ → Thread → Option Thread
incoming_thread i o fuel t =
    let played = incoming_loop o (silent i.silence) fuel 0 t in if i.udpsock then played else some t
