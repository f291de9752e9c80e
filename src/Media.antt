-- ===== src/Media.antt =====
-- rtpThread of src/call.c: the thread that plays the audio file of a call, and silence.
pub mod Stream
pub mod Ending
use autodialer_core.Base.{
  ℕ, zero, suc, ◌+◌, ◌*◌, Bool, true, false, not, ◌&&◌, ◌||◌, Option, none, some, List, [], ◌∷◌,
  ◌++◌, Text, u8, u32, leb, ◌==◌, if◌then◌else◌, ◌>>=◌,
}
use autodialer_core.Structs.{codes}
use autodialer_core.Dialer.Dial.{base_name}

-- The frame of a payload type: bytes, timestamp units, and milliseconds of sleep.
pub record Codec : Type 0 where
  pub pt : ℕ
  pub frame_size : ℕ
  pub frame_ts : ℕ
  pub frame_sleep : ℕ

unfoldable pub codec_of : ℕ → Codec
codec_of pt =
    if pt == 0 || pt == 8
    then record { pt = pt; frame_size = 160; frame_ts = 160; frame_sleep = 20 }
    else record { pt = pt; frame_size = 40; frame_ts = 320; frame_sleep = 40 }

unfoldable pub extension : ℕ → Text
extension pt = if pt == 0 then codes ".ulaw" else if pt == 8 then codes ".alaw" else codes ".g729"

-- The file that is played: the call's audio up to the first '.', with the codec's extension.
unfoldable pub audio_file : Text → ℕ → Option Text
unfolding extension
audio_file audio pt = base_name audio >>= λ b. some (b ++ extension pt)

pub record RtpPacket : Type 0 where
  pub pt : ℕ
  pub ts : ℕ
  pub payload : List ℕ

-- What the thread changes of the call, what it sent, and how often it looked at the flags `ended`
-- and `event_received`, which other threads set.
pub record Thread : Type 0 where
  pub ts : ℕ
  pub num_play : ℕ
  pub sent : List RtpPacket
  pub looks : ℕ

-- What is outside: whether a look finds one of the flags set, and in each round whether the file
-- is there and, if it can be opened, the frames that `fread` fills.
pub record Outside : Type 0 where
  pub stop : ℕ → Bool
  pub access : ℕ → Bool
  pub fopen : ℕ → Option (List (List ℕ))

-- `rtp_encode` and `udp_send` of one frame.
unfoldable pub send_frame : Codec → List ℕ → Thread → Thread
send_frame c payload t = record t {
  ts = u32 (t.ts + c.frame_ts);
  sent = t.sent ++ record { pt = c.pt; ts = t.ts; payload = payload } ∷ [];
}

abbrev pub look : Thread → Thread
look t = record t { looks = suc t.looks }

-- The inner loop: a frame, a look, and a sleep.
unfoldable pub play_frames : Outside → Codec → List (List ℕ) → Thread → Thread
unfolding send_frame
play_frames o c [] t = t
play_frames o c (f ∷ fs) t =
    let t' = look (send_frame c f t) in
    let rest = play_frames o c fs t' in if o.stop t.looks then t' else rest

-- `mbuf_write_mem` writes nothing from a null pointer, so a packet of silence has no payload.
silence : Codec → Thread → Thread
silence c t = send_frame c [] t

-- One round before the final look: none if the file cannot be opened.
unfoldable pub one_round : Outside → Codec → ℕ → ℕ → Thread → Option Thread
unfolding play_frames silence
one_round o c max_play k t =
    if not (o.access k) || leb max_play t.num_play
    then some (silence c t)
    else (o.fopen k >>= λ fs.
        some (let t' = play_frames o c fs t in record t' { num_play = u8 (t'.num_play + 1) }))

-- The `while(1)` loop on fuel; `none` if the fuel runs out.
unfoldable pub rtp_thread : Outside → Codec → ℕ → ℕ → ℕ → Thread → Option Thread
rtp_thread o c max_play zero k t = none
rtp_thread o c max_play (suc fuel) k t = elim (one_round o c max_play k t) [
  | none ↦ some t
  | some t' ↦
      let next = rtp_thread o c max_play fuel (suc k) (look t') in
      if o.stop t'.looks then some (look t') else next
]
