-- ===== src/Media/Stream.antt =====
-- The RTP stream that rtpThread of src/call.c sends.
use mathlib.Core.Path.{subst}
use autodialer_core.Base.{
  ℕ, zero, suc, ◌+◌, ◌≡◌, refl, sym, ap, not, ◌||◌, ◌⊎◌, inl, inr, Bool-cases, Option-cases, some,
  List, [], ◌∷◌, ◌++◌, length, All, u32, >>=-eq-some, of_some, leb,
}
use autodialer_core.Media.{
  Codec, RtpPacket, Thread, Outside, send_frame, play_frames, one_round, rtp_thread,
}

-- A payload is a whole frame or empty.
abbrev pub IsFrame : Codec → List ℕ → Type 0
IsFrame c f = (length f ≡ c.frame_size) ⊎ (f ≡ [])

-- Packets of the codec whose timestamps start at `start` and grow by the frame, up to `end`.
abbrev pub Spaced : Codec → ℕ → List RtpPacket → ℕ → Type 0
Spaced c start [] end = start ≡ end
Spaced c start (m ∷ ms) end =
    (m.pt ≡ c.pt)
    × (m.ts ≡ start)
    × IsFrame c m.payload
    × Spaced c (u32 (start + c.frame_ts)) ms end

Spaced-snoc :
    (c : Codec) (start : ℕ) (ms : List RtpPacket) (end : ℕ) (f : List ℕ)
    → IsFrame c f
    → Spaced c start ms end
    → Spaced c start
        (ms ++ record { pt = c.pt; ts = end; payload = f } ∷ [])
        (u32 (end + c.frame_ts))
Spaced-snoc c start [] end f i h = (refl, sym h, i, ap (λ x. u32 (x + c.frame_ts)) h)
Spaced-snoc c start (m ∷ ms) end f i h =
    (h.0, h.1, h.2, Spaced-snoc c (u32 (start + c.frame_ts)) ms end f i h.3)

-- `fread` fills whole frames.
abbrev pub Reads : Codec → Outside → Type 0
Reads c o =
    (k : ℕ) (fs : List (List ℕ)) → o.fopen k ≡ some fs → All (λ f. length f ≡ c.frame_size) fs

module _ (c : Codec) (o : Outside) (start : ℕ) where
  abbrev pub InStep : Thread → Type 0
  InStep t = Spaced c start t.sent t.ts

  pub send_frame-InStep :
      (f : List ℕ) (t : Thread) → IsFrame c f → InStep t → InStep (send_frame c f t)
  unfolding send_frame
  send_frame-InStep f t i h = Spaced-snoc c start t.sent t.ts f i h

  pub play_frames-InStep :
      (fs : List (List ℕ)) (t : Thread)
      → All (λ f. length f ≡ c.frame_size) fs
      → InStep t
      → InStep (play_frames o c fs t)
  unfolding play_frames
  play_frames-InStep [] t a h = h
  play_frames-InStep (f ∷ fs) t a h =
      let s = send_frame-InStep f t (inl a.0) h in
      elim (Bool-cases (o.stop t.looks)) [
        | inl now ↦ rw now s
        | inr later ↦ rw later (play_frames-InStep fs _ a.1 s)
      ]

  one_round-InStep :
      (max_play k : ℕ) (t t' : Thread)
      → Reads c o
      → one_round o c max_play k t ≡ some t'
      → InStep t
      → InStep t'
  unfolding one_round
  one_round-InStep max_play k t t' r e h =
      elim (Bool-cases (not (o.access k) || leb max_play t.num_play)) [
        | inl quiet ↦
            subst InStep (of_some (rw (quiet, one_round) at e))
              (send_frame-InStep [] t (inr refl) h)
        | inr loud ↦
            let (fs, e1, e2) = >>=-eq-some (o.fopen k) _ (rw (loud, one_round) at e) in
            subst InStep (of_some e2) (play_frames-InStep fs t (r k fs e1) h)
      ]

  rtp_thread-InStep :
      (max_play fuel k : ℕ) (t t' : Thread)
      → Reads c o
      → rtp_thread o c max_play fuel k t ≡ some t'
      → InStep t
      → InStep t'
  unfolding rtp_thread
  rtp_thread-InStep max_play zero k t t' r e h = cc
  rtp_thread-InStep max_play (suc fuel) k t t' r e h =
      elim (Option-cases (one_round o c max_play k t)) [
        | inl none_left ↦ subst InStep (of_some (rw (none_left, rtp_thread) at e)) h
        | inr (u, e1) ↦
            let h' = one_round-InStep max_play k t u r e1 h in
            elim (Bool-cases (o.stop u.looks)) [
              | inl now ↦ subst InStep (of_some (rw (e1, rtp_thread, now) at e)) h'
              | inr later ↦
                  rtp_thread-InStep max_play fuel (suc k) _ t' r (rw (e1, rtp_thread, later) at e)
                    h'
            ]
      ]

-- The packets that the thread sends have the codec's payload type, their timestamps start at the
-- call's and grow by one frame each, modulo 2^32, to the value that is left in the call, and each
-- payload is a whole frame or empty, provided that `fread` fills whole frames.
pub rtp_thread-Spaced :
    (o : Outside) (c : Codec) (max_play fuel k : ℕ) (t t' : Thread)
    → Reads c o
    → t.sent ≡ []
    → rtp_thread o c max_play fuel k t ≡ some t'
    → Spaced c t.ts t'.sent t'.ts
rtp_thread-Spaced o c max_play fuel k t t' r s e =
    rtp_thread-InStep c o t.ts max_play fuel k t t' r e
      (subst (λ l. Spaced c t.ts l t.ts) (sym s) refl)
