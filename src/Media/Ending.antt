-- ===== src/Media/Ending.antt =====
-- rtpThread of src/call.c ends, and plays the file as often as it should at most.
use mathlib.Core.Path.{subst}
use autodialer_core.Base.{
  ℕ, zero, suc, ◌+◌, ◌≤◌, ◌<◌, ◌≡◌, ◌≢◌, refl, true, false, not, ◌||◌, inl, inr, Bool-cases,
  Option-cases, none, some, List, [], ◌∷◌, arith, >>=-eq-some, of_some, leb,
}
use autodialer_core.Media.{
  Codec, Thread, Outside, send_frame, play_frames, one_round, rtp_thread, look,
}

module _ (o : Outside) (c : Codec) where
  pub play_frames-looks : (fs : List (List ℕ)) (t : Thread) → t.looks ≤ (play_frames o c fs t).looks
  unfolding play_frames
  play_frames-looks [] t = omega arith
  play_frames-looks (f ∷ fs) t =
      ground (arith, play_frames-looks fs (record (send_frame c f t) { looks = suc t.looks }))

  play_frames-num_play :
      (fs : List (List ℕ)) (t : Thread) → (play_frames o c fs t).num_play ≡ t.num_play
  unfolding play_frames
  play_frames-num_play [] t = refl
  play_frames-num_play (f ∷ fs) t =
      ground (arith, play_frames-num_play fs (record (send_frame c f t) { looks = suc t.looks }))

  one_round-looks :
      (max_play k : ℕ) (t t' : Thread) → one_round o c max_play k t ≡ some t' → t.looks ≤ t'.looks
  unfolding one_round
  one_round-looks max_play k t t' e =
      elim (Bool-cases (not (o.access k) || leb max_play t.num_play)) [
        | inl quiet ↦
            subst (λ x. t.looks ≤ x.looks) (of_some (rw (quiet, one_round) at e))
              (unfold send_frame in omega arith)
        | inr loud ↦
            let (fs, e1, e2) = >>=-eq-some (o.fopen k) _ (rw (loud, one_round) at e) in
            subst (λ x. t.looks ≤ x.looks) (of_some e2) (play_frames-looks fs t)
      ]

  one_round-num_play :
      (max_play k : ℕ) (t t' : Thread)
      → max_play ≤ 255
      → t.num_play ≤ max_play
      → one_round o c max_play k t ≡ some t'
      → t'.num_play ≤ max_play
  unfolding one_round
  one_round-num_play max_play k t t' w h e =
      elim (Bool-cases (not (o.access k) || leb max_play t.num_play)) [
        | inl quiet ↦
            subst (λ x. x.num_play ≤ max_play) (of_some (rw (quiet, one_round) at e))
              (unfold send_frame in h)
        | inr loud ↦
            let (fs, e1, e2) = >>=-eq-some (o.fopen k) _ (rw (loud, one_round) at e) in
            let room : t.num_play < max_play = ground arith in
            subst (λ x. x.num_play ≤ max_play) (of_some e2)
              (omega (arith, play_frames-num_play fs t))
      ]

  pub looks_early : (n j : ℕ) → ((i : ℕ) → n ≤ i → o.stop i ≡ true) → o.stop j ≡ false → j < n
  looks_early n j s later = elim (Bool-cases (leb n j)) [
    | inl past ↦ let set = s j (ground arith) in cc
    | inr before ↦ ground arith
  ]

  -- If every look from the `n`-th on finds a flag set, the thread ends: fuel above 0 that reaches
  -- past `n` from the looks made so far is enough.
  pub rtp_thread_ends :
      (n max_play fuel k : ℕ) (t : Thread)
      → ((j : ℕ) → n ≤ j → o.stop j ≡ true)
      → n < fuel + t.looks
      → 0 < fuel
      → rtp_thread o c max_play fuel k t ≢ none
  unfolding rtp_thread
  rtp_thread_ends n max_play zero k t s h f = elim f [ ]
  rtp_thread_ends n max_play (suc fuel) k t s h f =
      elim (Option-cases (one_round o c max_play k t)) [
        | inl none_left ↦ rw (none_left, rtp_thread) (λ x. cc)
        | inr (u, e1) ↦
            let more = one_round-looks max_play k t u e1 in
            elim (Bool-cases (o.stop u.looks)) [
              | inl now ↦ rw (e1, rtp_thread, now) (λ x. cc)
              | inr later ↦
                  let early = looks_early n u.looks s later in
                  rw (e1, rtp_thread, later)
                    (rtp_thread_ends n max_play fuel (suc k) (look u) s (omega arith) (omega arith))
            ]
      ]

  -- A thread that ends has played the file at most `max_play` times, if the call started within
  -- that and `max_play` fits 8 bits.
  rtp_thread-num_play :
      (max_play fuel k : ℕ) (t t' : Thread)
      → max_play ≤ 255
      → t.num_play ≤ max_play
      → rtp_thread o c max_play fuel k t ≡ some t'
      → t'.num_play ≤ max_play
  unfolding rtp_thread
  rtp_thread-num_play max_play zero k t t' w h e = cc
  rtp_thread-num_play max_play (suc fuel) k t t' w h e =
      elim (Option-cases (one_round o c max_play k t)) [
        | inl none_left ↦
            subst (λ x. x.num_play ≤ max_play) (of_some (rw (none_left, rtp_thread) at e)) h
        | inr (u, e1) ↦
            let h' = one_round-num_play max_play k t u w h e1 in
            elim (Bool-cases (o.stop u.looks)) [
              | inl now ↦
                  subst (λ x. x.num_play ≤ max_play) (of_some (rw (e1, rtp_thread, now) at e)) h'
              | inr later ↦
                  rtp_thread-num_play max_play fuel (suc k) _ t' w h'
                    (rw (e1, rtp_thread, later) at e)
            ]
      ]
