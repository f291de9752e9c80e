-- ===== src/Samples/Playing.antt =====
-- The RTP thread on small inputs.
use autodialer_core.Base.{◌≢◌, refl, true, none, some, [], ◌∷◌, arith, leb}
use autodialer_core.Media.{Codec, Thread, Outside, rtp_thread}
use autodialer_core.Media.Stream.{Spaced, rtp_thread-Spaced}
use autodialer_core.Media.Ending.{rtp_thread_ends}
use autodialer_core.Samples.{program}

-- Frames of three bytes.
abbrev small : Codec
small = record { pt = 0; frame_size = 3; frame_ts = 3; frame_sleep = 20 }

-- The call ends at the third look, and the file has two frames.
abbrev outside : Outside
outside = record {
  stop = λ j. leb 3 j;
  access = λ k. true;
  fopen = λ k. some ((1 ∷ 2 ∷ 3 ∷ []) ∷ (4 ∷ 5 ∷ 6 ∷ []) ∷ []);
}

abbrev ready : Thread
ready = record { ts = 7; num_play = 0; sent = []; looks = 0 }

-- The thread at its end.
abbrev played : Thread
played = elim (rtp_thread outside small 2 9 0 ready) [ none ↦ ready | some t ↦ t ]

rtp_thread-Spaced_example : Spaced small 7 played.sent played.ts
unfolding program
rtp_thread-Spaced_example =
    rtp_thread-Spaced outside small 2 9 0 ready played (λ k fs e. ground arith) refl refl

rtp_thread_ends_example : rtp_thread outside small 2 9 0 ready ≢ none
rtp_thread_ends_example =
    rtp_thread_ends outside small 3 2 9 0 ready (λ j h. ground arith) (omega arith) (omega arith)
