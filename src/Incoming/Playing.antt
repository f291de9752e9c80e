-- ===== src/Incoming/Playing.antt =====
-- The stream that rtpThread of src/in_call.c sends, and its end.
use mathlib.Core.Path.{subst}
use autodialer_core.Base.{
  ℕ, zero, suc, ◌+◌, ◌≤◌, ◌<◌, ◌≡◌, ◌≢◌, refl, sym, true, inl, inr, Bool-cases, Option-cases, none,
  some, List, [], arith, >>=-eq-some, of_some,
}
use autodialer_core.Media.{Thread, Outside, look, send_frame}
use autodialer_core.Media.Stream.{
  IsFrame, Spaced, Reads, InStep, send_frame-InStep, play_frames-InStep,
}
use autodialer_core.Media.Ending.{play_frames-looks, looks_early}
use autodialer_core.Incoming.{
  g729, silent, Incoming, incoming_round, incoming_loop, incoming_thread,
}

module _ (o : Outside) (quiet : List ℕ) where
  incoming_round-looks :
      (k : ℕ) (t u : Thread) → incoming_round o quiet k t ≡ some u → t.looks ≤ u.looks
  unfolding incoming_round
  incoming_round-looks k t u e = elim (Bool-cases (o.access k)) [
    | inr missing ↦
        subst (λ x. t.looks ≤ x.looks) (of_some (rw (missing, incoming_round) at e))
          (unfold send_frame in omega arith)
    | inl there ↦
        let (fs, e1, e2) = >>=-eq-some (o.fopen k) _ (rw (there, incoming_round) at e) in
        subst (λ x. t.looks ≤ x.looks) (of_some e2) (play_frames-looks o g729 fs t)
  ]

  incoming_loop_ends :
      (n fuel k : ℕ) (t : Thread)
      → ((j : ℕ) → n ≤ j → o.stop j ≡ true)
      → n < fuel + t.looks
      → 0 < fuel
      → incoming_loop o quiet fuel k t ≢ none
  unfolding incoming_loop
  incoming_loop_ends n zero k t s h f = elim f [ ]
  incoming_loop_ends n (suc fuel) k t s h f = elim (Option-cases (incoming_round o quiet k t)) [
    | inl none_left ↦ rw (none_left, incoming_loop) (λ x. cc)
    | inr (u, e1) ↦
        let more = incoming_round-looks k t u e1 in
        elim (Bool-cases (o.stop u.looks)) [
          | inl now ↦ rw (e1, incoming_loop, now) (λ x. cc)
          | inr later ↦
              let early = looks_early o g729 n u.looks s later in
              rw (e1, incoming_loop, later)
                (incoming_loop_ends n fuel (suc k) (look u) s (omega arith) (omega arith))
        ]
  ]

  module _ (start : ℕ) (fills : Reads g729 o) (whole : IsFrame g729 quiet) where
    incoming_round-InStep :
        (k : ℕ) (t u : Thread)
        → incoming_round o quiet k t ≡ some u
        → InStep g729 o start t
        → InStep g729 o start u
    unfolding incoming_round
    incoming_round-InStep k t u e h = elim (Bool-cases (o.access k)) [
      | inr missing ↦
          subst (InStep g729 o start) (of_some (rw (missing, incoming_round) at e))
            (send_frame-InStep g729 o start quiet t whole h)
      | inl there ↦
          let (fs, e1, e2) = >>=-eq-some (o.fopen k) _ (rw (there, incoming_round) at e) in
          subst (InStep g729 o start) (of_some e2)
            (play_frames-InStep g729 o start fs t (fills k fs e1) h)
    ]

    incoming_loop-InStep :
        (fuel k : ℕ) (t u : Thread)
        → incoming_loop o quiet fuel k t ≡ some u
        → InStep g729 o start t
        → InStep g729 o start u
    unfolding incoming_loop
    incoming_loop-InStep zero k t u e h = cc
    incoming_loop-InStep (suc fuel) k t u e h = elim (Option-cases (incoming_round o quiet k t)) [
      | inl none_left ↦ subst (InStep g729 o start) (of_some (rw (none_left, incoming_loop) at e)) h
      | inr (v, e1) ↦
          let h' = incoming_round-InStep k t v e1 h in
          elim (Bool-cases (o.stop v.looks)) [
            | inl now ↦ subst (InStep g729 o start) (of_some (rw (e1, incoming_loop, now) at e)) h'
            | inr later ↦
                incoming_loop-InStep fuel (suc k) (look v) u (rw (e1, incoming_loop, later) at e) h'
          ]
    ]

-- The thread of an incoming call ends if every look from the `n`-th on finds the call ended, with
-- fuel above 0 that reaches past `n`. What it sent by then are packets of G.729 whose timestamps
-- grow by 320 each, modulo 2^32, with whole frames or nothing in them, provided that `fread` fills
-- whole frames and the silence is one.
pub incoming_thread-Spaced :
    (i : Incoming) (o : Outside) (n fuel : ℕ) (t : Thread)
    → ((j : ℕ) → n ≤ j → o.stop j ≡ true)
    → n < fuel + t.looks
    → 0 < fuel
    → Reads g729 o
    → IsFrame g729 (silent i.silence)
    → t.sent ≡ []
    → (u : Thread) × (incoming_thread i o fuel t ≡ some u) × Spaced g729 t.ts u.sent u.ts
unfolding incoming_thread
incoming_thread-Spaced i o n fuel t s h f r w e =
    let start : Spaced g729 t.ts t.sent t.ts = subst (λ l. Spaced g729 t.ts l t.ts) (sym e) refl in
    elim (Bool-cases i.udpsock) [
      | inr closed ↦ (t, rw closed refl, start)
      | inl open_socket ↦ elim (Option-cases (incoming_loop o (silent i.silence) fuel 0 t)) [
        | inl never ↦ absurd (incoming_loop_ends o (silent i.silence) n fuel 0 t s h f never)
        | inr (u, e1) ↦ (
          u,
          rw open_socket e1,
          incoming_loop-InStep o (silent i.silence) t.ts r w fuel 0 t u e1 start,
        )
      ]
    ]
