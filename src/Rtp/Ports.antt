-- ===== src/Rtp/Ports.antt =====
-- The ports that udp_range_listen of src/call.c binds.
use Prim.Native.Nat.{bit_and}
use native.Mathlib.Nat.{mod-lt, add-zero}
use autodialer_core.Base.{
  ℕ, zero, suc, ◌+◌, ◌-◌, ◌%◌, ◌≤◌, ◌<◌, ◌≡◌, refl, Bool, true, false, inl, inr, arith, ◌==◌,
  if◌then◌else◌, Bool-cases,
}
use autodialer_core.Rtp.{RtpSession, candidate_port, udp_range_listen}

clears : ℕ → Bool
clears port = bit_and port 0xfffe == port - port % 2

-- How many of the first `n` numbers the mask leaves with a low bit.
misses : ℕ → ℕ
unfolding clears
misses zero = 0
misses (suc port) = let before = misses port in if clears port then before else suc before

misses-clears : (n port : ℕ) → port < n → misses n ≡ 0 → clears port ≡ true
unfolding misses
misses-clears zero port h none_missed = elim h [ ]
misses-clears (suc n) port h none_missed = ground (arith, misses-clears n port)

-- `port &= 0xfffe` clears the low bit of a 16-bit number.
clear_low_bit : (port : ℕ) → port < 65536 → bit_and port 0xfffe ≡ port - port % 2
unfolding clears misses
clear_low_bit port h = let cleared = misses-clears 65536 port h refl in ground arith

-- An even port of the range.
abbrev pub IsRtpPort : ℕ → ℕ → ℕ → Type 0
IsRtpPort lo hi port = (lo ≤ port) × (port < hi) × (port % 2 ≡ 0)

candidate_port-IsRtpPort :
    (lo hi r : ℕ) → lo < hi → hi ≤ 65536 → lo % 2 ≡ 0 → IsRtpPort lo hi (candidate_port lo hi r)
unfolding candidate_port
candidate_port-IsRtpPort lo hi r h w e =
    let d = mod-lt r {m = hi - lo} (omega arith) in
    let x = lo + r % (hi - lo) in
    let fit : x % 65536 ≡ x = omega (arith, d) in
    rw (fit, clear_low_bit x (omega (arith, d)))
      (omega (arith, d), omega (arith, d), omega (arith, d))

-- What a code of 0 promises: the socket listens on an even port of the range.
abbrev pub Bound : (ℕ → ℕ) → ℕ → ℕ → RtpSession → Type 0
Bound listen lo hi r =
    (r.rs ≡ true)
    × (r.connected ≡ false)
    × (r.in_use ≡ false)
    × (listen r.local_ip.port ≡ 0)
    × IsRtpPort lo hi r.local_ip.port

module _ (rand listen : ℕ → ℕ) (lo hi : ℕ) (order : lo < hi) (width : hi ≤ 65536)
    (even : lo % 2 ≡ 0) where
  range_Bound :
      (tries k err : ℕ) (r : RtpSession)
      → (udp_range_listen rand listen lo hi (suc tries) k err r).0 ≡ 0
      → Bound listen lo hi (udp_range_listen rand listen lo hi (suc tries) k err r).1
  unfolding udp_range_listen
  range_Bound zero k err r = elim (Bool-cases (listen (candidate_port lo hi (rand k)) == 0)) [
    | inl hit ↦ rw hit (λ e.
        (refl, refl, refl, ground arith, candidate_port-IsRtpPort lo hi (rand k) order width even))
    | inr miss ↦ rw miss (λ e. absurd (ground arith))
  ]
  range_Bound (suc tries) k err r =
      elim (Bool-cases (listen (candidate_port lo hi (rand k)) == 0)) [
        | inl hit ↦ rw hit (λ e. (
          refl,
          refl,
          refl,
          ground arith,
          candidate_port-IsRtpPort lo hi (rand k) order width even,
        ))
        | inr miss ↦ rw miss (
            range_Bound tries (suc k) (listen (candidate_port lo hi (rand k))) (record r {
              local_ip = record { host = r.local_ip.host; port = candidate_port lo hi (rand k) };
            }))
      ]

  -- If `udp_range_listen` returns 0 after at least one round, the session has a socket on an even
  -- port of the range, on which `udp_listen` succeeded, and is neither connected nor in use. The
  -- range has an even lower end and lies within 16 bits.
  pub udp_range_listen-Bound :
      (tries k err : ℕ) (r : RtpSession)
      → 0 < tries
      → (udp_range_listen rand listen lo hi tries k err r).0 ≡ 0
      → Bound listen lo hi (udp_range_listen rand listen lo hi tries k err r).1
  udp_range_listen-Bound zero k err r h e = elim h [ ]
  udp_range_listen-Bound (suc tries) k err r h e = range_Bound tries k err r e

-- `udp_range_listen` fails only if no round drew a port that `udp_listen` accepts: one round `j`
-- below `tries` with a good port makes it return 0.
udp_range_listen_complete :
    (rand listen : ℕ → ℕ) (lo hi tries k err : ℕ) (r : RtpSession) (j : ℕ)
    → j < tries
    → listen (candidate_port lo hi (rand (k + j))) ≡ 0
    → (udp_range_listen rand listen lo hi tries k err r).0 ≡ 0
unfolding udp_range_listen
udp_range_listen_complete rand listen lo hi zero k err r j h e = elim h [ ]
udp_range_listen_complete rand listen lo hi (suc tries) k err r zero h e =
    let e' : listen (candidate_port lo hi (rand k)) ≡ 0 = rw add-zero at e in rw e'
udp_range_listen_complete rand listen lo hi (suc tries) k err r (suc j) h e =
    elim (Bool-cases (listen (candidate_port lo hi (rand k)) == 0)) [
      | inl hit ↦ rw hit
      | inr miss ↦ rw miss (
          udp_range_listen_complete rand listen lo hi tries (suc k)
            (listen (candidate_port lo hi (rand k)))
            (record r {
              local_ip = record { host = r.local_ip.host; port = candidate_port lo hi (rand k) };
            })
            j (omega arith) (let q : suc k + j ≡ k + suc j = omega arith in rw q e))
    ]
