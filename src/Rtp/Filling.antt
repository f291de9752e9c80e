-- ===== src/Rtp/Filling.antt =====
-- rtp_session_allocate of src/call.c fills the pool of RTP sessions.
use autodialer_core.Base.{
  ℕ, zero, suc, ◌+◌, ◌≤◌, ◌<◌, ◌≡◌, refl, ◌≢◌, inl, inr, false, List, [], ◌∷◌, ◌++◌, All,
  All-append, length, length-append, update, arith, ◌==◌, Bool-cases,
}
use autodialer_core.Rtp.{
  Sa, RtpSession, Rtp, Os, allocate_one, candidate_port, fresh_session, udp_range_listen,
  allocate_rounds, rtp_session_allocate, empty_pool,
}
use autodialer_core.Rtp.Pool.{Distinct-snoc, IsPool, busy, busy-update_above, idle-update}

-- A session that listens is not in use yet.
udp_range_listen-idle :
    (rand listen : ℕ → ℕ) (lo hi tries k err : ℕ) (r : RtpSession)
    → r.in_use ≡ false
    → (udp_range_listen rand listen lo hi tries k err r).1.in_use ≡ false
unfolding udp_range_listen
udp_range_listen-idle rand listen lo hi zero k err r h = h
udp_range_listen-idle rand listen lo hi (suc tries) k err r h =
    elim (Bool-cases (listen (candidate_port lo hi (rand k)) == 0)) [
      | inl hit ↦ rw hit
      | inr miss ↦ rw miss (udp_range_listen-idle rand listen lo hi tries (suc k) _ _ h)
    ]

above_fresh : (n : ℕ) (is : List ℕ) → All (λ i. i < n) is → All (λ i. n ≢ i) is
above_fresh n [] h = tt
above_fresh n (i ∷ is) h = (omega arith, above_fresh n is h.1)

below_fresh : (n : ℕ) (is : List ℕ) → All (λ i. i < n) is → All (λ i. i ≢ n) is
below_fresh n [] h = tt
below_fresh n (i ∷ is) h = (omega arith, below_fresh n is h.1)

stored-snoc : (n : ℕ) (is : List ℕ) → All (λ i. i < n) is → All (λ i. i < suc n) (is ++ n ∷ [])
stored-snoc n [] h = (omega arith, tt)
stored-snoc n (i ∷ is) h = (omega arith, stored-snoc n is h.1)

add-IsPool :
    (p : Rtp) (r : RtpSession)
    → r.in_use ≡ false
    → IsPool p
    → IsPool (record {
      sessions = update p.sessions p.total r;
      total = suc p.total;
      rtp_sessions = p.rtp_sessions ++ p.total ∷ [];
    })
unfolding busy
add-IsPool p r h v = record {
  idle =
      All-append _ p.rtp_sessions (p.total ∷ [])
        (idle-update p.sessions p.total r _ (above_fresh p.total _ v.stored) v.idle)
        (ground arith, tt);
  stored = stored-snoc p.total p.rtp_sessions v.stored;
  distinct = Distinct-snoc p.total _ v.distinct (below_fresh p.total _ v.stored);
  counted = ground (
    arith,
    length-append p.rtp_sessions (p.total ∷ []),
    busy-update_above p.sessions p.total r p.total,
    v.counted,
  );
}

allocate_one-IsPool : (os : Os) (addr : Sa) (p : Rtp) → IsPool p → IsPool (allocate_one os addr p)
unfolding allocate_one
allocate_one-IsPool os addr p v =
    let (err, r) = udp_range_listen os.rand os.listen 8000 20000 64 0 0 (fresh_session addr) in
    elim (Bool-cases os.zalloc) [
      | inr failed ↦ rw (failed, allocate_one) v
      | inl done ↦ elim (Bool-cases (err == 0)) [
        | inr deaf ↦ rw (done, allocate_one) (rw (deaf, allocate_one) v)
        | inl bound ↦
            rw (done, allocate_one)
              (rw (bound, allocate_one)
                (add-IsPool p r
                  (udp_range_listen-idle os.rand os.listen 8000 20000 64 0 0 (fresh_session addr)
                    refl)
                  v))
      ]
    ]

-- A round adds at most one session, and lists every session that it adds.
allocate_one-grows :
    (os : Os) (addr : Sa) (p : Rtp)
    → (allocate_one os addr p).total ≤ suc p.total
      × (length (allocate_one os addr p).rtp_sessions + p.total
          ≡ length p.rtp_sessions + (allocate_one os addr p).total)
unfolding allocate_one
allocate_one-grows os addr p = ground (arith, length-append p.rtp_sessions (p.total ∷ []))

allocate_rounds-IsPool :
    (os : ℕ → Os) (addr : Sa) (left i : ℕ) (p : Rtp)
    → IsPool p
    → length p.rtp_sessions ≡ p.total
    → let q = allocate_rounds os addr left i p in
      IsPool q × (length q.rtp_sessions ≡ q.total) × (q.total ≤ p.total + left)
unfolding allocate_rounds
allocate_rounds-IsPool os addr zero i p v e = (v, e, omega arith)
allocate_rounds-IsPool os addr (suc left) i p v e =
    let q = allocate_one (os i) addr p in
    let g = allocate_one-grows (os i) addr p in
    let (w, full, few) =
      allocate_rounds-IsPool os addr left (suc i) q (allocate_one-IsPool (os i) addr p v)
        (omega (arith, g.1)) in
    (w, full, omega (arith, g.0))

-- Whatever the sockets and the random numbers, `rtp_session_allocate` makes a sound pool of at
-- most 100 sessions, and all of them are free.
pub rtp_session_allocate-IsPool :
    (os : ℕ → Os) (addr : Sa)
    → let p = rtp_session_allocate os addr in
      IsPool p × (length p.rtp_sessions ≡ p.total) × (p.total ≤ 100)
unfolding rtp_session_allocate
rtp_session_allocate-IsPool os addr =
    allocate_rounds-IsPool os addr 100 0 empty_pool
      (record { idle = tt; stored = tt; distinct = tt; counted = unfold busy in refl }) refl
