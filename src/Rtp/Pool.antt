-- ===== src/Rtp/Pool.antt =====
-- The pool of src/call.c: find_rtp_session and release_rtp_session neither
-- lose a session nor hand one out twice.
use autodialer_core.Base.{
  ℕ, zero, suc, ◌+◌, ◌≤◌, ◌<◌, ◌≡◌, refl, ap, ◌≢◌, Bool, true, false, Option, none, some, List, [],
  ◌∷◌, ◌++◌, All, All-append, length, length-append, if◌then◌else◌, update, arith,
}
use autodialer_core.Rtp.{
  RtpSession, Rtp, find_idle, find_rtp_session, release_rtp_session, released,
}

-- No entry stands twice in the list.
abbrev pub Distinct : List ℕ → Type 0
Distinct [] = Unit
Distinct (i ∷ is) = All (λ j. i ≢ j) is × Distinct is

-- How many sessions below `n` are in use.
unfoldable pub busy : (ℕ → RtpSession) → ℕ → ℕ
busy s zero = 0
busy s (suc n) = (if (s n).in_use then 1 else 0) + busy s n

-- The list holds free sessions of the store, each once, and the rest of the store is in use.
pub record IsPool (p : Rtp) : Type 0 where
  pub idle : All (λ i. (p.sessions i).in_use ≡ false) p.rtp_sessions
  pub stored : All (λ i. i < p.total) p.rtp_sessions
  pub distinct : Distinct p.rtp_sessions
  pub counted : length p.rtp_sessions + busy p.sessions p.total ≡ p.total

-- A session that is somebody's.
abbrev pub InUse : Rtp → ℕ → Type 0
InUse p i = (i < p.total) × ((p.sessions i).in_use ≡ true)

-- A write beyond `n` is not counted.
pub busy-update_above :
    (s : ℕ → RtpSession) (i : ℕ) (r : RtpSession) (n : ℕ) → n ≤ i → busy (update s i r) n ≡ busy s n
unfolding busy
busy-update_above s i r zero h = refl
busy-update_above s i r (suc n) h = ground (arith, busy-update_above s i r n)

abbrev pub one : Bool → ℕ
one b = if b then 1 else 0

-- A write below `n` moves the count by the change of the one flag.
busy-update :
    (s : ℕ → RtpSession) (i : ℕ) (r : RtpSession) (n : ℕ)
    → i < n
    → busy (update s i r) n + one (s i).in_use ≡ busy s n + one r.in_use
unfolding busy
busy-update s i r zero h = elim h [ ]
busy-update s i r (suc n) h = ground (arith, busy-update_above s i r n, busy-update s i r n)

-- Writing to a session that is not listed leaves the listed ones free.
pub idle-update :
    (s : ℕ → RtpSession) (i : ℕ) (r : RtpSession) (is : List ℕ)
    → All (λ j. i ≢ j) is
    → All (λ j. (s j).in_use ≡ false) is
    → All (λ j. (update s i r j).in_use ≡ false) is
idle-update s i r [] d h = tt
idle-update s i r (j ∷ is) d h = (ground arith, idle-update s i r is d.1 h.1)

-- A session in use is not listed.
absent_of_busy :
    (s : ℕ → RtpSession) (i : ℕ) (is : List ℕ)
    → (s i).in_use ≡ true
    → All (λ j. (s j).in_use ≡ false) is
    → All (λ j. j ≢ i) is
absent_of_busy s i [] b h = tt
absent_of_busy s i (j ∷ is) b h = (ground arith, absent_of_busy s i is b h.1)

pub Distinct-snoc :
    (i : ℕ) (is : List ℕ) → Distinct is → All (λ j. j ≢ i) is → Distinct (is ++ i ∷ [])
Distinct-snoc i [] d h = (tt, tt)
Distinct-snoc i (j ∷ is) d h =
    (All-append (λ k. j ≢ k) is (i ∷ []) d.0 (h.0, tt), Distinct-snoc i is d.1 h.1)

flip_absent : (i : ℕ) (is : List ℕ) → All (λ j. j ≢ i) is → All (λ j. i ≢ j) is
flip_absent i [] h = tt
flip_absent i (j ∷ is) h = (ground arith, flip_absent i is h.1)

-- The first entry is taken, since every listed session is free.
find_idle-cons :
    (s : ℕ → RtpSession) (i : ℕ) (is : List ℕ)
    → (s i).in_use ≡ false
    → find_idle s (i ∷ is) ≡ some (i, is)
unfolding find_idle
find_idle-cons s i is h = rw h

find-IsPool_at :
    (s : ℕ → RtpSession) (n : ℕ) (l : List ℕ)
    → let p : Rtp = record { sessions = s; total = n; rtp_sessions = l } in
      IsPool p → IsPool (find_rtp_session p).1
unfolding find_rtp_session
find-IsPool_at s n [] v = v
find-IsPool_at s n (i ∷ is) v =
    rw (v.idle.0, find_rtp_session)
      (record {
        idle = idle-update s i _ is v.distinct.0 v.idle.1;
        stored = v.stored.1;
        distinct = v.distinct.1;
        counted = omega (
          arith,
          v.counted,
          busy-update s i (record (s i) { in_use = true }) n v.stored.0,
          ap one v.idle.0,
        );
      })

-- Giving back a session of the store that is in use keeps the pool sound: the session is free and
-- listed once, and no other is lost.
pub release-IsPool :
    (p : Rtp) (i : ℕ)
    → IsPool p
    → i < p.total
    → (p.sessions i).in_use ≡ true
    → IsPool (release_rtp_session p i)
unfolding release_rtp_session
release-IsPool p i v h b =
    let absent = absent_of_busy p.sessions i p.rtp_sessions b v.idle in
    record {
      idle =
          All-append _ p.rtp_sessions (i ∷ [])
            (idle-update p.sessions i _ p.rtp_sessions (flip_absent i _ absent) v.idle)
            (ground arith, tt);
      stored = All-append _ p.rtp_sessions (i ∷ []) v.stored (h, tt);
      distinct = Distinct-snoc i p.rtp_sessions v.distinct absent;
      counted = omega (
        arith,
        v.counted,
        length-append p.rtp_sessions (i ∷ []),
        busy-update p.sessions i (released (p.sessions i)) p.total h,
        ap one b,
      );
    }

flip_distinct : (i : ℕ) (is : List ℕ) → All (λ j. i ≢ j) is → All (λ j. j ≢ i) is
flip_distinct i [] h = tt
flip_distinct i (j ∷ is) h = (ground arith, flip_distinct i is h.1)

-- What `find_rtp_session` may do: nothing on the empty list, or take a session that was free,
-- mark it in use, drop it from the list, and leave every other session alone.
abbrev pub Takes : Rtp → Option ℕ × Rtp → Type 0
Takes p (none, q) = (q ≡ p) × (p.rtp_sessions ≡ [])
Takes p (some i, q) =
    (i < p.total)
    × ((p.sessions i).in_use ≡ false)
    × ((q.sessions i).in_use ≡ true)
    × (p.rtp_sessions ≡ i ∷ q.rtp_sessions)
    × All (λ j. j ≢ i) q.rtp_sessions
    × (q.total ≡ p.total)
    × ((j : ℕ) → j ≢ i → q.sessions j ≡ p.sessions j)

find-Takes_at :
    (s : ℕ → RtpSession) (n : ℕ) (l : List ℕ)
    → let p : Rtp = record { sessions = s; total = n; rtp_sessions = l } in
      IsPool p → Takes p (find_rtp_session p)
unfolding find_rtp_session
find-Takes_at s n [] v = (refl, refl)
find-Takes_at s n (i ∷ is) v =
    rw (v.idle.0, find_rtp_session)
      (
        v.stored.0,
        v.idle.0,
        ground arith,
        refl,
        flip_distinct i is v.distinct.0,
        refl,
        λ j h. ground arith,
      )

-- In a sound pool `find_rtp_session` fails only if the list is empty. Otherwise it hands out a
-- session that was free and is then in use and off the list, and changes no other.
pub find_rtp_session-Takes : (p : Rtp) → IsPool p → Takes p (find_rtp_session p)
find_rtp_session-Takes p v = find-Takes_at p.sessions p.total p.rtp_sessions v

-- `find_rtp_session` keeps a sound pool sound: no session is lost or listed twice.
pub find_rtp_session-IsPool : (p : Rtp) → IsPool p → IsPool (find_rtp_session p).1
find_rtp_session-IsPool p v = find-IsPool_at p.sessions p.total p.rtp_sessions v
