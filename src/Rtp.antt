-- ===== src/Rtp.antt =====
-- The RTP sessions of src/call.c: the pool `rtp_sessions`, taken from by find_rtp_session and
-- given back to by release_rtp_session, and its sockets (udp_range_listen, rtp_session_allocate).
-- A pointer to a session is its number in the store `sessions`.
pub mod Pool
pub mod Filling
pub mod Ports
pub mod Writes
pub mod Ownership
use Prim.Native.Nat.{bit_and}
use autodialer_core.Base.{
  ℕ, zero, suc, ◌+◌, ◌-◌, ◌%◌, Bool, true, false, Option, none, some, List, [], ◌∷◌, ◌++◌, u16,
  ◌==◌, if◌then◌else◌, update,
}

-- `struct sa`: an address and a port.
pub record Sa : Type 0 where
  pub host : ℕ
  pub port : ℕ

-- `struct rtp_session`. The socket, the telephone-event state and the owner are flags that say
-- whether the pointer is set.
pub record RtpSession : Type 0 where
  pub rs : Bool
  pub local_ip : Sa
  pub remote_ip : Sa
  pub connected : Bool
  pub in_use : Bool
  pub remote : Option ℕ
  pub telev_recv : Bool
  pub telev : Bool
  pub arg : Bool

-- The store holds the sessions below `total`; `rtp_sessions` is the list of free ones.
pub record Rtp : Type 0 where
  pub sessions : ℕ → RtpSession
  pub total : ℕ
  pub rtp_sessions : List ℕ

-- The loop of `find_rtp_session`: the first session not in use, and the list without it.
unfoldable pub find_idle : (ℕ → RtpSession) → List ℕ → Option (ℕ × List ℕ)
find_idle s [] = none
find_idle s (i ∷ is) =
    let rest : Option (ℕ × List ℕ) = elim (find_idle s is) [
      | none ↦ none
      | some (j, js) ↦ some (j, i ∷ js)
    ] in
    if (s i).in_use then rest else some (i, is)

abbrev pub set_session : Rtp → ℕ → RtpSession → Rtp
set_session p i r = record p { sessions = update p.sessions i r }

unfoldable pub find_rtp_session : Rtp → Option ℕ × Rtp
unfolding find_idle
find_rtp_session p = elim (find_idle p.sessions p.rtp_sessions) [
  | none ↦ (none, p)
  | some (i, is) ↦ (
    some i,
    record (set_session p i (record (p.sessions i) { in_use = true })) { rtp_sessions = is },
  )
]

abbrev pub released : RtpSession → RtpSession
released r = record r {
  in_use = false;
  connected = false;
  arg = false;
  telev_recv = false;
  telev = false;
  remote = none;
}

unfoldable pub release_rtp_session : Rtp → ℕ → Rtp
release_rtp_session p i = record (set_session p i (released (p.sessions i))) {
  rtp_sessions = p.rtp_sessions ++ i ∷ [];
}

-- One port: `port = min + rand % (max - min); port &= 0xfffe`.
unfoldable pub candidate_port : ℕ → ℕ → ℕ → ℕ
candidate_port min_port max_port r = bit_and (u16 (min_port + r % (max_port - min_port))) 0xfffe

-- `rand_u16` answers with `rand k` in round `k`; `listen` is the error code of `udp_listen` on a
-- port.
module _ (rand listen : ℕ → ℕ) (min_port max_port : ℕ) where
  -- The `while (tries--)` loop; `err` is the code of the round before.
  unfoldable pub udp_range_listen : ℕ → ℕ → ℕ → RtpSession → ℕ × RtpSession
  unfolding candidate_port
  udp_range_listen zero k err r = (err, r)
  udp_range_listen (suc tries) k err r =
      let port = candidate_port min_port max_port (rand k) in
      let r' : RtpSession = record r {
        local_ip = record { host = r.local_ip.host; port = port };
      } in
      let next = udp_range_listen tries (suc k) (listen port) r' in
      if listen port == 0
      then (0, record r' { rs = true; connected = false; in_use = false })
      else next

-- A session as `mem_zalloc` leaves it.
abbrev pub fresh_session : Sa → RtpSession
fresh_session ip = record {
  rs = false;
  local_ip = ip;
  remote_ip = record { host = 0; port = 0 };
  connected = false;
  in_use = false;
  remote = none;
  telev_recv = false;
  telev = false;
  arg = false;
}

abbrev pub empty_pool : Rtp
empty_pool = record {
  sessions = λ _. fresh_session (record { host = 0; port = 0 });
  total = 0;
  rtp_sessions = [];
}

-- The operating system as the allocation of one session meets it.
pub record Os : Type 0 where
  pub zalloc : Bool
  pub rand : ℕ → ℕ
  pub listen : ℕ → ℕ

-- One round of `rtp_session_allocate`: a session that cannot listen is freed again.
unfoldable pub allocate_one : Os → Sa → Rtp → Rtp
allocate_one os addr p =
    let (err, r) = udp_range_listen os.rand os.listen 8000 20000 64 0 0 (fresh_session addr) in
    if os.zalloc
    then (if err == 0
        then record {
          sessions = update p.sessions p.total r;
          total = suc p.total;
          rtp_sessions = p.rtp_sessions ++ p.total ∷ [];
        }
        else p)
    else p

allocate_rounds : (ℕ → Os) → Sa → ℕ → ℕ → Rtp → Rtp
allocate_rounds os addr zero i p = p
allocate_rounds os addr (suc left) i p =
    allocate_rounds os addr left (suc i) (allocate_one (os i) addr p)

-- A hundred rounds from the empty list.
unfoldable pub rtp_session_allocate : (ℕ → Os) → Sa → Rtp
unfolding allocate_rounds
rtp_session_allocate os addr = allocate_rounds os addr 100 0 empty_pool
