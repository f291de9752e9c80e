-- ===== src/Dialer/Dial.antt =====
-- start_fake_calling of src/main.c, second half: a call to each destination of the process list
-- that has none.
pub mod Attempts
pub mod Sessions
pub mod Routes
pub mod Supply
use autodialer_core.Base.{
  ℕ, suc, ◌+◌, Bool, true, Option, none, some, List, [], ◌∷◌, ◌++◌, Text, u8, ◌==◌, ◌&&◌, is_some,
  if◌then◌else◌, ◌>>=◌,
}
use autodialer_core.Rtp.{Sa, Rtp}
use autodialer_core.Structs.{Gateway, gateway_at, Leg, Destination, Campaign, Stmt, Libre, codes}
use autodialer_core.Call.Release.{call_destructor}
use autodialer_core.Call.Alloc.{Answers, call_alloc}
use autodialer_core.Call.Events.{update_call_status}

-- What the process is given: libre, its own address, the folder of the audio files, which files
-- can be read, and the gateways.
pub record Setup : Type 0 where
  pub lib : Libre
  pub laddr : Sa
  pub audio_path : Text
  pub access : Text → Bool
  pub gateways : List Gateway

-- The name up to the first '.'; none without one, where the source computes with a null pointer.
unfoldable pub base_name : Text → Option Text
base_name [] = none
base_name (c ∷ cs) =
    let rest : Option Text = elim (base_name cs) [ none ↦ none | some r ↦ some (c ∷ r) ] in
    if c == b'.' then some [] else rest

pub record Dialled : Type 0 where
  pub dest : Destination
  pub rtp : Rtp
  pub stmts : List Stmt

-- The call goes on: its timer runs and its row is updated.
keep_call : Destination → Leg → Rtp → Dialled
keep_call d l p = record {
  dest = record d { call = some (record { leg = l; pbx_call = none }); tmr = true };
  rtp = p;
  stmts = update_call_status d.dest_id l ∷ [];
}

-- The call is given up, and the attempt does not count.
drop_call : Destination → Leg → Rtp → Dialled
drop_call d l p = record {
  dest = record d { call = none; try_count = u8 (d.try_count + 255) };
  rtp = (call_destructor (record { leg = l; pbx_call = none }) p).rtp;
  stmts = [];
}

-- After `call_alloc` returned 0: the attempt is counted, and the call needs an audio file that can
-- be read, or else a PBX to join.
pub start_call : Setup → Campaign → ℕ → Destination → Leg → Rtp → Option Dialled
unfolding keep_call drop_call
start_call s cp now d l p =
    let d' : Destination = record d { try_count = u8 (d.try_count + 1); last_try = now } in
    elim cp.file_name [
      | none ↦ some (
          if is_some cp.pbx_gateway && is_some cp.pbx_number
          then keep_call d' (record l { join_pbx = true }) p
          else drop_call d' l p)
      | some f ↦ base_name f >>= λ b.
          let audio = s.audio_path ++ (codes "/" ++ (b ++ codes ".wav")) in
          let l' : Leg = record l { audio = some audio } in
          some (if s.access audio then keep_call d' l' p else drop_call d' l' p)
    ]

-- `none` is a fault. So is an error of `call_alloc`: `mem_deref(dest)` frees the destination, and
-- the loop then reads its list element.
unfoldable pub dial_dest : Setup → Campaign → Answers → ℕ → Destination → Rtp → Option Dialled
unfolding start_call
dial_dest s cp a now d p =
    let idle : Dialled = record { dest = d; rtp = p; stmts = [] } in
    elim d.call [
      | some c ↦ some idle
      | none ↦ elim cp.gateway [
        | none ↦ some idle
        | some g ↦ gateway_at g s.gateways >>= λ gw.
            call_alloc s.lib a s.laddr d.dest gw.sip_uri none now p >>= λ r.
            r.call >>= λ c. start_call s cp now d c.leg r.rtp
      ]
    ]

pub record Round : Type 0 where
  pub dests : List Destination
  pub rtp : Rtp
  pub stmts : List Stmt

-- The loop over the process list; `answers k` is what libre answers for the k-th entry.
unfoldable pub dial :
    Setup → Campaign → (ℕ → Answers) → ℕ → ℕ → List Destination → Rtp → Option Round
dial s cp answers now k [] p = some (record { dests = []; rtp = p; stmts = [] })
dial s cp answers now k (d ∷ ds) p = dial_dest s cp (answers k) now d p >>= λ r.
    dial s cp answers now (suc k) ds r.rtp >>= λ rest.
    some (record { dests = r.dest ∷ rest.dests; rtp = rest.rtp; stmts = r.stmts ++ rest.stmts })
