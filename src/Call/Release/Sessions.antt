-- ===== src/Call/Release/Sessions.antt =====
-- The destructor of src/call.c gives the sessions of a call back to the pool.
use mathlib.Core.Path.{subst}
use mathlib.Core.List.{append_assoc}
use autodialer_core.Base.{
  ℕ, ◌≡◌, ◌≢◌, refl, sym, true, Option, none, some, List, [], ◌∷◌, ◌++◌, arith,
}
use autodialer_core.Rtp.{Rtp, release_rtp_session}
use autodialer_core.Rtp.Pool.{InUse, IsPool, release-IsPool}
use autodialer_core.Structs.{Call}
use autodialer_core.Call.Release.{release_opt, pbx_session, call_destructor}

-- The call to the PBX has none, or another one.
abbrev pub HasOther : Rtp → ℕ → Option ℕ → Type 0
HasOther p i none = Unit
HasOther p i (some j) = InUse p j × (i ≢ j)

abbrev pub to_list : Option ℕ → List ℕ
to_list none = []
to_list (some j) = j ∷ []

abbrev pub Returned : Rtp → ℕ → Option ℕ → Rtp → Type 0
Returned p i j q =
    IsPool q × (q.rtp_sessions ≡ p.rtp_sessions ++ i ∷ to_list j) × ((q.sessions i).remote ≡ none)

release-Returned :
    (p : Rtp) (i : ℕ) (j : Option ℕ)
    → IsPool p
    → InUse p i
    → HasOther p i j
    → Returned p i j (release_opt (release_rtp_session p i) j)
unfolding release_opt release_rtp_session
release-Returned p i none v u o = (release-IsPool p i v u.0 u.1, refl, ground arith)
release-Returned p i (some j) v u o =
    let q = release_rtp_session p i in
    let still : (q.sessions j).in_use ≡ true = ground (arith, o.0.1, o.1) in
    (
      release-IsPool q j (release-IsPool p i v u.0 u.1) o.0.0 still,
      append_assoc p.rtp_sessions (i ∷ []) (j ∷ []),
      ground (arith, o.1),
    )

-- The destruction of a call that has a session puts this session, and then that of the call to
-- the PBX if it has another, at the end of the list. The pool stays sound, and the session passes
-- its packets on to no other.
pub call_destructor-Returned :
    (p : Rtp) (c : Call) (i : ℕ)
    → IsPool p
    → c.rtp_sess ≡ some i
    → InUse p i
    → HasOther p i (pbx_session c.pbx_call)
    → Returned p i (pbx_session c.pbx_call) (call_destructor c p).rtp
unfolding call_destructor release_opt
call_destructor-Returned p c i v e u o =
    subst
      (λ s.
        Returned p i (pbx_session c.pbx_call)
          (release_opt (release_opt p s) (pbx_session c.pbx_call)))
      (sym e) (release-Returned p i (pbx_session c.pbx_call) v u o)
