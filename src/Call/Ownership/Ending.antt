-- ===== src/Call/Ownership/Ending.antt =====
-- The destruction of a call of src/call.c frees its sessions.
use mathlib.Core.Path.{subst}
use autodialer_core.Base.{
  ℕ, ◌≡◌, ◌≢◌, ◌<◌, refl, ap, ◌∙◌, sym, false, Option, none, some, List, [], ◌∷◌, ◌++◌, arith, All,
}
use autodialer_core.Rtp.{Rtp, release_rtp_session}
use autodialer_core.Rtp.Pool.{Distinct, IsPool, InUse, release-IsPool}
use autodialer_core.Rtp.Ownership.{NotIn, IsHeld, Clean, Moves}
use autodialer_core.Structs.{Call}
use autodialer_core.Call.Release.{release_opt, pbx_session, call_destructor}
use autodialer_core.Call.Release.Sessions.{to_list}
use autodialer_core.Call.Ownership.{held}

-- The releases of a list of sessions, in order.
release_all : Rtp → List ℕ → Rtp
release_all p [] = p
release_all p (i ∷ is) = release_all (release_rtp_session p i) is

record Freed (p q : Rtp) (h : List ℕ) : Type 0 where
  pool : IsPool q
  clean : Clean q
  size : q.total ≡ p.total
  same : (j : ℕ) → NotIn j h → q.sessions j ≡ p.sessions j

release-used :
    (p : Rtp) (i : ℕ) (is : List ℕ)
    → All (λ j. i ≢ j) is
    → All (InUse p) is
    → All (InUse (release_rtp_session p i)) is
unfolding release_rtp_session
release-used p i [] n u = tt
release-used p i (j ∷ is) n u = ((u.0.0, ground (arith, n.0, u.0)), release-used p i is n.1 u.1)

release-Clean : (p : Rtp) (i : ℕ) → Clean p → Clean (release_rtp_session p i)
unfolding release_rtp_session
release-Clean p i c j e = ground (arith, c j)

release_same : (p : Rtp) (i j : ℕ) → i ≢ j → (release_rtp_session p i).sessions j ≡ p.sessions j
unfolding release_rtp_session
release_same p i j n = ground arith

release_total : (p : Rtp) (i : ℕ) → (release_rtp_session p i).total ≡ p.total
unfolding release_rtp_session
release_total p i = refl

release_all-Freed :
    (p : Rtp) (h : List ℕ)
    → IsPool p
    → Clean p
    → All (InUse p) h
    → Distinct h
    → Freed p (release_all p h) h
unfolding release_all
release_all-Freed p [] v c u d = record { pool = v; clean = c; size = refl; same = λ j n. refl }
release_all-Freed p (i ∷ is) v c u d =
    let f =
      release_all-Freed (release_rtp_session p i) is (release-IsPool p i v u.0.0 u.0.1)
        (release-Clean p i c) (release-used p i is d.0 u.1) d.1 in
    record {
      pool = f.pool;
      clean = f.clean;
      size = f.size ∙ release_total p i;
      same = λ j n. f.same j n.1 ∙ release_same p i j n.0;
    }

release_opt_all :
    (p : Rtp) (s t : Option ℕ)
    → release_opt (release_opt p s) t ≡ release_all p (to_list s ++ to_list t)
unfolding release_opt release_all
release_opt_all p none none = refl
release_opt_all p none (some j) = refl
release_opt_all p (some i) none = refl
release_opt_all p (some i) (some j) = refl

Freed-Moves : {p q : Rtp} {h : List ℕ} → Freed p q h → Moves p q h []
Freed-Moves f = record {
  pool = f.pool;
  clean = f.clean;
  held = record { used = tt; once = tt; closed = tt };
  keeps = λ j n u.
      let same = f.same j n in
      (
        (subst (λ k. j < k) (sym f.size) u.0, ap (λ x. x.in_use) same ∙ u.1),
        ap (λ x. x.remote) same,
      );
  fresh = λ j n u. tt;
}

-- The destruction of a call frees all of its sessions.
pub call_destructor-Moves :
    (c : Call) (p : Rtp)
    → IsPool p
    → Clean p
    → IsHeld p (held c)
    → Moves p (call_destructor c p).rtp (held c) []
unfolding call_destructor
call_destructor-Moves c p v k g = Freed-Moves (
    subst (λ q. Freed p q (held c)) (sym (release_opt_all p c.rtp_sess (pbx_session c.pbx_call)))
      (release_all-Freed p (held c) v k g.used g.once))

-- A session that is free, or that is given back, is free when a call is gone.
abbrev pub IsIdle : Rtp → ℕ → Type 0
IsIdle p j = (p.sessions j).in_use ≡ false

release-IsIdle : (p : Rtp) (i j : ℕ) → IsIdle p j → IsIdle (release_rtp_session p i) j
unfolding release_rtp_session
release-IsIdle p i j e = ground arith

release_self : (p : Rtp) (i : ℕ) → IsIdle (release_rtp_session p i) i
unfolding release_rtp_session
release_self p i = ground arith

release_all-IsIdle : (p : Rtp) (h : List ℕ) (j : ℕ) → IsIdle p j → IsIdle (release_all p h) j
unfolding release_all
release_all-IsIdle p [] j e = e
release_all-IsIdle p (i ∷ is) j e =
    release_all-IsIdle (release_rtp_session p i) is j (release-IsIdle p i j e)

release_all_held : (p : Rtp) (h : List ℕ) → All (IsIdle (release_all p h)) h
unfolding release_all
release_all_held p [] = tt
release_all_held p (i ∷ is) = (
  release_all-IsIdle (release_rtp_session p i) is i (release_self p i),
  release_all_held (release_rtp_session p i) is,
)

pub call_destructor-IsIdle :
    (c : Call) (p : Rtp)
    → All (IsIdle (call_destructor c p).rtp) (held c)
      × ((j : ℕ) → IsIdle p j → IsIdle (call_destructor c p).rtp j)
unfolding call_destructor
call_destructor-IsIdle c p =
    let same = release_opt_all p c.rtp_sess (pbx_session c.pbx_call) in
    (
      subst (λ q. All (IsIdle q) (held c)) (sym same) (release_all_held p (held c)),
      (λ j e. subst (λ q. IsIdle q j) (sym same) (release_all-IsIdle p (held c) j e)),
    )
