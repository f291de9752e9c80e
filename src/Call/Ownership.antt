-- ===== src/Call/Ownership.antt =====
-- The sessions of a call of src/call.c, from call_alloc to call_destructor.
pub mod Ending
use mathlib.Core.Path.{subst}
use autodialer_core.Base.{
  ℕ, ◌≡◌, ◌≢◌, ◌<◌, refl, ap, ◌∙◌, sym, inl, inr, false, Bool-cases, Option, none, some, List, [],
  ◌∷◌, ◌++◌, Text, ◌==◌, arith, All, All-imp, All-append, All-append_left,
}
use autodialer_core.Rtp.{Sa, Rtp, release_rtp_session}
use autodialer_core.Rtp.Pool.{Distinct, Distinct-snoc, IsPool, InUse, release-IsPool}
use autodialer_core.Rtp.Ownership.{NotIn, In, IsHeld, Clean, Moves, Moves-refl}
use autodialer_core.Structs.{Uri, Call, Libre}
use autodialer_core.Call.Release.{release_opt, pbx_session, call_destructor}
use autodialer_core.Call.Release.Sessions.{to_list}
use autodialer_core.Call.Alloc.{Answers, Allocated, call_alloc}
use autodialer_core.Call.Alloc.Sessions.{AllocOutcome, call_alloc_outcome}
use autodialer_core.Call.Alloc.Touched.{Touched, Touches, call_alloc-Touches}

-- The session of a call, and that of its call to the PBX.
abbrev pub held : Call → List ℕ
held c = to_list c.rtp_sess ++ to_list (pbx_session c.pbx_call)

module _ {p q : Rtp} {b : ℕ} (t : Touched p q b) where
  Touched-Clean : Clean p → Clean q
  Touched-Clean c j e = elim (Bool-cases (j == b)) [
    | inl here ↦
        let same : b ≡ j = ground arith in subst (λ x. (q.sessions x).remote ≡ none) same t.unlinked
    | inr there ↦
        let same = t.same j (ground arith) in
        ap (λ x. x.remote) same ∙ c j (sym (ap (λ x. x.in_use) same) ∙ e)
  ]

  used-ne : (j : ℕ) → InUse p j → j ≢ b
  used-ne j u e = cc (u.1, t.idle, e)

  used_same : (j : ℕ) → InUse p j → InUse q j × (q.sessions j ≡ p.sessions j)
  used_same j u =
      let same = t.same j (used-ne j u) in
      ((subst (λ n. j < n) (sym t.size) u.0, ap (λ x. x.in_use) same ∙ u.1), same)

  apart_of_idle : (h : List ℕ) → All (InUse p) h → NotIn b h
  apart_of_idle h u = All-imp h (λ j w. used-ne j w) u

  closed_after :
      (h js : List ℕ)
      → All (InUse p) js
      → All (λ i. (k : ℕ) → (p.sessions i).remote ≡ some k → In k h) js
      → All (λ i. (k : ℕ) → (q.sessions i).remote ≡ some k → In k h) js
  closed_after h [] u l = tt
  closed_after h (j ∷ js) u l =
      ((λ k e. l.0 k (sym (ap (λ x. x.remote) (used_same j u.0).1) ∙ e)), closed_after h js u.1 l.1)

  -- The group that called keeps what it had.
  spare : (h : List ℕ) → IsPool q → Clean p → IsHeld p h → Moves p q h h
  spare h v c g = record {
    pool = v;
    clean = Touched-Clean c;
    held = record {
      used = All-imp h (λ j u. (used_same j u).0) g.used;
      once = g.once;
      closed = closed_after h h g.used g.closed;
    };
    keeps = λ j away u. ((used_same j u).0, ap (λ x. x.remote) (used_same j u).1);
    fresh = λ j away u. away;
  }

  -- Or it has the session that was free.
  gain : (h : List ℕ) → IsPool q → Clean p → IsHeld p h → InUse q b → Moves p q h (h ++ b ∷ [])
  gain h v c g u =
      let old = spare h v c g in
      record {
        pool = v;
        clean = old.clean;
        held = record {
          used = All-append (InUse q) h (b ∷ []) old.held.used (u, tt);
          once = Distinct-snoc b h g.once (apart_of_idle h g.used);
          closed =
              All-append _ h (b ∷ [])
                (All-imp h (λ i l k e n. l k e (All-append_left _ h (b ∷ []) n)) old.held.closed)
                ((λ k e n. cc (t.unlinked, e)), tt);
        };
        keeps = old.keeps;
        fresh = λ j away w. All-append _ h (b ∷ []) away ((λ e. used-ne j w (sym e)), tt);
      }

-- What `call_alloc` means for the group `h` that it is called for.
abbrev pub Gains : Rtp → List ℕ → Rtp → Option Call → Type 0
Gains p h q none = Moves p q h h
Gains p h q (some c) =
    (b : ℕ) × (c.rtp_sess ≡ some b) × (c.pbx_call ≡ none) × Moves p q h (h ++ b ∷ [])

idle_head :
    (p : Rtp) (i : ℕ) (is : List ℕ)
    → IsPool p
    → p.rtp_sessions ≡ i ∷ is
    → (p.sessions i).in_use ≡ false
idle_head p i is v e = (subst (All (λ j. (p.sessions j).in_use ≡ false)) e v.idle).0

Touches-Gains :
    (a : Answers) (p : Rtp) (h : List ℕ) (r : Allocated) (o : Option Call)
    → Touches p r.rtp
    → IsPool p
    → IsPool r.rtp
    → Clean p
    → IsHeld p h
    → AllocOutcome a p r o
    → Gains p h r.rtp o
Touches-Gains a p h r none (inl same) v w c g out =
    subst (λ q. Moves p q h h) (sym same) (Moves-refl v c g)
Touches-Gains a p h r none (inr (b, t)) v w c g out = spare t h w c g
Touches-Gains a p h r (some x) (inl same) v w c g out =
    let (i, e, mine) = out.1 in
    let idle = idle_head p i _ v mine.3 in
    absurd (cc (ap (λ q. (q.sessions i).in_use) same, idle, mine.1))
Touches-Gains a p h r (some x) (inr (b, t)) v w c g out =
    let (i, e, mine) = out.1 in
    let idle = idle_head p i _ v mine.3 in
    elim (Bool-cases (i == b)) [
      | inl here ↦
          let at : i ≡ b = ground arith in
          (b, e ∙ ap some at, out.4, gain t h w c g (subst (InUse r.rtp) at (mine.0, mine.1)))
      | inr there ↦
          let same = t.same i (ground arith) in absurd (cc (ap (λ s. s.in_use) same, idle, mine.1))
    ]

pub call_alloc-Gains :
    (lib : Libre) (a : Answers) (laddr : Sa) (tel : Text) (gateway : Uri) (pbx_pt : Option ℕ)
    (now : ℕ) (p : Rtp) (h : List ℕ) (r : Allocated)
    → IsPool p
    → Clean p
    → IsHeld p h
    → call_alloc lib a laddr tel gateway pbx_pt now p ≡ some r
    → Gains p h r.rtp r.call
call_alloc-Gains lib a laddr tel gateway pbx_pt now p h r v c g e =
    let (w, out) = call_alloc_outcome lib a laddr tel gateway pbx_pt now p r v e in
    Touches-Gains a p h r r.call (call_alloc-Touches lib a laddr tel gateway pbx_pt now p r v c e) v
      w c g out
