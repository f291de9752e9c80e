-- ===== src/Rtp/Ownership.antt =====
-- Who holds which session of src/call.c. A group is the sessions of one destination: that of its
-- call, and that of the call to the PBX.
pub mod Frame
use mathlib.Core.Path.{subst}
use autodialer_core.Base.{
  ℕ, ◌≡◌, ◌≢◌, refl, sym, ap, ◌∙◌, of_some, update, true, false, ◌⊎◌, inl, inr, none, some, List,
  [], ◌∷◌, ◌++◌, All, All-imp, ◌==◌, Bool-cases, arith,
}
use autodialer_core.Rtp.{RtpSession, Rtp, set_session}
use autodialer_core.Rtp.Pool.{Distinct, IsPool, InUse}
use autodialer_core.Rtp.Writes.{set_session-IsPool}

abbrev pub NotIn : ℕ → List ℕ → Type 0
NotIn j h = All (λ i. i ≢ j) h

-- A group holds a session, in the form that a search of the group decides.
abbrev pub In : ℕ → List ℕ → Type 0
In j h = NotIn j h → ⊥

abbrev pub Disjoint : List ℕ → List ℕ → Type 0
Disjoint h g = All (λ j. NotIn j h) g

-- No group shares a session with a later one.
abbrev pub Apart : List (List ℕ) → Type 0
Apart [] = Unit
Apart (h ∷ gs) = All (Disjoint h) gs × Apart gs

-- The sessions of a group are in use, and pass their packets on within the group only.
pub record IsHeld (p : Rtp) (h : List ℕ) : Type 0 where
  pub used : All (InUse p) h
  pub once : Distinct h
  pub closed : All (λ i. (k : ℕ) → (p.sessions i).remote ≡ some k → In k h) h

-- A free session passes no packets on.
abbrev pub Clean : Rtp → Type 0
Clean p = (j : ℕ) → (p.sessions j).in_use ≡ false → (p.sessions j).remote ≡ none

-- The pool is sound, each group holds its sessions, and no session is in two groups.
pub record Owns (p : Rtp) (gs : List (List ℕ)) : Type 0 where
  pub pool : IsPool p
  pub clean : Clean p
  pub held : All (IsHeld p) gs
  pub apart : Apart gs

-- What an operation for a group may do: it keeps the pool sound, gives the group sessions that no
-- other group has, and leaves the use and the links of all others alone.
pub record Moves (p q : Rtp) (h h' : List ℕ) : Type 0 where
  pub pool : IsPool q
  pub clean : Clean q
  pub held : IsHeld q h'
  pub keeps :
      (j : ℕ) → NotIn j h → InUse p j → InUse q j × ((q.sessions j).remote ≡ (p.sessions j).remote)
  pub fresh : (j : ℕ) → NotIn j h → InUse p j → NotIn j h'

pub Moves-refl : {p : Rtp} {h : List ℕ} → IsPool p → Clean p → IsHeld p h → Moves p p h h
Moves-refl v c g = record {
  pool = v;
  clean = c;
  held = g;
  keeps = λ j n u. (u, refl);
  fresh = λ j n u. n;
}

pub Moves-trans :
    {p q r : Rtp} {h h' h'' : List ℕ} → Moves p q h h' → Moves q r h' h'' → Moves p r h h''
Moves-trans m n = record {
  pool = n.pool;
  clean = n.clean;
  held = n.held;
  keeps = λ j away u.
      let (u', same) = m.keeps j away u in
      let (u'', same') = n.keeps j (m.fresh j away u) u' in (u'', same' ∙ same);
  fresh = λ j away u. n.fresh j (m.fresh j away u) (m.keeps j away u).0;
}

-- What holds of a whole group holds of a session in it.
In-All {κ} : (P : ℕ → Type κ) (i : ℕ) (h : List ℕ) → In i h → All P h → P i
In-All P i [] n a = absurd (n tt)
In-All P i (x ∷ h) n a = elim (Bool-cases (x == i)) [
  | inl same ↦ let e : x ≡ i = ground arith in rw (sym e) a.0
  | inr other ↦ In-All P i h (λ m. n (ground arith, m)) a.1
]

link_of :
    (s : ℕ → RtpSession) (i : ℕ) (r : RtpSession) (j k : ℕ)
    → (update s i r j).remote ≡ some k
    → ((s j).remote ≡ some k) ⊎ ((i ≡ j) × (r.remote ≡ some k))
link_of s i r j k e = ground arith

-- A write to a session of the group that keeps it in use, and links it within the group if at all.
pub set_session-Moves :
    (p : Rtp) (i : ℕ) (r : RtpSession) (h : List ℕ)
    → IsPool p
    → Clean p
    → IsHeld p h
    → In i h
    → r.in_use ≡ (p.sessions i).in_use
    → (r.remote ≡ (p.sessions i).remote) ⊎ ((k : ℕ) × (r.remote ≡ some k) × In k h)
    → Moves p (set_session p i r) h h
set_session-Moves p i r h v c g n same link =
    let mine = In-All (InUse p) i h n g.used in
    let closed_at : (j : ℕ)
        → ((k : ℕ) → (p.sessions j).remote ≡ some k → In k h)
        → (k : ℕ) → (update p.sessions i r j).remote ≡ some k
        → In k h =
      λ j l k e. elim (link_of p.sessions i r j k e) [
        | inl old ↦ l k old
        | inr (at, new) ↦ elim link [
          | inl kept ↦ l k (ap (λ x. (p.sessions x).remote) (sym at) ∙ (sym kept ∙ new))
          | inr (m, to, inside) ↦ subst (λ x. In x h) (of_some (sym to ∙ new)) inside
        ]
      ] in
    record {
      pool = set_session-IsPool p i r same v;
      clean = λ j e. ground (arith, c j, mine.1);
      held = record {
        used = All-imp h (λ j u. ground arith) g.used;
        once = g.once;
        closed = All-imp h (λ j l k e. closed_at j l k e) g.closed;
      };
      keeps = λ j away u.
          let other : i ≢ j = λ e. n (subst (λ x. NotIn x h) (sym e) away) in ground arith;
      fresh = λ j away u. away;
    }
