-- ===== src/Dialer/Supervise/Rows.antt =====
-- What on_call_end of src/main.c writes to the database.
use mathlib.Core.Path.{subst}
use autodialer_core.Base.{
  ℕ, ◌≡◌, refl, false, Bool-cases, inl, inr, ltb, leb, ◌&&◌, is_positive, ℤ, none, if◌then◌else◌,
  of_some, List, [], ◌∷◌, some, >>=-eq-some, true, arith,
}
use autodialer_core.Rtp.{Rtp}
use autodialer_core.Structs.{Call, Destination, Campaign, Finish, Stmt, finish_calls}
use autodialer_core.Call.Alloc.{Answers}
use autodialer_core.Dialer.Dial.{Setup}
use autodialer_core.Dialer.Supervise.{
  Verdict, stay, gone, requeue, Ticked, supervise, settle, rows, finish_row, on_call_end,
}

-- One final row for the destination, which comes first.
pub record Finished (now : ℕ) (d : Destination) (stmts : List Stmt) : Type 0 where
  pub row : Finish
  pub rest : List Stmt
  pub first : stmts ≡ finish_calls row ∷ rest
  pub row_id : row.id ≡ d.dest_id
  pub tries : row.retry_count ≡ d.try_count
  pub state : row.call_status ≡ 4
  pub time : row.disconnect_time ≡ now
  pub cause : row.disconnect_cause ≡ 1

abbrev pub RowsOf : ℕ → Destination → Verdict → List Stmt → Type 0
RowsOf now d (stay d') stmts = stmts ≡ []
RowsOf now d gone stmts = Finished now d stmts
RowsOf now d (requeue d') stmts = Finished now d stmts

abbrev tail_of : List Stmt → List Stmt
tail_of [] = []
tail_of (x ∷ xs) = xs

module _ (s : Setup) (cp : Campaign) (a : Answers) (now : ℕ) where
  supervise-cause :
      (c : Call) (p : Rtp) (c' : Call) (p' : Rtp)
      → supervise s cp a now c p ≡ some (c', p')
      → c'.ended ≡ true
      → c'.resp_code ≡ 1
  unfolding supervise
  supervise-cause c p c' p' e h = ground arith

  rows-first :
      (d : Destination) (c : Call) (stmts : List Stmt) (left : ℤ)
      → rows s cp now d c ≡ some (stmts, left)
      → stmts ≡ finish_calls (finish_row now d c) ∷ tail_of stmts
  unfolding rows
  rows-first d c stmts left e = ground arith

  rows-Finished :
      (d : Destination) (c : Call) (stmts : List Stmt) (left : ℤ)
      → c.resp_code ≡ 1
      → rows s cp now d c ≡ some (stmts, left)
      → Finished now d stmts
  unfolding finish_row
  rows-Finished d c stmts left h e = record {
    row = finish_row now d c;
    rest = tail_of stmts;
    first = rows-first d c stmts left e;
    row_id = refl;
    tries = refl;
    state = refl;
    time = refl;
    cause = h;
  }

  verdict_rows :
      (d : Destination) (stmts : List Stmt) (left : ℤ)
      → Finished now d stmts
      → RowsOf now d
          (if ltb 0 cp.max_try && leb cp.max_try d.try_count
            then gone
            else if is_positive left
            then gone
            else requeue (record d { call = none; tmr = false }))
          stmts
  verdict_rows d stmts left f = elim (Bool-cases (ltb 0 cp.max_try && leb cp.max_try d.try_count)) [
    | inl spent ↦ rw spent f
    | inr more ↦ elim (Bool-cases (is_positive left)) [
      | inl talked ↦ rw (more, talked) f
      | inr silent ↦ rw (more, silent) f
    ]
  ]

  settle-RowsOf :
      (d : Destination) (c : Call) (p : Rtp) (t : Ticked)
      → (c.ended ≡ true → c.resp_code ≡ 1)
      → settle s cp now d c p ≡ some t
      → RowsOf now d t.verdict t.stmts
  unfolding settle
  settle-RowsOf d c p t k e = elim (Bool-cases c.ended) [
    | inr running ↦
        let e' = rw (running, settle) at e in
        subst (λ x. RowsOf now d x.verdict x.stmts) (of_some e') refl
    | inl over ↦
        let e' = rw (over, settle) at e in
        let ((stmts, left), e1, e2) = >>=-eq-some (rows s cp now d c) _ e' in
        subst (λ x. RowsOf now d x.verdict x.stmts) (of_some e2)
          (verdict_rows d stmts left (rows-Finished d c stmts left (k over) e1))
  ]

  -- `on_call_end` writes nothing for a call that goes on. For any other the first row is the final
  -- one of this destination: state 4, this time, its tries so far, and a disconnect cause that is
  -- always 1, whatever response code the call had noted before.
  pub on_call_end-RowsOf :
      (d : Destination) (p : Rtp) (t : Ticked)
      → on_call_end s cp a now d p ≡ some t
      → RowsOf now d t.verdict t.stmts
  unfolding on_call_end
  on_call_end-RowsOf d p t e =
      let (c, e0, f0) = >>=-eq-some d.call _ e in
      let ((c', p'), e1, e2) = >>=-eq-some (supervise s cp a now c p) _ f0 in
      settle-RowsOf d c' p' t (supervise-cause c p c' p' e1) e2
