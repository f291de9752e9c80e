-- ===== src/Dialer/Campaigns/Conservation.antt =====
-- The timers of src/main.c lose no destination, make none up, and keep the call limit.
use mathlib.Core.Path.{subst}
use mathlib.Core.List.{Perm, append_assoc, map-append, perm_middle, perm_append_comm}
use mathlib.Core.List.Perm
use autodialer_core.Base.{
  ℕ, suc, ◌≤◌, ◌≡◌, refl, sym, ap, Bool, inl, inr, Bool-cases, some, List, [], ◌∷◌, ◌++◌, map,
  length, length-append, arith, >>=-eq-some, of_some, ltb, ◌==◌, max,
}
use autodialer_core.Rtp.{Rtp}
use autodialer_core.Structs.{Destination, Campaign}
use autodialer_core.Call.Alloc.{Answers}
use autodialer_core.Dialer.Fill.{fill_processl}
use autodialer_core.Dialer.Fill.Selection.{IsSort, fill_processl-Filled}
use autodialer_core.Dialer.Dial.{Setup, Dialled, Round, dial_dest, dial}
use autodialer_core.Dialer.Supervise.{Verdict, stay, gone, requeue, Ticked, on_call_end}
use autodialer_core.Dialer.Supervise.Verdicts.{
  Decides, talked, on_call_end_held, on_call_end-Decides,
}
use autodialer_core.Dialer.Campaigns.{Dialer, apply_verdict, start_fake_calling, call_timer}

abbrev pub ids : List Destination → List ℕ
ids = map (λ d. d.dest_id)

-- All destinations of a campaign, by number.
abbrev pub all_ids : Campaign → List ℕ
all_ids cp = ids (cp.destinations ++ cp.processl)

dial_dest-id :
    (s : Setup) (cp : Campaign) (a : Answers) (now : ℕ) (d : Destination) (p : Rtp) (r : Dialled)
    → dial_dest s cp a now d p ≡ some r
    → r.dest.dest_id ≡ d.dest_id
unfolding dial_dest
dial_dest-id s cp a now d p r e = ground arith

dial-ids :
    (s : Setup) (cp : Campaign) (answers : ℕ → Answers) (now k : ℕ) (ds : List Destination)
    (p : Rtp) (r : Round)
    → dial s cp answers now k ds p ≡ some r
    → ids r.dests ≡ ids ds
unfolding dial
dial-ids s cp answers now k [] p r e = subst (λ x. ids x.dests ≡ []) (of_some e) refl
dial-ids s cp answers now k (d ∷ ds) p r e =
    let (one, e1, f1) = >>=-eq-some (dial_dest s cp (answers k) now d p) _ e in
    let (rest, e2, f2) = >>=-eq-some (dial s cp answers now (suc k) ds one.rtp) _ f1 in
    subst (λ x. ids x.dests ≡ ids (d ∷ ds)) (of_some f2)
      (rw (dial_dest-id s cp (answers k) now d p one e1)
        (ap (◌∷◌ d.dest_id) (dial-ids s cp answers now (suc k) ds one.rtp rest e2)))

length-ids : (ds : List Destination) → length (ids ds) ≡ length ds
length-ids [] = refl
length-ids (d ∷ ds) = ap suc (length-ids ds)

regroup :
    (kept moved pl pl' ds : List Destination)
    → pl' ≡ pl ++ moved
    → Perm (kept ++ moved) ds
    → Perm (kept ++ pl') (ds ++ pl)
regroup kept moved pl pl' ds e h = rw e (
    Perm.trans (Perm.append_left kept (perm_append_comm pl moved))
      (rw (← append_assoc kept moved pl) (Perm.append_right pl h)))

-- What filling does to the two lists.
pub fill_processl-perm :
    (list_sort : (Destination → Destination → Bool) → List Destination → List Destination)
    (now delay limit : ℕ) (ds pl : List Destination)
    → IsSort list_sort
    → let r = fill_processl list_sort now delay limit ds pl in
      Perm (r.0 ++ r.1) (ds ++ pl) × (length r.1 ≤ max (length pl) limit)
unfolding fill_processl
fill_processl-perm list_sort now delay limit ds pl law = elim (Bool-cases (ltb (length pl) limit)) [
  | inr full ↦ rw full (Perm.rfl, omega arith)
  | inl room ↦
      let (f, same, _) = fill_processl-Filled list_sort now delay limit ds pl law (ground arith) in
      (regroup _ f.moved pl _ ds f.grown same, omega (arith, f.fits))
]

abbrev Conserves : Campaign → Dialer → Type 0
Conserves cp st' =
    Perm (all_ids st'.cp) (all_ids cp)
    × (length st'.cp.processl ≤ max (length cp.processl) cp.call_limit)

-- With `list_sort` a sort, a run of `start_fake_calling` without a fault keeps the campaign's
-- destinations by number, whichever list they stand in, and the process list passes the call limit
-- only if it had done so before.
pub start_fake_calling_conserves :
    (list_sort : (Destination → Destination → Bool) → List Destination → List Destination)
    (s : Setup) (answers : ℕ → Answers) (now : ℕ) (st st' : Dialer)
    → IsSort list_sort
    → start_fake_calling list_sort s answers now st ≡ some st'
    → Perm (all_ids st'.cp) (all_ids st.cp)
      × (length st'.cp.processl ≤ max (length st.cp.processl) st.cp.call_limit)
unfolding start_fake_calling
start_fake_calling_conserves list_sort s answers now st st' law e =
    let cp = st.cp in
    let (ds, pl) =
      fill_processl list_sort now cp.retry_delay cp.call_limit cp.destinations cp.processl in
    let filled =
      fill_processl-perm list_sort now cp.retry_delay cp.call_limit cp.destinations cp.processl
        law in
    elim (Bool-cases (cp.campaign_status == 2)) [
      | inr stopped ↦
          subst (Conserves st.cp) (of_some (rw (stopped, start_fake_calling) at e))
            (Perm.rfl, omega arith)
      | inl runs ↦
          let (r, e1, e2) =
            >>=-eq-some (dial s cp answers now 0 pl st.rtp) _
              (rw (runs, start_fake_calling) at e) in
          let same = dial-ids s cp answers now 0 pl st.rtp r e1 in
          subst (Conserves st.cp) (of_some e2) (
            rw (map-append (λ d. d.dest_id) ds r.dests, same, ← map-append (λ d. d.dest_id) ds pl)
                (Perm.map _ filled.0),
            omega (arith, filled.1, length-ids r.dests, length-ids pl, ap length same),
          )
    ]

-- What a tick does to the destinations of a campaign: all are kept, or this one is gone.
abbrev pub Drops : Campaign → Destination → Verdict → Campaign → Type 0
Drops cp d gone cp' = Perm (d.dest_id ∷ all_ids cp') (all_ids cp)
Drops cp d v cp' = Perm (all_ids cp') (all_ids cp)

ids-append : (xs ys : List Destination) → ids (xs ++ ys) ≡ ids xs ++ ids ys
ids-append xs ys = map-append (λ d. d.dest_id) xs ys

ids_same :
    (ds before : List Destination) (d d' : Destination) (after : List Destination)
    → d'.dest_id ≡ d.dest_id
    → ids (ds ++ (before ++ d' ∷ after)) ≡ ids (ds ++ (before ++ d ∷ after))
ids_same ds before d d' after h = simp (ids-append, h)

pull :
    (ds before : List Destination) (d : Destination) (after : List Destination)
    → Perm (d.dest_id ∷ ids (ds ++ (before ++ after))) (ids (ds ++ (before ++ d ∷ after)))
pull ds before d after =
    Perm.map (λ e. e.dest_id) {l₁ = d ∷ (ds ++ (before ++ after))}
      {l₂ = ds ++ (before ++ d ∷ after)}
      (rw (← append_assoc ds before after, ← append_assoc ds before (d ∷ after))
        (Perm.symm (perm_middle (ds ++ before) after)))

put_back :
    (ds before : List Destination) (d d' : Destination) (after : List Destination)
    → d'.dest_id ≡ d.dest_id
    → Perm (ids ((ds ++ d' ∷ []) ++ (before ++ after))) (ids (ds ++ (before ++ d ∷ after)))
put_back ds before d d' after h =
    Perm.trans
      (Perm.map (λ e. e.dest_id) {l₁ = (ds ++ d' ∷ []) ++ (before ++ after)}
        {l₂ = d' ∷ (ds ++ (before ++ after))}
        (rw (append_assoc ds (d' ∷ []) (before ++ after)) (perm_middle ds (before ++ after))))
      (rw h (pull ds before d after))

shorter :
    (before : List Destination) (d d' : Destination) (after : List Destination)
    → (length (before ++ d' ∷ after) ≡ length (before ++ d ∷ after))
      × (length (before ++ after) ≤ length (before ++ d ∷ after))
shorter before d d' after = (
  omega (arith, length-append before (d' ∷ after), length-append before (d ∷ after)),
  omega (arith, length-append before after, length-append before (d ∷ after)),
)

-- The same for any list that is the process list.
abbrev At : Campaign → Destination → Verdict → Campaign → List Destination → Type 0
At cp d gone cp' pl =
    Perm (d.dest_id ∷ all_ids cp') (ids (cp.destinations ++ pl)) × (length cp'.processl ≤ length pl)
At cp d v cp' pl =
    Perm (all_ids cp') (ids (cp.destinations ++ pl)) × (length cp'.processl ≤ length pl)

apply_verdict-At :
    (cp : Campaign) (before : List Destination) (d : Destination) (after : List Destination)
    (v : Verdict) (b : Bool)
    → Decides cp d b v
    → At cp d v (apply_verdict cp before v after) (before ++ d ∷ after)
apply_verdict-At cp before d after (stay d') b t = (
  rw (ids_same cp.destinations before d d' after t.0) Perm.rfl,
  omega (arith, (shorter before d d' after).0),
)
apply_verdict-At cp before d after gone b t =
    (pull cp.destinations before d after, (shorter before d d after).1)
apply_verdict-At cp before d after (requeue d') b t = (
  put_back cp.destinations before d d' after (ap (λ x. x.dest_id) t.0),
  (shorter before d d' after).1,
)

At-Drops :
    (cp : Campaign) (d : Destination) (v : Verdict) (cp' : Campaign)
    → At cp d v cp' cp.processl
    → Drops cp d v cp' × (length cp'.processl ≤ length cp.processl)
At-Drops cp d (stay d') cp' h = h
At-Drops cp d gone cp' h = h
At-Drops cp d (requeue d') cp' h = h

-- A run of `on_call_end` without a fault, for a destination of the process list, keeps all
-- destinations of the campaign by number but the one that it destroys, if it does, and the process
-- list does not grow.
pub call_timer-Drops :
    (s : Setup) (a : Answers) (now : ℕ) (before : List Destination) (d : Destination)
    (after : List Destination) (st st' : Dialer)
    → st.cp.processl ≡ before ++ d ∷ after
    → call_timer s a now before d after st ≡ some st'
    → (t : Ticked) × (on_call_end s st.cp a now d st.rtp ≡ some t)
      × (Drops st.cp d t.verdict st'.cp × (length st'.cp.processl ≤ length st.cp.processl))
unfolding call_timer
call_timer-Drops s a now before d after st st' at e =
    let (t, e1, e2) = >>=-eq-some (on_call_end s st.cp a now d st.rtp) _ e in
    let (c, held) = on_call_end_held s st.cp a now d st.rtp t e1 in
    let decides = on_call_end-Decides s st.cp a now d c st.rtp t held e1 in
    let done =
      subst (At st.cp d t.verdict (apply_verdict st.cp before t.verdict after)) (sym at)
        (apply_verdict-At st.cp before d after t.verdict (talked now c) decides) in
    (
      t,
      e1,
      subst (λ x. Drops st.cp d t.verdict x.cp × (length x.cp.processl ≤ length st.cp.processl))
          (of_some e2) (At-Drops st.cp d t.verdict _ done),
    )
