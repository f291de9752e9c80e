-- ===== src/System/Threads/Messages.antt =====
-- The messages of mqueue_push in src/main.c: which campaigns they name when the main thread takes
-- them.
use mathlib.Core.Path.{subst}
use mathlib.Core.List.{append-nil, append_assoc}
use autodialer_core.Base.{
  ℕ, ◌≡◌, ◌≢◌, refl, sym, ap, ◌∙◌, Bool, true, false, Option, none, some, List, [], ◌∷◌, ◌++◌,
  if◌then◌else◌, All, All-append, All-append_left, All-append_right, All-imp,
}
use autodialer_core.Structs.{Destination, Campaign}
use autodialer_core.Rows.{CampaignRow}
use autodialer_core.Rtp.Pool.{Distinct}
use autodialer_core.Rtp.Ownership.{In}
use autodialer_core.Dialer.Dial.{Setup}
use autodialer_core.System.{System, services_of}
use autodialer_core.System
use autodialer_core.System.Threads.{
  Phase, asleep, synced, gateways, campaigns, preparing, first_loop, second_loop, numbers, pushes,
  IsMain,
}
use autodialer_core.System.Threads.Numbers.{numbers-placed, main_numbers, Unique-Distinct}
use autodialer_core.System.Threads.Safety.{IsSafe}

-- The campaigns that the third loop still may push.
abbrev pub left_of : Phase → List ℕ
left_of asleep = []
left_of synced = []
left_of (gateways rows) = []
left_of (campaigns rows) = []
left_of (preparing left) = left

-- While rows are loaded no message is pending.
abbrev pub Quiet : Phase → List ℕ → Type 0
Quiet asleep ids = Unit
Quiet synced ids = Unit
Quiet (gateways rows) ids = ids ≡ []
Quiet (campaigns rows) ids = ids ≡ []
Quiet (preparing left) ids = Unit

pub record Heard (st : System) (p : Phase) : Type 0 where
  pub named : All (λ id. In id (numbers st.services)) (st.messages ++ left_of p)
  pub once : Distinct (st.messages ++ left_of p)
  pub quiet : Quiet p st.messages

pub Distinct-append_left : (xs ys : List ℕ) → Distinct (xs ++ ys) → Distinct xs
Distinct-append_left [] ys d = tt
Distinct-append_left (x ∷ xs) ys d =
    (All-append_left (λ j. x ≢ j) xs ys d.0, Distinct-append_left xs ys d.1)

Distinct-drop : (xs : List ℕ) (i : ℕ) (ys : List ℕ) → Distinct (xs ++ i ∷ ys) → Distinct (xs ++ ys)
Distinct-drop [] i ys d = d.1
Distinct-drop (x ∷ xs) i ys d =
    let all = All-append_right (λ j. x ≢ j) xs (i ∷ ys) d.0 in
    (
      All-append _ xs ys (All-append_left (λ j. x ≢ j) xs (i ∷ ys) d.0) all.1,
      Distinct-drop xs i ys d.1,
    )

All-drop :
    (P : ℕ → Type 0) (xs : List ℕ) (i : ℕ) (ys : List ℕ) → All P (xs ++ i ∷ ys) → All P (xs ++ ys)
All-drop P xs i ys h =
    All-append P xs ys (All-append_left P xs (i ∷ ys) h) (All-append_right P xs (i ∷ ys) h).1

-- The message that a campaign of the loop becomes, or not.
pushed_list :
    (P : List ℕ → Type 0) (xs : List ℕ) (i j : ℕ) (left : List ℕ) (pushed : Bool)
    → j ≡ i
    → (P (xs ++ i ∷ left) → P (xs ++ left))
    → P (xs ++ i ∷ left)
    → P ((xs ++ (if pushed then j ∷ [] else [])) ++ left)
pushed_list P xs i j left true e drop h =
    subst P (sym (append_assoc xs (j ∷ []) left)) (subst (λ k. P (xs ++ k ∷ left)) (sym e) h)
pushed_list P xs i j left false e drop h = subst (λ l. P (l ++ left)) (sym (append-nil xs)) (drop h)

self_In : (ids : List ℕ) → All (λ id. In id ids) ids
self_In [] = tt
self_In (i ∷ ids) = ((λ n. n.0 refl), All-imp ids (λ j h n. h n.1) (self_In ids))

pub Heard-first :
    (st : System) (answer : Option _)
    → st.messages ≡ []
    → Heard st synced
    → Heard st (first_loop answer)
Heard-first st none none_left v = record { named = v.named; once = v.once; quiet = tt }
Heard-first st (some rows) none_left v = record {
  named = v.named;
  once = v.once;
  quiet = none_left;
}

pub Heard-second :
    (st : System) (answer : Option _) → Heard st (gateways []) → Heard st (second_loop answer)
Heard-second st none v = record { named = v.named; once = v.once; quiet = tt }
Heard-second st (some rows) v = record { named = v.named; once = v.once; quiet = v.quiet }

-- Without messages a new list of campaigns changes nothing.
pub Heard-loaded :
    (st : System) (rows : List CampaignRow) → st.messages ≡ [] → Heard st (campaigns rows)
Heard-loaded st rows e = record {
  named = subst (λ l. All (λ id. In id (numbers st.services)) (l ++ [])) (sym e) tt;
  once = subst (λ l. Distinct (l ++ [])) (sym e) tt;
  quiet = e;
}

pub Heard-looks :
    (st : System) → IsSafe st → st.messages ≡ [] → Heard st (preparing (numbers st.services))
Heard-looks st v e = record {
  named =
      subst (λ l. All (λ id. In id (numbers st.services)) (l ++ numbers st.services)) (sym e)
        (self_In (numbers st.services));
  once =
      subst (λ l. Distinct (l ++ numbers st.services)) (sym e)
        (Unique-Distinct st.services v.loaded.campaigns_once);
  quiet = tt;
}

pub Heard-pushes :
    (st : System) (before : List Campaign) (cp c : Campaign) (after : List Campaign) (pushed : Bool)
    (left : List ℕ)
    → st.services ≡ before ++ cp ∷ after
    → c.campaign_id ≡ cp.campaign_id
    → Heard st (preparing (cp.campaign_id ∷ left))
    → Heard (pushes st before c pushed after) (preparing left)
Heard-pushes st before cp c after pushed left at same v =
    let ids : List ℕ = numbers (before ++ c ∷ after) in
    let kept : numbers st.services ≡ ids =
      ap numbers at ∙ sym (numbers-placed before cp c after same) in
    record {
      named =
          pushed_list (All (λ id. In id ids)) st.messages cp.campaign_id c.campaign_id left pushed
            same (All-drop (λ id. In id ids) st.messages cp.campaign_id left)
            (subst (λ l. All (λ id. In id l) (st.messages ++ cp.campaign_id ∷ left)) kept v.named);
      once =
          pushed_list Distinct st.messages cp.campaign_id c.campaign_id left pushed same
            (Distinct-drop st.messages cp.campaign_id left) v.once;
      quiet = tt;
    }

Quiet-rest : (p : Phase) (id : ℕ) (rest : List ℕ) → Quiet p (id ∷ rest) → Quiet p rest
Quiet-rest asleep id rest q = tt
Quiet-rest synced id rest q = tt
Quiet-rest (gateways rows) id rest q = cc q
Quiet-rest (campaigns rows) id rest q = cc q
Quiet-rest (preparing left) id rest q = tt

-- The main thread takes a message.
Heard-takes :
    (st st' : System) (p : Phase) (id : ℕ) (rest : List ℕ)
    → st.messages ≡ id ∷ rest
    → st'.messages ≡ rest
    → numbers st'.services ≡ numbers st.services
    → Heard st p
    → Heard st' p
Heard-takes st st' p id rest sent left same v =
    let named = subst (λ l. All (λ i. In i (numbers st.services)) (l ++ left_of p)) sent v.named in
    let once = subst (λ l. Distinct (l ++ left_of p)) sent v.once in
    let quiet = Quiet-rest p id rest (subst (Quiet p) sent v.quiet) in
    record {
      named =
          subst (λ l. All (λ i. In i (numbers st'.services)) (l ++ left_of p)) (sym left)
            (subst (λ l. All (λ i. In i l) (rest ++ left_of p)) (sym same) named.1);
      once = subst (λ l. Distinct (l ++ left_of p)) (sym left) once.1;
      quiet = subst (Quiet p) (sym left) quiet;
    }

Heard-works :
    (st st' : System) (p : Phase)
    → st'.messages ≡ st.messages
    → numbers st'.services ≡ numbers st.services
    → Heard st p
    → Heard st' p
Heard-works st st' p kept same v = record {
  named =
      subst (λ l. All (λ i. In i (numbers st'.services)) (l ++ left_of p)) (sym kept)
        (subst (λ l. All (λ i. In i l) (st.messages ++ left_of p)) (sym same) v.named);
  once = subst (λ l. Distinct (l ++ left_of p)) (sym kept) v.once;
  quiet = subst (Quiet p) (sym kept) v.quiet;
}

module _ (list_sort : (Destination → Destination → Bool) → List Destination → List Destination)
    (s : Setup) where
  pub main-Heard :
      {st st' : System} (p : Phase) (step : System.Step list_sort s st st')
      → IsMain list_sort s step
      → Heard st p
      → Heard st' p
  main-Heard p (System.pulls t q r e at) mine v = absurd mine
  main-Heard p (System.syncs at) mine v = absurd mine
  main-Heard {st} {st'} p (System.handles answers now id rest before cp after d sent at same e done)
        mine v =
      Heard-takes st st' p id rest sent (ap (λ x. x.messages) done)
        (main_numbers list_sort s
          (System.handles answers now id rest before cp after d sent at same e done) tt)
        v
  main-Heard {st} {st'} p (System.works before cp after d at step own done) mine v =
      Heard-works st st' p (ap (λ x. x.messages) done)
        (main_numbers list_sort s (System.works before cp after d at step own done) tt) v
