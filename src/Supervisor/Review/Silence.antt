-- ===== src/Supervisor/Review/Silence.antt =====
-- No task that has stopped is passed over in silence.
use mathlib.Core.List.{Memᴰ}
use ago.Prelude.{
  ◌≡◌, refl, Bool, true, false, ◌&&◌, List, [], ◌∷◌, arith, Bool-cases, inl, inr, ◌⊎◌,
  if◌then◌else◌, is_nil, Option-cases,
}
use ago.Prelude.Ints.{ℤ, ltb_int}
use ago.Prelude.Outcome.{Outcome, ok, err, panic}
use ago.Prelude.Effect.{caught, proceed, skip, update, attempt, for_each, ◌>>=◌, ◌>>◌}
use ago.GoString.{GoString}
use ago.Protocol.Records.{Board, Task}
use ago.Supervisor.{DecisionKind, Options, World, Fault, escalation_for}
use ago.Supervisor.Attention.{already_raised, raise, now, raise_now}
use ago.Supervisor.Attention.Ordered.{raised_last}
use ago.Supervisor.Repair.{repair, out_of_patches}
use ago.Supervisor.Review.{
  stopped, after_repair, repair_or_raise, decide, visit_task, review_task, review_stopped_work,
}
use ago.Supervisor.Review.Lawful.{review_tasks-Lawful}

-- The machine may try the task again: its failure calls for nobody, and it has retries left.
abbrev pub actionable : Options → Task → Bool
actionable o t =
    is_nil (escalation_for t.failure_class o.authorize)
    && ltb_int t.user_retries o.authorize.max_repairs_per_task

-- And a patch is left for it.
abbrev pub repairable : Options → World → Task → Bool
repairable o w t = actionable o t && ltb_int w.patches o.authorize.max_patches

-- The task is in the queue, and nothing was changed for it.
pub record IsHandedOver (t : Task) (w : World) (r : World × Outcome Fault (Unit {0})) : Type 0 where
  pub ended : r.1 ≡ ok tt
  pub queued : already_raised t.id r.0.decisions ≡ true
  pub stored : r.0.db ≡ w.db
  pub spent : r.0.patches ≡ w.patches

module _ (o : Options) where
  raise_now-IsHandedOver :
      (kind : DecisionKind) (t : Task) (title reason suggestion : GoString) (used : ℤ) (w : World)
      → IsHandedOver t w (raise_now o kind t.id title reason suggestion used w)
  unfolding raise_now now raise update ◌>>=◌ proceed
  raise_now-IsHandedOver kind t title reason suggestion used w =
      elim (Bool-cases (already_raised t.id w.decisions)) [
        | inl p ↦
            rw (p, if◌then◌else◌) (record { ended = refl; queued = p; stored = refl; spent = refl })
        | inr p ↦
            rw (p, if◌then◌else◌)
              (record {
                ended = refl;
                queued = raised_last _ w.decisions;
                stored = refl;
                spent = refl;
              })
      ]

  after_attempt :
      (t : Task) (w : World) (r : World × Outcome Fault (Unit {0}))
      → IsHandedOver t w r
      → IsHandedOver t w (proceed (caught r) (after_repair o t))
  unfolding proceed after_repair skip
  after_attempt t w (v, ok u) h = h
  after_attempt t w (v, err e) h = absurd (cc h.ended)
  after_attempt t w (v, panic) h = h

  repair_or_raise-IsHandedOver :
      (t : Task) (w : World)
      → (ltb_int t.user_retries o.authorize.max_repairs_per_task
          && ltb_int w.patches o.authorize.max_patches)
        ≡ false
      → IsHandedOver t w (repair_or_raise o t w)
  unfolding repair_or_raise attempt repair out_of_patches ◌>>=◌
  repair_or_raise-IsHandedOver t w h =
      elim (Bool-cases (ltb_int t.user_retries o.authorize.max_repairs_per_task)) [
        | inl p ↦
            let q : ltb_int w.patches o.authorize.max_patches ≡ false = ground arith in
            rw (p, if◌then◌else◌)
              (after_attempt t w (repair o t w)
                (rw (q, if◌then◌else◌) (raise_now-IsHandedOver _ t _ _ _ _ w)))
        | inr p ↦ rw (p, if◌then◌else◌) (raise_now-IsHandedOver _ t _ _ _ _ w)
      ]

  -- A task that has stopped, was not raised and cannot be repaired, since its failure calls for a
  -- person or its retries or the patches are spent, is put into the queue of decisions, and neither
  -- the database nor the count of patches changes for it.
  pub review_task-IsHandedOver :
      (t : Task) (w : World)
      → stopped t ≡ true
      → already_raised t.id w.decisions ≡ false
      → repairable o w t ≡ false
      → IsHandedOver t w (review_task o t w)
  unfolding review_task visit_task decide
  review_task-IsHandedOver t w s n h =
      elim (Option-cases (escalation_for t.failure_class o.authorize)) [
        | inl e ↦ rw (s, n, e, if◌then◌else◌) (repair_or_raise-IsHandedOver t w (ground arith))
        | inr (k, e) ↦ rw (s, n, e, if◌then◌else◌) (raise_now-IsHandedOver k t _ _ _ _ w)
      ]

  review_task-answered :
      (t : Task) (w : World)
      → stopped t ≡ true
      → (already_raised t.id (review_task o t w).0.decisions ≡ true) ⊎ (actionable o t ≡ true)
  unfolding review_task visit_task skip
  review_task-answered t w s = elim (Bool-cases (actionable o t)) [
    | inl a ↦ inr a
    | inr a ↦ elim (Bool-cases (already_raised t.id w.decisions)) [
      | inl n ↦ inl (rw (s, n, if◌then◌else◌) n)
      | inr n ↦ inl (review_task-IsHandedOver t w s n (ground arith)).queued
    ]
  ]

  -- The loop over the tasks went on behind a task only if its body returned no error.
  after_task :
      (t : Task) (ts : List Task) (w : World)
      → (for_each (t ∷ ts) (review_task o) w).1 ≡ ok tt
      → ((for_each ts (review_task o) (review_task o t w).0).1 ≡ ok tt)
        × ((for_each (t ∷ ts) (review_task o) w).0
            ≡ (for_each ts (review_task o) (review_task o t w).0).0)
  unfolding for_each ◌>>◌ ◌>>=◌
  after_task t ts w h = split (review_task o t w) h
    where
      split :
          (r : World × Outcome Fault (Unit {0}))
          → (proceed r (λ u. for_each ts (review_task o))).1 ≡ ok tt
          → ((for_each ts (review_task o) r.0).1 ≡ ok tt)
            × ((proceed r (λ u. for_each ts (review_task o))).0
                ≡ (for_each ts (review_task o) r.0).0)
      split (v, ok u) h = (h, refl)
      split (v, err e) h = absurd (cc)
      split (v, panic) h = absurd (cc)

  review_tasks-answered :
      (ts : List Task) (w : World)
      → (for_each ts (review_task o) w).1 ≡ ok tt
      → (t : Task) → Memᴰ t ts
      → stopped t ≡ true
      → (already_raised t.id (for_each ts (review_task o) w).0.decisions ≡ true)
        ⊎ (actionable o t ≡ true)
  review_tasks-answered [] w h t m s = elim m [ ]
  review_tasks-answered (u ∷ us) w h t (Memᴰ.head e) s =
      let (g, same) = after_task u us w h in
      elim (review_task-answered u w (ground (arith, s, e))) [
        | inl q ↦
            inl (rw (e, same) (((review_tasks-Lawful o us).runs (review_task o u w).0).kept u.id q))
        | inr q ↦ inr (ground (arith, q, e))
      ]
  review_tasks-answered (u ∷ us) w h t (Memᴰ.tail m) s =
      let (g, same) = after_task u us w h in
      rw same (review_tasks-answered us (review_task o u w).0 g t m s)

  -- After a review of stopped work that returned no error, every task of the board that has stopped
  -- is in the queue of decisions, or is one that the machine may try again by itself: its failure
  -- calls for nobody, and its retries lie below the limit.
  pub review_stopped_work-answered :
      (b : Board) (w : World) (t : Task)
      → (review_stopped_work o b w).1 ≡ ok tt
      → Memᴰ t b.tasks
      → stopped t ≡ true
      → (already_raised t.id (review_stopped_work o b w).0.decisions ≡ true)
        ⊎ (actionable o t ≡ true)
  unfolding review_stopped_work
  review_stopped_work-answered b w t h m s = review_tasks-answered b.tasks w h t m s
