-- ===== src/Scheduler/Integrating/Promoting.antt =====
-- Integration calls nothing but the integrator.
use ago.Prelude.{
  ◌≡◌, refl, sym, ap, ◌∙◌, Bool, true, false, Option, none, some, List, [], ◌∷◌, ◌++◌, all, arith,
}
use mathlib.Core.List.{append-nil, append_assoc}
use ago.Prelude.Ints.{ℤ}
use ago.Prelude.Effect.{Keeps, IsPreorder, Keeps->>=, Keeps-skip}
use ago.GoString.{GoString}
use ago.Protocol.States.{FailureClass}
use ago.Protocol.Records.{Board, EvidenceResult, PatchRecord}
use ago.Scheduler.{
  Promotion, PromotionError, Answer, failed, answered, Options, Site, Call, Scheduled,
}
use ago.Scheduler.Steps.Calls.{Quiet, quiet_rules}
use ago.Scheduler.Integrating.{
  fail_promotion, complete_promotion, after_promotion, promote, read_artifact, promote_patch,
  integrate_with, integrate_patch, integrate,
}

abbrev pub is_promotion : Call → Bool
is_promotion (Call.promoted p) = true
is_promotion _ = false

-- All calls between the two sites are calls of the integrator.
pub record Promoting {X : Type 0} (a b : Site X) : Type 0 where
  pub more : List Call
  pub made : b.calls ≡ a.calls ++ more
  pub only : all is_promotion more ≡ true

all-append :
    (p : Call → Bool) (xs ys : List Call)
    → all p xs ≡ true
    → all p ys ≡ true
    → all p (xs ++ ys) ≡ true
unfolding all
all-append p [] ys h g = g
all-append p (x ∷ xs) ys h g = ground (arith, all-append p xs ys)

module _ {X : Type 0} where
  pub Promoting-preorder : IsPreorder (Promoting {X = X})
  unfolding all
  Promoting-preorder = record {
    same = λ s. record { more = []; made = sym (append-nil s.calls); only = refl };
    chain = λ {a} {b} {c} f g. record {
      more = f.more ++ g.more;
      made = g.made ∙ ap (λ l. l ++ g.more) f.made ∙ append_assoc a.calls f.more g.more;
      only = all-append is_promotion f.more g.more f.only g.only;
    };
  }

  pub Quiet-Promoting : {A : Type 0} (m : Scheduled X A) → Keeps Quiet m → Keeps Promoting m
  unfolding all
  Quiet-Promoting m k = record {
    runs =
        λ s. record { more = []; made = (k.runs s).calls ∙ sym (append-nil s.calls); only = refl };
  }

module _ {X : Type 0} (o : Options X) (id : GoString) where
  fail_promotion-Quiet :
      (task_id attempt_id : GoString) (class : FailureClass) (reason : GoString)
      → Keeps Quiet (fail_promotion o id task_id attempt_id class reason)
  unfolding fail_promotion
  fail_promotion-Quiet task_id attempt_id class reason = search quiet_rules

  complete_promotion-Quiet :
      (task_id attempt_id revision : GoString)
      → Keeps Quiet (complete_promotion o id task_id attempt_id revision)
  unfolding complete_promotion
  complete_promotion-Quiet task_id attempt_id revision = search quiet_rules

  after_promotion-Quiet :
      (task_id attempt_id : GoString) (r : Answer PromotionError GoString)
      → Keeps Quiet (after_promotion o id task_id attempt_id r)
  unfolding after_promotion
  after_promotion-Quiet task_id attempt_id (failed e) = fail_promotion-Quiet _ _ _ _
  after_promotion-Quiet task_id attempt_id (answered r) = complete_promotion-Quiet _ _ _

  promote-Promoting :
      (f : Promotion → X → X × Answer PromotionError GoString) (p : Promotion)
      → Keeps Promoting (promote o id f p)
  unfolding promote all
  promote-Promoting f p = record {
    runs = λ s. record { more = Call.promoted p ∷ []; made = refl; only = refl };
  }

  read_artifact-Quiet :
      (f : GoString → ℤ → GoString → X → X × Answer GoString GoString) (p : PatchRecord)
      → Keeps Quiet (read_artifact o id f p)
  unfolding read_artifact
  read_artifact-Quiet f p = record { runs = λ s. record { calls = refl } }

  promote_patch-Promoting :
      (f : Promotion → X → X × Answer PromotionError GoString) (task_id attempt_id : GoString)
      (e : EvidenceResult) (p : PatchRecord) (b : Board) (r : Answer GoString GoString)
      → Keeps Promoting (promote_patch o id f task_id attempt_id e p b r)
  unfolding promote_patch
  promote_patch-Promoting f task_id attempt_id e p b (failed text) =
      Quiet-Promoting _ (fail_promotion-Quiet _ _ _ _)
  promote_patch-Promoting f task_id attempt_id e p b (answered patch) =
      Keeps->>= Promoting-preorder _ _ (promote-Promoting f _)
        (λ r. Quiet-Promoting _ (after_promotion-Quiet task_id attempt_id r))

  module _ (task_id attempt_id : GoString) (e : EvidenceResult) (b : Board) where
    integrate_with-Promoting :
        (f : Option (Promotion → X → X × Answer PromotionError GoString))
        (g : Option (GoString → ℤ → GoString → X → X × Answer GoString GoString)) (p : PatchRecord)
        → Keeps Promoting (integrate_with o id f g task_id attempt_id e p b)
    unfolding integrate_with
    integrate_with-Promoting (some f) (some g) p =
        Keeps->>= Promoting-preorder _ _ (Quiet-Promoting _ (read_artifact-Quiet g p))
          (promote_patch-Promoting f task_id attempt_id e p b)
    integrate_with-Promoting (some f) none p = Quiet-Promoting _ (fail_promotion-Quiet _ _ _ _)
    integrate_with-Promoting none (some g) p = Quiet-Promoting _ (fail_promotion-Quiet _ _ _ _)
    integrate_with-Promoting none none p = Quiet-Promoting _ (fail_promotion-Quiet _ _ _ _)

    integrate_patch-Promoting :
        (p : Option PatchRecord) → Keeps Promoting (integrate_patch o id p task_id attempt_id e b)
    unfolding integrate_patch
    integrate_patch-Promoting none = Keeps-skip Promoting-preorder
    integrate_patch-Promoting (some p) =
        integrate_with-Promoting o.parts.promote o.parts.artifact_bytes p

    pub integrate-Promoting : Keeps Promoting (integrate o id task_id attempt_id e b)
    unfolding integrate
    integrate-Promoting = integrate_patch-Promoting e.patch
