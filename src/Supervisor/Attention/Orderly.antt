-- ===== src/Supervisor/Attention/Orderly.antt =====
-- What every method of the supervisor keeps, whatever it returns.
use ago.Prelude.{
  ◌≡◌, refl, sym, ap, ◌∙◌, true, false, ◌++◌, List, [], ◌∷◌, Bool-cases, inl, inr, if◌then◌else◌,
}
use mathlib.Core.List.Perm
use mathlib.Core.List.{Perm, append-nil, append_assoc}
use ago.Prelude.Ints.{ℤ, ltb_int}
use ago.Prelude.Effect.{Keeps, IsPreorder, update, keeps_rules, ◌>>=◌}
use ago.GoString.{GoString}
use ago.Supervisor.{DecisionKind, Decision, Options, World}
use ago.Supervisor.Attention.{already_raised, sort_decisions, raise, now, raise_now}
use ago.Supervisor.Attention.Ordered.{
  Ascending, Ascending-raise, sort-Perm, sort-raised, already_raised-append,
}

-- The decisions are sorted by the ids of their tasks, at most one for each, they are the ones that
-- were announced, and the patches stay within the budget.
pub record Orderly (max : ℤ) (w : World) : Type 0 where
  pub ascending : Ascending w.decisions
  pub told : Perm w.decisions w.announced
  pub within : ltb_int max w.patches ≡ false

-- Orderly worlds stay so, and nothing that was announced is taken back.
pub record Lawful (max : ℤ) (a b : World) : Type 0 where
  pub orderly : Orderly max a → Orderly max b
  pub more : List Decision
  pub said : b.announced ≡ a.announced ++ more
  pub kept :
      (id : GoString) → already_raised id a.decisions ≡ true → already_raised id b.decisions ≡ true

raised_append :
    (id : GoString) (ds es : List Decision)
    → already_raised id ds ≡ true
    → already_raised id (sort_decisions (ds ++ es)) ≡ true
raised_append id ds es h = sort-raised id (ds ++ es) ∙ already_raised-append id ds es h

module _ (max : ℤ) where
  pub unchanged :
      (a b : World)
      → b.decisions ≡ a.decisions
      → b.announced ≡ a.announced
      → b.patches ≡ a.patches
      → Lawful max a b
  unchanged a b p q r = record {
    orderly = λ h. record {
      ascending = rw p h.ascending;
      told = rw (p, q) h.told;
      within = rw r h.within;
    };
    more = [];
    said = q ∙ sym (append-nil a.announced);
    kept = λ id h. rw p h;
  }

  pub Lawful-preorder : IsPreorder (Lawful max)
  Lawful-preorder = record {
    same = λ w. unchanged w w refl refl refl;
    chain = λ {a} {b} {c} f g. record {
      orderly = λ h. g.orderly (f.orderly h);
      more = f.more ++ g.more;
      said = g.said ∙ ap (λ l. l ++ g.more) f.said ∙ append_assoc a.announced f.more g.more;
      kept = λ id h. g.kept id (f.kept id h);
    };
  }

  raise-Lawful : (d : Decision) → Keeps (Lawful max) (raise d)
  unfolding raise update
  raise-Lawful d = record {
    runs = λ w. elim (Bool-cases (already_raised d.task_id w.decisions)) [
      | inl p ↦ rw (p, if◌then◌else◌) (unchanged w w refl refl refl)
      | inr p ↦
          rw (p, if◌then◌else◌)
            (record {
              orderly = λ h. record {
                ascending = Ascending-raise w.decisions d h.ascending p;
                told =
                    Perm.trans (sort-Perm (w.decisions ++ (d ∷ [])))
                      (Perm.append_right (d ∷ []) h.told);
                within = h.within;
              };
              more = d ∷ [];
              said = refl;
              kept = λ id h. raised_append id w.decisions (d ∷ []) h;
            })
    ];
  }

  pub now-Lawful : (o : Options) → Keeps (Lawful max) (now o)
  unfolding now
  now-Lawful o = record { runs = λ w. unchanged w _ refl refl refl }

  pub raise_now-Lawful :
      (o : Options) (kind : DecisionKind) (id title reason suggestion : GoString) (used : ℤ)
      → Keeps (Lawful max) (raise_now o kind id title reason suggestion used)
  unfolding raise_now
  raise_now-Lawful o kind id title reason suggestion used =
      search (keeps_rules, Lawful-preorder, now-Lawful, raise-Lawful)

pub ruleset lawful_rules = (keeps_rules, Lawful-preorder, raise_now-Lawful)
