-- ===== src/Supervisor/Attention/Ordered.antt =====
-- The queue of decisions stays sorted, with one decision for each task.
use ago.Prelude.{
  ◌≡◌, refl, ap, ◌∙◌, Bool, true, false, ◌||◌, ◌++◌, List, [], ◌∷◌, any, arith, Bool-cases, inl,
  inr, if◌then◌else◌,
}
use mathlib.Core.List.Perm
use mathlib.Core.List.{Perm}
use ago.GoString.{GoString, str_eq}
use ago.Store.Deadlines.{text_before}
use ago.Supervisor.{Decision}
use ago.Supervisor.Attention.{about, already_raised, place_decision, sort_decisions}

pub text_before_trans :
    (s t u : GoString) → text_before s t ≡ true → text_before t u ≡ true → text_before s u ≡ true
unfolding text_before
text_before_trans [] [] u p q = cc
text_before_trans [] (b ∷ t) [] p q = cc
text_before_trans [] (b ∷ t) (c ∷ u) p q = refl
text_before_trans (a ∷ s) [] u p q = cc
text_before_trans (a ∷ s) (b ∷ t) [] p q = cc
text_before_trans (a ∷ s) (b ∷ t) (c ∷ u) p q = ground (arith, text_before_trans s t u)

pub text_before_irrefl : (s : GoString) → text_before s s ≡ false
unfolding text_before
text_before_irrefl [] = refl
text_before_irrefl (a ∷ s) = ground (arith, text_before_irrefl s)

same_text : (s t : GoString) → text_before s t ≡ false → text_before t s ≡ false → s ≡ t
unfolding text_before
same_text [] [] p q = refl
same_text [] (b ∷ t) p q = cc
same_text (a ∷ s) [] p q = cc
same_text (a ∷ s) (b ∷ t) p q = ground (arith, same_text s t)

text_before-total :
    (s t : GoString) → text_before s t ≡ false → str_eq s t ≡ false → text_before t s ≡ true
text_before-total s t p q = ground (arith, same_text s t)

-- The decision belongs before every one of the list.
abbrev pub Before : Decision → List Decision → Type 0
Before d [] = Unit {0}
Before d (e ∷ es) = (text_before d.task_id e.task_id ≡ true) × Before d es

abbrev pub Ascending : List Decision → Type 0
Ascending [] = Unit {0}
Ascending (d ∷ ds) = Before d ds × Ascending ds

abbrev Distinct : List Decision → Type 0
Distinct [] = Unit {0}
Distinct (d ∷ ds) = (already_raised d.task_id ds ≡ false) × Distinct ds

Before-trans :
    (d e : Decision) (es : List Decision)
    → text_before d.task_id e.task_id ≡ true
    → Before e es
    → Before d es
Before-trans d e [] p h = tt
Before-trans d e (f ∷ fs) p h =
    (text_before_trans d.task_id e.task_id f.task_id p h.0, Before-trans d e fs p h.1)

Before-place :
    (d e : Decision) (es : List Decision)
    → text_before d.task_id e.task_id ≡ true
    → Before d es
    → Before d (place_decision e es)
unfolding place_decision
Before-place d e [] p h = (p, tt)
Before-place d e (f ∷ fs) p h = elim (Bool-cases (text_before f.task_id e.task_id)) [
  | inl q ↦ rw (q, if◌then◌else◌) (h.0, Before-place d e fs p h.1)
  | inr q ↦ rw (q, if◌then◌else◌) (p, h)
]

Ascending-place :
    (d : Decision) (ds : List Decision)
    → already_raised d.task_id ds ≡ false
    → Ascending ds
    → Ascending (place_decision d ds)
unfolding place_decision already_raised any
Ascending-place d [] n h = (tt, tt)
Ascending-place d (e ∷ es) n h = elim (Bool-cases (text_before e.task_id d.task_id)) [
  | inl q ↦
      rw (q, if◌then◌else◌) (Before-place e d es q h.0, Ascending-place d es (ground arith) h.1)
  | inr q ↦
      let first : text_before d.task_id e.task_id ≡ true =
        text_before-total e.task_id d.task_id q (ground arith) in
      rw (q, if◌then◌else◌) ((first, Before-trans d e es first h.0), h)
]

place-any :
    (p : Decision → Bool) (d : Decision) (ds : List Decision)
    → any p (place_decision d ds) ≡ any p (d ∷ ds)
unfolding place_decision any
place-any p d [] = refl
place-any p d (e ∷ es) = ground (arith, place-any p d es)

sort-any : (p : Decision → Bool) (ds : List Decision) → any p (sort_decisions ds) ≡ any p ds
unfolding sort_decisions any
sort-any p [] = refl
sort-any p (d ∷ ds) = place-any p d (sort_decisions ds) ∙ ap (λ b. p d || b) (sort-any p ds)

Ascending-sort : (ds : List Decision) → Distinct ds → Ascending (sort_decisions ds)
unfolding sort_decisions already_raised
Ascending-sort [] h = tt
Ascending-sort (d ∷ ds) h =
    Ascending-place d (sort_decisions ds) (sort-any (about d.task_id) ds ∙ h.0)
      (Ascending-sort ds h.1)

Before-new : (d : Decision) (ds : List Decision) → Before d ds → already_raised d.task_id ds ≡ false
unfolding already_raised any
Before-new d [] h = refl
Before-new d (e ∷ es) h = ground (arith, Before-new d es h.1, h.0, text_before_irrefl d.task_id)

Ascending-Distinct : (ds : List Decision) → Ascending ds → Distinct ds
Ascending-Distinct [] h = tt
Ascending-Distinct (d ∷ ds) h = (Before-new d ds h.0, Ascending-Distinct ds h.1)

pub any-append :
    (p : Decision → Bool) (ds es : List Decision) → any p (ds ++ es) ≡ any p ds || any p es
unfolding any
any-append p [] es = refl
any-append p (d ∷ ds) es = ground (arith, any-append p ds es)

Distinct-append :
    (ds : List Decision) (d : Decision)
    → Distinct ds
    → already_raised d.task_id ds ≡ false
    → Distinct (ds ++ (d ∷ []))
unfolding already_raised any
Distinct-append [] d h n = (refl, tt)
Distinct-append (e ∷ es) d h n = (
  any-append (about e.task_id) es (d ∷ []) ∙ ground (arith, h.0),
  Distinct-append es d h.1 (ground arith),
)

-- A decision on a task that is not in the queue keeps it sorted.
pub Ascending-raise :
    (ds : List Decision) (d : Decision)
    → Ascending ds
    → already_raised d.task_id ds ≡ false
    → Ascending (sort_decisions (ds ++ (d ∷ [])))
Ascending-raise ds d h n =
    Ascending-sort (ds ++ (d ∷ [])) (Distinct-append ds d (Ascending-Distinct ds h) n)

place-Perm : (d : Decision) (ds : List Decision) → Perm (place_decision d ds) (d ∷ ds)
unfolding place_decision
place-Perm d [] = Perm.rfl
place-Perm d (e ∷ es) = elim (Bool-cases (text_before e.task_id d.task_id)) [
  | inl q ↦ rw (q, if◌then◌else◌) (Perm.trans (Perm.cons e (place-Perm d es)) (Perm.swap d e es))
  | inr q ↦ rw (q, if◌then◌else◌) Perm.rfl
]

pub sort-Perm : (ds : List Decision) → Perm (sort_decisions ds) ds
unfolding sort_decisions
sort-Perm [] = Perm.rfl
sort-Perm (d ∷ ds) = Perm.trans (place-Perm d (sort_decisions ds)) (Perm.cons d (sort-Perm ds))

pub sort-raised :
    (id : GoString) (ds : List Decision)
    → already_raised id (sort_decisions ds) ≡ already_raised id ds
unfolding already_raised
sort-raised id ds = sort-any (about id) ds

pub already_raised-append :
    (id : GoString) (ds es : List Decision)
    → already_raised id ds ≡ true
    → already_raised id (ds ++ es) ≡ true
unfolding already_raised
already_raised-append id ds es h = any-append (about id) ds es ∙ ap (λ b. b || any (about id) es) h

pub raised_last :
    (d : Decision) (ds : List Decision)
    → already_raised d.task_id (sort_decisions (ds ++ (d ∷ []))) ≡ true
unfolding already_raised any
raised_last d ds =
    sort-raised d.task_id (ds ++ (d ∷ [])) ∙ any-append (about d.task_id) ds (d ∷ []) ∙ ground arith
