-- ===== src/Protocol/Acyclic/Chains.antt =====
-- Chains of dependencies, and lists of ids in which every id stands before what it depends on.
use mathlib.Core.List.{Memᴰ}
use ago.Prelude.{
  ℕ, ◌+◌, ◌≤◌, ◌<◌, ◌≡◌, refl, subst, true, false, List, [], ◌∷◌, any, select, arith, if◌then◌else◌,
  Bool-cases, inl, inr, length,
}
use ago.GoString.{GoString, str_eq}
use ago.Protocol.Records.{Dependency}
use ago.Protocol.Acyclic.{marked, unmark, adjacent, universe}

-- The task `a` depends on the task `b`.
pub record Depends (ds : List Dependency) (a b : GoString) : Type 0 where
  pub edge : Dependency
  pub listed : Memᴰ edge ds
  pub from : edge.task_id ≡ a
  pub to : edge.depends_on ≡ b

-- One dependency or several in a row.
pub data Chain (ds : List Dependency) : GoString → GoString → Type 0 where
  one : {a b : GoString} → Depends ds a b → Chain ds a b
  more : {a b c : GoString} → Depends ds a b → Chain ds b c → Chain ds a c

pub Chain-snoc :
    {ds : List Dependency} {a b c : GoString} → Chain ds a b → Depends ds b c → Chain ds a c
Chain-snoc (one d) e = more d (one e)
Chain-snoc (more d r) e = more d (Chain-snoc r e)

weaken :
    {ds : List Dependency} {a b : GoString} (d : Dependency) → Depends ds a b → Depends (d ∷ ds) a b
weaken d e = record { edge = e.edge; listed = Memᴰ.tail e.listed; from = e.from; to = e.to }

pub Depends-adjacent :
    (ds : List Dependency) (a b : GoString) → marked (adjacent ds a) b ≡ true → Depends ds a b
unfolding marked adjacent any
Depends-adjacent [] a b h = absurd (cc)
Depends-adjacent (d ∷ ds) a b h = elim (Bool-cases (str_eq d.task_id a)) [
  | inl e ↦ elim (Bool-cases (str_eq b d.depends_on)) [
    | inl f ↦ record { edge = d; listed = Memᴰ.head refl; from = ground arith; to = ground arith }
    | inr f ↦ weaken d (Depends-adjacent ds a b (ground arith))
  ]
  | inr e ↦ weaken d (Depends-adjacent ds a b (ground arith))
]

marked-adjacent :
    (ds : List Dependency) (d : Dependency)
    → Memᴰ d ds
    → marked (adjacent ds d.task_id) d.depends_on ≡ true
unfolding marked adjacent any
marked-adjacent [] d m = elim m [ ]
marked-adjacent (e ∷ ds) d (Memᴰ.head p) = ground arith
marked-adjacent (e ∷ ds) d (Memᴰ.tail m) = ground (arith, marked-adjacent ds d m)

pub adjacent-Depends :
    {ds : List Dependency} {a b : GoString} → Depends ds a b → marked (adjacent ds a) b ≡ true
adjacent-Depends {ds} {a} {b} d = cc (marked-adjacent ds d.edge d.listed, d.from, d.to)

pub universe-adjacent :
    (keys : List GoString) (ds : List Dependency) (a b : GoString)
    → marked (adjacent ds a) b ≡ true
    → marked (universe keys ds) b ≡ true
unfolding marked adjacent any
universe-adjacent keys [] a b h = absurd (cc)
universe-adjacent keys (d ∷ ds) a b h = ground (arith, universe-adjacent keys ds a b)

pub universe-key :
    (keys : List GoString) (ds : List Dependency) (a : GoString)
    → marked keys a ≡ true
    → marked (universe keys ds) a ≡ true
unfolding marked any
universe-key keys [] a h = h
universe-key keys (d ∷ ds) a h = ground (arith, universe-key keys ds a h)

module _ (ds : List Dependency) where
  -- Every id of the list is new to what follows it, and what it depends on follows it.
  abbrev pub Topo : List GoString → Type 0
  Topo [] = Unit {0}
  Topo (v ∷ l) =
      (marked l v ≡ false)
      × ((x : GoString) → marked (adjacent ds v) x ≡ true → marked l x ≡ true)
      × Topo l

  closed :
      (l : List GoString) (v x : GoString)
      → Topo l
      → marked l v ≡ true
      → Depends ds v x
      → marked l x ≡ true
  unfolding marked any
  closed [] v x t h d = absurd (cc)
  closed (u ∷ l) v x t h d = elim (Bool-cases (str_eq v u)) [
    | inl e ↦ ground (arith, t.1 x, adjacent-Depends d)
    | inr e ↦ ground (arith, closed l v x t.2 (ground arith) d)
  ]

  Chain-closed :
      (l : List GoString) {v x : GoString}
      → Topo l
      → marked l v ≡ true
      → Chain ds v x
      → marked l x ≡ true
  Chain-closed l {v} {x} t h (one d) = closed l v x t h d
  Chain-closed l {v} {x} t h (more {b = y} d r) = Chain-closed l t (closed l v y t h d) r

  head-Chain :
      (v : GoString) (l : List GoString) {x : GoString}
      → Topo (v ∷ l)
      → Chain ds v x
      → marked l x ≡ true
  head-Chain v l {x} t (one d) = t.1 x (adjacent-Depends d)
  head-Chain v l {x} t (more {b = y} d r) = Chain-closed l t.2 (t.1 y (adjacent-Depends d)) r

  pub Topo-acyclic :
      (l : List GoString) (v : GoString) → Topo l → marked l v ≡ true → Chain ds v v → ⊥
  unfolding marked any
  Topo-acyclic [] v t h c = cc
  Topo-acyclic (u ∷ l) v t h c = elim (Bool-cases (str_eq v u)) [
    | inl e ↦
        let p : v ≡ u = ground arith in
        let q : Chain ds u u = subst (λ w. Chain ds w w) p c in ground (arith, head-Chain u l t q)
    | inr e ↦ Topo-acyclic l v t.2 (ground arith) c
  ]

pub unmark_self : (l : List GoString) (x : GoString) → marked l x ≡ false → unmark (x ∷ l) x ≡ l
unfolding marked unmark any select
unmark_self [] x h = ground arith
unmark_self (k ∷ l) x h = ground (arith, unmark_self l x)

-- How many entries of `us` are not marked.
abbrev pub remaining : List GoString → List GoString → ℕ
remaining [] v = 0
remaining (u ∷ us) v = (if marked v u then 0 else 1) + remaining us v

pub remaining-le-length : (us : List GoString) → remaining us [] ≤ length us
remaining-le-length [] = omega arith
remaining-le-length (u ∷ us) = ground (arith, remaining-le-length us)

remaining_mono : (us v : List GoString) (x : GoString) → remaining us (x ∷ v) ≤ remaining us v
unfolding marked any
remaining_mono [] v x = omega arith
remaining_mono (u ∷ us) v x = ground (arith, remaining_mono us v x)

pub remaining-lt :
    (us v : List GoString) (x : GoString)
    → marked us x ≡ true
    → marked v x ≡ false
    → remaining us (x ∷ v) < remaining us v
unfolding marked any
remaining-lt [] v x h g = absurd (cc)
remaining-lt (u ∷ us) v x h g = ground (arith, remaining_mono us v x, remaining-lt us v x)
