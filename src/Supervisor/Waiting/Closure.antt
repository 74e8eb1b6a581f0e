-- ===== src/Supervisor/Waiting/Closure.antt =====
-- The passes over the dependencies compute what waits for a person, and they end.
use mathlib.Core.List.{Memᴰ}
use ago.Prelude.{
  ℕ, zero, suc, ◌+◌, ◌≤◌, ◌<◌, ◌≡◌, refl, subst, true, false, some, List, [], ◌∷◌, length, any,
  arith, if◌then◌else◌, Bool-cases, inl, inr,
}
use ago.GoString.{GoString, str_eq}
use ago.Protocol.Records.{Dependency}
use ago.Supervisor.Waiting.{listed, extends, pass, grew, saturate}

-- A pass loses no key, and is as long as before only if no dependency extends the keys.
listed-pass :
    (id : GoString) (es : List Dependency) (w : List GoString)
    → listed id w ≡ true
    → listed id (pass es w) ≡ true
unfolding pass listed any
listed-pass id [] w h = h
listed-pass id (e ∷ es) w h =
    listed-pass id es (if extends w e then e.task_id ∷ w else w) (ground arith)

length-pass : (es : List Dependency) (w : List GoString) → length w ≤ length (pass es w)
unfolding pass
length-pass [] w = omega arith
length-pass (e ∷ es) w = elim (Bool-cases (extends w e)) [
  | inl q ↦ rw (q, if◌then◌else◌) (omega (arith, length-pass es (e.task_id ∷ w)))
  | inr q ↦ rw (q, if◌then◌else◌) (length-pass es w)
]

pass-closed :
    (es : List Dependency) (w : List GoString) (d : Dependency)
    → grew w (pass es w) ≡ false
    → Memᴰ d es
    → extends w d ≡ false
unfolding pass
pass-closed [] w d g m = elim m [ ]
pass-closed (e ∷ es) w d g (Memᴰ.head p) = elim (Bool-cases (extends w e)) [
  | inl q ↦ absurd (ground (arith, length-pass es (e.task_id ∷ w)))
  | inr q ↦ cc
]
pass-closed (e ∷ es) w d g (Memᴰ.tail m) = elim (Bool-cases (extends w e)) [
  | inl q ↦ absurd (ground (arith, length-pass es (e.task_id ∷ w)))
  | inr q ↦ pass-closed es w d (ground arith) m
]

-- A pass that is no longer than the keys it started from has changed nothing.
pass-same : (es : List Dependency) (w : List GoString) → grew w (pass es w) ≡ false → pass es w ≡ w
unfolding pass
pass-same [] w g = refl
pass-same (e ∷ es) w g = elim (Bool-cases (extends w e)) [
  | inl q ↦ absurd (ground (arith, length-pass es (e.task_id ∷ w)))
  | inr q ↦ ground (arith, pass-same es w)
]

-- The keys of a pass satisfy whatever the keys before do, if the dependencies hand it on.
module _ (P : GoString → Type 0) where
  Holds : List GoString → Type 0
  Holds w = (id : GoString) → listed id w ≡ true → P id

  Holds-pass :
      (es : List Dependency) (w : List GoString)
      → ((d : Dependency) → Memᴰ d es → P d.depends_on → P d.task_id)
      → Holds w
      → Holds (pass es w)
  unfolding pass Holds listed any
  Holds-pass [] w f h = h
  Holds-pass (e ∷ es) w f h = elim (Bool-cases (extends w e)) [
    | inl q ↦
        rw (q, if◌then◌else◌)
          (Holds-pass es (e.task_id ∷ w) (λ d m. f d (Memᴰ.tail m))
            (λ id l. elim (Bool-cases (str_eq e.task_id id)) [
              | inl s ↦
                  subst P (ground arith) (f e (Memᴰ.head refl) (h e.depends_on (ground arith)))
              | inr s ↦ h id (ground arith)
            ]))
    | inr q ↦ rw (q, if◌then◌else◌) (Holds-pass es w (λ d m. f d (Memᴰ.tail m)) h)
  ]

-- The dependencies whose task is not among the keys.
unfoldable pub missing : List Dependency → List GoString → ℕ
missing [] w = 0
missing (d ∷ ds) w = let n = missing ds w in if listed d.task_id w then n else n + 1

pub missing-le : (ds : List Dependency) (w : List GoString) → missing ds w ≤ length ds
unfolding missing
missing-le [] w = omega arith
missing-le (d ∷ ds) w = ground (arith, missing-le ds w)

missing-grow :
    (ds : List Dependency) (w : List GoString) (id : GoString) → missing ds (id ∷ w) ≤ missing ds w
unfolding missing listed any
missing-grow [] w id = omega arith
missing-grow (d ∷ ds) w id = ground (arith, missing-grow ds w id)

missing-add :
    (ds : List Dependency) (w : List GoString) (d : Dependency)
    → Memᴰ d ds
    → listed d.task_id w ≡ false
    → missing ds (d.task_id ∷ w) < missing ds w
unfolding missing listed any
missing-add [] w d m n = elim m [ ]
missing-add (e ∷ es) w d (Memᴰ.head p) n = ground (arith, missing-grow es w d.task_id, p)
missing-add (e ∷ es) w d (Memᴰ.tail m) n = ground (arith, missing-add es w d m n)

missing-pass :
    (all es : List Dependency) (w : List GoString)
    → ((d : Dependency) → Memᴰ d es → Memᴰ d all)
    → missing all (pass es w) + length (pass es w) ≤ missing all w + length w
unfolding pass
missing-pass all [] w sub = omega arith
missing-pass all (e ∷ es) w sub = elim (Bool-cases (extends w e)) [
  | inl q ↦
      let step = missing-add all w e (sub e (Memᴰ.head refl)) (ground arith) in
      let rest = missing-pass all es (e.task_id ∷ w) (λ d m. sub d (Memᴰ.tail m)) in
      rw (q, if◌then◌else◌) (omega (arith, step, rest))
  | inr q ↦ rw (q, if◌then◌else◌) (missing-pass all es w (λ d m. sub d (Memᴰ.tail m)))
]

-- What the loop computes: keys that contain the first ones, that no dependency extends, and that
-- satisfy whatever the dependencies hand on from the first ones.
pub record Closed (ds : List Dependency) (w v : List GoString) : Type 1 where
  pub contains : (id : GoString) → listed id w ≡ true → listed id v ≡ true
  pub shut : (d : Dependency) → Memᴰ d ds → extends v d ≡ false
  pub least :
      (P : GoString → Type 0)
      → ((d : Dependency) → Memᴰ d ds → P d.depends_on → P d.task_id)
      → ((id : GoString) → listed id w ≡ true → P id)
      → (id : GoString) → listed id v ≡ true
      → P id

pub saturate-Closed :
    (fuel : ℕ) (ds : List Dependency) (w : List GoString)
    → missing ds w < fuel
    → (v : List GoString) × (saturate fuel ds w ≡ some v) × Closed ds w v
unfolding saturate Holds
saturate-Closed zero ds w h = absurd (omega arith)
saturate-Closed (suc fuel) ds w h = elim (Bool-cases (grew w (pass ds w))) [
  | inl g ↦
      let (v, e, c) =
        saturate-Closed fuel ds (pass ds w) (ground (arith, missing-pass ds ds w (λ d m. m))) in
      rw (g, if◌then◌else◌)
        (
          v,
          e,
          record {
            contains = λ id l. c.contains id (listed-pass id ds w l);
            shut = c.shut;
            least = λ P f h. c.least P f (Holds-pass P ds w f h);
          },
        )
  | inr g ↦
      rw (g, if◌then◌else◌)
        (
          pass ds w,
          refl,
          record {
            contains = λ id l. listed-pass id ds w l;
            shut = λ d m. rw (pass-same ds w g) (pass-closed ds w d g m);
            least = λ P f h. Holds-pass P ds w f h;
          },
        )
]
