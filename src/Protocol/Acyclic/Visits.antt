-- ===== src/Protocol/Acyclic/Visits.antt =====
-- What one visit of the search of `validateAcyclic` does to its marks.
use ago.Protocol.Acyclic.Marking.{marked-head, marked-tail, marked-ne, apart-cons}
use ago.Prelude.{
  ℕ, zero, suc, ◌+◌, ◌<◌, ◌≡◌, refl, sym, subst, true, false, List, [], ◌∷◌, any, arith, Bool-cases,
  inl, inr, length,
}
use ago.Prelude.Outcome.{ok, err, panic, ◌>>=◌}
use ago.GoString.{GoString, str_eq}
use ago.Protocol.Errors.{Checked, Error, cycle}
use ago.Protocol.Records.{Dependency}
use ago.Protocol.Acyclic.{Marks, marked, unmark, adjacent, visit, visit_each}
use ago.Protocol.Acyclic.Chains.{
  Chain, one, Chain-snoc, Depends-adjacent, Topo, unmark_self, remaining, remaining-le-length,
  remaining-lt,
}

module _ (ds : List Dependency) (us : List GoString)
    (inside : (a b : GoString) → marked (adjacent ds a) b ≡ true → marked us b ≡ true) where
  -- Marks between two visits.
  pub record IsSound (m : Marks) : Type 0 where
    pub topo : Topo ds m.visited
    apart : (x : GoString) → marked m.visiting x ≡ true → marked m.visited x ≡ false

  -- What a visit that succeeds did to the marks.
  pub record Kept (m m' : Marks) : Type 0 where
    pub sound : IsSound m'
    visiting : m'.visiting ≡ m.visiting
    grows : (x : GoString) → marked m.visited x ≡ true → marked m'.visited x ≡ true

  -- The only error is a cycle, and there is one.
  abbrev pub Loop : Error → Type 0
  Loop e = (e ≡ cycle) × ((a : GoString) × Chain ds a a)

  abbrev pub Result : (Marks → Type 0) → Checked Marks → Type 0
  Result P (ok m) = P m
  Result P (err e) = Loop e
  Result P panic = ⊥

  -- What a visit may assume of the ids whose visits are open, and of its fuel.
  record Ready (fuel : ℕ) (id : GoString) (m : Marks) : Type 0 where
    sound : IsSound m
    leads : (x : GoString) → marked m.visiting x ≡ true → Chain ds x id
    fuelled : remaining us m.visiting < fuel
    known : marked us id ≡ true

  Ready-Kept :
      {fuel : ℕ} {id : GoString} {m m' : Marks} → Kept m m' → Ready fuel id m → Ready fuel id m'
  Ready-Kept {fuel} k r = record {
    sound = k.sound;
    leads = λ x h. r.leads x (subst (λ l. marked l x ≡ true) k.visiting h);
    fuelled = subst (λ l. remaining us l < fuel) (sym k.visiting) r.fuelled;
    known = r.known;
  }

  still : {m : Marks} → IsSound m → Kept m m
  still s = record { sound = s; visiting = refl; grows = λ x h. h }

  abbrev Visits : (GoString → Marks → Checked Marks) → ℕ → Type 0
  Visits f fuel =
      (id : GoString) (m : Marks)
      → Ready fuel id m
      → Result (λ m'. Kept m m' × (marked m'.visited id ≡ true)) (f id m)

  each_bind :
      (f : GoString → Marks → Checked Marks) (x : GoString) (xs : List GoString) (m : Marks)
      (r : Checked Marks)
      → Result (λ m'. Kept m m' × (marked m'.visited x ≡ true)) r
      → ((m' : Marks)
          → Kept m m'
          → Result
              (λ n. Kept m' n × ((y : GoString) → marked xs y ≡ true → marked n.visited y ≡ true))
              (visit_each f xs m'))
      → Result
          (λ n. Kept m n × ((y : GoString) → marked (x ∷ xs) y ≡ true → marked n.visited y ≡ true))
          (r >>= λ m'. visit_each f xs m')
  unfolding marked any
  each_bind f x xs m (err e) h k = h
  each_bind f x xs m panic h k = h
  each_bind f x xs m (ok m') h k = finish (visit_each f xs m') (k m' h.0)
    where
      later : (y : GoString) → marked (x ∷ xs) y ≡ true → str_eq y x ≡ false → marked xs y ≡ true
      later y q e = ground arith

      finish :
          (r : Checked Marks)
          → Result
              (λ n. Kept m' n × ((y : GoString) → marked xs y ≡ true → marked n.visited y ≡ true))
              r
          → Result
              (λ n.
                Kept m n × ((y : GoString) → marked (x ∷ xs) y ≡ true → marked n.visited y ≡ true))
              r
      finish (err e) g = g
      finish panic g = g
      finish (ok n) g = (
        record {
          sound = g.0.sound;
          visiting = cc (g.0.visiting, h.0.visiting);
          grows = λ y q. g.0.grows y (h.0.grows y q);
        },
        λ y q. elim (Bool-cases (str_eq y x)) [
          | inl e ↦ g.0.grows y (ground (arith, h.1))
          | inr e ↦ g.1 y (later y q e)
        ],
      )

  visit_each_lem :
      (f : GoString → Marks → Checked Marks) (fuel : ℕ)
      → Visits f fuel
      → (xs : List GoString) (m : Marks) → IsSound m
      → ((y : GoString) → marked xs y ≡ true → Ready fuel y m)
      → Result
          (λ n. Kept m n × ((y : GoString) → marked xs y ≡ true → marked n.visited y ≡ true))
          (visit_each f xs m)
  unfolding visit_each marked any
  visit_each_lem f fuel v [] m s r = (still s, λ y q. absurd (no_key y q))
    where
      no_key : (y : GoString) → marked [] y ≡ true → ⊥
      no_key y q = cc
  visit_each_lem f fuel v (x ∷ xs) m s r =
      each_bind f x xs m (f x m) (v x m (r x (marked-head x xs))) (λ m' k.
        visit_each_lem f fuel v xs m' k.sound (λ y q. Ready-Kept k (r y (marked-tail y x xs q))))

  -- The marks while the visit of `id` is open.
  abbrev opened : GoString → Marks → Marks
  opened id m = record m { visiting = id ∷ m.visiting }

  opened-IsSound :
      (id : GoString) (m : Marks) → IsSound m → marked m.visited id ≡ false → IsSound (opened id m)
  unfolding marked any
  opened-IsSound id m s f = record { topo = s.topo; apart = λ x h. ground (arith, s.apart x) }

  opened-Ready :
      (fuel : ℕ) (id : GoString) (m : Marks)
      → Ready (suc fuel) id m
      → marked m.visiting id ≡ false
      → IsSound (opened id m)
      → (y : GoString) → marked (adjacent ds id) y ≡ true
      → Ready fuel y (opened id m)
  opened-Ready fuel id m r e s y q = record {
    sound = s;
    leads = λ x h. elim (Bool-cases (str_eq x id)) [
      | inl p ↦
          let same_id : id ≡ x = ground arith in
          subst (λ w. Chain ds w y) same_id (one (Depends-adjacent ds id y q))
      | inr p ↦ Chain-snoc (r.leads x (marked-ne x id m.visiting h p)) (Depends-adjacent ds id y q)
    ];
    fuelled = omega (arith, remaining-lt us m.visiting id r.known e, r.fuelled);
    known = inside id y q;
  }

  close :
      (id : GoString) (m : Marks)
      → marked m.visiting id ≡ false
      → IsSound m
      → (r : Checked Marks)
      → Result
          (λ n.
            Kept (opened id m) n
            × ((y : GoString) → marked (adjacent ds id) y ≡ true → marked n.visited y ≡ true))
          r
      → Result
          (λ n. Kept m n × (marked n.visited id ≡ true))
          (r >>= λ n. ok (record { visiting = unmark n.visiting id; visited = id ∷ n.visited }))
  close id m e s (err x) h = h
  close id m e s panic h = h
  close id m e s (ok n) h = (
    record {
      sound = record {
        topo =
            (h.0.sound.apart id (open_still id (marked-head id m.visiting)), h.1, h.0.sound.topo);
        apart = λ x q.
            let q' : marked m.visiting x ≡ true = subst (λ l. marked l x ≡ true) restored q in
            apart-cons x id m.visiting n.visited q' e
              (h.0.sound.apart x (open_still x (marked-tail x id m.visiting q')));
      };
      visiting = restored;
      grows = λ x q. marked-tail x id n.visited (h.0.grows x q);
    },
    marked-head id n.visited,
  )
    where
      restored : unmark n.visiting id ≡ m.visiting
      restored = rw h.0.visiting (unmark_self m.visiting id e)

      open_still : (x : GoString) → marked (id ∷ m.visiting) x ≡ true → marked n.visiting x ≡ true
      open_still x q = subst (λ l. marked l x ≡ true) (sym h.0.visiting) q

  visit_lem :
      (fuel : ℕ) (id : GoString) (m : Marks)
      → Ready fuel id m
      → Result (λ m'. Kept m m' × (marked m'.visited id ≡ true)) (visit ds fuel id m)
  unfolding visit
  visit_lem zero id m r = absurd (omega (arith, r.fuelled))
  visit_lem (suc fuel) id m r = elim (Bool-cases (marked m.visiting id)) [
    | inl e ↦ rw e (refl, (id, r.leads id e))
    | inr e ↦ elim (Bool-cases (marked m.visited id)) [
      | inl f ↦ rw (e, f) (still r.sound, f)
      | inr f ↦
          rw (e, f)
            (close id m e r.sound _ (
              visit_each_lem (visit ds fuel) fuel (visit_lem fuel) (adjacent ds id) (opened id m)
                (opened-IsSound id m r.sound f)
                (opened-Ready fuel id m r e (opened-IsSound id m r.sound f))))
    ]
  ]

  pub search_lem :
      (keys : List GoString)
      → ((y : GoString) → marked keys y ≡ true → marked us y ≡ true)
      → Result
          (λ n.
            Kept (record { visiting = []; visited = [] }) n
            × ((y : GoString) → marked keys y ≡ true → marked n.visited y ≡ true))
          (visit_each (visit ds (length us + 1)) keys (record { visiting = []; visited = [] }))
  unfolding marked any
  search_lem keys known =
      visit_each_lem (visit ds (length us + 1)) (length us + 1) (visit_lem (length us + 1)) keys
        (record { visiting = []; visited = [] }) fresh
        λ y q. record {
          sound = fresh;
          leads = λ x h. absurd (cc);
          fuelled = omega (arith, remaining-le-length us);
          known = known y q;
        }
    where
      fresh : IsSound (record { visiting = []; visited = [] })
      fresh = record { topo = tt; apart = λ x h. refl }
