-- ===== src/Prelude/Effect.antt =====
-- Methods that change state and may fail. What they changed stays changed behind an error, as the
-- transactions do that were committed before.
use mathlib.Core.Path.{◌≡◌, refl}
use mathlib.Core.Logic.{◌⊎◌, inl, inr}
use mathlib.Core.Bool.{Bool, true, false}
use mathlib.Core.List.{List, [], ◌∷◌}
use ago.Prelude.Outcome.{Outcome, ok, err, panic}
use ago.Prelude.Tests.{if◌then◌else◌}

abbrev pub Act : Type 0 → Type 0 → Type 0 → Type 0
Act S E A = S → S × Outcome E A

module _ {S E A : Type 0} where
  unfoldable pub pure : A → Act S E A
  pure a s = (s, ok a)

  -- `return err`.
  unfoldable pub fail : E → Act S E A
  fail e s = (s, err e)

  unfoldable pub gets : (S → A) → Act S E A
  gets f s = (s, ok (f s))

unfoldable pub update : {S E : Type 0} → (S → S) → Act S E (Unit {0})
update f s = (f s, ok tt)

unfoldable pub skip : {S E : Type 0} → Act S E (Unit {0})
skip s = (s, ok tt)

module _ {S E A B : Type 0} where
  -- The rest runs in the state that the first part left, if that returned a value.
  unfoldable pub proceed : S × Outcome E A → (A → Act S E B) → S × Outcome E B
  proceed (s, ok a) f = f a s
  proceed (s, err e) f = (s, err e)
  proceed (s, panic) f = (s, panic)

  infixl 5 ◌>>=◌
  unfoldable pub ◌>>=◌ : Act S E A → (A → Act S E B) → Act S E B
  unfolding proceed
  ◌>>=◌ m f s = proceed (m s) f

infixl 5 ◌>>◌
unfoldable pub ◌>>◌ : {S E B : Type 0} → Act S E (Unit {0}) → Act S E B → Act S E B
unfolding ◌>>=◌
m >> k = m >>= λ _. k

-- `_, err := f()`: the error is looked at, and is no error of the caller.
module _ {S E A : Type 0} where
  abbrev pub caught : S × Outcome E A → S × Outcome E (Outcome E A)
  caught (s, panic) = (s, panic)
  caught (s, r) = (s, ok r)

  unfoldable pub attempt : Act S E A → Act S E (Outcome E A)
  attempt m s = caught (m s)

-- `for _, x := range xs { … }`.
module _ {S E A : Type 0} where
  unfoldable pub for_each : List A → (A → Act S E (Unit {0})) → Act S E (Unit {0})
  unfolding ◌>>◌ skip
  for_each [] f = skip
  for_each (x ∷ xs) f = f x >> for_each xs f

-- Either the first part returned a value and the rest ran behind it, or the first part was all.
module _ {S E A B : Type 0} where
  proceed_cases :
      (r : S × Outcome E A) (f : A → Act S E B)
      → ((s : S) × (a : A) × (r ≡ (s, ok a)) × (proceed r f ≡ f a s)) ⊎ ((proceed r f).0 ≡ r.0)
  unfolding proceed
  proceed_cases (s, ok a) f = inl (s, a, refl, refl)
  proceed_cases (s, err e) f = inr refl
  proceed_cases (s, panic) f = inr refl

  pub bind_cases :
      (m : Act S E A) (f : A → Act S E B) (s : S)
      → ((t : S) × (a : A) × (m s ≡ (t, ok a)) × ((m >>= f) s ≡ f a t))
        ⊎ (((m >>= f) s).0 ≡ (m s).0)
  unfolding ◌>>=◌
  bind_cases m f s = proceed_cases (m s) f

-- A relation that holds between the states before and after every run, whatever the result.
pub record IsPreorder {S : Type 0} (R : S → S → Type 0) : Type 0 where
  pub same : (s : S) → R s s
  pub chain : {a b c : S} → R a b → R b c → R a c

pub record Keeps {S E A : Type 0} (R : S → S → Type 0) (m : Act S E A) : Type 0 where
  pub runs : (s : S) → R s (m s).0

module _ {S : Type 0} {R : S → S → Type 0} (o : IsPreorder R) {E : Type 0} where
  pub Keeps-pure : {A : Type 0} (a : A) → Keeps R (pure {E = E} a)
  unfolding pure
  Keeps-pure a = record { runs = o.same }

  pub Keeps-fail : {A : Type 0} (e : E) → Keeps R (fail {A = A} e)
  unfolding fail
  Keeps-fail e = record { runs = o.same }

  pub Keeps-skip : Keeps R (skip {E = E})
  unfolding skip
  Keeps-skip = record { runs = o.same }

  pub Keeps-gets : {A : Type 0} (f : S → A) → Keeps R (gets {E = E} f)
  unfolding gets
  Keeps-gets f = record { runs = o.same }

  Keeps-proceed :
      {A B : Type 0} (s : S) (r : S × Outcome E A) (f : A → Act S E B)
      → R s r.0
      → ((a : A) → Keeps R (f a))
      → R s (proceed r f).0
  unfolding proceed
  Keeps-proceed s (t, ok a) f h g = o.chain h ((g a).runs t)
  Keeps-proceed s (t, err e) f h g = h
  Keeps-proceed s (t, panic) f h g = h

  pub Keeps->>= :
      {A B : Type 0} (m : Act S E A) (f : A → Act S E B)
      → Keeps R m
      → ((a : A) → Keeps R (f a))
      → Keeps R (m >>= f)
  unfolding ◌>>=◌
  Keeps->>= m f h g = record { runs = λ s. Keeps-proceed s (m s) f (h.runs s) g }

  -- The first part may rely on what holds where it starts.
  pub starts->> :
      {B : Type 0} (s : S) (m : Act S E (Unit {0})) (k : Act S E B)
      → R s (m s).0
      → Keeps R k
      → R s ((m >> k) s).0
  unfolding ◌>>◌ ◌>>=◌
  starts->> s m k h g = Keeps-proceed s (m s) (λ _. k) h (λ _. g)

  pub Keeps->> :
      {B : Type 0} (m : Act S E (Unit {0})) (k : Act S E B)
      → Keeps R m
      → Keeps R k
      → Keeps R (m >> k)
  unfolding ◌>>◌
  Keeps->> m k h g = Keeps->>= m (λ _. k) h (λ _. g)

  Keeps-caught : {A : Type 0} (s : S) (r : S × Outcome E A) → R s r.0 → R s (caught r).0
  Keeps-caught s (t, ok a) h = h
  Keeps-caught s (t, err e) h = h
  Keeps-caught s (t, panic) h = h

  pub Keeps-attempt : {A : Type 0} (m : Act S E A) → Keeps R m → Keeps R (attempt m)
  unfolding attempt
  Keeps-attempt m h = record { runs = λ s. Keeps-caught s (m s) (h.runs s) }

  pub Keeps-if :
      {A : Type 0} (b : Bool) (m n : Act S E A)
      → (b ≡ true → Keeps R m)
      → (b ≡ false → Keeps R n)
      → Keeps R (if b then m else n)
  Keeps-if true m n h g = h refl
  Keeps-if false m n h g = g refl

  -- The same where the test looks at the state.
  pub keeps_choice :
      {A : Type 0} (s : S) (b : Bool) (x y : S × Outcome E A)
      → (b ≡ true → R s x.0)
      → (b ≡ false → R s y.0)
      → R s (if b then x else y).0
  keeps_choice s true x y h g = h refl
  keeps_choice s false x y h g = g refl

  pub Keeps-for_each :
      {A : Type 0} (xs : List A) (f : A → Act S E (Unit {0}))
      → ((x : A) → Keeps R (f x))
      → Keeps R (for_each xs f)
  unfolding for_each
  Keeps-for_each [] f h = Keeps-skip
  Keeps-for_each (x ∷ xs) f h = Keeps->> (f x) (for_each xs f) (h x) (Keeps-for_each xs f h)

pub ruleset keeps_rules = (
  Keeps-pure, Keeps-fail, Keeps-skip, Keeps-gets, Keeps->>=, Keeps->>, Keeps-attempt, Keeps-if,
  Keeps-for_each,
)
