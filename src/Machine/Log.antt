-- ===== src/Machine/Log.antt =====
-- The events of one `Apply` of internal/agoboardprotocol/state_machine.go, and the versions of the
-- board that they carry.
pub mod Levels
pub mod Handlers
use ago.Prelude.{
  ℕ, zero, suc, ◌+◌, ◌≡◌, refl, ap, sym, subst, ◌∙◌, List, [], ◌∷◌, ◌++◌, length, length-append,
  arith,
}
use ago.Prelude.Ints.{inc_u64}
use ago.GoString.{GoString, codes, print_nat}
use ago.Protocol.Records.{Board}
use ago.Protocol.Commands.{Command, Event, Draft}
use ago.Machine.Work.{Work, emit}

-- The version after `n` events.
abbrev pub advanced : ℕ → ℕ → ℕ
advanced v zero = v
advanced v (suc n) = inc_u64 (advanced v n)

-- The event that follows `n` others.
pub record IsNext (c : Command) (v n : ℕ) (e : Event) : Type 0 where
  pub id : e.id ≡ c.id ++ codes ":" ++ print_nat (n + 1)
  pub command_id : e.command_id ≡ c.id
  pub actor : e.actor ≡ c.actor
  pub version : e.version ≡ advanced v (suc n)

-- The events follow `n` others, one after the other.
abbrev pub Consecutive : Command → ℕ → ℕ → List Event → Type 0
Consecutive c v n [] = Unit {0}
Consecutive c v n (e ∷ es) = IsNext c v n e × Consecutive c v (suc n) es

-- A board of the version `now`, and the events that led to it from the version `v`.
pub record LoggedAt (c : Command) (v now : ℕ) (es : List Event) : Type 0 where
  pub version : now ≡ advanced v (length es)
  pub events : Consecutive c v 0 es

abbrev pub Logged : Command → ℕ → Work → Type 0
Logged c v w = LoggedAt c v w.board.version w.events

Consecutive-snoc :
    (c : Command) (v n : ℕ) (es : List Event) (e : Event)
    → Consecutive c v n es
    → IsNext c v (n + length es) e
    → Consecutive c v n (es ++ e ∷ [])
Consecutive-snoc c v n [] e h k = (subst (λ m. IsNext c v m e) (omega arith) k, tt)
Consecutive-snoc c v n (d ∷ es) e h k =
    (h.0, Consecutive-snoc c v (suc n) es e h.1 (subst (λ m. IsNext c v m e) (omega arith) k))

length-snoc : {A : Type 0} (xs : List A) (x : A) → suc (length xs) ≡ length (xs ++ x ∷ [])
length-snoc xs x = omega (arith, length-append xs (x ∷ []))

from_zero : (n : ℕ) → n ≡ 0 + n
from_zero n = omega arith

pub Logged-emit :
    (c : Command) (v : ℕ) (d : Draft) (w : Work) → Logged c v w → Logged c v (emit c d w)
unfolding emit
Logged-emit c v d w h = record {
  version = ap inc_u64 h.version ∙ ap (advanced v) (length-snoc w.events _);
  events = Consecutive-snoc c v 0 w.events _ h.events (record {
    id = ap (λ n. c.id ++ codes ":" ++ print_nat (n + 1)) (from_zero (length w.events));
    command_id = refl;
    actor = refl;
    version = ap inc_u64 h.version ∙ ap (λ n. advanced v (suc n)) (from_zero (length w.events));
  });
}
