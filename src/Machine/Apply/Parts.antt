-- ===== src/Machine/Apply/Parts.antt =====
-- What a success of `Apply` says of its parts.
use ago.Prelude.{◌≡◌, subst, arith}
use ago.Prelude.Outcome.{ok}
use ago.Protocol.States.{CommandType}
use ago.Protocol.Records.{Board}
use ago.Protocol.Commands.{Command}
use ago.Protocol.Validate.{validate}
use ago.Machine.Work.{Work}
use ago.Machine.Apply.{apply, opened, dispatch, check_current}

pub record Applied (b : Board) (c : Command) (w : Work) : Type 0 where
  pub version : c.expected_version ≡ b.version
  pub current : check_current b ≡ ok tt
  pub handled : dispatch c.type c (opened b) ≡ ok w
  pub valid : validate w.board ≡ ok tt

pub apply-Applied : (b : Board) (c : Command) {w : Work} → apply b c ≡ ok w → Applied b c w
unfolding apply
apply-Applied b c h = ground arith

-- The handler of the command's type returned the result.
pub apply-handled :
    (b : Board) (c : Command) (t : CommandType) {w : Work}
    → c.type ≡ t
    → apply b c ≡ ok w
    → dispatch t c (opened b) ≡ ok w
apply-handled b c t {w} e h =
    subst (λ u. dispatch u c (opened b) ≡ ok w) e (apply-Applied b c h).handled
