-- ===== src/Machine/Apply/Valid.antt =====
-- The boards that `Apply` of internal/agoboardprotocol/state_machine.go returns.
use ago.Prelude.{◌≡◌}
use ago.Prelude.Outcome.{ok}
use ago.Protocol.Records.{Board}
use ago.Protocol.Commands.{Command}
use ago.Protocol.Validate.WellFormed.{IsWellFormed}
use ago.Protocol.Validate.Sound.{validate-IsWellFormed}
use ago.Machine.Work.{Work}
use ago.Machine.Apply.{apply}
use ago.Machine.Apply.Parts.{apply-Applied}

-- The board after a command that succeeds is well formed, whatever the command and whatever the board
-- before it.
pub apply-IsWellFormed :
    (b : Board) (c : Command) {w : Work} → apply b c ≡ ok w → IsWellFormed w.board
apply-IsWellFormed b c {w} h = validate-IsWellFormed w.board (apply-Applied b c h).valid
