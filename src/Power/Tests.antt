-- ===== src/Power/Tests.antt =====
-- The precharge on concrete readings.
use quad_bot_code_actuation.Prelude.{arith}
use quad_bot_code_actuation.Prelude.Int.{pos}
use quad_bot_code_actuation.Board.{Ends}
use quad_bot_code_actuation.Board.Initial.{initial, answering}
use quad_bot_code_actuation.Power.{precharge}
use quad_bot_code_actuation.Power.Sequence.{Precharged, precharge-Precharged}

precharge-Precharged_example :
    Ends (precharge (pos 1) (answering 300) initial) λ _ t. Precharged (answering 300) 1 initial t
precharge-Precharged_example =
    precharge-Precharged 1 (answering 300) initial (omega arith) (λ past. omega arith)
