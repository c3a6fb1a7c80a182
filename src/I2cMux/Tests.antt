-- ===== src/I2cMux/Tests.antt =====
-- Selections on the multiplexer.
use quad_bot_code_actuation.Prelude.{refl, List, [], ◌∷◌}
use quad_bot_code_actuation.Board.{Ends}
use quad_bot_code_actuation.Board.Traffic.{messages, control}
use quad_bot_code_actuation.Board.Initial.{initial, answering}
use quad_bot_code_actuation.I2cMux.Selection.{IsInSync}
use quad_bot_code_actuation.I2cMux.Sequence.{
  Command, select, disable, perform_all, channel_after, Switched, perform_all-Switched,
}

-- A channel that does not exist comes last.
abbrev selections : List Command
selections = select 3 ∷ disable ∷ select 5 ∷ select 5 ∷ select 9 ∷ []

initial-IsInSync : IsInSync initial
unfolding control messages
initial-IsInSync = record { channel = refl; same = refl }

perform_all-Switched_example :
    Ends
      (perform_all selections (answering 0) initial)
      λ _ t. Switched (channel_after selections initial.current_channel) initial t
perform_all-Switched_example =
    perform_all-Switched selections (answering 0) initial initial-IsInSync
