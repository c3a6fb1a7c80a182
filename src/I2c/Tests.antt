-- ===== src/I2c/Tests.antt =====
-- The busy wait with a device that answers, and with none.
use quad_bot_code_actuation.Board.{fault, hangs}
use quad_bot_code_actuation.I2c.{wait_available}
use quad_bot_code_actuation.I2c.Waiting.{wait_available_silent}
use quad_bot_code_actuation.Prelude.{refl}
use quad_bot_code_actuation.Prelude.{true, arith}
use quad_bot_code_actuation.Board.{wire1, Bus, History}
use quad_bot_code_actuation.I2c.{i2c_rd, i2c_rd_register, i2c_rd1, i2c_rd1_register}
use quad_bot_code_actuation.I2c.Waiting.{ready_within}
use quad_bot_code_actuation.I2c.Reading.{byte_after, waited, asking, asking_register, reads_enough}
use quad_bot_code_actuation.Prelude.{◌≡◌, refl}
use quad_bot_code_actuation.Board.{wire}
use quad_bot_code_actuation.Board.Initial.{initial, answering}

ready_at_once : (b : Bus) (past : History) → ready_within 1 (answering 7) b past ≡ true
unfolding ready_within
ready_at_once b past = refl

reads_enough_example :
    (i2c_rd 5 0x60 (answering 7) initial
      ≡ byte_after
          (answering 7)
          wire
          (waited 1 (answering 7) wire (asking wire 0x60 initial).calls)
          initial)
    × (i2c_rd_register 5 0x60 3 (answering 7) initial
        ≡ byte_after
            (answering 7)
            wire
            (waited 1 (answering 7) wire (asking_register wire 0x60 3 initial).calls)
            initial)
    × (i2c_rd1 5 0x60 (answering 7) initial
        ≡ byte_after
            (answering 7)
            wire1
            (waited 1 (answering 7) wire1 (asking wire1 0x60 initial).calls)
            initial)
    × (i2c_rd1_register 5 0x60 3 (answering 7) initial
        ≡ byte_after
            (answering 7)
            wire1
            (waited 1 (answering 7) wire1 (asking_register wire1 0x60 3 initial).calls)
            initial)
reads_enough_example =
    reads_enough 1 5 0x60 3 (answering 7) initial (omega arith) (ready_at_once wire)
      (ready_at_once wire1)

wait_available_silent_example : wait_available 100 wire (answering 0) initial ≡ fault hangs
wait_available_silent_example = wait_available_silent 100 wire (answering 0) initial (λ past. refl)
