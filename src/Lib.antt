-- ===== src/Lib.antt =====
-- The firmware of the quadruped's actuation board (Quadruped_Bot_Actuation_Code/): a Teensy drives
-- eight motor drivers behind an I2C multiplexer, sixteen rotary encoders behind an SPI multiplexer,
-- the current paths of the battery pack, and an L9961 battery management chip on a second I2C bus,
-- and takes commands as lines from the serial port.
--
-- The parts, each a module with its definitions, and below it the modules with what is proved of them:
--   Board         what the firmware runs on: the calls that it makes of the Arduino core and of Wire
--                 and SPI, recorded in the order of time; its global variables (`State`); its control
--                 flow (`M`), with undefined behaviour and endless waits as faults. Board/Pins is
--                 include/PinAssignments.h and reads levels, the selected encoder and the bytes of the
--                 SPI bus off the calls; Board/Traffic reads the messages and registers of I2C devices
--                 off them; Board/Initial has the variables as the program starts; Board/Frames says
--                 which calls and variables each part uses and which it depends on, and
--                 Board/Devices what that leaves alone.
--   I2c           src/I2C_FCT.cpp: I2C_WR, I2C_RD and their Wire1 versions
--   I2cMux        src/I2C_MUX.cpp: I2C_SelectChannel, I2C_DisableAllChannels
--   SpiMux        src/SPI_MUX.cpp: SPI_CS_MUX, ACTIVATE_MUX, DEACTIVATE_MUX
--   Encoder       src/SPI_NCDR_FCT.cpp: readEncoderPosition, readTurns, resetEncoder
--   MotorDriver   src/MotorDriver_LP3943.cpp: all operations of the LP3943
--   Power         src/PWR_MNGMT_FCT.cpp: readPackSense, setDSG, setCHG, precharge
--   Bms/Core      src/Bms_CoreCommands.cpp: registers, conversions and the ready signal
--   Bms/Read      src/BMS_ReadCommands.cpp: measurements and the coulomb counter
--   Bms/Setup     src/BMS_SetupCommands.cpp: configuration, memory, identity, real-time commands
--   Bms/Numerical src/BMS_NumericalCommands.cpp: thresholds
--   Bms/SetUpBms  src/SetUpBMS.cpp: the commands at start-up
--   Bms/Chip      the L9961 as a file of registers, with what each command does to it
--   Main          src/main.cpp: setup, loop and the command line (sscanf in Main/Scan); Main/Robot has
--                 the states of the whole program between its calls of `loop`; Main/Port is the serial
--                 port as a queue of bytes; Main/PowerOn follows commands in it from power on to the
--                 registers, and Main/Interrupts has the ready signal rise after any call
--   Operations    the operations of all parts side by side; Isolation has what they leave alone
-- Prelude has what they share: numbers with their width written out, C strings as lists of bytes, the C
-- library's strtol, strcmp and strcasecmp. Float is IEEE 754 arithmetic as C and C++ have it for
-- `float` and `double`, every operation rounded to the nearest; a product and a sum fused into one
-- operation by a compiler are not modelled.
--
-- A device is an `Env`: what it answers to a call may depend on all calls before it, and nothing is
-- assumed of it but what a theorem names. A pin that was never set counts as low, and the control byte
-- of the I2C multiplexer as 0 at start. `unsigned long`, `unsigned int` and `long` have 32 bits, as on
-- the board. Busy waits (`while (!Wire.available())`, `while (!Serial)`, `while (Serial.available())`)
-- have a number of polls; a wait that outlasts them ends in the fault `hangs`, and the theorems on
-- waits say how many polls are enough. `atof` is a parameter.
--
-- The service routine of the RDY pin can interrupt the main program at any moment. Main/Interrupts has
-- a schedule that says how often it runs after each call that the main program makes: the main program
-- hears the devices with these runs counted in (`heard`), and the history of the board is that of the
-- main program with the calls of the service routine put in (`real`). A run that falls between two calls
-- is placed at the earlier one, and the service routine itself is not interrupted.
--
-- Not modelled: time between calls, the electrical side, and the build files.
pub mod Prelude
pub mod Float
pub mod Board
pub mod I2c
pub mod I2cMux
pub mod SpiMux
pub mod Encoder
pub mod MotorDriver
pub mod Power
pub mod Bms
pub mod Main
pub mod Isolation
pub mod Operations
