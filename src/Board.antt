-- ===== src/Board.antt =====
-- What every part of the firmware runs on: the calls that it makes of the Arduino core and of the
-- Wire and SPI libraries (outside the repository), its global variables, and its control flow.
mod Calls
pub mod Pins
pub mod Traffic
pub mod Initial
pub mod Frames
pub mod Devices
pub use Calls.*
use quad_bot_code_actuation.Prelude.{ℕ, ◌≡◌, refl, sym, subst, Bool, List, CString, if◌then◌else◌}
use quad_bot_code_actuation.Prelude.Int.{ℤ}
use quad_bot_code_actuation.Float.{Float}

-- What the libraries and the devices behind them return to the newest call, all that went before
-- included. Nothing is assumed of it here.
abbrev pub Env : Type 0
Env = History → ℕ

-- The global variables, and the calls made.
pub record State : Type 0 where
  pub calls : History
  pub mux_channel : ℕ  -- SPI_MUX.cpp
  pub current_channel : ℤ  -- I2C_MUX.cpp; -1 for none
  pub offsets : List ℕ  -- SPI_NCDR_FCT.cpp
  pub bms_conversion_active : ℕ  -- Bms_CoreCommands.cpp
  pub bms_data_ready : Bool
  pub bms_data_timestamp : ℕ
  pub total_coulombs : Float  -- BMS_ReadCommands.cpp
  pub total_sample_count : ℕ
  pub input_buffer : List ℕ  -- main.cpp
  pub input_pos : ℕ

-- Undefined behaviour, or a busy wait that outlasts the polls it is given.
pub data Fault : Type 0 where
  out_of_bounds undefined hangs : Fault

pub data Run (A : Type 0) : Type 0 where
  ok : A → State → Run A
  fault : Fault → Run A

abbrev pub M : Type 0 → Type 0
M A = Env → State → Run A

abbrev pub pure : {A : Type 0} → A → M A
pure a env s = ok a s

abbrev pub fail : {A : Type 0} → Fault → M A
fail x env s = fault x

infixl 5 ◌>>=◌ ◌>>◌
abbrev pub ◌>>=◌ : {A B : Type 0} → M A → (A → M B) → M B
◌>>=◌ m f env s = elim (m env s) [ ok a t ↦ f a env t | fault x ↦ fault x ]

abbrev pub ◌>>◌ : {B : Type 0} → M (Unit {0}) → M B → M B
m >> k = m >>= λ _. k

abbrev pub done : M (Unit {0})
done = pure tt

abbrev pub when : Bool → M (Unit {0}) → M (Unit {0})
when b m env s = if b then m env s else ok tt s

-- What the code assumes where it would be undefined otherwise.
abbrev pub require : Bool → M (Unit {0})
require b env s = if b then ok tt s else fault undefined

abbrev pub get : {A : Type 0} → (State → A) → M A
get f env s = ok (f s) s

abbrev pub modify : (State → State) → M (Unit {0})
modify f env s = ok tt (f s)

-- A call that returns nothing that the firmware reads.
abbrev pub call : Call → M (Unit {0})
call c env s = ok tt (record s { calls = s.calls ◂ c })

-- A call whose answer the firmware reads.
abbrev pub ask : Call → M ℕ
ask c env s = ok (env (s.calls ◂ c)) (record s { calls = s.calls ◂ c })

abbrev pub say : CString → M (Unit {0})
say line = call (println (text line))

-- The run returns, and what it returns and leaves satisfies P.
abbrev pub Ends : {A : Type 0} → Run A → (A → State → Type 0) → Type 0
Ends (ok a s) P = P a s
Ends (fault x) P = ⊥

Ends_then :
    {A B : Type 0} (r : Run A) (k : A → State → Run B) (P : A → State → Type 0)
    (Q : B → State → Type 0)
    → Ends r P
    → ((a : A) (t : State) → P a t → Ends (k a t) Q)
    → Ends (elim r [ ok a t ↦ k a t | fault x ↦ fault x ]) Q
Ends_then (ok a t) k P Q h next = next a t h
Ends_then (fault x) k P Q h next = h

-- The rule for a sequence of steps.
pub Ends-bind :
    {A B : Type 0} (m : M A) (k : A → M B) (P : A → State → Type 0) (Q : B → State → Type 0)
    (env : Env) (s : State)
    → Ends (m env s) P
    → ((a : A) (t : State) → P a t → Ends (k a env t) Q)
    → Ends ((m >>= k) env s) Q
Ends-bind m k P Q env s h next = Ends_then (m env s) (λ a t. k a env t) P Q h next

pub Ends_weaken :
    {A : Type 0} (r : Run A) (P Q : A → State → Type 0)
    → ((a : A) (t : State) → P a t → Q a t)
    → Ends r P
    → Ends r Q
Ends_weaken (ok a t) P Q f h = f a t h
Ends_weaken (fault x) P Q f h = h

-- A run that returns has a result.
pub Ends_result :
    {A : Type 0} (r : Run A) (P : A → State → Type 0)
    → Ends r P
    → (a : A) × (t : State) × (r ≡ ok a t)
Ends_result (ok a t) P h = (a, t, refl)
Ends_result (fault x) P h = elim h [ ]

-- Facts about one run are joined.
pub Ends_both :
    {A : Type 0} (r : Run A) (P Q : A → State → Type 0)
    → Ends r P
    → Ends r Q
    → Ends r (λ a t. P a t × Q a t)
Ends_both (ok a t) P Q h k = (h, k)
Ends_both (fault x) P Q h k = h

pub Ends_all :
    {A B : Type 0} (r : Run A) (P : B → A → State → Type 0)
    → B
    → ((b : B) → Ends r (P b))
    → Ends r (λ a t. (b : B) → P b a t)
Ends_all (ok a t) P b h = h
Ends_all (fault x) P b h = h b

-- A step whose outcome is known.
pub Ends_step :
    {A B : Type 0} (m : M A) (k : A → M B) (Q : B → State → Type 0) (env : Env) (s t : State)
    (a : A)
    → m env s ≡ ok a t
    → Ends (k a env t) Q
    → Ends ((m >>= k) env s) Q
Ends_step m k Q env s t a e h =
    subst (λ r. Ends (elim r [ ok a t ↦ k a env t | fault x ↦ fault x ]) Q) (sym e) h

fault_then :
    {A B : Type 0} (r : Run A) (k : A → State → Run B) (P : A → State → Type 0) (x : Fault)
    → Ends r P
    → ((a : A) (t : State) → P a t → k a t ≡ fault x)
    → elim r [ ok a t ↦ k a t | fault y ↦ fault y ] ≡ fault x
fault_then (ok a t) k P x h next = next a t h
fault_then (fault y) k P x h next = elim h [ ]

-- A sequence whose second part fails.
pub fault-bind :
    {A B : Type 0} (m : M A) (k : A → M B) (P : A → State → Type 0) (x : Fault) (env : Env)
    (s : State)
    → Ends (m env s) P
    → ((a : A) (t : State) → P a t → k a env t ≡ fault x)
    → (m >>= k) env s ≡ fault x
fault-bind m k P x env s h next = fault_then (m env s) (λ a t. k a env t) P x h next
