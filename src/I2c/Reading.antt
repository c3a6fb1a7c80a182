-- ===== src/I2c/Reading.antt =====
-- The four reads of I2C_FCT.cpp: what they return, with any number of polls from the one on that finds
-- data.
use quad_bot_code_actuation.Prelude.{
  ℕ, zero, suc, ◌%◌, ◌≤◌, ◌≡◌, sym, ap, ◌∙◌, Bool, true, false, ◌==◌, if◌then◌else◌, Bool-cases,
  inl, inr, arith, u8,
}
use quad_bot_code_actuation.Board.{
  State, Env, History, Bus, wire, wire1, begin_transmission, wire_write, end_transmission,
  request_from, wire_available, wire_read, ◌◂◌, Run, ok, fault, M, done, ask, pure, ◌>>=◌,
}
use quad_bot_code_actuation.I2c.{wait_available, i2c_rd, i2c_rd_register, i2c_rd1, i2c_rd1_register}
use quad_bot_code_actuation.I2c.Waiting.{ready_within}

-- The history up to the poll that finds data.
abbrev pub waited : ℕ → Env → Bus → History → History
waited zero env b past = past
waited (suc polls) env b past =
    let later = waited polls env b (past ◂ wire_available b) in
    if env (past ◂ wire_available b) == 0 then later else past ◂ wire_available b

wait_available_enough :
    (n m : ℕ) (b : Bus) (env : Env) (s : State)
    → n ≤ m
    → ready_within n env b s.calls ≡ true
    → wait_available m b env s ≡ ok tt (record s { calls = waited n env b s.calls })
unfolding ready_within wait_available
wait_available_enough zero m b env s h r = cc
wait_available_enough (suc n) zero b env s h r = absurd (omega arith)
wait_available_enough (suc n) (suc m) b env s h r =
    let t = record s { calls = s.calls ◂ wire_available b } in
    let go : Bool → Run (Unit {0}) =
      λ c. (elim c as (λ x. M (Unit {0})) [ true ↦ wait_available m b | false ↦ done ]) env t in
    let end : Bool → Run (Unit {0}) =
      λ c. ok tt (record s { calls = if c then waited n env b t.calls else t.calls }) in
    elim (Bool-cases (env t.calls == 0)) [
      | inl e ↦
          ap go e
          ∙ wait_available_enough n m b env t (omega arith) (ground (arith, r))
          ∙ ap end (sym e)
      | inr e ↦ ap go e ∙ ap end (sym e)
    ]

-- The byte after the poll that finds data.
abbrev pub byte_after : Env → Bus → History → State → Run ℕ
byte_after env b past s =
    ok (env (past ◂ wire_read b) % 256) (record s { calls = past ◂ wire_read b })

abbrev fetch : Bus → M ℕ
fetch b = do v ← ask (wire_read b); pure (u8 v)

-- The state when a read starts to wait.
abbrev pub asking : Bus → ℕ → State → State
asking b chip s = record s {
  calls = s.calls ◂ begin_transmission b chip ◂ end_transmission b false ◂ request_from b chip 1;
}

abbrev pub asking_register : Bus → ℕ → ℕ → State → State
asking_register b chip reg s = record s {
  calls =
      s.calls
      ◂ begin_transmission b chip
      ◂ wire_write b reg
      ◂ end_transmission b false
      ◂ request_from b chip 1;
}

fetched :
    (n m : ℕ) (b : Bus) (env : Env) (s : State)
    → n ≤ m
    → ready_within n env b s.calls ≡ true
    → (wait_available m b >>= λ _. fetch b) env s ≡ byte_after env b (waited n env b s.calls) s
fetched n m b env s h r =
    ap (λ x. elim x as (λ y. Run ℕ) [ ok a t ↦ fetch b env t | fault x ↦ fault x ])
      (wait_available_enough n m b env s h r)

-- When one of `n` polls finds data, each of the four reads of a byte returns with any number of polls
-- from `n` on, and the byte is the one that was read right after that poll.
pub reads_enough :
    (n m chip reg : ℕ) (env : Env) (s : State)
    → n ≤ m
    → ((past : History) → ready_within n env wire past ≡ true)
    → ((past : History) → ready_within n env wire1 past ≡ true)
    → (i2c_rd m chip env s ≡ byte_after env wire (waited n env wire (asking wire chip s).calls) s)
      × (i2c_rd_register m chip reg env s
          ≡ byte_after env wire (waited n env wire (asking_register wire chip reg s).calls) s)
      × (i2c_rd1 m chip env s
          ≡ byte_after env wire1 (waited n env wire1 (asking wire1 chip s).calls) s)
      × (i2c_rd1_register m chip reg env s
          ≡ byte_after env wire1 (waited n env wire1 (asking_register wire1 chip reg s).calls) s)
unfolding i2c_rd i2c_rd_register i2c_rd1 i2c_rd1_register
reads_enough n m chip reg env s h r q = (
  fetched n m wire env (asking wire chip s) h (r _),
  fetched n m wire env (asking_register wire chip reg s) h (r _),
  fetched n m wire1 env (asking wire1 chip s) h (q _),
  fetched n m wire1 env (asking_register wire1 chip reg s) h (q _),
)
