-- ===== src/Main/Port.antt =====
-- The serial port as a queue of bytes, and the loop of main.cpp that empties it.
use quad_bot_code_actuation.Prelude.{
  ℕ, zero, suc, ◌≡◌, refl, sym, ap, ◌∙◌, true, false, u8, ◌==◌, List, [], ◌∷◌, arith, length, drop,
  ltb, Bool,
}
use quad_bot_code_actuation.Board.{
  Call, serial_available, serial_read, History, ◌◂◌, State, Env, M, ok, ask, done, ◌>>=◌, ◌>>◌,
}
use quad_bot_code_actuation.Board.Frames.{Part, allowed, Extends, same, more}
use quad_bot_code_actuation.Main.Console.{on_char, loop}

-- The bytes taken from the port so far.
unfoldable pub reads : History → ℕ
reads [] = 0
reads (serial_read ∷ h) = suc (reads h)
reads (_ ∷ h) = reads h

-- Of all the bytes that arrive, those that have not been taken.
unfoldable pub waiting : List ℕ → History → List ℕ
unfolding reads
waiting bytes h = drop (reads h) bytes

-- The port hands out `bytes` in their order: `Serial.available` is how many are left, and
-- `Serial.read` takes the next one.
pub record IsPort (bytes : List ℕ) (env : Env) : Type 0 where
  pub available : (h : History) → env (h ◂ serial_available) ≡ length (waiting bytes h)
  pub read :
      (h : History) (c : ℕ) (cs : List ℕ) → waiting bytes h ≡ c ∷ cs → env (h ◂ serial_read) ≡ c

call-reads :
    (p : Part) (c : Call) (h : History)
    → allowed p serial_read ≡ false
    → allowed p c ≡ true
    → reads (h ◂ c) ≡ reads h
unfolding reads
call-reads p serial_read h o a = let no : true ≡ false = sym a ∙ o in cc
call-reads p c h o a = refl

-- A part that is not the console leaves the bytes where they are.
pub Extends-reads :
    (p : Part) (h : History) {k : History}
    → allowed p serial_read ≡ false
    → Extends p h k
    → reads k ≡ reads h
Extends-reads p h o same = refl
Extends-reads p h o (more {c} {k} a e) = call-reads p c k o a ∙ Extends-reads p h o e

drop_next : (n c : ℕ) (xs cs : List ℕ) → drop n xs ≡ c ∷ cs → drop (suc n) xs ≡ cs
drop_next zero c (x ∷ xs) cs h = ap (drop 1) h
drop_next zero c [] cs h = cc
drop_next (suc n) c [] cs h = cc
drop_next (suc n) c (x ∷ xs) cs h = drop_next n c xs cs h

module _ (bytes : List ℕ) (env : Env) (port : IsPort bytes env) (rounds polls : ℕ) (s : State) where
  -- The state when a byte has been taken.
  abbrev pub taken : State
  taken = record s { calls = s.calls ◂ serial_available ◂ serial_read }

  pub taken-waiting :
      (c : ℕ) (cs : List ℕ) → waiting bytes s.calls ≡ c ∷ cs → waiting bytes taken.calls ≡ cs
  unfolding waiting reads
  taken-waiting c cs w = drop_next (reads s.calls) c bytes cs w

  -- What a round does, by whether the port is empty.
  abbrev rest : Bool → M (Unit {0})
  rest b = elim b [
    | true ↦ done
    | false ↦ do c ← ask serial_read; on_char polls (u8 c); loop rounds polls
  ]

  -- A round of the loop, while a byte is waiting.
  pub loop_byte :
      (c : ℕ) (cs : List ℕ)
      → waiting bytes s.calls ≡ c ∷ cs
      → ltb c 256 ≡ true
      → loop (suc rounds) polls env s ≡ (on_char polls c >> loop rounds polls) env taken
  unfolding loop waiting reads
  loop_byte c cs w small =
      let left : env (s.calls ◂ serial_available) ≡ suc (length cs) =
        port.available s.calls ∙ ap length w in
      let some_left : (env (s.calls ◂ serial_available) == 0) ≡ false = ground (arith, left) in
      let byte : u8 (env (s.calls ◂ serial_available ◂ serial_read)) ≡ c =
        ap u8 (port.read (s.calls ◂ serial_available) c cs w) ∙ ground (arith, small) in
      ap (λ b. rest b env (record s { calls = s.calls ◂ serial_available })) some_left
      ∙ ap (λ b. (on_char polls b >> loop rounds polls) env taken) byte

  pub loop_none :
      waiting bytes s.calls ≡ []
      → loop (suc rounds) polls env s ≡ ok tt (record s { calls = s.calls ◂ serial_available })
  unfolding loop
  loop_none w =
      let none_left : (env (s.calls ◂ serial_available) == 0) ≡ true =
        ap (λ n. n == 0) (port.available s.calls ∙ ap length w) in
      ap (λ b. rest b env (record s { calls = s.calls ◂ serial_available })) none_left
