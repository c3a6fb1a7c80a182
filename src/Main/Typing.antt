-- ===== src/Main/Typing.antt =====
-- How the bytes of the serial port become a line: `inputBuffer` and `inputPos`.
use quad_bot_code_actuation.Prelude.{
  ℕ, zero, suc, ◌+◌, ◌≤◌, ◌<◌, ◌≡◌, refl, ap, ◌∙◌, Bool, false, ◌||◌, ◌==◌, ltb, u8, Bool-cases,
  inl, inr, none, some, List, [], ◌∷◌, arith, length, length-set, get_elem?, set, if◌then◌else◌,
}
use quad_bot_code_actuation.Board.{State, Env, Run, ok, fault, out_of_bounds}
use quad_bot_code_actuation.Main.Console.{on_char, put_byte}

-- The buffer has its 32 bytes, and there is room for the terminator.
pub record IsBuffer (s : State) : Type 0 where
  pub size : length s.input_buffer ≡ 32
  pub room : s.input_pos ≤ 31

-- Neither `\n` nor `\r`.
abbrev pub is_end : ℕ → Bool
is_end c = (c == 10) || (c == 13)

-- The state after a byte inside a line: it is stored while there is room, and dropped after.
abbrev pub typed : ℕ → State → State
typed c s =
    if ltb s.input_pos 31
    then record s {
      input_buffer = set s.input_buffer s.input_pos c;
      input_pos = u8 (s.input_pos + 1);
    }
    else s

byte_of : (xs : List ℕ) (i : ℕ) → i < length xs → (v : ℕ) × (get_elem? xs i ≡ some v)
byte_of [] i h = absurd (omega arith)
byte_of (x ∷ xs) zero h = (x, refl)
byte_of (x ∷ xs) (suc i) h = byte_of xs i (omega arith)

pub put_byte_known :
    (i v : ℕ) (env : Env) (s : State)
    → i < length s.input_buffer
    → put_byte i v env s ≡ ok tt (record s { input_buffer = set s.input_buffer i v })
put_byte_known i v env s h =
    let (o, e) = byte_of s.input_buffer i h in
    ap
      (λ r. elim r as (λ x. Run (Unit {0})) [
        | none ↦ fault out_of_bounds
        | some x ↦ ok tt (record s { input_buffer = set s.input_buffer i v })
      ])
      e

-- A byte inside a line stores itself at the end of the buffer, or is dropped when only the room for
-- the terminator is left; nothing else happens.
pub on_char-typed :
    (polls c : ℕ) (env : Env) (s : State)
    → IsBuffer s
    → is_end c ≡ false
    → on_char polls c env s ≡ ok tt (typed c s)
unfolding on_char
on_char-typed polls c env s b h = elim (Bool-cases (ltb s.input_pos 31)) [
  | inl e ↦
      rw (h, e)
        (ap
          (λ r. elim r as (λ x. Run (Unit {0})) [
            | ok a t ↦ ok tt (record t { input_pos = u8 (s.input_pos + 1) })
            | fault x ↦ fault x
          ])
          (put_byte_known s.input_pos c env s (omega (arith, b.size, b.room))))
  | inr e ↦ rw (h, e) refl
]

pub typed-IsBuffer : (c : ℕ) (s : State) → IsBuffer s → IsBuffer (typed c s)
typed-IsBuffer c s b = elim (Bool-cases (ltb s.input_pos 31)) [
  | inl e ↦ rw e (record {
    size = length-set s.input_buffer s.input_pos c ∙ b.size;
    room = ground (arith, e, b.room);
  })
  | inr e ↦ rw e b
]
