-- ===== src/Main/Lines.antt =====
-- A line of the serial port, from its first byte to the end of line: what is carried out.
use mathlib.Core.List.{append_assoc, append-nil}
use quad_bot_code_actuation.Prelude.{
  ℕ, zero, suc, ◌+◌, ◌≤◌, ◌<◌, ◌≡◌, refl, sym, ap, ◌∙◌, Bool, true, false, ltb, u8, ◌==◌,
  Bool-cases, inl, inr, List, [], ◌∷◌, ◌++◌, CString, str, arith, length, length-set, set, take,
  if◌then◌else◌,
}
use quad_bot_code_actuation.Board.{
  State, Env, M, Run, ok, fault, ◌>>◌, done, modify, print, println, text, ◌◂◌,
}
use quad_bot_code_actuation.Main.Console.{on_char, put_byte, c_string, run_line}
use quad_bot_code_actuation.Main.Typing.{
  IsBuffer, is_end, typed, put_byte_known, on_char-typed, typed-IsBuffer,
}

-- The bytes are read one after another.
unfoldable pub feed : ℕ → List ℕ → M (Unit {0})
unfolding on_char
feed polls [] = done
feed polls (c ∷ cs) = on_char polls c >> feed polls cs

-- No byte is an end of line.
abbrev pub all_inside : List ℕ → Bool
all_inside [] = true
all_inside (c ∷ cs) = let rest = all_inside cs in if is_end c then false else rest

abbrev typed_all : List ℕ → State → State
typed_all [] s = s
typed_all (c ∷ cs) s = typed_all cs (typed c s)

feed-typed_all :
    (polls : ℕ) (cs : List ℕ) (env : Env) (s : State)
    → IsBuffer s
    → all_inside cs ≡ true
    → feed polls cs env s ≡ ok tt (typed_all cs s)
unfolding feed
feed-typed_all polls [] env s b h = refl
feed-typed_all polls (c ∷ cs) env s b h =
    ap (λ r. elim r as (λ x. Run (Unit {0})) [ ok a t ↦ feed polls cs env t | fault x ↦ fault x ])
      (on_char-typed polls c env s b (ground (arith, h)))
    ∙ feed-typed_all polls cs env (typed c s) (typed-IsBuffer c s b) (ground (arith, h))

typed_all-IsBuffer : (cs : List ℕ) (s : State) → IsBuffer s → IsBuffer (typed_all cs s)
typed_all-IsBuffer [] s b = b
typed_all-IsBuffer (c ∷ cs) s b = typed_all-IsBuffer cs (typed c s) (typed-IsBuffer c s b)

-- What has been typed of the line.
abbrev pub content : State → List ℕ
content s = take s.input_pos s.input_buffer

take-set :
    (xs : List ℕ) (i v : ℕ) → i < length xs → take (suc i) (set xs i v) ≡ take i xs ++ (v ∷ [])
take-set [] i v h = absurd (omega arith)
take-set (x ∷ xs) zero v h = refl
take-set (x ∷ xs) (suc i) v h = ap (◌∷◌ x) (take-set xs i v (omega arith))

take-append_full : (xs ys : List ℕ) (n : ℕ) → length xs ≡ n → take n (xs ++ ys) ≡ xs
take-append_full [] [] zero h = refl
take-append_full [] (y ∷ ys) zero h = refl
take-append_full (x ∷ xs) ys zero h = absurd (omega arith)
take-append_full [] ys (suc n) h = absurd (omega arith)
take-append_full (x ∷ xs) ys (suc n) h = ap (◌∷◌ x) (take-append_full xs ys n (omega arith))

pub length-content : (n : ℕ) (xs : List ℕ) → n ≤ length xs → length (take n xs) ≡ n
length-content zero xs h = refl
length-content (suc n) [] h = absurd (omega arith)
length-content (suc n) (x ∷ xs) h = ap suc (length-content n xs (omega arith))

pub take_all : (n : ℕ) (xs : List ℕ) → length xs ≤ n → take n xs ≡ xs
take_all zero [] h = refl
take_all zero (x ∷ xs) h = absurd (omega arith)
take_all (suc n) [] h = refl
take_all (suc n) (x ∷ xs) h = ap (◌∷◌ x) (take_all n xs (omega arith))

pub content-typed :
    (c : ℕ) (s : State)
    → IsBuffer s
    → ltb s.input_pos 31 ≡ true
    → content (typed c s) ≡ content s ++ (c ∷ [])
content-typed c s b e =
    rw (e, small) (take-set s.input_buffer s.input_pos c (omega (arith, b.size, b.room)))
  where
    small : u8 (s.input_pos + 1) ≡ suc s.input_pos
    small = ground (arith, e)

typed_full : (c : ℕ) (s : State) → ltb s.input_pos 31 ≡ false → typed c s ≡ s
typed_full c s e = rw e refl

-- The line holds the first 31 bytes.
content-typed_all :
    (cs : List ℕ) (s : State) → IsBuffer s → content (typed_all cs s) ≡ take 31 (content s ++ cs)
content-typed_all [] s b = sym (
    ap (take 31) (append-nil (content s))
    ∙ take_all 31 (content s) (
        omega (
          arith,
          length-content s.input_pos s.input_buffer (omega (arith, b.size, b.room)),
          b.room,
        )))
content-typed_all (c ∷ cs) s b =
    content-typed_all cs (typed c s) (typed-IsBuffer c s b)
    ∙ elim (Bool-cases (ltb s.input_pos 31)) [
      | inl e ↦
          ap (take 31)
            (ap (λ x. x ++ cs) (content-typed c s b e) ∙ append_assoc (content s) (c ∷ []) cs)
      | inr e ↦
          let full = length-content s.input_pos s.input_buffer (omega (arith, b.size, b.room)) in
          let at : length (content s) ≡ 31 = ground (arith, full, e, b.room) in
          ap (λ x. take 31 (content x ++ cs)) (typed_full c s e)
          ∙ take-append_full (content s) cs 31 at
          ∙ sym (take-append_full (content s) (c ∷ cs) 31 at)
    ]

c_string-set : (xs : List ℕ) (i : ℕ) → i < length xs → c_string (set xs i 0) ≡ c_string (take i xs)
unfolding c_string
c_string-set [] i h = absurd (omega arith)
c_string-set (x ∷ xs) zero h = refl
c_string-set (x ∷ xs) (suc i) h =
    ap (λ r. if x == 0 then [] else x ∷ r) (c_string-set xs i (omega arith))

-- Typing changes the buffer and the position only.
abbrev pub with_line : List ℕ → ℕ → State → State
with_line b p s = record s { input_buffer = b; input_pos = p }

pub typed_only : (c : ℕ) (s : State) → (b : List ℕ) × (p : ℕ) × (typed c s ≡ with_line b p s)
typed_only c s = elim (Bool-cases (ltb s.input_pos 31)) [
  | inl e ↦ (set s.input_buffer s.input_pos c, u8 (s.input_pos + 1), rw e refl)
  | inr e ↦ (s.input_buffer, s.input_pos, typed_full c s e)
]

typed_all_only :
    (cs : List ℕ) (s : State) → (b : List ℕ) × (p : ℕ) × (typed_all cs s ≡ with_line b p s)
typed_all_only [] s = (s.input_buffer, s.input_pos, refl)
typed_all_only (c ∷ cs) s =
    let (b, p, q) = typed_all_only cs (typed c s) in
    let (b1, p1, q1) = typed_only c s in (b, p, q ∙ ap (with_line b p) q1)

-- What follows a line: the buffer is empty again.
abbrev pub clear : M (Unit {0})
clear = do modify λ s. record s { input_pos = 0 }; put_byte 0 0

abbrev pub echoed : CString → State → State
echoed line s = record s {
  calls = s.calls ◂ print (text (str "Received command: ")) ◂ println (text line);
}

-- The end of a line carries out what the buffer holds.
pub on_char-end :
    (polls c : ℕ) (env : Env) (s : State)
    → IsBuffer s
    → is_end c ≡ true
    → on_char polls c env s
      ≡ (run_line polls (c_string (content s)) >> clear) env (
          echoed
            (c_string (content s))
            (with_line (set s.input_buffer s.input_pos 0) s.input_pos s))
unfolding on_char
on_char-end polls c env s b h =
    rw (h, ← c_string-set s.input_buffer s.input_pos (omega (arith, b.size, b.room)))
      (ap
        (λ r. elim r as (λ x. Run (Unit {0})) [
          | ok a t ↦
              (run_line polls (c_string t.input_buffer) >> clear) env
                (echoed (c_string t.input_buffer) t)
          | fault x ↦ fault x
        ])
        (put_byte_known s.input_pos 0 env s (omega (arith, b.size, b.room))))

-- Bytes that hold no end of line, typed at the start of a line and ended by one, carry out exactly
-- the line of the first 31 of them (up to a zero byte), once, after an echo of it, and then empty the
-- buffer. Until the end of the line nothing else happens.
pub feed-run_line :
    (polls c : ℕ) (cs : List ℕ) (env : Env) (s : State)
    → IsBuffer s
    → s.input_pos ≡ 0
    → all_inside cs ≡ true
    → is_end c ≡ true
    → (b : List ℕ) × (p : ℕ) × (length b ≡ 32)
      × ((feed polls cs >> on_char polls c) env s
          ≡ (run_line polls (c_string (take 31 cs)) >> clear) env
              (echoed (c_string (take 31 cs)) (with_line b p s)))
feed-run_line polls c cs env s b z h k =
    let t = typed_all cs s in
    let (buf, pos, q) = typed_all_only cs s in
    let line : content t ≡ take 31 cs =
      content-typed_all cs s b ∙ ap (λ p. take 31 (take p s.input_buffer ++ cs)) z in
    (
      set t.input_buffer t.input_pos 0,
      t.input_pos,
      length-set t.input_buffer t.input_pos 0 ∙ (typed_all-IsBuffer cs s b).size,
      ap
            (λ r. elim r as (λ x. Run (Unit {0})) [
              | ok a u ↦ on_char polls c env u
              | fault x ↦ fault x
            ])
            (feed-typed_all polls cs env s b h)
          ∙ on_char-end polls c env t (typed_all-IsBuffer cs s b) k
          ∙ ap
              (λ l.
                (run_line polls (c_string l) >> clear) env (
                  echoed (c_string l) (with_line (set t.input_buffer t.input_pos 0) t.input_pos t)))
              line
          ∙ ap
              (λ u. (run_line polls (c_string (take 31 cs)) >> clear) env (
                echoed (c_string (take 31 cs))
                  (with_line (set t.input_buffer t.input_pos 0) t.input_pos u)))
              q,
    )
