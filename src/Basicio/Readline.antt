-- ===== src/Basicio/Readline.antt =====
-- basicio.c and fgets.c: the line that the user edits, and what is in the buffer then.
use rosco_cli.Prelude.{
  ℕ, suc, ◌+◌, ◌-◌, ◌%◌, ◌<◌, ◌≤◌, ◌≡◌, refl, List, [], ◌∷◌, Bool, true, false, ◌||◌, ◌==◌, ltb,
  if◌then◌else◌, length, arith, Option, none, some, ◌∙◌, Bool-cases, inl, inr, subst,
}
use rosco_cli.Memory.{Mem, poke, poke_self, poke_ne, SameOutside}
use rosco_cli.Basicio.{
  Call, print, println, Read, one_char, backspace, before, full, readline_loop, readline,
}

-- The characters at `buf`, the last one at the front of the list.
abbrev pub Typed : Mem → ℕ → List ℕ → Type 0
Typed m buf [] = Unit
Typed m buf (c ∷ line) = (m (buf + length line) ≡ c) × Typed m buf line

pub Typed-frame :
    (m m' : Mem) (buf : ℕ) (line : List ℕ)
    → Typed m buf line
    → ((x : ℕ) → buf ≤ x → x < buf + length line → m' x ≡ m x)
    → Typed m' buf line
Typed-frame m m' buf [] h same = tt
Typed-frame m m' buf (c ∷ line) (e, h) same = (
  same (buf + length line) (omega arith) (omega arith) ∙ e,
  Typed-frame m m' buf line h (λ x lo hi. same x lo (omega arith)),
)

abbrev pub erase : List ℕ → List ℕ
erase [] = []
erase (c ∷ line) = line

-- A line editor: `line` has its last character at the front. The result says whether a return ended
-- the line; otherwise it has reached its limit.
abbrev pub edit : ℕ → List ℕ → List ℕ → Option (Bool × List ℕ × List ℕ)
edit size line [] = if ltb (length line + 1) size then none else some (false, line, [])
edit size line (c ∷ input) =
    if ltb (length line + 1) size
    then (if c == 0x08 || c == 0x7F
        then edit size (erase line) input
        else if c == 0x0A
        then edit size line input
        else if c == 0x0D
        then some (true, line, input)
        else edit size (c ∷ line) input)
    else some (false, line, c ∷ input)

-- What readline leaves of an edited line.
pub record Entered (m : Mem) (buf size : ℕ) (e : Bool × List ℕ × List ℕ) (r : Read) : Type 0 where
  pub typed : Typed r.memory buf e.1
  pub null : r.memory (buf + length e.1) ≡ 0
  pub result : r.result ≡ (if e.0 then length e.1 else size)
  pub rest : r.input ≡ e.2
  pub frame : SameOutside m r.memory buf size

abbrev pub Agree : Mem → (buf size : ℕ) → Option (Bool × List ℕ × List ℕ) → Option Read → Type 0
Agree m buf size none none = Unit
Agree m buf size none (some r) = ⊥
Agree m buf size (some e) none = ⊥
Agree m buf size (some e) (some r) = Entered m buf size e r

Agree-before :
    (m : Mem) (buf size : ℕ) (call : Call) (e : Option (Bool × List ℕ × List ℕ)) (r : Option Read)
    → Agree m buf size e r
    → Agree m buf size e (before call r)
Agree-before m buf size call none none h = tt
Agree-before m buf size call none (some r) h = elim h [ ]
Agree-before m buf size call (some e) none h = elim h [ ]
Agree-before m buf size call (some e) (some r) h = record {
  typed = h.typed;
  null = h.null;
  result = h.result;
  rest = h.rest;
  frame = h.frame;
}

-- the same from a memory that differs inside the buffer only
Agree-start :
    (m m' : Mem) (buf size : ℕ) (e : Option (Bool × List ℕ × List ℕ)) (r : Option Read)
    → SameOutside m m' buf size
    → Agree m' buf size e r
    → Agree m buf size e r
Agree-start m m' buf size none none same h = tt
Agree-start m m' buf size none (some r) same h = elim h [ ]
Agree-start m m' buf size (some e) none same h = elim h [ ]
Agree-start m m' buf size (some e) (some r) same h = record {
  typed = h.typed;
  null = h.null;
  result = h.result;
  rest = h.rest;
  frame = λ x out. h.frame x out ∙ same x out;
}

module _ (buf size : ℕ) (room : size ≤ 256) where
  full-Agree :
      (m : Mem) (line input : List ℕ)
      → Typed m buf line
      → length line + 1 ≡ size
      → Agree m buf size (some (false, line, input)) (full m buf size input)
  full-Agree m line input h e = record {
    typed =
        Typed-frame m (poke m (buf + size - 1) 0) buf line h
          (λ x lo hi. poke_ne m (buf + size - 1) 0 x (omega arith));
    null =
        subst (λ x. poke m (buf + size - 1) 0 x ≡ 0) (omega arith) (poke_self m (buf + size - 1) 0);
    result = refl;
    rest = refl;
    frame = λ x out. poke_ne m (buf + size - 1) 0 x (omega arith);
  }

  return-Agree :
      (m : Mem) (line input : List ℕ)
      → Typed m buf line
      → length line + 1 < size
      → Agree m buf size (some (true, line, input)) (
          some (record {
            memory = poke m (buf + length line) 0;
            result = length line;
            calls = println [] ∷ [];
            input = input;
          }))
  return-Agree m line input h lt = record {
    typed =
        Typed-frame m (poke m (buf + length line) 0) buf line h
          (λ x lo hi. poke_ne m (buf + length line) 0 x (omega arith));
    null = poke_self m (buf + length line) 0;
    result = refl;
    rest = refl;
    frame = λ x out. poke_ne m (buf + length line) 0 x (omega arith);
  }

  -- a backspace, given what holds of the characters behind it
  erase-Agree :
      (m : Mem) (line input : List ℕ)
      → Typed m buf line
      → length line < size
      → ((m' : Mem) (line' : List ℕ)
          → Typed m' buf line'
          → length line' < size
          → Agree m' buf size
              (edit size line' input)
              (readline_loop m' buf size (length line') input))
      → Agree m buf size (edit size (erase line) input) (
          if ltb 0 (length line)
          then before
              (print backspace)
              (readline_loop (poke m (buf + length line - 1) 0) buf size (length line - 1) input)
          else readline_loop m buf size (length line) input)
  erase-Agree m [] input h lt ih = ih m [] h lt
  erase-Agree m (d ∷ line) input (e, h) lt ih =
      let at : buf + suc (length line) - 1 ≡ buf + length line = omega arith in
      let back : suc (length line) - 1 ≡ length line = omega arith in
      let some_char : ltb 0 (suc (length line)) ≡ true = ground arith in
      let m' = poke m (buf + length line) 0 in
      let h' : Typed m' buf line =
        Typed-frame m m' buf line h (λ x lo hi. poke_ne m (buf + length line) 0 x (omega arith)) in
      rw (some_char, at, back)
        (Agree-before m buf size (print backspace) (edit size line input)
          (readline_loop m' buf size (length line) input)
          (Agree-start m m' buf size (edit size line input)
            (readline_loop m' buf size (length line) input)
            (λ x out. poke_ne m (buf + length line) 0 x (omega arith))
            (ih m' line h' (omega arith))))

  readline_loop-edit :
      (m : Mem) (line input : List ℕ)
      → Typed m buf line
      → length line < size
      → Agree m buf size (edit size line input) (readline_loop m buf size (length line) input)
  unfolding readline_loop
  readline_loop-edit m line [] h lt = elim (Bool-cases (ltb (length line + 1) size)) [
    | inl more ↦ rw (more) tt
    | inr no_room ↦ rw (no_room) (full-Agree m line [] h (ground arith))
  ]
  readline_loop-edit m line (c ∷ input) h lt =
      let n = length line in
      let m1 = poke m (buf + n) c in
      let m2 = poke m1 (buf + n) c in
      let h1 : Typed m1 buf line =
        Typed-frame m m1 buf line h (λ x lo hi. poke_ne m (buf + n) c x (omega arith)) in
      let out1 : SameOutside m m1 buf size = λ x out. poke_ne m (buf + n) c x (omega arith) in
      let out2 : SameOutside m m2 buf size =
        λ x out. poke_ne m1 (buf + n) c x (omega arith) ∙ out1 x out in
      let h2 : Typed m2 buf (c ∷ line) = (
        poke_self m1 (buf + n) c,
        Typed-frame m1 m2 buf line h1 (λ x lo hi. poke_ne m1 (buf + n) c x (omega arith)),
      ) in
      let ignored =
        Agree-start m m1 buf size (edit size line input) (readline_loop m1 buf size n input) out1
          (readline_loop-edit m1 line input h1 lt) in
      elim (Bool-cases (ltb (n + 1) size)) [
        | inr no_room ↦ rw (no_room) (full-Agree m line (c ∷ input) h (ground arith))
        | inl more ↦ elim (Bool-cases (c == 0x08 || c == 0x7F)) [
          | inl erasing ↦
              let r =
                erase-Agree m1 line input h1 lt
                  (λ m' line' h' lt'. readline_loop-edit m' line' input h' lt') in
              rw (more, erasing)
                (Agree-start m m1 buf size (edit size (erase line) input)
                  (if ltb 0 n
                    then before (print backspace)
                        (readline_loop (poke m1 (buf + n - 1) 0) buf size (n - 1) input)
                    else readline_loop m1 buf size n input)
                  out1 r)
          | inr other ↦ elim (Bool-cases (c == 0x0A)) [
            | inl feed ↦ rw (more, other, feed) ignored
            | inr other' ↦ elim (Bool-cases (c == 0x0D)) [
              | inl ended ↦
                  rw (more, other, other', ended)
                    (Agree-start m m1 buf size (some (true, line, input))
                      (some (record {
                        memory = poke m1 (buf + n) 0;
                        result = n;
                        calls = println [] ∷ [];
                        input = input;
                      }))
                      out1 (return-Agree m1 line input h1 (ground arith)))
              | inr char ↦
                  let wrap : (n + 1) % 256 ≡ suc n = ground arith in
                  let r = readline_loop-edit m2 (c ∷ line) input h2 (ground arith) in
                  rw (more, other, other', char, wrap)
                    (Agree-before m buf size (print (one_char c)) (edit size (c ∷ line) input)
                      (readline_loop m2 buf size (suc n) input)
                      (Agree-start m m2 buf size (edit size (c ∷ line) input)
                        (readline_loop m2 buf size (suc n) input) out2 r))
            ]
          ]
        ]
      ]

-- readline is the line editor, for every buffer of 1 to 256 bytes and every input: it waits when the editor does; otherwise the buffer holds the edited line and a null byte, no byte outside it is written, and the result is the line's length after a return and the buffer's size for a line that is full.
pub readline-edit :
    (m : Mem) (buf size : ℕ) (input : List ℕ)
    → 0 < size
    → size ≤ 256
    → Agree m buf size (edit size [] input) (readline m buf size input)
unfolding readline
readline-edit m buf size input some_room room =
    readline_loop-edit buf size room m [] input tt some_room
