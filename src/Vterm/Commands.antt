-- ===== src/Vterm/Commands.antt =====
-- vterm.c: what the commands that join their arguments send, and how much memory they need for it.
use rosco_cli.Prelude.{
  ℕ, ◌+◌, ◌≤◌, ◌≡◌, List, [], ◌∷◌, ◌++◌, arith, length, take, length-take, length-append, refl,
  subst, ◌∙◌, min, codes,
}
use rosco_cli.Memory.{Mem}
use rosco_cli.Vterm.{
  Literal, bracket, letter_a, letter_b, letter_c, letter_d, letter_m, semicolon, fg_256, bg_256,
  next_bg_256, text_of, Image, compose, vt_move_cursor_up, vt_move_cursor_down, vt_move_cursor_left,
  vt_move_cursor_right, vt_setcolor_4bit_fg, vt_setcolor_4bit_bg, vt_setcolor_4bit,
  vt_setcolor_8bit_fg, vt_setcolor_8bit_bg, vt_setcolor_8bit,
}
use rosco_cli.Vterm.Build.{Argument, Sent, compose-Sent, compose_bracket-Sent}

-- The literals lie where `image` says, away from the block that calloc returned.
abbrev pub Linked : Mem → (b w : ℕ) → Image → Type 0
Linked m b w image = (l : Literal) → Argument m b w (image l) (text_of l)

-- the length of one clipped piece with more text behind it
pub piece : (n : ℕ) (s r : List ℕ) → length (take n s ++ r) ≡ min n (length s) + length r
piece n s r = length-append (take n s) r ∙ rw (length-take n s)

-- the text of a cursor movement, `[` units letter
abbrev pub movement : List ℕ → ℕ → List ℕ
movement s letter = b'[' ∷ (take 8 s ++ letter ∷ [])

-- the text of a move to a position
abbrev pub position : (x y : List ℕ) → List ℕ
position x y = b'[' ∷ (take 8 y ++ b';' ∷ (take 8 x ++ b'f' ∷ []))

module _ (f : ℕ) (m : Mem) (b w : ℕ) (image : Image) (linked : Linked m b w image) where
  move-Sent :
      (p : ℕ) (s : List ℕ) (l : Literal) (c : ℕ)
      → Argument m b w p s
      → length s ≤ 7
      → 10 ≤ w
      → w ≤ f
      → take 2 (text_of l) ++ [] ≡ c ∷ []
      → Sent m
          (compose f m b 10 ((image bracket, 2) ∷ (p, 8) ∷ (image l, 2) ∷ []))
          b
          w
          (movement s c)
  unfolding text_of
  move-Sent p s l c at short le fuel e =
      let k = piece 8 s (c ∷ []) in
      let r =
        compose-Sent f m b 10 w ((image bracket, 2) ∷ (p, 8) ∷ (image l, 2) ∷ [])
          (text_of bracket ∷ s ∷ text_of l ∷ []) (linked bracket, (at, (linked l, tt)))
          (omega arith) le (rw e (omega arith)) (rw e (omega arith)) fuel in
      subst
        (λ t.
          Sent m (compose f m b 10 ((image bracket, 2) ∷ (p, 8) ∷ (image l, 2) ∷ [])) b w
            (b'[' ∷ (take 8 s ++ t)))
        e r

  -- A relative cursor movement whose argument has at most 7 characters sends ESC [ units and its letter inside 10 bytes.
  pub vt_move_cursor-Sent :
      (p : ℕ) (s : List ℕ)
      → Argument m b w p s
      → length s ≤ 7
      → 10 ≤ w
      → w ≤ f
      → Sent m (vt_move_cursor_up f m b image p) b w (movement s b'A')
        × Sent m (vt_move_cursor_down f m b image p) b w (movement s b'B')
        × Sent m (vt_move_cursor_left f m b image p) b w (movement s b'C')
        × Sent m (vt_move_cursor_right f m b image p) b w (movement s b'D')
  unfolding vt_move_cursor_up vt_move_cursor_down vt_move_cursor_left vt_move_cursor_right text_of
  vt_move_cursor-Sent p s at short le fuel = (
    move-Sent p s letter_a b'A' at short le fuel refl,
    move-Sent p s letter_b b'B' at short le fuel refl,
    move-Sent p s letter_c b'C' at short le fuel refl,
    move-Sent p s letter_d b'D' at short le fuel refl,
  )

  -- The four-bit colours: one code of at most 3 characters in 6 bytes, and two of them in 10.
  pub vt_setcolor_4bit-Sent :
      (p q : ℕ) (fg bg : List ℕ)
      → Argument m b w p fg
      → Argument m b w q bg
      → length fg ≤ 3
      → length bg ≤ 3
      → 10 ≤ w
      → w ≤ f
      → Sent m (vt_setcolor_4bit_fg f m b image p) b w (b'[' ∷ (take 5 fg ++ b'm' ∷ []))
        × Sent m (vt_setcolor_4bit_bg f m b image q) b w (b'[' ∷ (take 5 bg ++ b'm' ∷ []))
        × Sent m
            (vt_setcolor_4bit f m b image p q)
            b
            w
            (b'[' ∷ (take 5 fg ++ b';' ∷ (take 4 bg ++ b'm' ∷ [])))
  unfolding vt_setcolor_4bit_fg vt_setcolor_4bit_bg vt_setcolor_4bit text_of
  vt_setcolor_4bit-Sent p q fg bg hp hq sf sb le fuel =
      let k1 = piece 5 fg (b'm' ∷ []) in
      let k2 = piece 5 bg (b'm' ∷ []) in
      let k3 = piece 4 bg (b'm' ∷ []) in
      let k4 = piece 5 fg (b';' ∷ (take 4 bg ++ b'm' ∷ [])) in
      (
        compose_bracket-Sent f m b 6 w ((p, 5) ∷ (image letter_m, 2) ∷ [])
            (fg ∷ text_of letter_m ∷ []) (hp, (linked letter_m, tt)) (omega arith) (omega arith)
            (omega arith) (omega arith) fuel,
        compose_bracket-Sent f m b 6 w ((q, 5) ∷ (image letter_m, 2) ∷ [])
            (bg ∷ text_of letter_m ∷ []) (hq, (linked letter_m, tt)) (omega arith) (omega arith)
            (omega arith) (omega arith) fuel,
        compose_bracket-Sent f m b 10 w
            ((p, 5) ∷ (image semicolon, 2) ∷ (q, 4) ∷ (image letter_m, 2) ∷ [])
            (fg ∷ text_of semicolon ∷ bg ∷ text_of letter_m ∷ [])
            (hp, (linked semicolon, (hq, (linked letter_m, tt)))) (omega arith) (omega arith)
            (omega arith) (omega arith) fuel,
      )

  -- The 256-colour commands: codes of at most 3 characters are sent whole, in the 12 and 20 bytes that are allocated.
  pub vt_setcolor_8bit-Sent :
      (p q : ℕ) (fg bg : List ℕ)
      → Argument m b w p fg
      → Argument m b w q bg
      → length fg ≤ 3
      → length bg ≤ 3
      → 20 ≤ w
      → w ≤ f
      → Sent m (vt_setcolor_8bit_fg f m b image p) b w (codes "[38;5;" ++ (take 4 fg ++ b'm' ∷ []))
        × Sent m
            (vt_setcolor_8bit_bg f m b image q)
            b
            w
            (codes "[48;5;" ++ (take 4 bg ++ b'm' ∷ []))
        × Sent m
            (vt_setcolor_8bit f m b image p q)
            b
            w
            (codes "[38;5;" ++ (take 4 fg ++ (codes ";48;5;" ++ (take 4 bg ++ b'm' ∷ []))))
  unfolding vt_setcolor_8bit_fg vt_setcolor_8bit_bg vt_setcolor_8bit text_of
  vt_setcolor_8bit-Sent p q fg bg hp hq sf sb le fuel =
      let k1 = piece 4 fg (b'm' ∷ []) in
      let k2 = piece 4 bg (b'm' ∷ []) in
      let k3 = piece 4 fg (codes ";48;5;" ++ (take 4 bg ++ b'm' ∷ [])) in
      (
        compose-Sent f m b 12 w ((image fg_256, 7) ∷ (p, 4) ∷ (image letter_m, 2) ∷ [])
            (text_of fg_256 ∷ fg ∷ text_of letter_m ∷ [])
            (linked fg_256, (hp, (linked letter_m, tt))) (omega arith) (omega arith) (omega arith)
            (omega arith) fuel,
        compose-Sent f m b 12 w ((image bg_256, 7) ∷ (q, 4) ∷ (image letter_m, 2) ∷ [])
            (text_of bg_256 ∷ bg ∷ text_of letter_m ∷ [])
            (linked bg_256, (hq, (linked letter_m, tt))) (omega arith) (omega arith) (omega arith)
            (omega arith) fuel,
        compose-Sent f m b 20 w
            ((image fg_256, 7)
              ∷ (p, 4)
              ∷ (image next_bg_256, 7)
              ∷ (q, 4)
              ∷ (image letter_m, 2)
              ∷ [])
            (text_of fg_256 ∷ fg ∷ text_of next_bg_256 ∷ bg ∷ text_of letter_m ∷ [])
            (linked fg_256, (hp, (linked next_bg_256, (hq, (linked letter_m, tt))))) (omega arith)
            (omega arith) (omega arith) (omega arith) fuel,
      )
