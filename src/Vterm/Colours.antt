-- ===== src/Vterm/Colours.antt =====
-- vterm.c: the true-colour commands, what they send.
use rosco_cli.Prelude.{ℕ, ◌+◌, ◌≤◌, ◌≡◌, List, [], ◌∷◌, ◌++◌, arith, length, take, codes}
use rosco_cli.Memory.{Mem}
use rosco_cli.Vterm.{
  letter_m, semicolon, fg_rgb, bg_rgb, next_bg_rgb, text_of, Image, vt_setcolor_tru_fg,
  vt_setcolor_tru_bg, vt_setcolor_tru,
}
use rosco_cli.Vterm.Build.{Argument, Sent, compose-Sent}
use rosco_cli.Vterm.Commands.{Linked, piece}

-- the text of a colour, three components behind a prefix
abbrev pub colour : (prefix red green blue tail : List ℕ) → List ℕ
colour prefix red green blue tail =
    prefix ++ (take 4 red ++ b';' ∷ (take 4 green ++ b';' ∷ (take 4 blue ++ tail)))

length-colour :
    (red green blue tail : List ℕ)
    → length red ≤ 3
    → length green ≤ 3
    → length blue ≤ 3
    → length (colour [] red green blue tail)
      ≡ length red + length green + length blue + 2 + length tail
length-colour red green blue tail hr hg hb =
    let k1 = piece 4 blue tail in
    let k2 = piece 4 green (b';' ∷ (take 4 blue ++ tail)) in
    let k3 = piece 4 red (b';' ∷ (take 4 green ++ b';' ∷ (take 4 blue ++ tail))) in omega arith

module _ (f : ℕ) (m : Mem) (b w : ℕ) (image : Image) (linked : Linked m b w image) where
  -- The true-colour commands for one ground send their three components of at most 3 characters, given 19 bytes at the block; all 19 are needed for components of 3 characters.
  pub vt_setcolor_tru_fg-Sent :
      (pr pg pb : ℕ) (red green blue : List ℕ)
      → Argument m b w pr red
      → Argument m b w pg green
      → Argument m b w pb blue
      → length red ≤ 3
      → length green ≤ 3
      → length blue ≤ 3
      → 19 ≤ w
      → w ≤ f
      → Sent m
          (vt_setcolor_tru_fg f m b image pr pg pb)
          b
          w
          (colour (codes "[38;2;") red green blue (b'm' ∷ []))
        × Sent m
            (vt_setcolor_tru_bg f m b image pr pg pb)
            b
            w
            (colour (codes "[48;2;") red green blue (b'm' ∷ []))
  unfolding vt_setcolor_tru_fg vt_setcolor_tru_bg text_of
  vt_setcolor_tru_fg-Sent pr pg pb red green blue hr hg hb sr sg sb le fuel =
      let k = length-colour red green blue (b'm' ∷ []) sr sg sb in
      (
        compose-Sent f m b 18 w
            ((image fg_rgb, 7)
              ∷ (pr, 4)
              ∷ (image semicolon, 2)
              ∷ (pg, 4)
              ∷ (image semicolon, 2)
              ∷ (pb, 4)
              ∷ (image letter_m, 2)
              ∷ [])
            (text_of fg_rgb
              ∷ red
              ∷ text_of semicolon
              ∷ green
              ∷ text_of semicolon
              ∷ blue
              ∷ text_of letter_m
              ∷ [])
            (
              linked fg_rgb,
              (hr, (linked semicolon, (hg, (linked semicolon, (hb, (linked letter_m, tt)))))),
            )
            (omega arith) (omega arith) (omega arith) (omega arith) fuel,
        compose-Sent f m b 18 w
            ((image bg_rgb, 7)
              ∷ (pr, 4)
              ∷ (image semicolon, 2)
              ∷ (pg, 4)
              ∷ (image semicolon, 2)
              ∷ (pb, 4)
              ∷ (image letter_m, 2)
              ∷ [])
            (text_of bg_rgb
              ∷ red
              ∷ text_of semicolon
              ∷ green
              ∷ text_of semicolon
              ∷ blue
              ∷ text_of letter_m
              ∷ [])
            (
              linked bg_rgb,
              (hr, (linked semicolon, (hg, (linked semicolon, (hb, (linked letter_m, tt)))))),
            )
            (omega arith) (omega arith) (omega arith) (omega arith) fuel,
      )

  -- The command for both grounds fits its 40 bytes with six components of at most 3 characters.
  pub vt_setcolor_tru-Sent :
      (p1 p2 p3 p4 p5 p6 : ℕ) (r_fg r_bg g_fg g_bg b_fg b_bg : List ℕ)
      → Argument m b w p1 r_fg
      → Argument m b w p2 r_bg
      → Argument m b w p3 g_fg
      → Argument m b w p4 g_bg
      → Argument m b w p5 b_fg
      → Argument m b w p6 b_bg
      → length r_fg ≤ 3
      → length r_bg ≤ 3
      → length g_fg ≤ 3
      → length g_bg ≤ 3
      → length b_fg ≤ 3
      → length b_bg ≤ 3
      → 40 ≤ w
      → w ≤ f
      → Sent m (vt_setcolor_tru f m b image p1 p2 p3 p4 p5 p6) b w (
          colour
            (codes "[38;2;")
            r_fg
            g_fg
            b_fg
            (colour (codes ";48;2;") r_bg g_bg b_bg (b'm' ∷ [])))
  unfolding vt_setcolor_tru text_of
  vt_setcolor_tru-Sent p1 p2 p3 p4 p5 p6 r_fg r_bg g_fg g_bg b_fg b_bg h1 h2 h3 h4 h5 h6 s1 s2 s3 s4
        s5 s6 le fuel =
      let second = colour (codes ";48;2;") r_bg g_bg b_bg (b'm' ∷ []) in
      let k1 = length-colour r_bg g_bg b_bg (b'm' ∷ []) s2 s4 s6 in
      let k2 = length-colour r_fg g_fg b_fg second s1 s3 s5 in
      compose-Sent f m b 40 w
        ((image fg_rgb, 7)
          ∷ (p1, 4)
          ∷ (image semicolon, 2)
          ∷ (p3, 4)
          ∷ (image semicolon, 2)
          ∷ (p5, 4)
          ∷ (image next_bg_rgb, 7)
          ∷ (p2, 4)
          ∷ (image semicolon, 2)
          ∷ (p4, 4)
          ∷ (image semicolon, 2)
          ∷ (p6, 4)
          ∷ (image letter_m, 2)
          ∷ [])
        (text_of fg_rgb
          ∷ r_fg
          ∷ text_of semicolon
          ∷ g_fg
          ∷ text_of semicolon
          ∷ b_fg
          ∷ text_of next_bg_rgb
          ∷ r_bg
          ∷ text_of semicolon
          ∷ g_bg
          ∷ text_of semicolon
          ∷ b_bg
          ∷ text_of letter_m
          ∷ [])
        (
          linked fg_rgb,
          (
            h1,
            (
              linked semicolon,
              (
                h3,
                (
                  linked semicolon,
                  (
                    h5,
                    (
                      linked next_bg_rgb,
                      (
                        h2,
                        (linked semicolon, (h4, (linked semicolon, (h6, (linked letter_m, tt))))),
                      ),
                    ),
                  ),
                ),
              ),
            ),
          ),
        )
        (omega arith) (omega arith) (omega arith) (omega arith) fuel
