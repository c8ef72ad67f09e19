-- ===== src/Examples/HexLoading.antt =====
-- ihex.rs at concrete inputs.
use rosco_cli.Prelude.{
  ℕ, ◌+◌, ◌<◌, ◌≡◌, ◌⊎◌, refl, arith, codes, some, none, Option, Bool, true, not, ◌&&◌, ◌==◌, List,
  [], ◌∷◌, ◌++◌,
}
use rosco_cli.Memory.{Mem, Holds, SameOutside}
use rosco_cli.Ihex.{
  record_line, end_of_file, records, chunks, records_from, hex2, hex4, hex_digit, push_bytes,
  fold_u8, checksum,
}
use rosco_cli.Ihex.Records.{load, records-load}
use rosco_cli.Ihex.Console.{Console, when_sent, line_of}
use rosco_cli.Ihex.Program.{
  starts_with, contains, started, send_program, with_records, load_records, when_written,
  when_heard, wait_for, write_command, write_keys, write_text,
}
use rosco_cli.Ihex.Chunks.{arriving}
use rosco_cli.Ihex.Words.{IsQuiet, HasNoLoad}
use rosco_cli.Ihex.Typing.{keys, run_command}
use rosco_cli.Ihex.Starting.{Dialogue, send_program-Dialogue}
use rosco_cli.Ihex.Willing.{rejections, repeated, send_program-starts}

abbrev all_of : (ℕ → Bool) → List ℕ → Bool
all_of p [] = true
all_of p (c ∷ cs) = p c && all_of p cs

first_record : record_line 0x0800 0 (0xA9 ∷ 0x08 ∷ []) ≡ codes ":02080000A90845"
unfolding record_line hex2 hex4 hex_digit push_bytes fold_u8 checksum
first_record = refl

last_record : end_of_file ≡ codes ":00000001FF"
unfolding end_of_file record_line hex2 hex4 hex_digit push_bytes fold_u8 checksum
last_record = refl

abbrev memory : Mem
memory x = 0xEA

abbrev program : List ℕ
program = 1 ∷ 2 ∷ 3 ∷ 4 ∷ 5 ∷ 6 ∷ 7 ∷ 8 ∷ 9 ∷ 10 ∷ 11 ∷ 12 ∷ 13 ∷ 14 ∷ 15 ∷ 16 ∷ 17 ∷ []

-- 17 bytes at 0xFFF0 do not fit
too_long : records program 0xFFF0 ≡ none
unfolding records
too_long = refl

no_loads : (cs : List ℕ) → all_of (λ c. not (c == 0x4C)) cs ≡ true → HasNoLoad cs
no_loads [] h = tt
no_loads (c ∷ cs) h = ((λ e. ground arith), no_loads cs (ground arith))

abbrev short_program : List ℕ
short_program = 0xA9 ∷ 8 ∷ 0x60 ∷ []

records-load_example :
    ((0x1_0000 < 0x0800 + 3) × (records short_program 0x0800 ≡ none))
    ⊎ ((lines : List (List ℕ)) × (m' : Mem) × (records short_program 0x0800 ≡ some lines)
        × (load memory (lines ++ end_of_file ∷ []) ≡ some m')
        × Holds m' 0x0800 short_program
        × SameOutside memory m' 0x0800 3)
records-load_example =
    records-load short_program 0x0800 memory (omega arith, (omega arith, (omega arith, tt)))

-- a board that rejects the record of `short_program` twice
abbrev talk : Console
talk = record { rounds = rejections (2 ∷ []); writes_left = 12; written = []; reported = [] }

-- The offer comes in two pieces, and all of the report in one.
abbrev offer : List (Option (List ℕ))
offer = none ∷ some (codes "L\r\nStart Intel he") ∷ none ∷ some (codes "x file load:\r\n") ∷ []

abbrev reply : List (Option (List ℕ))
reply = some (codes "\r\nLoad successful. Start:0800 Bytes:0003\r\n") ∷ none ∷ []

-- a report in which the two words are cut
abbrev cut_reply : List (Option (List ℕ))
cut_reply = some (codes "\r\nLo") ∷ some (codes "ad succ") ∷ none ∷ some (codes "essful. St") ∷ []

line_break : IsQuiet (codes "\r\n")
line_break =
    (((λ e. omega arith), (λ e. omega arith)), (((λ e. omega arith), (λ e. omega arith)), tt))

send_program-starts_example :
    (d : Console) × (send_program 2 0x0800 short_program (arriving offer) (arriving reply) talk
      ≡ (started, d))
    × (d.written
        ≡ keys (codes "L" ++ 0x0D ∷ [])
          ++ repeated (2 ∷ []) (record_line 0x0800 0 short_program ∷ [])
          ++ line_of end_of_file ∷ []
          ++ keys (run_command 0x0800))
unfolding records chunks records_from contains starts_with
send_program-starts_example =
    send_program-starts 2 0x0800 short_program (record_line 0x0800 0 short_program ∷ []) offer reply
      (codes "\r\n") (codes ". Start:0800 Bytes:0003\r\n") (2 ∷ []) talk (omega arith) refl refl
      line_break (no_loads (codes ". Start:0800 Bytes:0003\r\n") refl) refl refl refl
      (omega arith, tt) (omega arith)

cut_reply_starts :
    (d : Console) × (send_program 2 0x0800 short_program (arriving offer) (arriving cut_reply) talk
      ≡ (started, d))
    × (d.written
        ≡ keys (codes "L" ++ 0x0D ∷ [])
          ++ repeated (2 ∷ []) (record_line 0x0800 0 short_program ∷ [])
          ++ line_of end_of_file ∷ []
          ++ keys (run_command 0x0800))
unfolding records chunks records_from contains starts_with
cut_reply_starts =
    send_program-starts 2 0x0800 short_program (record_line 0x0800 0 short_program ∷ []) offer
      cut_reply (codes "\r\n") (codes ". St") (2 ∷ []) talk (omega arith) refl refl line_break
      (no_loads (codes ". St") refl) refl refl refl (omega arith, tt) (omega arith)

-- a board that is told `L` and says nothing then
silent_board :
    (send_program 2 0x0800 short_program [] (arriving reply) talk).1.written
    ≡ (0x4C ∷ []) ∷ (0x0D ∷ []) ∷ []
unfolding send_program records chunks records_from with_records load_records when_written when_heard
    wait_for write_command write_keys write_text when_sent
silent_board = refl

send_program-Dialogue_example :
    Dialogue 2 0x0800 short_program
      (arriving offer)
      (arriving reply)
      memory
      talk
      (send_program 2 0x0800 short_program (arriving offer) (arriving reply) talk).0
      (send_program 2 0x0800 short_program (arriving offer) (arriving reply) talk).1.written
send_program-Dialogue_example =
    send_program-Dialogue 2 0x0800 short_program (arriving offer) (arriving reply) memory talk
      (omega arith, (omega arith, (omega arith, tt)))
