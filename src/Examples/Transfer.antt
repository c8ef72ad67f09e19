-- ===== src/Examples/Transfer.antt =====
-- kermit.rs at concrete inputs.
use rosco_cli.Prelude.{
  ℕ, ◌-◌, ◌≢◌, ◌≡◌, refl, inl, arith, codes, some, List, [], ◌∷◌, ◌++◌, max, false, length,
}
use rosco_cli.Kermit.{
  Params, RxPacket, ctl, crc16_kermit, build_packet, encode_with, parse_params, check_len, crc_loop,
  crc_nibble, map_or_none, unwrap_or, quotes, encode_byte, encode_current, is_qbin,
  check_characters, sum_u32, repeat_n, tochar, unchar,
}
use rosco_cli.Kermit.Port.{
  Event, byte, late, Result, ok, read_packet, read_rest, check_rest, read_many, read_byte,
  skip_to_soh, bytes_eq, packet_of,
}
use rosco_cli.Kermit.Packets.{arriving, read_packet-build_packet}
use rosco_cli.Kermit.Quoting.{decode, encoded, decode-encoded}
use rosco_cli.Kermit.Ambiguity.{parse_params-ambiguous}
use rosco_cli.Kermit.Transfer.{
  Port, init_params, accept_ack, send_and_ack, send_file, exchange_init, attempts, check_cancel,
  flagged, write_all, continue, judge, judge_reply, accept_init, send_with, encode_name, budget_of,
  send_data, fill_chunk, report, init_packet, send_init_content,
}
use rosco_cli.Kermit.Retries.{copies, IsAck, Attempted, send_and_ack-Attempted}
use rosco_cli.Kermit.Session.{FileOutcome, send_file-Transferred}
use rosco_cli.Kermit.Delivery.{line}
use rosco_cli.Kermit.Willing.{Sound, Parts}
use rosco_cli.Kermit.Success.{transfer_packets, send_file-succeeds}
use rosco_cli.Kermit.Recovery.{silent, acknowledgement, send_and_ack-recovers}

-- two bytes of padding, the eighth bit quoted by `&`, a CRC
abbrev crc_params : Params
crc_params = record {
  maxl = 94;
  eol = 0x0D;
  qctl = 0x23;
  qbin = some 0x26;
  chkt = 0x33;
  npad = 2;
  padc = 0;
}

crc_of_digits : crc16_kermit (codes "123456789") ≡ 0x2189
unfolding crc16_kermit crc_loop crc_nibble
crc_of_digits = refl

read_packet-build_packet_example :
    read_packet 0x33 (arriving (build_packet 65 0x44 (codes "ABC") crc_params) (byte 7 ∷ []))
    ≡ (ok (record { seq = 1; ptype = 0x44; content = codes "ABC" }), byte 0x0D ∷ byte 7 ∷ [])
unfolding check_len
read_packet-build_packet_example =
    read_packet-build_packet 65 0x44 (codes "ABC") crc_params (byte 7 ∷ []) (λ e. omega arith)
      (omega arith)

decode-encoded_example :
    decode 0x23 (some 0x26) 0 false (encoded crc_params (0 ∷ 0x23 ∷ 0x26 ∷ 0x8D ∷ 0xFF ∷ 0x41 ∷ []))
    ≡ 0 ∷ 0x23 ∷ 0x26 ∷ 0x8D ∷ 0xFF ∷ 0x41 ∷ []
decode-encoded_example =
    decode-encoded crc_params (0 ∷ 0x23 ∷ 0x26 ∷ 0x8D ∷ 0xFF ∷ 0x41 ∷ [])
      (inl (omega arith, omega arith)) (inl (omega arith, omega arith), (λ e. omega arith))
      (omega arith, (omega arith, (omega arith, (omega arith, (omega arith, (omega arith, tt))))))

-- the answer to Send-Init that asks for `A` as the quote of the eighth bit
abbrev odd_answer : List ℕ
odd_answer = codes "~% @-#A1"

parse_params-ambiguous_example :
    (0x41 ≢ ctl 0x41)
    × (encode_with (parse_params odd_answer).qbin 0x41 (parse_params odd_answer)
        ≡ encode_with (parse_params odd_answer).qbin (ctl 0x41) (parse_params odd_answer))
parse_params-ambiguous_example =
    parse_params-ambiguous odd_answer 0x41 refl (omega arith) (omega arith) (λ e. omega arith)
      (λ e. omega arith)

-- the receiver is silent once and then acknowledges packet 5
abbrev port : Port
port = record {
  events = silent 1 (acknowledgement 5 [] init_params []);
  writes_left = 10;
  written = [];
  reported = [];
}

send_and_ack-recovers_example : send_and_ack 3 5 0x44 (codes "ABC") init_params port ≡ (
  ok tt,
  record {
    events = byte 0x0D ∷ [];
    writes_left = 10 - 2;
    written = copies (build_packet 5 0x44 (codes "ABC") init_params) 2;
    reported = [];
  },
)
unfolding check_len
send_and_ack-recovers_example =
    send_and_ack-recovers 3 1 5 0x44 (codes "ABC") [] init_params init_params [] port refl refl
      (λ e. omega arith) (omega arith) (omega arith) (omega arith)

send_and_ack-Attempted_example :
    Attempted
      (Unit {0})
      (build_packet 5 0x44 (codes "ABC") init_params)
      0x31
      (IsAck 5)
      (max 3 1)
      port
      (send_and_ack 3 5 0x44 (codes "ABC") init_params port)
send_and_ack-Attempted_example = send_and_ack-Attempted 3 5 0x44 (codes "ABC") init_params port

-- a receiver that acknowledges each packet of a transfer at once
abbrev willing : Port
willing = record {
  events = acknowledgement 0 (codes "~% @-#Y1") init_params (
      acknowledgement 1 [] init_params (
        acknowledgement 2 [] init_params
          (acknowledgement 3 [] init_params (acknowledgement 4 [] init_params []))));
  writes_left = 10;
  written = [];
  reported = [];
}

send_file-Transferred_example :
    FileOutcome 3
      (codes "PROG.BIN")
      (codes "data")
      (line willing)
      (send_file 3 (codes "PROG.BIN") (codes "data") willing)
send_file-Transferred_example = send_file-Transferred 3 (codes "PROG.BIN") (codes "data") willing

-- Each packet is written once, and the four bytes are reported.
willing_run :
    ((send_file 3 (codes "PROG.BIN") (codes "data") willing).0 ≡ ok (codes "PROG.BIN"))
    × ((send_file 3 (codes "PROG.BIN") (codes "data") willing).1.reported ≡ 0 ∷ 4 ∷ [])
    × (length (send_file 3 (codes "PROG.BIN") (codes "data") willing).1.written ≡ 5)
unfolding send_file exchange_init attempts check_cancel flagged write_all continue judge judge_reply
    accept_init parse_params map_or_none unwrap_or quotes send_with encode_name encode_byte
    encode_with encode_current is_qbin budget_of check_len send_data fill_chunk report send_and_ack
    accept_ack build_packet check_characters crc16_kermit crc_loop crc_nibble sum_u32 repeat_n
    tochar unchar ctl init_packet send_init_content read_packet read_rest check_rest read_many
    read_byte skip_to_soh bytes_eq packet_of rosco_cli.Kermit.Port.continue
willing_run = (refl, refl, refl)

abbrev answer : List ℕ
answer = codes "~% @-#Y1"

init_params-Sound : Sound init_params
init_params-Sound = record { padc = λ e. omega arith; eol = λ e. omega arith }

send_file-succeeds_example :
    (s' : Port) × (parts : List (List ℕ)) × (send_file 3 (codes "PROG.BIN") (codes "data") willing
      ≡ (ok (codes "PROG.BIN"), s'))
    × Parts (budget_of (parse_params answer)) (parse_params answer) 1 (codes "data") parts
    × (s'.written
        ≡ init_packet ∷ [] ++ transfer_packets (parse_params answer) (codes "PROG.BIN") parts)
unfolding parse_params map_or_none unwrap_or quotes unchar ctl encode_byte encode_with
    encode_current is_qbin budget_of check_len fill_chunk
send_file-succeeds_example =
    send_file-succeeds 3 (codes "PROG.BIN") (codes "data") answer init_params init_params [] willing
      refl (omega arith) init_params-Sound refl init_params-Sound (omega arith) refl (omega arith)
