-- ===== src/Examples/GdbPackets.antt =====
-- m68k-stub.c: packets and commands at concrete inputs.
use rosco_cli.Prelude.{
  ℕ, ◌≡◌, refl, arith, codes, List, [], ◌∷◌, ◌++◌, Bool, true, false, none, some, ◌==◌,
  if◌then◌else◌,
}
use rosco_cli.Memory.{Mem, IsStr, store, two_texts, poke}
use rosco_cli.Gdb.Hex.{hex, hex_byte}
use rosco_cli.Gdb.Hex.Laws.{hex_text}
use rosco_cli.Gdb.Packet.{hunt, receive, getpacket, putpacket}
use rosco_cli.Gdb.Packet.Receive.{
  frame_of, frame_with, getpacket-frame, getpacket_refuses, getpacket_stale,
}
use rosco_cli.Gdb.Packet.Send.{resent, putpacket-resent, getpacket-putpacket}
use rosco_cli.Gdb.State.{Stub, Frame, unset, catch_exception}
use rosco_cli.Gdb.Frames.{Layout, resume, set_debug_traps, Hooks, user_hook, no_hook}
use rosco_cli.Gdb.Frames.Laws.{last, link, Resumed, resume-Resumed}
use rosco_cli.Gdb.Frames.Traps.{set_debug_traps-vectors}
use rosco_cli.Gdb.Support.{Firmware}
use rosco_cli.Gdb.Command.{read_memory, write_memory, serve}
use rosco_cli.Gdb.Command.Laws.{IsHex, bus_vector_restored, WriteResult}
use rosco_cli.Gdb.Command.Exchange.{serve_read, verdict, serve_write}

abbrev zeros : Mem
zeros x = 0

abbrev texts : Mem
texts = two_texts 0 (codes "100,2:4142") 0x100 (codes "AB")

abbrev frame0 : Frame
frame0 = record {
  previous = 0x2000;
  exception_pc = 0x1234;
  exception_vector = 33;
  frame_size = 0;
  sr = 0;
  pc = 0;
  format = 0;
  fsave_header = 0;
}

abbrev stub : Stub
stub = record {
  registers = zeros;
  memory = texts;
  in_buffer = texts;
  out_buffer = zeros;
  remote_debug = false;
  vectors = λ v. unset;
  frames = λ p. frame0;
  last_frame = 0x2004;
}

abbrev layout : Layout
layout = record { frame_stack = 0x1000; frame_bytes = 100 }

abbrev no_fault : ℕ → Bool
no_fault x = false

digits_100 : IsHex (codes "100") 0x100
unfolding hex
digits_100 = record {
  digits = 1 ∷ 0 ∷ 0 ∷ [];
  spelled = (refl, (refl, (refl, tt)));
  some_digit = omega arith;
  short = omega arith;
  value = refl;
}

digits_2 : IsHex (codes "2") 2
unfolding hex
digits_2 = record {
  digits = 2 ∷ [];
  spelled = (refl, tt);
  some_digit = omega arith;
  short = omega arith;
  value = refl;
}

serve_read_example :
    (s' : Stub) × (s'.memory ≡ texts)
    × (serve 4 layout none no_fault 5 stub (record {
      sent = [];
      input = frame_of (b'm' ∷ (codes "100" ++ b',' ∷ codes "2")) ++ b'+' ∷ codes "$g";
    })
        ≡ serve 3 layout none no_fault 5 s' (record {
          sent = ([] ++ b'+' ∷ []) ++ frame_of (hex_text (codes "AB"));
          input = codes "$g";
        }))
serve_read_example =
    serve_read 3 layout none no_fault 5 stub [] (codes "$g") (codes "100") (codes "2") (codes "AB")
      0x100 digits_100 digits_2 (omega arith) (omega arith) (refl, (refl, tt)) (λ x lo hi. refl)

getpacket-putpacket_example :
    (out : List ℕ) × (putpacket 9 texts 0x100 (b'+' ∷ []) ≡ some (out, []))
    × (getpacket zeros out
        ≡ some
            (record { buffer = store zeros 0 (codes "AB"); ptr = 0; sent = b'+' ∷ []; rest = [] }))
    × IsStr (store zeros 0 (codes "AB")) 0 (codes "AB")
unfolding poke
getpacket-putpacket_example =
    getpacket-putpacket 9 texts 0x100 zeros (codes "AB") [] (omega arith) (omega arith)
      (omega arith) (omega arith) (omega arith)

putpacket-resent_example :
    putpacket 9 texts 0x100 (codes "-?" ++ b'+' ∷ codes "x")
    ≡ some (resent (frame_of (codes "AB")) (codes "-?"), codes "x")
putpacket-resent_example =
    putpacket-resent 9 texts 0x100 (codes "AB") (codes "-?") (codes "x") (omega arith) (omega arith)
      (omega arith)

getpacket-frame_example :
    (getpacket zeros (codes "+" ++ (frame_of (codes "qC") ++ codes "x"))
      ≡ some (record {
        buffer = store zeros 0 (codes "qC");
        ptr = 0;
        sent = b'+' ∷ [];
        rest = codes "x";
      }))
    × IsStr (store zeros 0 (codes "qC")) 0 (codes "qC")
unfolding poke
getpacket-frame_example =
    getpacket-frame zeros (codes "+") (codes "qC") (codes "x") (omega arith) (omega arith)
      (omega arith) (omega arith)

getpacket_refuses_example :
    getpacket zeros (codes "+" ++ (frame_with b'0' b'0' (codes "qC") ++ codes "x"))
    ≡ receive hunt (store zeros 0 (codes "qC")) (b'-' ∷ []) (codes "x")
unfolding hex_byte hex
getpacket_refuses_example =
    getpacket_refuses zeros (codes "+") (codes "qC") (codes "x") b'0' b'0' (omega arith)
      (omega arith) (omega arith) (omega arith)

abbrev colons : Mem
colons x = b':'

getpacket_stale_example :
    getpacket colons (frame_of (b'?' ∷ []) ++ [])
    ≡ some (record {
      buffer = store colons 0 (b'?' ∷ []);
      ptr = 3;
      sent = b'+' ∷ b'?' ∷ 0 ∷ [];
      rest = [];
    })
getpacket_stale_example = getpacket_stale colons b'?' [] (omega arith) refl

bus_vector_restored_example :
    ((read_memory no_fault 0 stub).vectors 2 ≡ (if 2 == 2 then catch_exception else unset))
    × ((write_memory no_fault 0 stub).vectors 2 ≡ (if 2 == 2 then catch_exception else unset))
bus_vector_restored_example = bus_vector_restored no_fault 0 stub 2

serve_write_example :
    (s' : Stub) × WriteResult (λ x. x == 0x101) stub s' 0x100 (codes "CD")
    × (serve 4 layout none
          (λ x. x == 0x101)
          5
          stub
          (record {
            sent = [];
            input =
                frame_of
                  (b'M' ∷ (codes "100" ++ b',' ∷ (codes "2" ++ b':' ∷ hex_text (codes "CD"))))
                ++ b'+' ∷ [];
          })
        ≡ serve 3 layout none
            (λ x. x == 0x101)
            5
            s'
            (record {
              sent = ([] ++ b'+' ∷ []) ++ frame_of (verdict (λ x. x == 0x101) 0x100 (codes "CD"));
              input = [];
            }))
serve_write_example =
    serve_write 3 layout none (λ x. x == 0x101) 5 stub [] [] (codes "100") (codes "2") (codes "CD")
      0x100 digits_100 digits_2 (omega arith) (omega arith)

resume-Resumed_example :
    (s' : Stub) × (super : Bool) × (resume 5 layout none true (some 0x1234) stub ≡ some (s', super))
    × Resumed stub s' true super (some 0x1234)
resume-Resumed_example =
    resume-Resumed 5 layout true (some 0x1234) stub 1 (link (last refl)) (omega arith) (omega arith)

abbrev hooks : Hooks
hooks = record { exception_hook = user_hook; old_exception_hook = no_hook; initialized = false }

set_debug_traps-vectors_example :
    ((set_debug_traps layout stub hooks).0.vectors 9 ≡ catch_exception)
    × (((set_debug_traps layout stub hooks).0.frames
          (set_debug_traps layout stub hooks).0.last_frame).previous
        ≡ (set_debug_traps layout stub hooks).0.last_frame)
set_debug_traps-vectors_example = set_debug_traps-vectors layout stub hooks 9

abbrev firmware : Firmware
firmware = record { device_support = true; device_count = 2; second_device = true }
