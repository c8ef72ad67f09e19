-- ===== src/Kermit/Transfer.antt =====
-- src/kermit.rs: sending packets until they are acknowledged, and a file as a sequence of packets.
use rosco_cli.Prelude.{
  ℕ, zero, suc, ◌+◌, ◌-◌, ◌%◌, max, Bool, true, false, ◌&&◌, Option, none, some, ◌==◌, ltb, leb,
  if◌then◌else◌, List, [], ◌∷◌, ◌++◌, length,
}
use rosco_cli.Kermit.{
  Params, RxPacket, tochar, ctl, check_len, build_packet, encode_byte, parse_params,
}
use rosco_cli.Kermit.Port.{
  Event, cancelled, Error, transfer_cancelled, could_not_write, no_response, unexpected_reply,
  remote_error, exhausted, name_too_long, stuck, Result, ok, err, read_packet,
}

-- the port: what reading will meet, how many writes it takes until it fails, the packets written to it;
-- and the numbers of bytes that were reported as sent
pub record Port : Type 0 where
  pub events : List Event
  pub writes_left : ℕ
  pub written : List (List ℕ)
  pub reported : List ℕ

-- a computation that uses the port
abbrev pub Sender {ℓ} : Type ℓ → Type ℓ
Sender A = Port → Result A × Port

abbrev pub pure {ℓ} : {A : Type ℓ} → A → Sender A
pure a s = (ok a, s)

abbrev pub fail {ℓ} : {A : Type ℓ} → Error → Sender A
fail e s = (err e, s)

unfoldable pub continue {ℓ κ} :
    {A : Type ℓ} {B : Type κ} → Result A × Port → (A → Sender B) → Result B × Port
continue (ok a, s) f = f a s
continue (err e, s) f = (err e, s)

-- the operator `?`
infixl 5 ◌>>=◌
abbrev pub ◌>>=◌ {ℓ κ} : {A : Type ℓ} {B : Type κ} → Sender A → (A → Sender B) → Sender B
(r >>= f) s = continue (r s) f

-- `cancel.load(..)` where nothing is read
unfoldable pub flagged : List Event → Bool
flagged [] = false
flagged (e ∷ es) = elim e [ cancelled ↦ true | _ ↦ false ]

unfoldable pub check_cancel : Sender (Unit {0})
check_cancel s = if flagged s.events then (err transfer_cancelled, s) else (ok tt, s)

-- write_all and flush
unfoldable pub write_all : List ℕ → Sender (Unit {0})
write_all packet s =
    if s.writes_left == 0
    then (err could_not_write, s)
    else (ok tt, record s { writes_left = s.writes_left - 1; written = s.written ++ packet ∷ [] })

unfoldable pub report : ℕ → Sender (Unit {0})
report sent s = (ok tt, record s { reported = s.reported ++ sent ∷ [] })

abbrev pub ack : ℕ
ack = 0x59

abbrev pub remote_failure : ℕ
remote_failure = 0x45

-- the arms of `match read_packet(..)`: the reply is accepted, or it is a remote error, or there is
-- another try
unfoldable pub judge_reply {ℓ} :
    {A : Type ℓ} → Option A → RxPacket → (again : Error → Sender A) → Sender A
judge_reply (some a) reply again = pure a
judge_reply none reply again =
    if reply.ptype == remote_failure
    then fail (remote_error reply.content)
    else again unexpected_reply

unfoldable pub judge {ℓ} :
    {A : Type ℓ} → (RxPacket → Option A) → Result RxPacket → (again : Error → Sender A) → Sender A
judge accept (err e) again = again e
judge accept (ok reply) again = judge_reply (accept reply) reply again

-- the rest of the loop that send_and_ack and exchange_init have, with `left` tries; they differ in the
-- packet, in the replies that they accept and in what these give
unfoldable pub attempts {ℓ} :
    {A : Type ℓ}
    → (packet : List ℕ) (chkt : ℕ) → (RxPacket → Option A)
    → (left : ℕ) (last_error : Error) → Sender A
attempts packet chkt accept zero last_error = fail (exhausted last_error)
attempts packet chkt accept (suc n) last_error = do
  live ← check_cancel
  done ← write_all packet
  λ s.
      let (reply, es) = read_packet chkt s.events in
      judge accept reply (attempts packet chkt accept n) (record s { events = es })

unfoldable pub accept_ack : (seq : ℕ) → RxPacket → Option (Unit {0})
accept_ack seq reply = if reply.ptype == ack && reply.seq == seq % 64 then some tt else none

unfoldable pub send_and_ack : (max_retries seq ptype : ℕ) → List ℕ → Params → Sender (Unit {0})
send_and_ack max_retries seq ptype content params =
    attempts (build_packet seq ptype content params) params.chkt (accept_ack seq)
      (max max_retries 1) no_response

abbrev pub init_params : Params
init_params = record {
  maxl = 94;
  eol = 0x0D;
  qctl = 0x23;
  qbin = none;
  chkt = 0x31;
  npad = 0;
  padc = 0;
}

-- send_init_data
unfoldable pub send_init_content : List ℕ
send_init_content =
    tochar 80 ∷ tochar 5 ∷ tochar 0 ∷ ctl 0 ∷ tochar 0x0D ∷ 0x23 ∷ 0x59 ∷ 0x31 ∷ 0x20 ∷ []

unfoldable pub init_packet : List ℕ
init_packet = build_packet 0 0x53 send_init_content init_params

unfoldable pub accept_init : RxPacket → Option Params
accept_init reply = if reply.ptype == ack then some (parse_params reply.content) else none

unfoldable pub exchange_init : (max_retries : ℕ) → Sender Params
exchange_init max_retries = attempts init_packet 0x31 accept_init (max max_retries 1) no_response

-- `for byte in name.bytes()`
unfoldable pub encode_name : (header : List ℕ) → List ℕ → Params → List ℕ
encode_name header [] params = header
encode_name header (b ∷ bs) params = encode_name (encode_byte header b params) bs params

-- `maxl.saturating_sub(..).max(4)`
unfoldable pub budget_of : Params → ℕ
budget_of params = max (params.maxl - (check_len params.chkt + 2)) 4

-- `while index < bytes.len() && chunk.len() + 4 <= budget`: the chunk, and the bytes from `index` on
unfoldable pub fill_chunk : (budget : ℕ) → Params → (chunk : List ℕ) → List ℕ → List ℕ × List ℕ
fill_chunk budget params chunk [] = (chunk, [])
fill_chunk budget params chunk (b ∷ bs) =
    let rest = fill_chunk budget params (encode_byte chunk b params) bs in
    if leb (length chunk + 4) budget then rest else (chunk, b ∷ bs)

-- `while index < bytes.len()`, on fuel, with the bytes from `index` on; the result is `seq`
unfoldable pub send_data : (f max_retries total budget : ℕ) → Params → (seq : ℕ) → List ℕ → Sender ℕ
send_data f max_retries total budget params seq [] = pure seq
send_data zero max_retries total budget params seq (b ∷ bs) = fail stuck
send_data (suc f) max_retries total budget params seq (b ∷ bs) =
    let (chunk, rest) = fill_chunk budget params [] (b ∷ bs) in
    do
      live ← check_cancel
      acked ← send_and_ack max_retries seq 0x44 chunk params
      told ← report (total - length rest)
      send_data f max_retries total budget params ((seq + 1) % 64) rest

-- what send_file does once it has the parameters
unfoldable pub send_with : (max_retries : ℕ) → (name bytes : List ℕ) → Params → Sender (List ℕ)
send_with max_retries name bytes params =
    let header = encode_name [] name params in
    let budget = budget_of params in
    let go : Sender (List ℕ) = do
      acked ← send_and_ack max_retries 1 0x46 header params
      seq ← send_data (length bytes) max_retries (length bytes) budget params 2 bytes
      ended ← send_and_ack max_retries seq 0x5A [] params
      broken ← send_and_ack max_retries ((seq + 1) % 64) 0x42 [] params
      pure name
    in report 0 >>= (λ told. if ltb budget (length header) then fail (name_too_long budget) else go)

-- The file's bytes and its name are given; `events` begins behind the input that was cleared.
unfoldable pub send_file : (max_retries : ℕ) → (name bytes : List ℕ) → Sender (List ℕ)
send_file max_retries name bytes = do
  params ← exchange_init max_retries
  send_with max_retries name bytes params
