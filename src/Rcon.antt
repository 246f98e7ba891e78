-- ===== src/Rcon.antt =====
-- internal/supervisor/factorio/rcon.go: RCON packets and the exchange that runs one command.
-- A byte is a number below 256. An int32 is its bit pattern, a number below 2 ^ 32: -1 is 2 ^ 32 - 1,
-- and a pattern from 2 ^ 31 on is negative.
pub mod RoundTrip
pub mod Writes
pub mod Await
pub mod Exchange
pub mod Examples
use plexus_controller.Common.{
  trim_right, ℕ, zero, suc, ◌+◌, ◌*◌, ◌/◌, ◌%◌, ◌^◌, ◌≡◌, Bool, true, false, ◌||◌, not, Option,
  none, some, List, [], ◌∷◌, ◌++◌, arith, ltb, leb, ◌==◌, if◌then◌else◌, length, take, drop,
}

abbrev pub rcon_auth : ℕ
rcon_auth = 3

abbrev pub rcon_auth_response : ℕ
rcon_auth_response = 2

abbrev pub rcon_exec : ℕ
rcon_exec = 2

abbrev pub rcon_max_packet : ℕ
rcon_max_packet = 4096

-- The int32 -1.
abbrev pub minus_one : ℕ
minus_one = 4294967295

-- binary.LittleEndian of an int32.
abbrev pub le32 : ℕ → List ℕ
le32 n = n % 256 ∷ n / 256 % 256 ∷ n / 65536 % 256 ∷ n / 16777216 % 256 ∷ []

abbrev pub from_le32 : ℕ → ℕ → ℕ → ℕ → ℕ
from_le32 a b c d = a + 256 * b + 65536 * c + 16777216 * d

abbrev pub packet_payload : ℕ → ℕ → List ℕ → List ℕ
packet_payload id kind body = le32 id ++ (le32 kind ++ (body ++ 0 ∷ 0 ∷ []))

-- The bytes that writeRCONPacket writes; the conversion of the length to int32 wraps around.
unfoldable pub write_rcon_packet : ℕ → ℕ → List ℕ → List ℕ
write_rcon_packet id kind body =
    let payload = packet_payload id kind body in le32 (length payload % 2 ^ 32) ++ payload

-- One Write of the connection: the bytes that went out, and whether it returned no error. Its fault
-- is `none` for no error, and `some n` for an error behind the first n bytes.
abbrev pub put : Option ℕ → List ℕ → List ℕ × Bool
put none bytes = (bytes, true)
put (some n) bytes = (take n bytes, false)

-- The second Write happens only when the first returned no error.
abbrev pub and_then : List ℕ × Bool → List ℕ × Bool → List ℕ × Bool
and_then (bytes, false) next = (bytes, false)
and_then (bytes, true) next = (bytes ++ next.0, next.1)

-- writeRCONPacket to a connection: the Writes k and k + 1, of the length and of the payload. The
-- Writes to the bytes.Buffer before them return no error.
unfoldable pub send_packet : (ℕ → Option ℕ) → ℕ → ℕ → ℕ → List ℕ → List ℕ × Bool
send_packet faults k id kind body =
    let payload = packet_payload id kind body in
    and_then (put (faults k) (le32 (length payload % 2 ^ 32))) (put (faults (suc k)) payload)

pub record Packet : Type 0 where
  pub id : ℕ
  pub kind : ℕ
  pub body : List ℕ

-- The errors of readRCONPacket: the stream ends too early, or the size is refused.
pub data ReadError : Type 0 where
  short_read bad_size : ReadError

-- What is read, with the rest of the stream.
pub data ReadResult : Type 0 where
  ok : Packet → List ℕ → ReadResult
  err : ReadError → ReadResult

abbrev pub is_zero : ℕ → Bool
is_zero b = b == 0

-- The packet of a buffer of at least ten bytes.
unfoldable pub parse_packet : List ℕ → Option Packet
parse_packet (a ∷ b ∷ c ∷ d ∷ e ∷ f ∷ g ∷ h ∷ body) =
    some
      (record { id = from_le32 a b c d; kind = from_le32 e f g h; body = trim_right is_zero body })
parse_packet _ = none

abbrev pub packet_or_short : Option Packet → List ℕ → ReadResult
packet_or_short none rest = err short_read
packet_or_short (some packet) rest = ok packet rest

-- io.ReadFull of `size` bytes, and their packet.
unfoldable pub read_body : ℕ → List ℕ → ReadResult
read_body size stream =
    if ltb (length stream) size
    then err short_read
    else packet_or_short (parse_packet (take size stream)) (drop size stream)

-- A negative size is below ten, too.
abbrev pub size_refused : ℕ → Bool
size_refused size = ltb size 10 || leb (2 ^ 31) size || ltb rcon_max_packet size

unfoldable pub read_rcon_packet : List ℕ → ReadResult
read_rcon_packet (a ∷ b ∷ c ∷ d ∷ stream) =
    if size_refused (from_le32 a b c d) then err bad_size else read_body (from_le32 a b c d) stream
read_rcon_packet _ = err short_read

-- The errors that runRCON returns.
pub data Failure : Type 0 where
  auth_unwritten cancelled auth_failed command_unwritten out_of_fuel : Failure
  read_failed : ReadError → Failure

-- The test of one packet of the loop that waits for the answer to the authentication.
pub data Answer : Type 0 where
  skip refuse accept : Answer

abbrev pub answer_of : Packet → Answer
answer_of packet =
    if not (packet.kind == rcon_auth_response)
    then skip
    else if packet.id == minus_one
    then refuse
    else accept

-- One packet that was read: `more` is what the loop does behind a packet that is skipped. No failure
-- is the break out of the loop.
abbrev pub on_answer : Answer → Option Failure → Option Failure
on_answer skip more = more
on_answer refuse more = some auth_failed
on_answer accept more = none

abbrev pub on_read : ReadResult → (List ℕ → Option Failure) → Option Failure
on_read (err e) more = some (read_failed e)
on_read (ok packet rest) more = on_answer (answer_of packet) (more rest)

-- The bytes that went out and the error of runRCON, from those of the authentication, the error of
-- the loop, and those of the command.
abbrev pub exchange : List ℕ × Bool → Option Failure → List ℕ × Bool → List ℕ × Option Failure
exchange (auth, false) waited command = (auth, some auth_unwritten)
exchange (auth, true) (some e) command = (auth, some e)
exchange (auth, true) none (command, false) = (auth ++ command, some command_unwritten)
exchange (auth, true) none (command, true) = (auth ++ command, none)

-- runRCON. `stream` is what the server sends, `faults k` is the fault of the connection's Write k,
-- and `stopped k` tells whether the context is done when `k` packets were read.
module _ (stopped : ℕ → Bool) where
  unfoldable pub await_auth : ℕ → ℕ → List ℕ → Option Failure
  await_auth zero k stream = some out_of_fuel
  await_auth (suc fuel) k stream =
      if stopped k
      then some cancelled
      else on_read (read_rcon_packet stream) (await_auth fuel (suc k))

  -- One packet takes at least 14 bytes of the stream, so one more than the length of the stream is fuel enough.
  unfoldable pub run_rcon : (ℕ → Option ℕ) → List ℕ → List ℕ → List ℕ → List ℕ × Option Failure
  run_rcon faults stream password command =
      exchange (send_packet faults 0 1 rcon_auth password)
        (await_auth (suc (length stream)) 0 stream) (send_packet faults 2 2 rcon_exec command)
