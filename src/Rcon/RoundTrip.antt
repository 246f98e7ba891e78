-- ===== src/Rcon/RoundTrip.antt =====
-- Reading back a written packet.
use plexus_controller.Common.{
  trim_right, ℕ, ◌+◌, ◌/◌, ◌%◌, ◌^◌, ◌≤◌, ◌<◌, ◌≡◌, refl, ap, ◌∙◌, true, false, some, List, [], ◌∷◌,
  ◌++◌, arith, length, length-append, take-append, drop-append,
}
use plexus_controller.Rcon.{
  le32, from_le32, write_rcon_packet, Packet, bad_size, ok, err, is_zero, parse_packet, read_body,
  size_refused, read_rcon_packet, rcon_max_packet,
}

from_le32-le32 :
    (n : ℕ)
    → n < 2 ^ 32
    → from_le32 (n % 256) (n / 256 % 256) (n / 65536 % 256) (n / 16777216 % 256) ≡ n
from_le32-le32 n h = omega arith

trim_right_zeros :
    (body : List ℕ) → trim_right is_zero (body ++ 0 ∷ 0 ∷ []) ≡ trim_right is_zero body
unfolding trim_right
trim_right_zeros [] = refl
trim_right_zeros (b ∷ body) = rw (trim_right_zeros body)

-- The bytes behind the size field.
abbrev payload : ℕ → ℕ → List ℕ → List ℕ
payload id kind body = le32 id ++ (le32 kind ++ (body ++ 0 ∷ 0 ∷ []))

length-payload : (id kind : ℕ) (body : List ℕ) → length (payload id kind body) ≡ length body + 10
length-payload id kind body = omega (arith, length-append body (0 ∷ 0 ∷ []))

parse-payload :
    (id kind : ℕ) (body : List ℕ)
    → id < 2 ^ 32
    → kind < 2 ^ 32
    → parse_packet (payload id kind body)
      ≡ some (record { id = id; kind = kind; body = trim_right is_zero body })
unfolding parse_packet
parse-payload id kind body hi hk =
    rw (from_le32-le32 id hi, from_le32-le32 kind hk, trim_right_zeros body)

read_body-append :
    (p rest : List ℕ) (packet : Packet)
    → parse_packet p ≡ some packet
    → read_body (length p) (p ++ rest) ≡ ok packet rest
unfolding read_body
read_body-append p rest packet e =
    rw (take-append p rest, drop-append p rest, e) (ground (arith, length-append p rest))

-- A frame of an accepted size is read whole.
read-frame :
    (size : ℕ) (p rest : List ℕ) (packet : Packet)
    → 10 ≤ size
    → size ≤ rcon_max_packet
    → length p ≡ size
    → parse_packet p ≡ some packet
    → read_rcon_packet (le32 size ++ (p ++ rest)) ≡ ok packet rest
unfolding read_rcon_packet
read-frame size p rest packet low high fits e =
    rw (from_le32-le32 size (omega arith))
      (rw accepted (rw (← fits) (read_body-append p rest packet e)))
  where
    accepted : size_refused size ≡ false
    accepted = ground arith

-- A packet of at most 4086 bytes of text is read back from the stream, with what follows it: the
-- same id and kind, and the text without the zero bytes at its end.
pub read-write_rcon_packet :
    (id kind : ℕ) (body rest : List ℕ)
    → id < 2 ^ 32
    → kind < 2 ^ 32
    → length body ≤ 4086
    → read_rcon_packet (write_rcon_packet id kind body ++ rest)
      ≡ ok (record { id = id; kind = kind; body = trim_right is_zero body }) rest
unfolding write_rcon_packet
read-write_rcon_packet id kind body rest hi hk hl =
    ap (λ s. read_rcon_packet (s ++ rest)) framed
    ∙ read-frame (length body + 10) (payload id kind body) rest _ (omega arith) (omega arith)
        (length-payload id kind body) (parse-payload id kind body hi hk)
  where
    framed : write_rcon_packet id kind body ≡ le32 (length body + 10) ++ payload id kind body
    framed = ap (λ n. le32 n ++ payload id kind body) (omega (arith, length-payload id kind body))

-- A longer text is written all the same, and the reader refuses the packet.
pub read-write_rcon_packet_long :
    (id kind : ℕ) (body rest : List ℕ)
    → 4086 < length body
    → length body + 10 < 2 ^ 32
    → read_rcon_packet (write_rcon_packet id kind body ++ rest) ≡ err bad_size
unfolding write_rcon_packet read_rcon_packet
read-write_rcon_packet_long id kind body rest hl hm =
    rw (from_le32-le32 (length (payload id kind body) % 2 ^ 32) (omega arith)) (rw refused)
  where
    size : length (payload id kind body) % 2 ^ 32 ≡ length body + 10
    size = omega (arith, length-payload id kind body)

    refused : size_refused (length (payload id kind body) % 2 ^ 32) ≡ true
    refused = rw size (ground arith)
