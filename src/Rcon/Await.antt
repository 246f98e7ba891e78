-- ===== src/Rcon/Await.antt =====
-- The loop of runRCON that waits for the answer to the authentication: it ends, and it ends without
-- an error exactly if the server grants the authentication.
use plexus_controller.Common.{
  ℕ, zero, suc, ◌+◌, ◌-◌, ◌≤◌, ◌<◌, ◌≡◌, refl, ◌≢◌, ◌↔◌, inl, inr, Bool, false, Option, none, some,
  List, [], ◌∷◌, arith, ltb, Bool-cases, length, take, drop,
}
use plexus_controller.Rcon.{
  Packet, ReadResult, ok, err, parse_packet, packet_or_short, read_body, size_refused,
  read_rcon_packet, from_le32, Failure, out_of_fuel, Answer, skip, refuse, accept, answer_of,
  on_answer, on_read, await_auth, rcon_auth_response, minus_one,
}

length-drop : (n : ℕ) (xs : List ℕ) → length (drop n xs) ≡ length xs - n
length-drop zero xs = omega arith
length-drop (suc n) [] = omega arith
length-drop (suc n) (x ∷ xs) = omega (arith, length-drop n xs)

read_body-rest :
    (size : ℕ) (stream : List ℕ) {packet : Packet} {rest : List ℕ}
    → read_body size stream ≡ ok packet rest
    → length rest + size ≤ length stream
unfolding read_body
read_body-rest size stream {packet} {rest} h =
    go (parse_packet (take size stream)) {packet = packet} {rest = rest} (ground arith)
      (ground arith)
  where
    go :
        (o : Option Packet) {packet : Packet} {rest : List ℕ}
        → ltb (length stream) size ≡ false
        → packet_or_short o (drop size stream) ≡ ok packet rest
        → length rest + size ≤ length stream
    go none a b = cc
    go (some p) a b = ground (arith, length-drop size stream)

-- A packet takes bytes of the stream.
read_rcon_packet-rest :
    (stream : List ℕ) {packet : Packet} {rest : List ℕ}
    → read_rcon_packet stream ≡ ok packet rest
    → length rest < length stream
unfolding read_rcon_packet
read_rcon_packet-rest (a ∷ b ∷ c ∷ d ∷ stream) {packet} {rest} h =
    elim (Bool-cases (size_refused (from_le32 a b c d))) [
      | inl e ↦ absurd (ground arith)
      | inr e ↦
          ground (arith, read_body-rest (from_le32 a b c d) stream {packet = packet} {rest = rest})
    ]
read_rcon_packet-rest _ h = cc

-- The server grants the authentication: behind packets that are no answer to it comes one that is,
-- with an id other than -1, and the context is not done before.
pub data Granted (stopped : ℕ → Bool) : ℕ → List ℕ → Type 0 where
  now :
      (k : ℕ) (stream : List ℕ) (packet : Packet) (rest : List ℕ)
      → stopped k ≡ false
      → read_rcon_packet stream ≡ ok packet rest
      → packet.kind ≡ rcon_auth_response
      → packet.id ≢ minus_one
      → Granted stopped k stream
  later :
      (k : ℕ) (stream : List ℕ) (packet : Packet) (rest : List ℕ)
      → stopped k ≡ false
      → read_rcon_packet stream ≡ ok packet rest
      → packet.kind ≢ rcon_auth_response
      → Granted stopped (suc k) rest
      → Granted stopped k stream

answer_of-accept :
    (packet : Packet)
    → (answer_of packet ≡ accept) ↔ ((packet.kind ≡ rcon_auth_response) × (packet.id ≢ minus_one))
answer_of-accept packet = ground arith

answer_of-skip : (packet : Packet) → (answer_of packet ≡ skip) ↔ (packet.kind ≢ rcon_auth_response)
answer_of-skip packet = ground arith

-- A loop that ends behind each shorter stream ends.
on_read_ends :
    (r : ReadResult) (stream : List ℕ) (more : List ℕ → Option Failure)
    → read_rcon_packet stream ≡ r
    → ((rest : List ℕ) → length rest < length stream → more rest ≢ some out_of_fuel)
    → on_read r more ≢ some out_of_fuel
on_read_ends (err e) stream more h ih p = cc
on_read_ends (ok packet rest) stream more h ih p =
    ih rest (read_rcon_packet-rest stream h) (go (answer_of packet) p)
  where
    go : (a : Answer) → on_answer a (more rest) ≡ some out_of_fuel → more rest ≡ some out_of_fuel
    go skip q = q
    go refuse q = cc
    go accept q = cc

module _ (stopped : ℕ → Bool) where
  pub await_auth_ends :
      (fuel k : ℕ) (stream : List ℕ)
      → length stream < fuel
      → await_auth stopped fuel k stream ≢ some out_of_fuel
  unfolding await_auth
  await_auth_ends zero k stream h = absurd (omega arith)
  await_auth_ends (suc fuel) k stream h = elim (Bool-cases (stopped k)) [
    | inl e ↦ λ p. cc (rw e at p)
    | inr e ↦ rw e (
        on_read_ends (read_rcon_packet stream) stream (await_auth stopped fuel (suc k)) refl
          (λ rest q. await_auth_ends fuel (suc k) rest (omega arith)))
  ]

  on_read-Granted :
      (k : ℕ) (stream : List ℕ) (r : ReadResult) (more : List ℕ → Option Failure)
      → stopped k ≡ false
      → read_rcon_packet stream ≡ r
      → ((rest : List ℕ) → more rest ≡ none → Granted stopped (suc k) rest)
      → on_read r more ≡ none
      → Granted stopped k stream
  on_read-Granted k stream (err e) more s h ih p = cc
  on_read-Granted k stream (ok packet rest) more s h ih p = go (answer_of packet) refl p
    where
      go :
          (a : Answer)
          → answer_of packet ≡ a
          → on_answer a (more rest) ≡ none
          → Granted stopped k stream
      go skip e q = later k stream packet rest s h ((answer_of-skip packet).0 e) (ih rest q)
      go refuse e q = cc
      go accept e q =
          let (kind, id) = (answer_of-accept packet).0 e in now k stream packet rest s h kind id

  await_auth-Granted :
      (fuel k : ℕ) (stream : List ℕ)
      → await_auth stopped fuel k stream ≡ none
      → Granted stopped k stream
  unfolding await_auth
  await_auth-Granted zero k stream p = cc
  await_auth-Granted (suc fuel) k stream p = elim (Bool-cases (stopped k)) [
    | inl e ↦ cc (rw e at p)
    | inr e ↦
        on_read-Granted k stream (read_rcon_packet stream) (await_auth stopped fuel (suc k)) e refl
          (λ rest q. await_auth-Granted fuel (suc k) rest q) (rw e at p)
  ]

  await_auth_of_Granted :
      (fuel : ℕ) {k : ℕ} {stream : List ℕ}
      → Granted stopped k stream
      → length stream < fuel
      → await_auth stopped fuel k stream ≡ none
  unfolding await_auth
  await_auth_of_Granted zero g h = absurd (omega arith)
  await_auth_of_Granted (suc fuel) (now k stream packet rest s r kind id) h =
      rw s (rw r (rw ((answer_of-accept packet).1 (kind, id))))
  await_auth_of_Granted (suc fuel) (later k stream packet rest s r kind g) h = rw s (
      rw r (
        rw ((answer_of-skip packet).1 kind)
          (await_auth_of_Granted fuel g (omega (arith, read_rcon_packet-rest stream r)))))

  pub await_auth-none :
      (stream : List ℕ)
      → (await_auth stopped (suc (length stream)) 0 stream ≡ none) ↔ Granted stopped 0 stream
  await_auth-none stream = (
    await_auth-Granted (suc (length stream)) 0 stream,
    λ g. await_auth_of_Granted (suc (length stream)) g (omega arith),
  )
