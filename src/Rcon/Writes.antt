-- ===== src/Rcon/Writes.antt =====
-- The two Writes of one RCON packet: when they return no error, and what goes out otherwise.
use plexus_controller.Common.{
  ℕ, zero, suc, ◌%◌, ◌^◌, ◌≡◌, refl, sym, ap, ◌∙◌, Bool, true, false, Option, none, some, List, [],
  ◌∷◌, ◌++◌, append_assoc, length, take,
}
use plexus_controller.Rcon.{packet_payload, le32, put, and_then, send_packet, write_rcon_packet}

-- The packet that begins with the Write k goes out without an error.
abbrev pub IsWritten : (ℕ → Option ℕ) → ℕ → Type 0
IsWritten faults k = (faults k ≡ none) × (faults (suc k) ≡ none)

abbrev pub IsPrefix : List ℕ → List ℕ → Type 0
IsPrefix xs ys = (rest : List ℕ) × (xs ++ rest ≡ ys)

-- What a packet's two Writes leave behind: the whole packet without an error, or a part of it.
pub data Sent (faults : ℕ → Option ℕ) (k : ℕ) (packet : List ℕ) : List ℕ × Bool → Type 0 where
  whole_packet : IsWritten faults k → Sent faults k packet (packet, true)
  part :
      {bytes : List ℕ}
      → ¬ IsWritten faults k
      → IsPrefix bytes packet
      → Sent faults k packet (bytes, false)

take-IsPrefix : (n : ℕ) (xs : List ℕ) → IsPrefix (take n xs) xs
take-IsPrefix zero xs = (xs, refl)
take-IsPrefix (suc n) [] = ([], refl)
take-IsPrefix (suc n) (x ∷ xs) = let (rest, e) = take-IsPrefix n xs in (rest, ap (x ∷◌) e)

IsPrefix-++ : (xs ys : List ℕ) {zs : List ℕ} → IsPrefix ys zs → IsPrefix (xs ++ ys) (xs ++ zs)
IsPrefix-++ xs ys (rest, e) = (rest, append_assoc xs ys rest ∙ ap (xs ++◌) e)

pub send_packet-Sent :
    (faults : ℕ → Option ℕ) (k id kind : ℕ) (body : List ℕ)
    → Sent faults k (write_rcon_packet id kind body) (send_packet faults k id kind body)
unfolding send_packet write_rcon_packet
send_packet-Sent faults k id kind body = go (faults k) (faults (suc k)) refl refl
  where
    head : List ℕ
    head = le32 (length (packet_payload id kind body) % 2 ^ 32)

    payload : List ℕ
    payload = packet_payload id kind body

    go :
        (a b : Option ℕ)
        → faults k ≡ a
        → faults (suc k) ≡ b
        → Sent faults k (head ++ payload) (and_then (put a head) (put b payload))
    go (some n) b p q =
        let (rest, e) = take-IsPrefix n head in
        part (λ w. cc)
          (
            rest ++ payload,
            sym (append_assoc (take n head) rest payload) ∙ ap (λ zs. zs ++ payload) e,
          )
    go none (some n) p q = part (λ w. cc) (IsPrefix-++ head _ (take-IsPrefix n payload))
    go none none p q = whole_packet (p, q)
