-- ===== src/Rcon/Examples.antt =====
-- Packets and exchanges, and the RCON theorems at them.
use plexus_controller.Common.{
  Text, codes, trim_right, ℕ, ◌≡◌, refl, ◌≢◌, ◌↔◌, Bool, false, Option, none, some, if◌then◌else◌,
  List, [], ◌∷◌, ◌++◌, arith, ◌==◌,
}
use plexus_controller.Rcon.{
  write_rcon_packet, ok, err, bad_size, short_read, is_zero, parse_packet, read_body,
  read_rcon_packet, auth_failed, auth_unwritten, command_unwritten, send_packet, cancelled,
  out_of_fuel, read_failed, await_auth, run_rcon, minus_one, rcon_auth, rcon_exec,
}
use plexus_controller.Rcon.RoundTrip.{read-write_rcon_packet}
use plexus_controller.Rcon.Writes.{IsWritten}
use plexus_controller.Rcon.Await.{Granted}
use plexus_controller.Rcon.Exchange.{Wire, run_rcon_total, run_rcon-sent_iff, run_rcon-written}

-- What a run computes with.
run : Unit {0}
unfolding trim_right parse_packet read_body read_rcon_packet write_rcon_packet send_packet
    await_auth run_rcon
run = tt

abbrev quit : Text
quit = codes "/quit"

abbrev never : ℕ → Bool
never k = false

abbrev no_faults : ℕ → Option ℕ
no_faults k = none

-- Write k fails behind three bytes.
abbrev fails_at : ℕ → ℕ → Option ℕ
fails_at k i = if i == k then some 3 else none

-- The server sends an empty value packet first, as some servers do, then grants.
abbrev granting : List ℕ
granting = write_rcon_packet 1 0 [] ++ write_rcon_packet 1 2 []

rcon_tests :
    (write_rcon_packet 2 2 quit
      ≡ 15 ∷ 0 ∷ 0 ∷ 0 ∷ 2 ∷ 0 ∷ 0 ∷ 0 ∷ 2 ∷ 0 ∷ 0 ∷ 0 ∷ 47 ∷ 113 ∷ 117 ∷ 105 ∷ 116 ∷ 0 ∷ 0 ∷ [])
    × (read_rcon_packet (5 ∷ 0 ∷ 0 ∷ 0 ∷ []) ≡ err bad_size)
    × (read_rcon_packet (255 ∷ 255 ∷ 255 ∷ 255 ∷ []) ≡ err bad_size)
    × ((run_rcon never no_faults granting (codes "pw") quit).1 ≡ none)
    × ((run_rcon never no_faults (write_rcon_packet minus_one 2 []) (codes "pw") quit).1
        ≡ some auth_failed)
    × ((run_rcon never no_faults (write_rcon_packet 1 0 []) (codes "pw") quit).1
        ≡ some (read_failed short_read))
    × ((run_rcon (λ k. k == 1) no_faults granting (codes "pw") quit).1 ≡ some cancelled)
    × (run_rcon never (fails_at 0) granting (codes "pw") quit
        ≡ (12 ∷ 0 ∷ 0 ∷ [], some auth_unwritten))
    × (run_rcon never (fails_at 3) granting (codes "pw") quit ≡ (
      write_rcon_packet 1 rcon_auth (codes "pw") ++ 15 ∷ 0 ∷ 0 ∷ 0 ∷ 2 ∷ 0 ∷ 0 ∷ [],
      some command_unwritten,
    ))
unfolding run
rcon_tests = (refl, refl, refl, refl, refl, refl, refl, refl, refl)

read-write_rcon_packet_example :
    read_rcon_packet (write_rcon_packet 2 2 quit ++ 9 ∷ [])
    ≡ ok (record { id = 2; kind = 2; body = trim_right is_zero quit }) (9 ∷ [])
read-write_rcon_packet_example =
    read-write_rcon_packet 2 2 quit (9 ∷ []) (omega arith) (omega arith) (omega arith)

run_rcon_total_example : (run_rcon never no_faults granting (codes "pw") quit).1 ≢ some out_of_fuel
run_rcon_total_example = run_rcon_total never no_faults granting (codes "pw") quit

run_rcon-sent_iff_example :
    ((run_rcon never no_faults granting (codes "pw") quit).1 ≡ none)
    ↔ (IsWritten no_faults 0 × Granted never 0 granting × IsWritten no_faults 2)
run_rcon-sent_iff_example = run_rcon-sent_iff never no_faults granting (codes "pw") quit

run_rcon-written_example :
    Wire never
      (fails_at 3)
      granting
      (write_rcon_packet 1 rcon_auth (codes "pw"))
      (write_rcon_packet 2 rcon_exec quit)
      (run_rcon never (fails_at 3) granting (codes "pw") quit).0
run_rcon-written_example = run_rcon-written never (fails_at 3) granting (codes "pw") quit
