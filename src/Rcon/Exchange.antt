-- ===== src/Rcon/Exchange.antt =====
-- The exchange of runRCON: how it ends, and what goes over the connection.
use plexus_controller.Common.{
  ℕ, suc, ◌≡◌, refl, ◌≢◌, ◌↔◌, Bool, true, false, Option, none, some, List, ◌++◌, arith, length,
}
use plexus_controller.Rcon.{
  Failure, out_of_fuel, await_auth, exchange, run_rcon, send_packet, write_rcon_packet, rcon_auth,
  rcon_exec,
}
use plexus_controller.Rcon.Writes.{IsWritten, IsPrefix, Sent, whole_packet, part, send_packet-Sent}
use plexus_controller.Rcon.Await.{Granted, await_auth_ends, await_auth-none}

module _ (stopped : ℕ → Bool) where
  -- Whatever the server sends, whichever Writes fail and whenever the context is done, the loop
  -- ends within its fuel.
  pub run_rcon_total :
      (faults : ℕ → Option ℕ) (stream password command : List ℕ)
      → (run_rcon stopped faults stream password command).1 ≢ some out_of_fuel
  unfolding run_rcon
  run_rcon_total faults stream password command =
      go (send_packet faults 0 1 rcon_auth password) (await_auth stopped _ 0 stream)
        (send_packet faults 2 2 rcon_exec command)
        (await_auth_ends stopped (suc (length stream)) 0 stream (omega arith))
    where
      go :
          (a : List ℕ × Bool) (o : Option Failure) (c : List ℕ × Bool)
          → o ≢ some out_of_fuel
          → (exchange a o c).1 ≢ some out_of_fuel
      go (a, false) o c n = λ p. cc
      go (a, true) (some e) c n = n
      go (a, true) none (c, false) n = λ p. cc
      go (a, true) none (c, true) n = n

  -- What goes over the connection when `auth` and `command` are the two packets: a part of the
  -- first if its Write fails; the first alone if the authentication is not granted; otherwise a part
  -- of the second behind the first if its Write fails, and both packets if it does not.
  pub data Wire (faults : ℕ → Option ℕ) (stream auth command : List ℕ) : List ℕ → Type 0 where
    auth_cut :
        (bytes : List ℕ)
        → ¬ IsWritten faults 0
        → IsPrefix bytes auth
        → Wire faults stream auth command bytes
    auth_alone :
        IsWritten faults 0 → ¬ Granted stopped 0 stream → Wire faults stream auth command auth
    command_cut :
        (bytes : List ℕ)
        → IsWritten faults 0
        → Granted stopped 0 stream
        → ¬ IsWritten faults 2
        → IsPrefix bytes command
        → Wire faults stream auth command (auth ++ bytes)
    both :
        IsWritten faults 0
        → Granted stopped 0 stream
        → IsWritten faults 2
        → Wire faults stream auth command (auth ++ command)

  exchange-Wire :
      (faults : ℕ → Option ℕ) (stream : List ℕ) {auth command : List ℕ} {a c : List ℕ × Bool}
      (waited : Option Failure)
      → Sent faults 0 auth a
      → Sent faults 2 command c
      → (waited ≡ none) ↔ Granted stopped 0 stream
      → Wire faults stream auth command (exchange a waited c).0
  exchange-Wire faults stream waited (part n p) d g = auth_cut _ n p
  exchange-Wire faults stream (some e) (whole_packet w) d g = auth_alone w (λ h. cc (g.1 h))
  exchange-Wire faults stream none (whole_packet w) (part n p) g = command_cut _ w (g.0 refl) n p
  exchange-Wire faults stream none (whole_packet w) (whole_packet v) g = both w (g.0 refl) v

  exchange-none :
      (faults : ℕ → Option ℕ) (stream : List ℕ) {auth command : List ℕ} {a c : List ℕ × Bool}
      (waited : Option Failure)
      → Sent faults 0 auth a
      → Sent faults 2 command c
      → (waited ≡ none) ↔ Granted stopped 0 stream
      → ((exchange a waited c).1 ≡ none)
        ↔ (IsWritten faults 0 × Granted stopped 0 stream × IsWritten faults 2)
  exchange-none faults stream waited (part n p) d g = (λ e. cc, λ h. absurd (n h.0))
  exchange-none faults stream (some e) (whole_packet w) d g = (λ q. cc, λ h. cc (g.1 h.1))
  exchange-none faults stream none (whole_packet w) (part n p) g = (λ e. cc, λ h. absurd (n h.2))
  exchange-none faults stream none (whole_packet w) (whole_packet v) g =
      (λ e. (w, g.0 refl, v), λ h. refl)

  -- runRCON returns no error exactly if the two Writes of the authentication return none, the server
  -- grants the authentication, and the two Writes of the command return none.
  pub run_rcon-sent_iff :
      (faults : ℕ → Option ℕ) (stream password command : List ℕ)
      → ((run_rcon stopped faults stream password command).1 ≡ none)
        ↔ (IsWritten faults 0 × Granted stopped 0 stream × IsWritten faults 2)
  unfolding run_rcon
  run_rcon-sent_iff faults stream password command =
      exchange-none faults stream (await_auth stopped _ 0 stream)
        (send_packet-Sent faults 0 1 rcon_auth password)
        (send_packet-Sent faults 2 2 rcon_exec command) (await_auth-none stopped stream)

  -- What goes over the connection: a part of the authentication's packet if one of its two Writes
  -- fails; that packet alone if they do not and the server does not grant the authentication; if it
  -- does, that packet with a part of the command's packet behind it if one of the command's two
  -- Writes fails, and with the command's whole packet if they do not.
  pub run_rcon-written :
      (faults : ℕ → Option ℕ) (stream password command : List ℕ)
      → Wire faults stream
          (write_rcon_packet 1 rcon_auth password)
          (write_rcon_packet 2 rcon_exec command)
          (run_rcon stopped faults stream password command).0
  unfolding run_rcon
  run_rcon-written faults stream password command =
      exchange-Wire faults stream (await_auth stopped _ 0 stream)
        (send_packet-Sent faults 0 1 rcon_auth password)
        (send_packet-Sent faults 2 2 rcon_exec command) (await_auth-none stopped stream)
