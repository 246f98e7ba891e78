-- ===== src/GameServer/Seen.antt =====
-- internal/controller/saveimport_controller.go: the GameServer as the reconciler of SaveImports reads it.
use plexus_controller.Common.{Text, ℕ, ◌*◌, ◌≡◌, ap, sym, ◌∙◌, true, Option, none, some, arith}
use plexus_controller.GameServer.Types.{
  Setup as ServerSetup, Self, Surroundings as ServerSurroundings, Store,
}
use plexus_controller.GameServer.Inputs.{is_stopped_power}
use plexus_controller.GameServer.Stable.{is_stopped_phase}
use plexus_controller.GameServer.Absent.{NoWorkload}
use plexus_controller.GameServer.Honest.{IsHonest}
use plexus_controller.SaveImport.Cluster.{
  GameServer, Setup, Identity, World, Surroundings, Termination, Job, Secret,
}
use plexus_controller.SaveImport.Reconcile.{reconcile}
use plexus_controller.SaveImport.Authorized.{Authorized}
use plexus_controller.SaveImport.Created.{Permitted-Authorized, reconcile-Permitted}

abbrev pub setup_of : Option ServerSetup → Option Setup
setup_of none = none
setup_of (some setup) = some (record { id = setup.id; game_id = setup.game_id })

-- Its time of observation is given in nanoseconds.
abbrev pub nanoseconds : Option ℕ → Option ℕ
nanoseconds none = none
nanoseconds (some t) = some (t * 1000000000)

unfoldable pub server_of : Self → Store → GameServer
server_of self s = record {
  deleting = self.deleting;
  server_id = self.spec.server_id;
  owner_user_id = self.spec.owner_user_id;
  selected_setup = setup_of self.spec.selected_setup;
  desired_stopped = is_stopped_power self.spec.desired_power;
  phase_stopped = is_stopped_phase s.status.phase;
  observed_generation = s.status.observed_generation;
  generation = self.generation;
  last_observed_at = nanoseconds s.status.last_observed_at;
}

module _ (self : Self) (server_env : ServerSurroundings) (s : Store) where
  claimed :
      (import : Identity) (env : Surroundings) (held : Option Secret)
      → env.server ≡ some (server_of self s)
      → IsHonest self server_env s.status s.deployments
      → Authorized import env held
      → (is_stopped_power self.spec.desired_power ≡ true) × NoWorkload self server_env s.deployments
  unfolding IsHonest server_of
  claimed import env held seen honest granted =
      let same : server_of self s ≡ granted.server = some-inj (sym seen ∙ granted.found) in
      let (power, phase, generation) = granted.stopped in
      honest (ap (λ server. server.phase_stopped) same ∙ phase) (
        ap (λ server. server.observed_generation) same
        ∙ (generation ∙ sym (ap (λ server. server.generation) same)))
    where
      some-inj : {a b : GameServer} → some a ≡ some b → a ≡ b
      some-inj e = ground arith

  -- If a SaveImport whose Job was not there has one after its Reconcile, and the GameServer that it read
  -- has an honest status, then that server has no workload.
  pub import_job-NoWorkload :
      (import : Identity) (env : Surroundings) (lower_high : ℕ → ℕ)
      (unmarshal : Text → Option Termination) (job_uid : ℕ) (w : World) (job : Job)
      → env.server ≡ some (server_of self s)
      → IsHonest self server_env s.status s.deployments
      → w.job ≡ none
      → (reconcile import env lower_high unmarshal job_uid w).0.job ≡ some job
      → NoWorkload self server_env s.deployments
  import_job-NoWorkload import env lower_high unmarshal job_uid w job seen honest new created =
      let permitted =
        reconcile-Permitted import env lower_high unmarshal job_uid w job new created in
      (claimed import env w.secret seen honest (
        Permitted-Authorized import env lower_high unmarshal job_uid w.status w.secret
          permitted.1)).1
