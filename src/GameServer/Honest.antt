-- ===== src/GameServer/Honest.antt =====
-- internal/controller/gameserver_controller.go: a status that claims a stop tells the truth.
use plexus_controller.Common.{
  Text, ℕ, ◌≡◌, refl, sym, ap, ◌∙◌, true, false, not, Option, none, some, List,
}
use plexus_controller.GameServer.Types.{
  Power, running, stopped, other, Setup, Status, Deployment, Definition, Self, Store, Surroundings,
}
use plexus_controller.Api.{Cluster}
use plexus_controller.GameServer.Objects.{Run}
use plexus_controller.Api.Keeps.{Keeps, Keeps-fail, Keeps-if, Keeps-otherwise}
use plexus_controller.GameServer.Absent.{NoWorkload}
use plexus_controller.GameServer.Stable.{is_stopped_phase, IsStable, Holds, Keeps-report_failure}
use plexus_controller.GameServer.Inputs.{is_other, desired_state_ok, is_stopped_power}
use plexus_controller.GameServer.Shutdown.{reconcile_stopped, reconcile_unloaded}
use plexus_controller.GameServer.Disk.{DiskReconcile, is_running_power}
use plexus_controller.GameServer.Running.{reconcile_running}
use plexus_controller.GameServer.Reconcile.{reconcile_workload, on_disk, on_disk_name, reconcile}
use plexus_controller.GameServer.DiskSteps.{Keeps-reconcile_managed_disk}
use plexus_controller.GameServer.RunSteps.{
  Keeps-ensure_claim, Keeps-report_starting_for_disk_work, Keeps-report_disk_job_failure,
}
use plexus_controller.GameServer.StartSteps.{Keeps-reconcile_running}
use plexus_controller.GameServer.Ceased.{
  NoWorkload-marks, Keeps-reconcile_stopped, Keeps-reconcile_unloaded,
}
use plexus_controller.GameServer.Whole.{Keeps-reconcile}

module _ (self : Self) (env : Surroundings) where
  -- The status claims a stop for the current generation only if a stop is wanted and there is no workload.
  unfoldable pub IsHonest : Status → List Deployment → Type 0
  IsHonest st ds =
      is_stopped_phase st.phase ≡ true
      → st.observed_generation ≡ self.generation
      → (is_stopped_power self.spec.desired_power ≡ true) × NoWorkload self env ds

  IsHonest-IsStable : IsStable env IsHonest
  unfolding IsHonest
  IsHonest-IsStable = record {
    marks =
        λ st ds name h e f. let (p, gone) = h e f in (p, NoWorkload-marks self env ds name gone);
    busy = λ old new ds e h f g. cc;
    alike = λ old new ds e k h f g. h (sym (ap is_stopped_phase e) ∙ f) (sym k ∙ g);
  }

  abbrev Kept : {A : Type 0} → Run A → Type 0
  Kept m = Keeps (Holds self env IsHonest IsHonest-IsStable) m

  module _ (valid : desired_state_ok self ≡ true) where
    honest_stopped :
        (setup : Setup)
        → is_stopped_power self.spec.desired_power ≡ true
        → Kept (reconcile_stopped self env setup)
    unfolding IsHonest
    honest_stopped setup stops =
        Keeps-reconcile_stopped self env IsHonest IsHonest-IsStable
          (λ st ds gone e f. (stops, gone)) setup

    honest_running :
        (setup : Setup) (definition : Definition) (configuration : Text) (secret : Option Text × ℕ)
        → is_stopped_power self.spec.desired_power ≡ false
        → Kept (reconcile_running self env setup definition configuration secret)
    unfolding IsHonest
    honest_running setup definition configuration secret runs =
        Keeps-reconcile_running self env IsHonest IsHonest-IsStable
          (λ st ds es h e f. let (p, gone) = h e f in cc) setup definition configuration secret

    -- A power that is neither running nor stopped is refused.
    stops_of_not_running :
        (setup : Setup)
        → self.spec.selected_setup ≡ some setup
        → is_running_power self.spec.desired_power ≡ false
        → is_stopped_power self.spec.desired_power ≡ true
    unfolding desired_state_ok
    stops_of_not_running setup chosen e = cases_power self.spec.desired_power e (rw chosen at valid)
      where
        cases_power :
            (power : Power)
            → is_running_power power ≡ false
            → not (is_other power) ≡ true
            → is_stopped_power power ≡ true
        cases_power running e f = cc
        cases_power stopped e f = refl
        cases_power (other power) e f = cc

    honest_disk :
        (setup : Setup) (definition : Definition) (configuration : Text) (secret : Option Text × ℕ)
        (disk : DiskReconcile)
        → self.spec.selected_setup ≡ some setup
        → Kept (on_disk self env setup definition configuration secret disk)
    unfolding on_disk
    honest_disk setup definition configuration secret disk chosen =
        Keeps-if disk.failed _ _
          (λ e. Keeps-report_disk_job_failure self env IsHonest IsHonest-IsStable definition disk)
          (λ e.
            Keeps-if disk.blocked _ _
              (λ f.
                Keeps-if (is_running_power self.spec.desired_power) _ _
                  (λ g.
                    Keeps-report_starting_for_disk_work self env IsHonest IsHonest-IsStable
                      definition disk)
                  (λ g. honest_stopped setup (stops_of_not_running setup chosen g)))
              (λ f.
                Keeps-if (is_stopped_power self.spec.desired_power) _ _ (honest_stopped setup)
                  (honest_running setup definition configuration secret)))

    honest_disk_name :
        (setup : Setup) (definition : Definition) (name : Option Text)
        → Kept (on_disk_name self env setup definition name)
    honest_disk_name setup definition none = Keeps-fail _
    honest_disk_name setup definition (some name) =
        Keeps-reconcile_managed_disk self env IsHonest IsHonest-IsStable setup definition name

    honest_workload :
        (setup : Setup) (definition : Definition) (configuration : Text) (secret : Option Text × ℕ)
        → self.spec.selected_setup ≡ some setup
        → Kept (reconcile_workload self env setup definition configuration secret)
    unfolding reconcile_workload
    honest_workload setup definition configuration secret chosen =
        Keeps-otherwise _ _ _ (Keeps-ensure_claim self env IsHonest IsHonest-IsStable definition)
          (Keeps-report_failure self env IsHonest IsHonest-IsStable _)
          (λ u.
            Keeps-otherwise _ _ _ (honest_disk_name setup definition _)
              (Keeps-report_failure self env IsHonest IsHonest-IsStable _)
              (λ disk. honest_disk setup definition configuration secret disk chosen))

    honest_unloaded : self.spec.selected_setup ≡ none → Kept (reconcile_unloaded self env)
    unfolding IsHonest desired_state_ok
    honest_unloaded chosen =
        Keeps-reconcile_unloaded self env IsHonest IsHonest-IsStable
          (λ st ds gone e f. (rw chosen at valid, gone))

  -- If a status that claims a stop for the current generation tells the truth before Reconcile (a stop is
  -- wanted and there is no workload), then it does so afterwards, whatever calls fail.
  pub reconcile-IsHonest :
      (c : Cluster Store)
      → IsHonest c.store.status c.store.deployments
      → IsHonest (reconcile self env c).0.store.status (reconcile self env c).0.store.deployments
  reconcile-IsHonest c h =
      (Keeps-reconcile self env IsHonest IsHonest-IsStable
          (λ setup definition configuration secret valid chosen.
            honest_workload valid setup definition configuration secret chosen)
          (λ valid chosen. honest_unloaded valid chosen)).at
        c h
