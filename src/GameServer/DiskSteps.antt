-- ===== src/GameServer/DiskSteps.antt =====
-- internal/controller/gameserver_disk_job.go: what reconcileManagedDisk keeps.
use plexus_controller.Common.{Text, refl, inl, inr, Bool, Option, none, some, List}
use plexus_controller.GameServer.Types.{
  InstalledMod, Setup, Status, Deployment, DiskJob, Definition, Self, Store, Surroundings,
}
use plexus_controller.Api.{gets, ◌>>=◌}
use plexus_controller.GameServer.Objects.{Run, write, get}
use plexus_controller.Api.Keeps.{Keeps, keeps_rules}
use plexus_controller.GameServer.Stable.{
  IsStable, update_status-cases, Holds, Keeps-get, Keeps-aside,
}
use plexus_controller.GameServer.Disk.{
  pending_save_disk_work, checked_job, owned_disk_job, create_mod_disk_job, delete_disk_job,
  delete_finished, delete_completed_disk_job, acknowledge_disk_job_mods, follow_disk_job,
  replace_disk_job, on_disk_job, synchronize_mods, reconcile_managed_disk,
}

module _ (self : Self) (env : Surroundings) (R : Status → List Deployment → Type 0)
    (stable : IsStable env R) where
  abbrev Kept : {A : Type 0} → Run A → Type 0
  Kept m = Keeps (Holds self env R stable) m

  Kept-get : {A : Type 0} (read : Store → A) → Kept (get read)
  Kept-get = Keeps-get self env R stable

  Keeps-checked_job : (job : Option DiskJob) → Kept (checked_job self env job)
  Keeps-checked_job none = search keeps_rules
  Keeps-checked_job (some job) = search keeps_rules

  Keeps-owned_disk_job : Kept (owned_disk_job self env)
  unfolding owned_disk_job
  Keeps-owned_disk_job = search (keeps_rules, Kept-get, Keeps-checked_job)

  Keeps-create_mod_disk_job :
      (setup : Setup) (supports_mods : Bool) (name fingerprint : Text)
      → Kept (create_mod_disk_job self env setup supports_mods name fingerprint)
  unfolding create_mod_disk_job
  Keeps-create_mod_disk_job setup supports_mods name fingerprint =
      Keeps-aside self env R stable _ _ (λ s. refl) (λ s. refl)

  Keeps-job_gone : Kept (write (λ s. record s { job = none }))
  Keeps-job_gone = Keeps-aside self env R stable _ _ (λ s. refl) (λ s. refl)

  Keeps-delete_disk_job : (job : DiskJob) → Kept (delete_disk_job self env job)
  unfolding delete_disk_job
  Keeps-delete_disk_job job = search (keeps_rules, Keeps-job_gone)

  Keeps-delete_finished : (job : Option DiskJob) → Kept (delete_finished self env job)
  Keeps-delete_finished none = search keeps_rules
  Keeps-delete_finished (some job) = search (keeps_rules, Keeps-delete_disk_job)

  Keeps-acknowledge_disk_job_mods :
      (installed : List InstalledMod) → Kept (acknowledge_disk_job_mods self env installed)
  unfolding acknowledge_disk_job_mods gets ◌>>=◌
  Keeps-acknowledge_disk_job_mods installed = record {
    at = λ c h.
        elim (update_status-cases self env
          (record c.store.status {
            installed_mods = installed;
            installed_mods_generation = self.generation;
          })
          c) [
            | inl same ↦ rw same h
            | inr new ↦ rw new (stable.alike c.store.status _ c.store.deployments refl refl h)
          ];
  }

  Keeps-follow_disk_job :
      (job : DiskJob) (desired : List InstalledMod) → Kept (follow_disk_job self env job desired)
  unfolding follow_disk_job
  Keeps-follow_disk_job job desired =
      search (keeps_rules, Keeps-acknowledge_disk_job_mods, Keeps-delete_disk_job)

  Keeps-replace_disk_job :
      (setup : Setup) (supports_mods : Bool) (name fingerprint : Text) (job : DiskJob)
      → Kept (replace_disk_job self env setup supports_mods name fingerprint job)
  unfolding replace_disk_job
  Keeps-replace_disk_job setup supports_mods name fingerprint job =
      search (keeps_rules, Keeps-delete_disk_job, Keeps-create_mod_disk_job)

  Keeps-on_disk_job :
      (setup : Setup) (supports_mods : Bool) (name : Text) (job : Option DiskJob)
      → Kept (on_disk_job self env setup supports_mods name job)
  Keeps-on_disk_job setup supports_mods name none = search (keeps_rules, Keeps-create_mod_disk_job)
  Keeps-on_disk_job setup supports_mods name (some job) =
      search (keeps_rules, Keeps-replace_disk_job, Keeps-follow_disk_job)

  Keeps-synchronize_mods :
      (setup : Setup) (supports_mods : Bool) (name : Text)
      → Kept (synchronize_mods self env setup supports_mods name)
  unfolding synchronize_mods delete_completed_disk_job
  Keeps-synchronize_mods setup supports_mods name =
      search (keeps_rules, Keeps-owned_disk_job, Keeps-delete_finished, Keeps-on_disk_job)

  Keeps-pending_save_disk_work : Kept (pending_save_disk_work self env)
  unfolding pending_save_disk_work
  Keeps-pending_save_disk_work = search (keeps_rules, Kept-get)

  pub Keeps-reconcile_managed_disk :
      (setup : Setup) (definition : Definition) (name : Text)
      → Kept (reconcile_managed_disk self env setup definition name)
  unfolding reconcile_managed_disk
  Keeps-reconcile_managed_disk setup definition name =
      search (keeps_rules, Keeps-pending_save_disk_work, Keeps-synchronize_mods)
