-- ===== src/GameServer/Disk.antt =====
-- internal/controller/gameserver_disk_job.go: the Job that installs mods on the game's disk, and the
-- transfers of saves that hold it.
-- A Job that is deleted in the background is gone at once.
use plexus_controller.Common.{
  Text, codes, text_eq, Bool, true, false, ◌&&◌, ◌||◌, not, Option, none, some, List, [], ◌∷◌, ◌++◌,
  ltb, if◌then◌else◌,
}
use plexus_controller.GameServer.Types.{
  Power, running, failed, InstalledMod, ModSpec, Setup, DiskJob, Transfer, TransferPhase, pending,
  unset, Definition, Self, not_controlled, Surroundings,
}
use plexus_controller.Api.{pure, fail, gets, ◌>>=◌, ◌>>◌, when}
use plexus_controller.GameServer.Objects.{Run, write, get, is_controlled, is_deleted}
use plexus_controller.GameServer.Status.{update_status, observed_installed_mods}

-- `reason` is empty unless the disk is blocked.
pub record DiskReconcile : Type 0 where
  pub blocked : Bool
  pub failed : Bool
  pub reason : Text

abbrev pub idle : DiskReconcile
idle = record { blocked = false; failed = false; reason = [] }

abbrev pub busy : DiskReconcile
busy = record { blocked = true; failed = false; reason = codes "DiskJobRunning" }

-- saveImportHoldsPVC and saveExportHoldsPVC
unfoldable pub save_import_holds_claim : TransferPhase → Bool
save_import_holds_claim unset = true
save_import_holds_claim pending = true
save_import_holds_claim running = true
save_import_holds_claim _ = false

unfoldable pub save_export_holds_claim : TransferPhase → Bool
save_export_holds_claim unset = true
save_export_holds_claim pending = true
save_export_holds_claim running = true
save_export_holds_claim _ = false

abbrev pub is_failed : TransferPhase → Bool
is_failed failed = true
is_failed _ = false

abbrev pub same_mod : InstalledMod → InstalledMod → Bool
same_mod a b =
    text_eq a.provider_id b.provider_id
    && text_eq a.provider_mod_id b.provider_mod_id
    && text_eq a.name b.name
    && text_eq a.version b.version

unfoldable pub installed_mods_match : List InstalledMod → List InstalledMod → Bool
installed_mods_match [] [] = true
installed_mods_match (a ∷ got) (b ∷ want) = same_mod a b && installed_mods_match got want
installed_mods_match [] (_ ∷ _) = false
installed_mods_match (_ ∷ _) [] = false

unfoldable pub disk_job_succeeded : DiskJob → Bool
disk_job_succeeded job = ltb 0 job.succeeded

-- `failed_condition` is that some condition JobFailed is true.
unfoldable pub disk_job_failed : DiskJob → Bool
disk_job_failed job = ltb 0 job.failed || job.failed_condition

unfoldable pub disk_job_finished : DiskJob → Bool
disk_job_finished job = disk_job_succeeded job || disk_job_failed job

abbrev pub is_running_power : Power → Bool
is_running_power running = true
is_running_power _ = false

module _ (self : Self) (env : Surroundings) where
  -- The loop over the SaveImports.
  unfoldable pub pending_import : List Transfer → DiskReconcile
  pending_import [] = idle
  pending_import (replacement ∷ rest) =
      let later = pending_import rest in
      if not (text_eq replacement.server_id self.spec.server_id)
      then later
      else if is_failed replacement.phase
      then record {
        blocked = true;
        failed = is_running_power self.spec.desired_power;
        reason = codes "SaveImportFailed";
      }
      else if save_import_holds_claim replacement.phase
      then busy
      else later

  unfoldable pub pending_export : List Transfer → DiskReconcile
  pending_export [] = idle
  pending_export (export ∷ rest) =
      let later = pending_export rest in
      if not (text_eq export.server_id self.spec.server_id)
      then later
      else if save_export_holds_claim export.phase
      then busy
      else later

  unfoldable pub pending_save_disk_work : Run DiskReconcile
  pending_save_disk_work = do
    imports ← get (λ s. env.imports)
    let work : DiskReconcile = pending_import imports
    if work.blocked
        then pure work
        else (get (λ s. env.exports) >>= (λ exports. pure (pending_export exports)))

  abbrev pub checked_job : Option DiskJob → Run (Option DiskJob)
  checked_job none = pure none
  checked_job (some job) =
      if is_controlled self job.meta then pure (some job) else fail not_controlled

  unfoldable pub owned_disk_job : Run (Option DiskJob)
  owned_disk_job = get (λ s. s.job) >>= checked_job

  abbrev pub clear_mods : Text
  clear_mods =
      codes
        "mkdir -p /factorio/mods && find /factorio/mods -maxdepth 1 -type f -name '*.zip' -delete"

  -- The script of factorioModSyncContainer.
  unfoldable pub mod_sync_command : List ModSpec → Text
  mod_sync_command (spec ∷ []) =
      clear_mods ++ codes " && cp /plexus/mod/archive.zip /factorio/mods/" ++ spec.archive_file_name
  mod_sync_command _ = clear_mods

  -- modArtifactVolumes
  unfoldable pub mod_artifact : Bool → List ModSpec → Option Text
  mod_artifact supports_mods (spec ∷ []) = if supports_mods then some spec.artifact_ref else none
  mod_artifact supports_mods _ = none

  unfoldable pub mod_disk_job_for : Setup → Bool → Text → Text → DiskJob
  mod_disk_job_for setup supports_mods name fingerprint = record {
    meta = record {
      name = name;
      controller = some self.uid;
      server_uid = self.uid;
      deleted_at = none;
    };
    command = mod_sync_command setup.mods;
    artifact = mod_artifact supports_mods setup.mods;
    fingerprint = fingerprint;
    succeeded = 0;
    failed = 0;
    failed_condition = false;
  }

  unfoldable pub create_mod_disk_job : Setup → Bool → Text → Text → Run (Unit {0})
  create_mod_disk_job setup supports_mods name fingerprint =
      write (λ s. record s { job = some (mod_disk_job_for setup supports_mods name fingerprint) })

  -- deleteOwnedObjectStrict of the Job, whose owner is known.
  unfoldable pub delete_disk_job : DiskJob → Run (Unit {0})
  delete_disk_job job =
      if not (is_controlled self job.meta)
      then fail not_controlled
      else when (not (is_deleted job.meta)) (write (λ s. record s { job = none }))

  abbrev pub delete_finished : Option DiskJob → Run (Unit {0})
  delete_finished none = pure tt
  delete_finished (some job) = when (disk_job_finished job) (delete_disk_job job)

  unfoldable pub delete_completed_disk_job : Run (Unit {0})
  delete_completed_disk_job = owned_disk_job >>= delete_finished

  unfoldable pub acknowledge_disk_job_mods : List InstalledMod → Run (Unit {0})
  acknowledge_disk_job_mods installed = gets (λ s. s.status) >>= (λ previous.
      update_status self env (record previous {
        installed_mods = installed;
        installed_mods_generation = self.generation;
      }))

  -- The Job is there with the wanted fingerprint.
  unfoldable pub follow_disk_job : DiskJob → List InstalledMod → Run DiskReconcile
  follow_disk_job job desired =
      if disk_job_failed job
      then pure (record { blocked = true; failed = true; reason = codes "ModInstallFailed" })
      else if disk_job_succeeded job
      then (acknowledge_disk_job_mods desired >>= (λ u. delete_disk_job job >>= (λ v. pure idle)))
      else pure busy

  unfoldable pub replace_disk_job : Setup → Bool → Text → Text → DiskJob → Run DiskReconcile
  replace_disk_job setup supports_mods name fingerprint job = do
    when (disk_job_finished job)
        (delete_disk_job job >>= (λ u. create_mod_disk_job setup supports_mods name fingerprint))
    pure busy

  abbrev pub on_disk_job : Setup → Bool → Text → Option DiskJob → Run DiskReconcile
  on_disk_job setup supports_mods name none =
      create_mod_disk_job setup supports_mods name
        (env.fingerprint (observed_installed_mods self env setup.mods))
      >>= (λ u. pure busy)
  on_disk_job setup supports_mods name (some job) =
      let desired = observed_installed_mods self env setup.mods in
      if not (text_eq job.fingerprint (env.fingerprint desired))
      then replace_disk_job setup supports_mods name (env.fingerprint desired) job
      else follow_disk_job job desired

  unfoldable pub synchronize_mods : Setup → Bool → Text → Run DiskReconcile
  synchronize_mods setup supports_mods name = do
    previous ← gets (λ s. s.status)
    if installed_mods_match previous.installed_mods (observed_installed_mods self env setup.mods)
        then (delete_completed_disk_job >>= (λ u. pure idle))
        else (owned_disk_job >>= on_disk_job setup supports_mods name)

  -- `name` is the name of the disk Job.
  unfoldable pub reconcile_managed_disk : Setup → Definition → Text → Run DiskReconcile
  reconcile_managed_disk setup definition name = do
    work ← pending_save_disk_work
    if work.blocked || work.failed
        then pure work
        else if not definition.supports_mods
        then pure idle
        else synchronize_mods setup definition.supports_mods name
