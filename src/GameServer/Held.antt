-- ===== src/GameServer/Held.antt =====
-- internal/controller/gameserver_disk_job.go: no workload is started while a transfer holds the disk.
use plexus_controller.Common.{
  Text, text_eq, ℕ, ◌≡◌, refl, inl, inr, Bool, true, false, ◌&&◌, ◌||◌, Option, none, some, List,
  [], ◌∷◌, arith, if◌then◌else◌, Bool-cases, any,
}
use plexus_controller.GameServer.Types.{
  Setup, Transfer, Definition, Self, Store, Error, Surroundings,
}
use plexus_controller.Api.{Cluster, pure, fail, ◌>>=◌}
use plexus_controller.GameServer.Objects.{Run, get}
use plexus_controller.Api.Keeps.{Keeps, Keeps-fail, Keeps-if, Keeps-otherwise}
use plexus_controller.GameServer.Absent.{NoWorkload}
use plexus_controller.GameServer.Status.{report_failure}
use plexus_controller.GameServer.Stable.{Holds, Keeps-report_failure}
use plexus_controller.GameServer.Shutdown.{reconcile_stopped}
use plexus_controller.Api.Ensures.{Ensures, Keeps-otherwise-of_ensures}
use plexus_controller.Naming.Revision.{disk_job_name}
use plexus_controller.GameServer.Disk.{DiskReconcile, reconcile_managed_disk, is_running_power}
use plexus_controller.GameServer.Reconcile.{reconcile_workload, on_disk, on_disk_name, reconcile}
use plexus_controller.GameServer.DiskSteps.{Keeps-reconcile_managed_disk}
use plexus_controller.GameServer.RunSteps.{
  Keeps-ensure_claim, Keeps-report_starting_for_disk_work, Keeps-report_disk_job_failure,
}
use plexus_controller.GameServer.Ceased.{
  Gone, Gone-IsStable, Keeps-reconcile_stopped, Keeps-reconcile_unloaded,
}
use plexus_controller.GameServer.Whole.{Keeps-reconcile}
use plexus_controller.GameServer.Disk.{
  is_failed, pending_import, pending_export, pending_save_disk_work, save_import_holds_claim,
  save_export_holds_claim,
}
use plexus_controller.Api.Ensures.{Ensures-if, Ensures-pure, Ensures-bind, Ensures-call}

module _ (self : Self) (env : Surroundings) where
  -- A transfer of the server that holds the disk: it has not ended, or it is an import that failed.
  abbrev pub holds_import : Transfer → Bool
  holds_import t =
      text_eq t.server_id self.spec.server_id
      && (save_import_holds_claim t.phase || is_failed t.phase)

  abbrev pub holds_export : Transfer → Bool
  holds_export t = text_eq t.server_id self.spec.server_id && save_export_holds_claim t.phase

  pending_import-holds :
      (imports : List Transfer)
      → any holds_import imports ≡ true
      → (pending_import self env imports).blocked ≡ true
  unfolding pending_import save_import_holds_claim
  pending_import-holds [] h = cc
  pending_import-holds (t ∷ imports) h = let ih = pending_import-holds imports in ground (arith, ih)

  pending_export-holds :
      (exports : List Transfer)
      → any holds_export exports ≡ true
      → (pending_export self env exports).blocked ≡ true
  unfolding pending_export
  pending_export-holds [] h = cc
  pending_export-holds (t ∷ exports) h = let ih = pending_export-holds exports in ground (arith, ih)

  -- Some transfer of the server holds the disk.
  abbrev pub holds_disk : Bool
  holds_disk = any holds_import env.imports || any holds_export env.exports

  abbrev Blocked : DiskReconcile → Store → Type 0
  Blocked disk s = disk.blocked ≡ true

  exports_left :
      holds_disk ≡ true
      → (pending_import self env env.imports).blocked ≡ false
      → any holds_export env.exports ≡ true
  exports_left held e = elim (Bool-cases (any holds_import env.imports)) [
    | inl f ↦ let g = pending_import-holds env.imports f in cc
    | inr f ↦ rw f at held
  ]

  pending_work-Blocked :
      holds_disk ≡ true → Ensures (λ s. Unit {0}) (pending_save_disk_work self env) Blocked
  unfolding pending_save_disk_work
  pending_work-Blocked held =
      Ensures-bind (λ imports s. imports ≡ env.imports) _ _ (Ensures-call _ _ _ (λ s p. refl))
        (λ imports. blocked_by imports)
    where
      exports_blocked :
          (work : DiskReconcile)
          → Ensures
              (λ s. work.blocked ≡ false → any holds_export env.exports ≡ true)
              (if work.blocked
                then pure work
                else (get (λ s. env.exports)
                    >>= (λ exports. pure (pending_export self env exports))))
              Blocked
      exports_blocked work =
          Ensures-if work.blocked _ _ (λ e. Ensures-pure work (λ s p. e))
            (λ e.
              Ensures-bind (λ exports s. (pending_export self env exports).blocked ≡ true) _ _
                (Ensures-call _ _ _ (λ s p. pending_export-holds env.exports (p e)))
                (λ exports. Ensures-pure _ (λ s p. p)))

      blocked_by :
          (imports : List Transfer)
          → Ensures
              (λ s. imports ≡ env.imports)
              (if (pending_import self env imports).blocked
                then pure (pending_import self env imports)
                else (get (λ s. env.exports)
                    >>= (λ exports. pure (pending_export self env exports))))
              Blocked
      blocked_by imports = record {
        of = λ c p.
            (exports_blocked (pending_import self env imports)).of c
              (λ e. exports_left held (rw p at e));
      }

  disk-Blocked :
      (setup : Setup) (definition : Definition) (name : Text)
      → holds_disk ≡ true
      → Ensures (λ s. Unit {0}) (reconcile_managed_disk self env setup definition name) Blocked
  unfolding reconcile_managed_disk
  disk-Blocked setup definition name held =
      Ensures-bind Blocked _ _ (pending_work-Blocked held) (λ work.
        Ensures-if (work.blocked || work.failed) _ _ (λ e. Ensures-pure work (λ s p. p))
          (λ e. record { of = λ c blocked. absurd (cc (rw blocked at e)) }))

  abbrev Kept : {A : Type 0} → Run A → Type 0
  Kept m = Keeps (Holds self env (Gone self env) (Gone-IsStable self env)) m

  Kept-report :
      {A : Type 0} (reason : Text) (error : Error)
      → Kept (report_failure self env {A = A} reason error)
  Kept-report = Keeps-report_failure self env (Gone self env) (Gone-IsStable self env)

  Kept-stopped : (setup : Setup) → Kept (reconcile_stopped self env setup)
  Kept-stopped setup =
      Keeps-reconcile_stopped self env (Gone self env) (Gone-IsStable self env) (λ st ds h. h) setup

  -- Only a disk that is free lets the workload run.
  Kept-disk :
      (setup : Setup) (definition : Definition) (configuration : Text) (secret : Option Text × ℕ)
      (disk : DiskReconcile)
      → disk.blocked ≡ true
      → Kept (on_disk self env setup definition configuration secret disk)
  unfolding on_disk
  Kept-disk setup definition configuration secret disk blocked =
      Keeps-if disk.failed _ _
        (λ e.
          Keeps-report_disk_job_failure self env (Gone self env) (Gone-IsStable self env) definition
            disk)
        (λ e.
          Keeps-if disk.blocked _ _
            (λ f.
              Keeps-if (is_running_power self.spec.desired_power) _ _
                (λ g.
                  Keeps-report_starting_for_disk_work self env (Gone self env)
                    (Gone-IsStable self env) definition disk)
                (λ g. Kept-stopped setup))
            (λ f. absurd cc))

  Kept-workload :
      (setup : Setup) (definition : Definition) (configuration : Text) (secret : Option Text × ℕ)
      → holds_disk ≡ true
      → Kept (reconcile_workload self env setup definition configuration secret)
  unfolding reconcile_workload fail
  Kept-workload setup definition configuration secret held =
      Keeps-otherwise _ _ _
        (Keeps-ensure_claim self env (Gone self env) (Gone-IsStable self env) definition)
        (Kept-report _)
        (λ u.
          Keeps-otherwise-of_ensures Blocked _ _
            (on_disk self env setup definition configuration secret)
            (disk_kept (disk_job_name env.digest_hex self.name))
            (disk_blocked (disk_job_name env.digest_hex self.name)) (Kept-report _)
            (λ disk d h blocked.
              (Kept-disk setup definition configuration secret disk blocked).at d h))
    where
      disk_kept : (name : Option Text) → Kept (on_disk_name self env setup definition name)
      disk_kept none = Keeps-fail _
      disk_kept (some name) =
          Keeps-reconcile_managed_disk self env (Gone self env) (Gone-IsStable self env) setup
            definition name

      disk_blocked :
          (name : Option Text)
          → Ensures
              (Holds self env (Gone self env) (Gone-IsStable self env))
              (on_disk_name self env setup definition name)
              Blocked
      disk_blocked none = record { of = λ c p disk h. cc }
      disk_blocked (some name) = record {
        of = λ c p. (disk-Blocked setup definition name held).of c tt;
      }

  -- If some transfer of the server holds the disk and there is no workload, then there is none after
  -- Reconcile either, whatever calls fail.
  pub reconcile-held :
      (c : Cluster Store)
      → holds_disk ≡ true
      → NoWorkload self env c.store.deployments
      → NoWorkload self env (reconcile self env c).0.store.deployments
  reconcile-held c held =
      (Keeps-reconcile self env (Gone self env) (Gone-IsStable self env)
          (λ setup definition configuration secret valid chosen.
            Kept-workload setup definition configuration secret held)
          (λ valid chosen.
            Keeps-reconcile_unloaded self env (Gone self env) (Gone-IsStable self env)
              (λ st ds h. h))).at
        c
