-- ===== src/SaveImport/Deleted.antt =====
-- internal/controller/saveimport_controller.go: Reconcile of an import that is being deleted.
use plexus_controller.Common.{Text, ℕ, ◌≡◌, true, false, Option, [], arith}
use plexus_controller.SaveImport.Cluster.{Identity, World, Surroundings, Termination, call, ◌>>=◌}
use plexus_controller.SaveImport.Operations.{owned_job, owned_secret, cleanup}
use plexus_controller.SaveImport.Reconcile.{reconcile, reconcile_deleted}

module _ (import : Identity) (env : Surroundings) (lower_high : ℕ → ℕ)
    (unmarshal : Text → Option Termination) (job_uid : ℕ) where
  cleanup-owned :
      (w : World)
      → w.faults ≡ []
      → (owned_job import (cleanup import true w).0.job ≡ false)
        × (owned_secret import (cleanup import true w).0.secret ≡ false)
        × ((cleanup import true w).0.faults ≡ [])
  unfolding cleanup call ◌>>=◌
  cleanup-owned w clear = ground arith

  -- Without faults, one Reconcile of an import that is being deleted removes its finalizer, the Job that
  -- it controls and the Secret with its labels.
  pub reconcile-deleted :
      (w : World)
      → import.deleting ≡ true
      → w.faults ≡ []
      → ((reconcile import env lower_high unmarshal job_uid w).0.finalizer ≡ false)
        × (owned_job import (reconcile import env lower_high unmarshal job_uid w).0.job ≡ false)
        × (owned_secret import (reconcile import env lower_high unmarshal job_uid w).0.secret
            ≡ false)
  unfolding reconcile reconcile_deleted cleanup call ◌>>=◌
  reconcile-deleted w deleting clear = ground arith
