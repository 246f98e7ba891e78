-- ===== src/SaveImport/Untouched.antt =====
-- internal/controller/saveimport_controller.go: objects with another owner under the operations.
use plexus_controller.Common.{
  Text, ℕ, ◌≡◌, refl, ◌∙◌, inl, inr, Bool, true, false, Option, none, some, arith, if◌then◌else◌,
}
use plexus_controller.SaveImport.Cluster.{
  Phase, Status, Job, Secret, Identity, World, Action, pure, call, ◌>>=◌, Surroundings, Termination,
}
use plexus_controller.SaveImport.Authorize.{save_import_authorization_owned_by}
use plexus_controller.SaveImport.Operations.{
  attempt, no_change, when, is_controlled_by, update_status, set_finalizer, get_job, cleanup,
  finish, Requeue,
}
use plexus_controller.SaveImport.Reconcile.{settle, reconcile_deleted}
use plexus_controller.SaveImport.Keeps.{
  Keeps, IsPreorder, Keeps-pure, Keeps->>=, Keeps-when, cleanup-job, cleanup-secret, call-cases,
  answered,
}

-- A Job that another object controls, and a Secret that does not carry the labels of the import, are as
-- before.
pub record Untouched (import : Identity) (v w : World) : Type 0 where
  pub job :
      (job : Job)
      → v.job ≡ some job
      → is_controlled_by job.controller import.uid ≡ false
      → w.job ≡ some job
  pub secret :
      (secret : Secret)
      → v.secret ≡ some secret
      → save_import_authorization_owned_by secret import ≡ false
      → w.secret ≡ some secret

module _ (import : Identity) where
  Untouched-IsPreorder : IsPreorder (Untouched import)
  Untouched-IsPreorder = record {
    same = λ w. record { job = λ j h k. h; secret = λ s h k. h };
    steps = λ a b. record {
      job = λ j h k. b.job j (a.job j h k) k;
      secret = λ s h k. b.secret s (a.secret s h k) k;
    };
  }

  -- Actions that change neither.
  Untouched-of_same : {v w : World} → w.job ≡ v.job → w.secret ≡ v.secret → Untouched import v w
  Untouched-of_same h k = record { job = λ j e _. h ∙ e; secret = λ s e _. k ∙ e }

  pub Keeps-update_status : (status : Status) → Keeps (Untouched import) (update_status status)
  unfolding call Keeps
  Keeps-update_status status w = Untouched-of_same (ground arith) (ground arith)

  pub Keeps-set_finalizer : (present : Bool) → Keeps (Untouched import) (set_finalizer present)
  unfolding call Keeps
  Keeps-set_finalizer present w = Untouched-of_same (ground arith) (ground arith)

  pub Keeps-read {ℓ} :
      {A : Type ℓ} (read : World → A) → Keeps (Untouched import) (call no_change read)
  unfolding call Keeps
  Keeps-read read w = Untouched-of_same (ground arith) (ground arith)

  pub Keeps-attempt {ℓ} :
      {A : Type ℓ} (read : World → Option A) → Keeps (Untouched import) (attempt read)
  unfolding Keeps
  Keeps-attempt read w = Untouched-of_same (ground arith) (ground arith)

  Keeps-cleanup : (remove : Bool) → Keeps (Untouched import) (cleanup import remove)
  unfolding Keeps
  Keeps-cleanup remove w = record {
    job = λ j h k. elim (cleanup-job import remove w) [
      | inl same ↦ same ∙ h
      | inr (owned, _, _) ↦ ground arith
    ];
    secret = λ s h k. elim (cleanup-secret import remove w) [
      | inl same ↦ same ∙ h
      | inr (owned, _) ↦ ground arith
    ];
  }

  pub Keeps-bind {ℓ κ} :
      {A : Type ℓ} {B : Type κ} (m : Action A) (next : A → Action B)
      → Keeps (Untouched import) m
      → ((a : A) → Keeps (Untouched import) (next a))
      → Keeps (Untouched import) (m >>= next)
  Keeps-bind m next first rest = Keeps->>= Untouched-IsPreorder m next first rest

  pub Keeps-value {ℓ} : {A : Type ℓ} (a : A) → Keeps (Untouched import) (pure a)
  Keeps-value a = Keeps-pure Untouched-IsPreorder a

  pub Keeps-if :
      (b : Bool) (m : Action (Unit {0}))
      → Keeps (Untouched import) m
      → Keeps (Untouched import) (when b m)
  Keeps-if b m first = Keeps-when Untouched-IsPreorder b m first

  pub Keeps-finish :
      (now : ℕ) (status : Status) (phase : Phase) (stage recovery message : Text)
      → Keeps (Untouched import) (finish import now status phase stage recovery message)
  unfolding finish
  Keeps-finish now status phase stage recovery message =
      Keeps-bind _ _ (Keeps-update_status _) (λ _.
        Keeps-bind _ _ (Keeps-cleanup _)
          (λ d. Keeps-bind _ _ (Keeps-if _ _ (Keeps-update_status _)) (λ _. Keeps-value none)))

  pub Keeps-get_job :
      (next : Option Job → Action Requeue)
      → ((w : World) → Untouched import w (next w.job w).0)
      → Keeps (Untouched import) (get_job >>= next)
  unfolding Keeps ◌>>=◌
  Keeps-get_job next rest w = elim (call-cases no_change (λ v. v.job) w) [
    | inl failed ↦ rw failed (Untouched-of_same refl refl)
    | inr read ↦
        rw read (Untouched-IsPreorder.steps (Untouched-of_same refl refl) (rest (answered w)))
  ]

  pub Keeps-choice {ℓ} :
      {A : Type ℓ} (b : Bool) (m n : Action A)
      → Keeps (Untouched import) m
      → Keeps (Untouched import) n
      → Keeps (Untouched import) (if b then m else n)
  Keeps-choice true m n first second = first
  Keeps-choice false m n first second = second

  pub Keeps-settle :
      (env : Surroundings) (lower_high : ℕ → ℕ) (unmarshal : Text → Option Termination)
      (job_uid : ℕ) (status : Status)
      → Keeps (Untouched import) (settle import env lower_high unmarshal job_uid status)
  unfolding settle
  Keeps-settle env lower_high unmarshal job_uid status =
      Keeps-bind _ _ (Keeps-cleanup _)
        (λ d. Keeps-bind _ _ (Keeps-if _ _ (Keeps-update_status _)) (λ _. Keeps-value _))

  pub Keeps-reconcile_deleted :
      (env : Surroundings) (lower_high : ℕ → ℕ) (unmarshal : Text → Option Termination)
      (job_uid : ℕ) (status : Status) (finalizer : Bool)
      → Keeps
          (Untouched import)
          (reconcile_deleted import env lower_high unmarshal job_uid status finalizer)
  unfolding reconcile_deleted
  Keeps-reconcile_deleted env lower_high unmarshal job_uid status finalizer =
      Keeps-bind _ _ (Keeps-cleanup _) (λ d.
        Keeps-bind _ _ (Keeps-if _ _ (Keeps-update_status _))
          (λ _. Keeps-bind _ _ (Keeps-if _ _ (Keeps-set_finalizer _)) (λ _. Keeps-value _)))
