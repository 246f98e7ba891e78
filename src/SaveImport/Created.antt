-- ===== src/SaveImport/Created.antt =====
-- internal/controller/saveimport_controller.go: when Reconcile creates the importer's Job.
use plexus_controller.Common.{
  Text, ℕ, ◌<◌, ◌≡◌, refl, ◌∙◌, inl, inr, Bool, true, false, Option, none, some, arith, leb,
  if◌then◌else◌, Bool-cases,
}
use plexus_controller.SaveImport.Cluster.{
  Status, Job, Secret, Identity, World, Action, Reply, ◌>>=◌, done, fault, continue, Surroundings,
  Termination,
}
use plexus_controller.SaveImport.Authorize.{server_refusal, secret_refusal}
use plexus_controller.SaveImport.Operations.{no_change, is_terminal, Requeue}
use plexus_controller.SaveImport.Reconcile.{
  authorize, with_refusal, advance, settle, reconcile_deleted, reconcile_live, reconcile, dispatch,
  stored as stored_state, on_authorization,
}
use plexus_controller.SaveImport.Keeps.{
  Keeps, Keeps-pure, Keeps->>=, Keeps-when, call-cases, attempt-cases, answered,
}
use plexus_controller.SaveImport.Authorized.{Authorized, Authorized-of_passed}
use plexus_controller.SaveImport.Guarded.{
  Guarded, Guarded-IsPreorder, Keeps-update_status, Keeps-set_finalizer, Keeps-cleanup,
  Keeps-finish,
}

module _ (import : Identity) (env : Surroundings) (lower_high : ℕ → ℕ)
    (unmarshal : Text → Option Termination) (job_uid : ℕ) where
  authorize-job : (w : World) → (authorize import env lower_high unmarshal job_uid w).0.job ≡ w.job
  unfolding authorize ◌>>=◌
  authorize-job w = ground arith

  with_refusal-granted :
      (refusal : Option Text) (w : World)
      → (with_refusal import env lower_high unmarshal job_uid refusal w).1 ≡ done none
      → (refusal ≡ none) × (secret_refusal import w.secret ≡ none)
  unfolding ◌>>=◌ secret_refusal
  with_refusal-granted (some reason) w h = cc
  with_refusal-granted none w h = elim (attempt-cases (λ v. v.secret) w) [
    | inl failed ↦ let k = rw failed at h in cc
    | inr read ↦ let k = rw read at h in (refl, cc)
  ]

  authorize-granted :
      (w : World)
      → (authorize import env lower_high unmarshal job_uid w).1 ≡ done none
      → (server_refusal import env env.server ≡ none) × (secret_refusal import w.secret ≡ none)
  unfolding authorize ◌>>=◌ server_refusal
  authorize-granted w h = elim (attempt-cases (λ v. env.server) w) [
    | inl failed ↦ let k = rw failed at h in cc
    | inr read ↦ with_refusal-granted _ (answered w) (rw read at h)
  ]

  on_answer-Guarded :
      (P : Type 0) (status : Status) (u : World) (r : World × Reply (Option Text))
      → r.0.job ≡ u.job
      → (r.1 ≡ done none → P)
      → Guarded P u (continue r (on_authorization import env lower_high unmarshal job_uid status)).0
  unfolding Guarded Keeps
  on_answer-Guarded P status u (v, fault) same granted h = inl (same ∙ h)
  on_answer-Guarded P status u (v, done none) same granted h = inr (granted refl)
  on_answer-Guarded P status u (v, done (some reason)) same granted h =
      Keeps-finish P import _ _ _ _ _ _ v (same ∙ h)

  -- When a Job may come into being, `held` being the Secret that the spec refers to.
  pub Permitted : Status → Option Secret → Type 0
  Permitted status held =
      (env.now < import.spec.expires_at)
      × (is_terminal status.phase ≡ false)
      × Authorized import env held

  pub Permitted-Authorized :
      (status : Status) (held : Option Secret) → Permitted status held → Authorized import env held
  unfolding Permitted
  Permitted-Authorized status held h = h.2

  advance-Guarded :
      (status : Status) (w : World)
      → is_terminal status.phase ≡ false
      → Guarded
          (Permitted status w.secret)
          w
          (advance import env lower_high unmarshal job_uid status w).0
  unfolding advance Guarded Keeps ◌>>=◌ Permitted
  advance-Guarded status w active = elim (Bool-cases (leb import.spec.expires_at env.now)) [
    | inl late ↦ rw late (Keeps-finish _ import _ _ _ _ _ _ w)
    | inr early ↦ rw early (
        on_answer-Guarded _ status w _ (authorize-job w) (λ answer.
          let (server, secret) = authorize-granted w answer in
          (ground arith, active, Authorized-of_passed import env w.secret server secret)))
  ]

  Keeps-settle :
      (P : Type 0) (status : Status)
      → Keeps (Guarded P) (settle import env lower_high unmarshal job_uid status)
  unfolding settle
  Keeps-settle P status = Keeps->>= (Guarded-IsPreorder P) _ _ (Keeps-cleanup P import _) (λ d.
      Keeps->>= (Guarded-IsPreorder P) _ _
        (Keeps-when (Guarded-IsPreorder P) _ _ (Keeps-update_status P _))
        (λ _. Keeps-pure (Guarded-IsPreorder P) _))

  Keeps-reconcile_deleted :
      (P : Type 0) (status : Status) (finalizer : Bool)
      → Keeps
          (Guarded P)
          (reconcile_deleted import env lower_high unmarshal job_uid status finalizer)
  unfolding reconcile_deleted
  Keeps-reconcile_deleted P status finalizer =
      Keeps->>= (Guarded-IsPreorder P) _ _ (Keeps-cleanup P import _) (λ d.
        Keeps->>= (Guarded-IsPreorder P) _ _
          (Keeps-when (Guarded-IsPreorder P) _ _ (Keeps-update_status P _))
          (λ _.
            Keeps->>= (Guarded-IsPreorder P) _ _
              (Keeps-when (Guarded-IsPreorder P) _ _ (Keeps-set_finalizer P _))
              (λ _. Keeps-pure (Guarded-IsPreorder P) _)))

  active-Guarded :
      (status : Status) (w : World)
      → Guarded
          (Permitted status w.secret)
          w
          ((if is_terminal status.phase
              then settle import env lower_high unmarshal job_uid status
              else advance import env lower_high unmarshal job_uid status)
            w).0
  unfolding Keeps
  active-Guarded status w = elim (Bool-cases (is_terminal status.phase)) [
    | inl over ↦ rw over (Keeps-settle _ status w)
    | inr active ↦ rw active (advance-Guarded status w active)
  ]

  reconcile_live-Guarded :
      (status : Status) (finalizer : Bool) (w : World)
      → Guarded
          (Permitted status w.secret)
          w
          (reconcile_live import env lower_high unmarshal job_uid status finalizer w).0
  unfolding reconcile_live ◌>>=◌ Guarded
  reconcile_live-Guarded status true w h = active-Guarded status w h
  reconcile_live-Guarded status false w h =
      elim (call-cases (λ v. record v { finalizer = true }) (λ v. tt {0}) w) [
        | inl failed ↦ rw failed (inl h)
        | inr added ↦ rw added (active-Guarded status _ h)
      ]

  dispatch-Guarded :
      (status : Status) (finalizer : Bool) (w : World)
      → Guarded
          ((import.deleting ≡ false) × Permitted status w.secret)
          w
          (dispatch import env lower_high unmarshal job_uid (status, finalizer) w).0
  unfolding Keeps Guarded
  dispatch-Guarded status finalizer w =
      chosen import.deleting _ _ (λ _. Keeps-reconcile_deleted _ status finalizer w)
        (λ live h. elim (reconcile_live-Guarded status finalizer w h) [
          | inl still ↦ inl still
          | inr permitted ↦ inr (live, permitted)
        ])
    where
      chosen :
          (b : Bool) (m n : Action Requeue)
          → ((b ≡ true) → Guarded ((import.deleting ≡ false) × Permitted status w.secret) w (m w).0)
          → ((b ≡ false)
              → Guarded ((import.deleting ≡ false) × Permitted status w.secret) w (n w).0)
          → Guarded
              ((import.deleting ≡ false) × Permitted status w.secret)
              w
              ((if b then m else n) w).0
      chosen true m n first second = first refl
      chosen false m n first second = second refl

  -- If there was no Job and Reconcile leaves one, then the import is not being deleted, its phase is not
  -- terminal, its authorization has not expired, and its server and its Secret are as an importer
  -- needs them: whatever calls fail.
  pub reconcile-Permitted :
      (w : World) (job : Job)
      → w.job ≡ none
      → (reconcile import env lower_high unmarshal job_uid w).0.job ≡ some job
      → (import.deleting ≡ false) × Permitted w.status w.secret
  unfolding reconcile ◌>>=◌ Guarded
  reconcile-Permitted w job absent created =
      elim (call-cases no_change (stored_state import env lower_high unmarshal job_uid) w) [
        | inl failed ↦ let h = rw failed at created in cc
        | inr read ↦ elim (dispatch-Guarded w.status w.finalizer (answered w) absent) [
          | inl still ↦ let h = rw read at created in cc
          | inr permitted ↦ permitted
        ]
      ]
