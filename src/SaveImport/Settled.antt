-- ===== src/SaveImport/Settled.antt =====
-- internal/controller/saveimport_controller.go: Reconcile of an import in a terminal phase.
use plexus_controller.Common.{
  Text, ℕ, ◌≡◌, refl, ap, ◌∙◌, inl, inr, Bool, true, false, Option, [], arith, if◌then◌else◌,
}
use plexus_controller.SaveImport.Cluster.{
  Status, Identity, World, Action, call, ◌>>=◌, Surroundings, Termination,
}
use plexus_controller.SaveImport.Operations.{
  no_change, update_status, set_finalizer, cleanup, is_terminal,
}
use plexus_controller.SaveImport.Reconcile.{settle, reconcile_live, reconcile, stored}
use plexus_controller.SaveImport.Keeps.{
  Keeps, IsPreorder, Keeps-pure, Keeps->>=, Keeps-when, cleanup-status, call-cases, answered,
}

-- A status without the texts that the cleanup of a terminal import may still rewrite.
abbrev pub outcome : Status → Status
outcome status = record status { stage = []; message = [] }

-- The outcome is kept once it is reached.
HasKept : Status → World → World → Type 0
HasKept o v w = outcome v.status ≡ o → outcome w.status ≡ o

module _ (o : Status) where
  HasKept-IsPreorder : IsPreorder (HasKept o)
  unfolding HasKept
  HasKept-IsPreorder = record { same = λ w h. h; steps = λ a b h. b (a h) }

  Keeps-update_status :
      (status : Status) → outcome status ≡ o → Keeps (HasKept o) (update_status status)
  unfolding HasKept Keeps call
  Keeps-update_status status e w h = ground arith

  Keeps-set_finalizer : (present : Bool) → Keeps (HasKept o) (set_finalizer present)
  unfolding HasKept Keeps call
  Keeps-set_finalizer present w h = ground arith

  Keeps-cleanup : (import : Identity) (remove : Bool) → Keeps (HasKept o) (cleanup import remove)
  unfolding HasKept Keeps
  Keeps-cleanup import remove w h = ap outcome (cleanup-status import remove w) ∙ h

module _ (import : Identity) (env : Surroundings) (lower_high : ℕ → ℕ)
    (unmarshal : Text → Option Termination) (job_uid : ℕ) where
  Keeps-settle :
      (o status : Status)
      → outcome status ≡ o
      → Keeps (HasKept o) (settle import env lower_high unmarshal job_uid status)
  unfolding settle
  Keeps-settle o status e = Keeps->>= (HasKept-IsPreorder o) _ _ (Keeps-cleanup o import _) (λ d.
      Keeps->>= (HasKept-IsPreorder o) _ _
        (Keeps-when (HasKept-IsPreorder o) _ _ (Keeps-update_status o _ e))
        (λ _. Keeps-pure (HasKept-IsPreorder o) _))

  Keeps-reconcile_live :
      (o status : Status) (finalizer : Bool)
      → is_terminal status.phase ≡ true
      → outcome status ≡ o
      → Keeps (HasKept o) (reconcile_live import env lower_high unmarshal job_uid status finalizer)
  unfolding reconcile_live
  Keeps-reconcile_live o status finalizer terminal e =
      Keeps->>= (HasKept-IsPreorder o) _ _
        (Keeps-when (HasKept-IsPreorder o) _ _ (Keeps-set_finalizer o true))
        (λ _. rw terminal (Keeps-settle o status e))

  Keeps-second {ℓ} :
      {A : Type ℓ} (o : Status) (b : Bool) (m n : Action A)
      → b ≡ false
      → Keeps (HasKept o) n
      → Keeps (HasKept o) (if b then m else n)
  Keeps-second o true m n h second = cc
  Keeps-second o false m n h second = second

  -- Reconcile of an import in a terminal phase that is not being deleted changes at most the stage and
  -- the message of its status, whatever calls fail.
  pub reconcile-outcome :
      (w : World)
      → import.deleting ≡ false
      → is_terminal w.status.phase ≡ true
      → outcome (reconcile import env lower_high unmarshal job_uid w).0.status ≡ outcome w.status
  unfolding reconcile HasKept Keeps ◌>>=◌
  reconcile-outcome w live terminal =
      elim (call-cases no_change (stored import env lower_high unmarshal job_uid) w) [
        | inl failed ↦ rw failed
        | inr read ↦ rw read (
            Keeps-second (outcome w.status) import.deleting _ _ live
              (Keeps-reconcile_live (outcome w.status) w.status w.finalizer terminal refl)
              (answered w) refl)
      ]
