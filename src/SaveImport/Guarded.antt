-- ===== src/SaveImport/Guarded.antt =====
-- internal/controller/saveimport_controller.go: the operations that create no Job.
use plexus_controller.Common.{Text, ℕ, ◌≡◌, ◌∙◌, ◌⊎◌, inl, inr, Bool, none, arith}
use plexus_controller.SaveImport.Cluster.{Phase, Status, Identity, World, call}
use plexus_controller.SaveImport.Operations.{update_status, set_finalizer, cleanup, finish}
use plexus_controller.SaveImport.Keeps.{
  Keeps, IsPreorder, Keeps-pure, Keeps->>=, Keeps-when, cleanup-job,
}

-- A Job comes into being only if `P` holds.
unfoldable pub Guarded : Type 0 → World → World → Type 0
Guarded P v w = v.job ≡ none → (w.job ≡ none) ⊎ P

module _ (P : Type 0) where
  pub Guarded-IsPreorder : IsPreorder (Guarded P)
  unfolding Guarded
  Guarded-IsPreorder = record {
    same = λ w h. inl h;
    steps = λ a b h. elim (a h) [ inl still ↦ b still | inr holds ↦ inr holds ];
  }

  pub Keeps-update_status : (status : Status) → Keeps (Guarded P) (update_status status)
  unfolding Guarded Keeps call
  Keeps-update_status status w h = inl (ground arith)

  pub Keeps-set_finalizer : (present : Bool) → Keeps (Guarded P) (set_finalizer present)
  unfolding Guarded Keeps call
  Keeps-set_finalizer present w h = inl (ground arith)

  pub Keeps-cleanup :
      (import : Identity) (remove : Bool) → Keeps (Guarded P) (cleanup import remove)
  unfolding Guarded Keeps
  Keeps-cleanup import remove w h = elim (cleanup-job import remove w) [
    | inl same ↦ inl (same ∙ h)
    | inr (_, _, gone) ↦ inl gone
  ]

  pub Keeps-finish :
      (import : Identity) (now : ℕ) (status : Status) (phase : Phase)
      (stage recovery message : Text)
      → Keeps (Guarded P) (finish import now status phase stage recovery message)
  unfolding finish
  Keeps-finish import now status phase stage recovery message =
      Keeps->>= Guarded-IsPreorder _ _ (Keeps-update_status _) (λ _.
        Keeps->>= Guarded-IsPreorder _ _ (Keeps-cleanup import _) (λ d.
          Keeps->>= Guarded-IsPreorder _ _
            (Keeps-when Guarded-IsPreorder _ _ (Keeps-update_status _))
            (λ _. Keeps-pure Guarded-IsPreorder none)))
