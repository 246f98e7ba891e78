-- ===== src/GameServer/Ceased.antt =====
-- internal/controller/gameserver_controller.go: the ways to stop, once the workload is gone.
use mathlib.Core.List.{map}
use plexus_controller.Common.{
  Text, codes, ◌≡◌, refl, inl, inr, Bool, true, false, some, List, [], ◌∷◌, arith, All, All-imp,
}
use plexus_controller.GameServer.Types.{
  Setup, Status, Deployment, Self, Store, Error, Requeue, Surroundings,
}
use plexus_controller.Api.{Cluster, otherwise}
use plexus_controller.GameServer.Objects.{
  Run, is_controlled, find_named, meta_of, delete_deployment, mark_named,
}
use plexus_controller.Api.Keeps.{Keeps, Keeps-bind, Keeps-pure, Keeps-otherwise, keeps_rules}
use plexus_controller.GameServer.Absent.{lookup_names, is_labelled, is_free, NoWorkload}
use plexus_controller.GameServer.Status.{
  set_condition, observed_status, update_status, report_failure,
}
use plexus_controller.GameServer.Stable.{
  is_stopped_phase, IsStable, update_status-cases, Holds, Keeps-update_status, Keeps-report_failure,
  Keeps-delete_deployment,
}
use plexus_controller.GameServer.Shutdown.{reconcile_unloaded, unloaded_status}
use plexus_controller.GameServer.Workload.{replace_service_if_game_changed}
use plexus_controller.GameServer.Gone.{delete_deployment-Ensures}
use plexus_controller.GameServer.Shutdown.{
  report_stopped, report_unloaded, on_stopped, reconcile_stopped,
}
use plexus_controller.GameServer.StopSteps.{
  Keeps-replace_service_if_game_changed, Keeps-report_stopping,
}
use plexus_controller.Api.Ensures.{Ensures, Keeps-otherwise-of_ensures}

module _ (self : Self) (env : Surroundings) where
  -- A mark of deletion changes neither the names nor the owners.
  find_named-marks :
      (name marked_name : Text) (ds : List Deployment)
      → is_free self env (find_named meta_of name ds) ≡ true
      → is_free self env (find_named meta_of name (map (mark_named env.now marked_name) ds)) ≡ true
  unfolding find_named is_controlled
  find_named-marks name marked_name [] h = h
  find_named-marks name marked_name (d ∷ ds) h =
      let ih = find_named-marks name marked_name ds in ground (arith, ih)

  unlabelled-marks :
      (marked_name : Text) (ds : List Deployment)
      → All (λ d. is_labelled self env d ≡ false) ds
      → All (λ d. is_labelled self env d ≡ false) (map (mark_named env.now marked_name) ds)
  unfolding is_controlled
  unlabelled-marks marked_name [] h = tt
  unlabelled-marks marked_name (d ∷ ds) (h, hs) =
      (ground (arith, h), unlabelled-marks marked_name ds hs)

  pub NoWorkload-marks :
      (ds : List Deployment) (name : Text)
      → NoWorkload self env ds
      → NoWorkload self env (map (mark_named env.now name) ds)
  NoWorkload-marks ds name gone = record {
    unlabelled = unlabelled-marks name ds gone.unlabelled;
    unnamed =
        All-imp _ _ (lookup_names self env) (λ other. find_named-marks other name ds) gone.unnamed;
  }

  abbrev pub Gone : Status → List Deployment → Type 0
  Gone st ds = NoWorkload self env ds

  -- That there is no workload does not depend on the status.
  pub Gone-IsStable : IsStable env Gone
  Gone-IsStable = record {
    marks = λ st ds name h. NoWorkload-marks ds name h;
    busy = λ old new ds e h. h;
    alike = λ old new ds e k h. h;
  }

  abbrev KeptGone : {A : Type 0} → Run A → Type 0
  KeptGone m = Keeps (Holds self env Gone Gone-IsStable) m

  Gone-update_status : (status : Status) → KeptGone (update_status self env status)
  Gone-update_status status = record {
    at = λ c h. elim (update_status-cases self env status c) [
      | inl same ↦ rw same h
      | inr new ↦ rw new h
    ];
  }

  Gone-report_stopped : KeptGone (report_stopped self env)
  Gone-report_stopped =
      Keeps-bind _ _ (search keeps_rules)
        (λ previous. Keeps-bind _ _ (Gone-update_status _) (λ u. Keeps-pure _))

  pub Gone-report_unloaded : (deleted : Bool) → KeptGone (report_unloaded self env deleted)
  Gone-report_unloaded deleted =
      Keeps-bind _ _ (search keeps_rules)
        (λ previous. Keeps-bind _ _ (Gone-update_status _) (λ u. Keeps-pure _))

  Gone-on_stopped : (deleted replaced : Bool) → KeptGone (on_stopped self env deleted replaced)
  Gone-on_stopped true replaced = Keeps-report_stopping self env Gone Gone-IsStable
  Gone-on_stopped false true = Keeps-pure _
  Gone-on_stopped false false = Gone-report_stopped

  abbrev after_deletion : Setup → Bool → Run Requeue
  after_deletion setup deleted =
      otherwise (replace_service_if_game_changed self env (some setup))
        (report_failure self env (codes "ServiceCleanupFailed")) (on_stopped self env deleted)

  pub Gone-after_deletion :
      (setup : Setup) (deleted : Bool) → KeptGone (after_deletion setup deleted)
  Gone-after_deletion setup deleted =
      Keeps-otherwise _ _ _
        (Keeps-replace_service_if_game_changed self env Gone Gone-IsStable (some setup))
        (Keeps-report_failure self env Gone Gone-IsStable _) (Gone-on_stopped deleted)

  module _ (R : Status → List Deployment → Type 0) (stable : IsStable env R)
      (gone : (st : Status) (ds : List Deployment) → NoWorkload self env ds → R st ds) where
    abbrev Kept : {A : Type 0} → Run A → Type 0
    Kept m = Keeps (Holds self env R stable) m

    Kept-report :
        {A : Type 0} (reason : Text) (error : Error)
        → Kept (report_failure self env {A = A} reason error)
    Kept-report = Keeps-report_failure self env R stable

    deletion :
        Ensures
          (Holds self env R stable)
          (delete_deployment self env)
          (λ remaining s. remaining ≡ false → NoWorkload self env s.deployments)
    deletion = record { of = λ c p. (delete_deployment-Ensures self env).of c tt }

    Keeps-on_remaining_workload : (replaced : Bool) → Kept (on_stopped self env true replaced)
    Keeps-on_remaining_workload replaced = Keeps-report_stopping self env R stable

    Keeps-after_deletion :
        (setup : Setup) (deleted : Bool) (d : Cluster Store)
        → Holds self env R stable d.store
        → (deleted ≡ false → NoWorkload self env d.store.deployments)
        → Holds self env R stable (after_deletion setup deleted d).0.store
    Keeps-after_deletion setup true d h q =
        (Keeps-otherwise _ _ _
            (Keeps-replace_service_if_game_changed self env R stable (some setup)) (Kept-report _)
            Keeps-on_remaining_workload).at
          d h
    Keeps-after_deletion setup false d h q =
        gone _ _ ((Gone-after_deletion setup false).at d (q refl))

    pub Keeps-reconcile_stopped : (setup : Setup) → Kept (reconcile_stopped self env setup)
    unfolding reconcile_stopped
    Keeps-reconcile_stopped setup =
        Keeps-otherwise-of_ensures _ _ _ (after_deletion setup)
          (Keeps-delete_deployment self env R stable) deletion (Kept-report _)
          (Keeps-after_deletion setup)

    Keeps-report_unloaded :
        (deleted : Bool) (d : Cluster Store)
        → Holds self env R stable d.store
        → (deleted ≡ false → NoWorkload self env d.store.deployments)
        → Holds self env R stable (report_unloaded self env deleted d).0.store
    unfolding unloaded_status set_condition observed_status is_stopped_phase
    Keeps-report_unloaded true d h q =
        (Keeps-bind _ _ (search keeps_rules) (λ (previous : Status).
            Keeps-bind _ _ (Keeps-update_status self env R stable _ (ground arith))
              (λ u. Keeps-pure _))).at
          d h
    Keeps-report_unloaded false d h q = gone _ _ ((Gone-report_unloaded false).at d (q refl))

    pub Keeps-reconcile_unloaded : Kept (reconcile_unloaded self env)
    unfolding reconcile_unloaded
    Keeps-reconcile_unloaded =
        Keeps-otherwise-of_ensures _ _ _ (report_unloaded self env)
          (Keeps-delete_deployment self env R stable) deletion (Kept-report _) Keeps-report_unloaded
