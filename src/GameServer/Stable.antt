-- ===== src/GameServer/Stable.antt =====
-- internal/controller/gameserver_controller.go: relations between the status and the Deployments that
-- the steps of the reconciler keep.
use mathlib.Core.List.{map}
use plexus_controller.Common.{
  Text, ℕ, ◌≡◌, refl, ◌⊎◌, inl, inr, Bool, true, false, Option, none, some, List, [], ◌∷◌, arith,
  Bool-cases,
}
use plexus_controller.GameServer.Types.{
  stopped, Phase, Setup, Status, Meta, Deployment, Pod, Self, Store, Error, api, Surroundings,
}
use plexus_controller.Api.{Cluster, pure, gets, call, ◌>>=◌}
use plexus_controller.GameServer.Objects.{
  get, delete_owned_object, delete_named, owned_workload_deployments, delete_all, force_delete_pods,
  delete_deployment, mark_named,
}
use plexus_controller.Api.Keeps.{Keeps, Keeps-bind, Keeps-pure, Keeps-call, keeps_rules}
use plexus_controller.GameServer.Objects.{on_owned, delete_pods, look_up}
use plexus_controller.GameServer.Status.{
  set_condition, observed_status, update_status, updated_failure, update_failed_status,
  report_failure, unobserved_failure, report_unobserved_failure, shutdown_started_at,
  shutdown_has_timed_out, shutdown_progress, started_by_deletion, started_at, is_late,
  shutdown_timeout, is_unset,
}

unfoldable pub is_stopped_phase : Phase → Bool
is_stopped_phase stopped = true
is_stopped_phase _ = false

-- A relation that outlasts marks of deletion, statuses that do not claim a stop, and statuses that claim
-- what the one before has claimed.
pub record IsStable (env : Surroundings) (R : Status → List Deployment → Type 0) : Type 0 where
  pub marks :
      (st : Status) (ds : List Deployment) (name : Text)
      → R st ds
      → R st (map (mark_named env.now name) ds)
  pub busy :
      (old new : Status) (ds : List Deployment)
      → is_stopped_phase new.phase ≡ false
      → R old ds
      → R new ds
  pub alike :
      (old new : Status) (ds : List Deployment)
      → new.phase ≡ old.phase
      → new.observed_generation ≡ old.observed_generation
      → R old ds
      → R new ds

module _ (self : Self) (env : Surroundings) where
  -- The store behind the write of a status.
  pub update_status-cases :
      (status : Status) (c : Cluster Store)
      → ((update_status self env status c).0.store ≡ c.store)
        ⊎ ((update_status self env status c).0.store
            ≡ record (c.store) { status = record status { last_observed_at = some env.now } })
  unfolding update_status gets call ◌>>=◌ pure
  update_status-cases status c = ground arith

module _ (self : Self) (env : Surroundings) (R : Status → List Deployment → Type 0)
    (stable : IsStable env R) where
  abbrev pub Holds : Store → Type 0
  Holds s = R s.status s.deployments

  pub Keeps-update_status :
      (status : Status)
      → is_stopped_phase status.phase ≡ false
      → Keeps Holds (update_status self env status)
  Keeps-update_status status e = record {
    at = λ c h. elim (update_status-cases self env status c) [
      | inl same ↦ rw same h
      | inr new ↦ rw new (stable.busy c.store.status _ c.store.deployments e h)
    ];
  }

  updated_failure_busy :
      (reason : Text) (s : Status)
      → is_stopped_phase (updated_failure self env reason s).phase ≡ false
  unfolding updated_failure set_condition observed_status is_stopped_phase
  updated_failure_busy reason s = ground arith

  pub Keeps-update_failed_status :
      (reason : Text) → Keeps Holds (update_failed_status self env reason)
  unfolding update_failed_status
  Keeps-update_failed_status reason =
      search (keeps_rules, Keeps-update_status, updated_failure_busy)

  pub Keeps-report_failure :
      {A : Type 0} (reason : Text) (error : Error)
      → Keeps Holds (report_failure self env {A = A} reason error)
  unfolding report_failure
  Keeps-report_failure reason error = search (keeps_rules, Keeps-update_failed_status)

  unobserved_kept :
      (reason : Text) (st : Status) (ds : List Deployment)
      → R st ds
      → R (record (unobserved_failure self env reason st) { last_observed_at = some env.now }) ds
  unfolding unobserved_failure set_condition is_unset is_stopped_phase
  unobserved_kept reason st ds h = elim (Bool-cases (is_unset st.phase)) [
    | inl e ↦ stable.busy st _ ds (ground arith) h
    | inr e ↦ stable.alike st _ ds (ground arith) refl h
  ]

  pub Keeps-report_unobserved_failure :
      (reason : Text) → Keeps Holds (report_unobserved_failure self env reason)
  unfolding report_unobserved_failure gets ◌>>=◌
  Keeps-report_unobserved_failure reason = record {
    at = λ c h.
        elim (update_status-cases self env (unobserved_failure self env reason c.store.status) c) [
          | inl same ↦ rw same h
          | inr new ↦ rw new (unobserved_kept reason c.store.status c.store.deployments h)
        ];
  }

  Keeps-started_by_deletion :
      (setup : Option Setup) → Keeps Holds (started_by_deletion self env setup)
  Keeps-started_by_deletion none = search keeps_rules
  Keeps-started_by_deletion (some setup) = search (keeps_rules, λ (s : Store) (p : Holds s). p)

  Keeps-started_at : (since : Option ℕ) → Keeps Holds (started_at self env since)
  Keeps-started_at (some since) = search keeps_rules
  Keeps-started_at none = Keeps-started_by_deletion self.spec.selected_setup

  Keeps-is_late : (st : Status) (timeout : Option ℕ) → Keeps Holds (is_late self env st timeout)
  unfolding shutdown_started_at
  Keeps-is_late st none = search keeps_rules
  Keeps-is_late st (some timeout) = Keeps-bind _ _ (Keeps-started_at _) (λ started. Keeps-pure _)

  pub Keeps-shutdown_progress : (st : Status) → Keeps Holds (shutdown_progress self env st)
  unfolding shutdown_progress shutdown_has_timed_out
  Keeps-shutdown_progress st =
      let late = Keeps-is_late st (shutdown_timeout self env self.spec.selected_setup) in
      search (keeps_rules, late)

  -- Changes of neither.
  pub Keeps-get : {A : Type 0} (read : Store → A) → Keeps Holds (get read)
  Keeps-get read = Keeps-call api (λ s. s) read (λ s p. p)

  pub Keeps-aside :
      {A : Type 0} (change : Store → Store) (read : Store → A)
      → ((s : Store) → (change s).status ≡ s.status)
      → ((s : Store) → (change s).deployments ≡ s.deployments)
      → Keeps Holds (call api change read)
  Keeps-aside change read h k = Keeps-call api change read (λ s p. rw (h s) (rw (k s) p))

  Keeps-on_owned :
      (mark : Store → Store) (meta : Option Meta)
      → ((s : Store) → Holds s → Holds (mark s))
      → Keeps Holds (on_owned self env mark meta)
  Keeps-on_owned mark none h = search keeps_rules
  Keeps-on_owned mark (some meta) h = search (keeps_rules, h)

  pub Keeps-delete_owned_object :
      (read : Store → Option Meta) (mark : Store → Store)
      → ((s : Store) → Holds s → Holds (mark s))
      → Keeps Holds (delete_owned_object self env read mark)
  unfolding delete_owned_object
  Keeps-delete_owned_object read mark h =
      let on = λ (m : Option Meta). Keeps-on_owned mark m h in
      search (keeps_rules, on, λ (s : Store) (p : Holds s). p)

  -- The operations on the Deployments.
  Keeps-delete_named : (name : Text) → Keeps Holds (delete_named self env name)
  unfolding delete_named
  Keeps-delete_named name =
      Keeps-delete_owned_object _ _ (λ s p. stable.marks s.status s.deployments name p)

  pub Keeps-delete_all :
      (names : List Text) (remaining : Bool) → Keeps Holds (delete_all self env names remaining)
  unfolding delete_all
  Keeps-delete_all [] remaining = search keeps_rules
  Keeps-delete_all (name ∷ names) remaining =
      Keeps-bind _ _ (Keeps-delete_named name) (λ exists. Keeps-delete_all names _)

  Keeps-look_up :
      (names : List Text) (owned : List Deployment) → Keeps Holds (look_up self env names owned)
  unfolding look_up
  Keeps-look_up [] owned = search keeps_rules
  Keeps-look_up (name ∷ names) owned =
      let ih = λ (o : List Deployment). Keeps-look_up names o in search (keeps_rules, Keeps-get, ih)

  Keeps-delete_pods : (pods : List Pod) → Keeps Holds (delete_pods self env pods)
  unfolding delete_pods
  Keeps-delete_pods [] = search keeps_rules
  Keeps-delete_pods (pod ∷ pods) =
      Keeps-bind _ _ (Keeps-aside _ _ (λ s. refl) (λ s. refl)) (λ u. Keeps-delete_pods pods)

  pub Keeps-force_delete_pods : Keeps Holds (force_delete_pods self env)
  unfolding force_delete_pods
  Keeps-force_delete_pods = search (keeps_rules, Keeps-get, Keeps-delete_pods)

  pub Keeps-owned_workload_deployments : Keeps Holds (owned_workload_deployments self env)
  unfolding owned_workload_deployments
  Keeps-owned_workload_deployments = search (keeps_rules, Keeps-get, Keeps-look_up)

  pub Keeps-delete_deployment : Keeps Holds (delete_deployment self env)
  unfolding delete_deployment
  Keeps-delete_deployment =
      search
        (keeps_rules, Keeps-owned_workload_deployments, Keeps-delete_all, Keeps-force_delete_pods)
