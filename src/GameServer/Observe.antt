-- ===== src/GameServer/Observe.antt =====
-- internal/controller/gameserver_controller.go: workloadFailure, ownedDeploymentPods,
-- deploymentRolloutAvailable, serviceEndpoint.
use plexus_controller.Common.{
  Text, codes, text_eq, ℕ, Bool, false, ◌&&◌, ◌||◌, not, Option, none, some, List, [], ◌∷◌, ◌++◌,
  ◌==◌, if◌then◌else◌, is_nil, any,
}
use plexus_controller.GameServer.Types.{
  Rollout, Deployment, Ingress, Container, Pod, ReplicaSet, Self, Surroundings,
}
use plexus_controller.Api.{pure, ◌>>=◌}
use plexus_controller.GameServer.Objects.{Run, get, select, component}
use plexus_controller.Common.Decimal.{decimal}

unfoldable pub image_failure_reason : Text → Bool
image_failure_reason reason =
    text_eq reason (codes "ErrImagePull")
    || text_eq reason (codes "ImagePullBackOff")
    || text_eq reason (codes "InvalidImageName")

abbrev pub or_one : Option ℕ → ℕ
or_one none = 1
or_one (some n) = n

unfoldable pub deployment_rollout_available : Deployment → Bool
deployment_rollout_available d =
    let desired = or_one d.desired in
    d.observed_generation == d.generation
    && d.replicas == desired
    && d.updated == desired
    && d.available == desired

abbrev pub is_image_failure : Option Text → Bool
is_image_failure none = false
is_image_failure (some reason) = image_failure_reason reason

abbrev pub is_bad_exit : Option ℕ → Bool
is_bad_exit none = false
is_bad_exit (some code) = not (code == 0)

-- The loop over the container statuses of a pod: the reason, if one has failed.
unfoldable pub container_failure : List Container → Option Text
container_failure [] = none
container_failure (container ∷ rest) =
    let later = container_failure rest in
    if is_image_failure container.waiting
    then some (codes "WorkloadImagePullFailed")
    else if is_bad_exit container.exit_code
    then some (codes "WorkloadInitializationFailed")
    else later

abbrev pub first_of : Option Text → Option Text → Option Text
first_of none later = later
first_of (some reason) later = some reason

unfoldable pub pod_failure : List Pod → Option Text
pod_failure [] = none
pod_failure (pod ∷ rest) =
    let later = pod_failure rest in
    if pod.unschedulable
    then some (codes "WorkloadSchedulingFailed")
    else first_of (container_failure (pod.init_containers ++ pod.containers)) later

unfoldable pub is_rollout_failure : Rollout → Bool
is_rollout_failure condition =
    condition.holds
    && (text_eq condition.kind (codes "ReplicaFailure")
        || (text_eq condition.kind (codes "Progressing")
            && text_eq condition.reason (codes "ProgressDeadlineExceeded")))

unfoldable pub workload_failure_of : List Pod → Deployment → Option Text
workload_failure_of pods d =
    first_of (pod_failure pods)
      (if any is_rollout_failure d.conditions then some (codes "WorkloadRolloutFailed") else none)

unfoldable pub service_endpoint : List Ingress → ℕ → Option Text
service_endpoint [] port = none
service_endpoint (ingress ∷ rest) port =
    let later = service_endpoint rest port in
    if not (is_nil ingress.hostname)
    then some (ingress.hostname ++ codes ":" ++ decimal port)
    else if not (is_nil ingress.ip)
    then some (ingress.ip ++ codes ":" ++ decimal port)
    else later

module _ (self : Self) (env : Surroundings) where
  unfoldable pub find_replica_set : Text → List ReplicaSet → Option ReplicaSet
  find_replica_set name [] = none
  find_replica_set name (r ∷ rest) =
      let later = find_replica_set name rest in if text_eq r.name name then some r else later

  abbrev pub runs_in : Text → Option ReplicaSet → Bool
  runs_in uid none = false
  runs_in uid (some r) = elim r.controller [
    | none ↦ false
    | some (kind, owner) ↦ text_eq kind (codes "Deployment") && text_eq owner uid
  ]

  abbrev pub keep_if : Bool → Pod → List Pod → List Pod
  keep_if b pod pods = if b then pod ∷ pods else pods

  -- The loop of ownedDeploymentPods over the pods of the GameServer.
  unfoldable pub pods_of : Text → List Pod → Run (List Pod)
  pods_of uid [] = pure []
  pods_of uid (pod ∷ rest) = elim (owning_set pod) [
    | none ↦ pods_of uid rest
    | some name ↦
        get (λ s. find_replica_set name env.replica_sets)
        >>= (λ found. pods_of uid rest >>= (λ pods. pure (keep_if (runs_in uid found) pod pods)))
  ]
    where
      owning_set : Pod → Option Text
      owning_set p =
          if not (text_eq p.configuration_generation (decimal self.generation))
          then none
          else elim p.controller [
            | none ↦ none
            | some (kind, name) ↦ if text_eq kind (codes "ReplicaSet") then some name else none
          ]

  abbrev pub is_selected : Pod → Bool
  is_selected pod = text_eq pod.server_id self.spec.server_id && text_eq pod.component component

  unfoldable pub owned_deployment_pods : Deployment → Run (List Pod)
  owned_deployment_pods deployment = get (λ s. select is_selected s.pods) >>= pods_of deployment.uid

  unfoldable pub workload_failure : Deployment → Run (Option Text)
  workload_failure deployment =
      owned_deployment_pods deployment >>= (λ pods. pure (workload_failure_of pods deployment))
