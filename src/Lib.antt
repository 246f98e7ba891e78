-- ===== src/Lib.antt =====
-- plexus-controller: models and theorems for the Kubernetes operator that turns GameServer resources
-- into workloads, and for the programs that it runs in pods.
--
-- Common: Go strings (lists of code points; `byte_len` is Go's len), lists, tests and decimal numerals.
--   A text is valid UTF-8. Functions of the standard library that the code calls are defined there.
-- Naming: internal/controller/workload_name.go (Slug: dns1123Slug, customerNameSlug; Workload:
--   workloadDeploymentName) and the revision-scoped names of internal/controller/
--   gameserver_controller.go (Revision). The table of unicode.ToLower beyond ASCII and the digest of
--   crypto/sha256 are parameters.
-- Saves: pkg/gamemanagement/factorio/v1/saves.go. Scan holds the local variables of the loop; an error
--   return is a constructor of SaveError. Which of two missing names is reported depends on the order
--   of a Go map and is left out.
-- Broadcast: pkg/gamemanagement/factorio/v1/broadcast.go.
-- Rcon: internal/supervisor/factorio/rcon.go over streams of bytes. The loop takes one more than the
--   length of the stream as its fuel, since each packet takes at least fourteen bytes of it. The connection's
--   Writes return no error or fail behind some of their bytes. Its deadline is not modelled.
-- Supervisor: internal/supervisor/supervisor.go; the adapter, the process and the context answer by an
--   Attempt for each round, and the fuel is one round more than there are recoveries. HostedSave is
--   selectHostedSave of internal/supervisor/factorio/adapter.go.
-- SaveImport: internal/controller/saveimport_controller.go with the helpers that it shares with
--   internal/controller/saveexport_controller.go and saveexport_progress.go. Cluster has the stored
--   objects and the monad of API calls, each of which may fail; Messages the texts; Authorize the
--   checks of authorize; Operations cleanup, finish and what is read from pods; Reconcile the
--   reconciler, whose clock is read once. Of the pod template of the Job only the owner, the labels,
--   the deadline, the claim and the Secret are modelled. Where boundedDiagnostic cuts a character in
--   half, the broken bytes are left out. JSON decoding is a parameter.
-- Api: calls of the Kubernetes API by the GameServer's reconciler, any of which may fail: actions on a
--   store with the answers to the coming calls. Keeps has a rule for each way to build an action, Ensures
--   relates results to the store, Tells is for actions that answer `false` where they find nothing.
-- GameServer: internal/controller/gameserver_controller.go, gameserver_disk_job.go and the functions of
--   workload_name.go that call the API. Types has the resource (api/v1alpha1/gameserver_types.go) and the
--   store; Objects lists, looks up and deletes; Status has conditions and updates of the status; Disk the
--   disk Job and the transfers that hold the disk; Inputs the Secrets, mods and ConfigMaps; Workload the
--   claim, the Service and the Deployment; Observe pods and rollout; Running, Shutdown and Reconcile the
--   reconciler itself. The calls of the packages under pkg/gamemanagement, the catalogue of games, the
--   digests, the clock and apimachinery's SetStatusCondition are parameters (Surroundings). A Delete marks
--   an object, which stays until the cluster removes it; only the disk Job, whose deletion is a background
--   one without a finalizer, is gone at once. Messages, and what of the pod template does not tell one
--   revision from another, are left out. A status whose update fails is not read again.
--   The proofs: Stable says which relations between the status and the Deployments every step keeps,
--   DiskSteps, StopSteps, RunSteps and StartSteps go through the steps, Whole composes them; Absent, Gone
--   and Ceased are about the end of a workload, Honest and Held use all of it; Released and Finalized are
--   about the deletion; Seen joins the reconcilers of GameServers and SaveImports.
-- Mods: pkg/gamemanagement/factorio/v1/mods.go. Version has versions and Dependency ValidateModRelease,
--   Archive has ValidateModArchive with path.Clean for paths that are not rooted; the ZIP reader, the
--   digest, strings.ToLower and the JSON decoder are parameters, and the mode of an entry is the number
--   of its fs.FileMode.
-- Not modelled: the Kubernetes client, HTTP and file transfers, JSON decoding, process handling.
pub mod Common
pub mod Naming
pub mod Saves
pub mod Broadcast
pub mod Rcon
pub mod Supervisor
pub mod GameServer
pub mod Api
pub mod SaveImport
pub mod Mods
