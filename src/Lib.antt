-- ===== src/Lib.antt =====
-- The Memgraph operator keeps a highly available Memgraph cluster, coordinators in a Raft group and data
-- instances of which one is MAIN, in line with a `MemgraphDBCluster`. A reconcile pass reads Kubernetes
-- and the leading coordinator, decides, and acts; it starts from nothing but what it reads. This
-- development models the decisions as functions of what a pass reads.
--
-- How the parts interact. `internal/controller` reads the StatefulSets and settles the replica counts
-- (Controller/Replicas). `internal/expectations` tells whether the cached StatefulSets show the last
-- shrink (Expectations). The system user's password and hash come next (Controller/SystemUser).
-- `internal/volumes` decides how a grown claim size reaches the claims (Volumes), and the pass patches
-- them and recreates the StatefulSet (Controller/Growing). The pods are read once (Controller/Observing),
-- and the license is applied to every ready one before the registration (Controller/Secrets). Once the workloads are ready
-- the pass puts the topology together (Topology) at the external addresses that it found (External,
-- Controller/Exposure), looks for the leading coordinator (Controller/Leader) through the Bolt client
-- (Bolt, Queries), plans against its view (Planner), and either runs the commands and records an Event
-- for each (Controller/Events), or sheds the pods of retired members, or goes on to the settings of the
-- running pods (Settings, Controller/Applying, Controller/Settling), the classes of the flags (Flags,
-- Controller/FlagClasses) and the rolling restart (Rollout). Last it sums its conditions up
-- (Controller/Convergence) as Ready (Controller/Conditions, Controller/Status). Controller/Pass puts these
-- steps together, from the readiness of the workloads on, and Controller/Cycle sets the license before
-- them and sums up after them.
--
-- The files, and the code each is about, with the paths from the repository's root:
--   Memgraph          internal/memgraph/client.go: `Instance`, `CoordinatorSpec`, `ReplicationLag`
--   Queries           internal/memgraph/queries.go: `cypherString` and the texts of the queries
--   Bolt              internal/memgraph/bolt.go: the operations of `boltClient` (Rows decodes what they
--                     read, Login has `Connect`)
--   Planner/View      internal/planner/planner.go: `Topology`, `index`, `handoverCandidates`, and the
--                     part of `Plan` that looks for the MAIN
--   Planner           internal/planner/planner.go: `Plan` in its parts, `Retired`, `Registered`
--   Planner/Commands  internal/planner/planner.go: the commands, `Run` and `String`
--   Rollout/Roles     internal/rollout/rollout.go: `Role`, `Pod`, `outdated`, `present`
--   Rollout           internal/rollout/rollout.go: `Next`, `nextDataInstance`, `nextCoordinator`
--   Expectations      internal/expectations/expectations.go: `Expect` and `Satisfied`
--   Volumes           internal/volumes/volumes.go: `Decide` (Claims has its types, Reading `Observe`,
--                     Templates `KeepLiveSizes`)
--   Settings          internal/settings/settings.go: `Diff`, `Plan`, `Classify` (Spelling has
--                     `Normalize`), and internal/settings/secrets.go: `License`
--   Topology          internal/resources/topology.go: `DeclaredTopology`, `RetiringCoordinators`,
--                     `RetiringDataInstances`, the names, addresses, ordinals and endpoints
--   Flags             internal/resources/flags.go: `roleFlags`, `flagFile`, `flagsDigests`,
--                     `ParseFlagsDigests`, `ChangedFlags`
--   External          internal/resources/external.go and gateway.go: `ExternalBoltAddress`,
--                     `GatewayBoltAddress`, `perInstanceAnnotations` and the names
--   Controller        internal/controller/memgraphdbcluster_controller.go: `replicaCounts` and
--                     `workloadsReady` (Replicas), `observeCluster` (Leader),
--                     `reconcileRegistration` (Registration its decision, Pass the whole),
--                     `readyCondition` (Conditions), `setStatus` (Status),
--                     `applySettings` (Applying), `reconcileSettings` (Settling),
--                     `reconcileLicense` and `reconcileAWSCredentials` (Secrets),
--                     `reconcileCoordinatorSettings` (CoordinatorSettings),
--                     `classifyFlags` (FlagClasses; Exempting has `exemptCurrentPods`),
--                     `observeExternalAccess` (Exposure), `convergedCondition` (Convergence),
--                     `reconcileVolumes` (Growing), `observeRollout` (Observing), the end of
--                     `reconcileCluster` and `summarizeReady` after it (Cycle);
--                     internal/controller/events.go: `recordingClient` (Events);
--                     internal/controller/systemuser.go: `reconcileSystemUser` (SystemUser;
--                     Algorithms has the tests of a hash)
-- The other files below a part hold its theorems, and Prelude what the parts share: Boolean tests,
-- lists, maps, decimal and hexadecimal numerals, integers, sorting, and Go's `strings`, `strconv` and
-- `fmt.Sscanf` where used.
-- Scenarios evaluates the code on concrete clusters.
--
-- State and errors. A pass is a function of what it reads, so its state is its arguments. The store of
-- Expectations is a value that each call returns changed; its mutex makes every call one step. A command
-- runs over a client that is a parameter, a record of operations on a state of any type, and returns
-- the state and an error's text or nothing. Nothing runs on fuel: every loop of the code goes over a
-- list, or counts up to a number of replicas, and is structural recursion.
--
-- Numbers and maps. Ordinals, counts and generations are never negative and are natural numbers; where
-- a text is parsed as one, the bound of an `int32` is tested, and one past an ordinal of a pod wraps
-- around as an `int32`. Transactions behind MAIN are integers, and so are the generations that Expectations
-- compares. A Go map is an association list. Where the code ranges over a map, the definitions take the
-- entries in an order that is an argument, and `IsRange` says that they are the map's.
--
-- Parameters. `resource.Quantity` is a type with its comparison; a list of conditions with
-- `FindStatusCondition`, `SetStatusCondition` and `RemoveStatusCondition` is a type with the laws that are
-- documented for them; the client of the cluster and the connections to its coordinators and pods, and
-- what a pass calls of the API server, are records of operations on a state of any type; the answers of
-- the driver, and of the API server to the other reads, are arguments; SHA-256, PBKDF2, bcrypt and Go's
-- `%q` are functions.
--
-- Not modelled: the calls of the Kubernetes API and of the Bolt driver, the builders of Kubernetes
-- objects in internal/resources, logging, deadlines, cmd/main.go, and the types under api/ beyond the
-- fields that are read. Of the controller, the watches, the first half of
-- `reconcileCluster`, which applies the objects, and the patch of the status are not modelled.
pub mod Prelude
pub mod Memgraph
pub mod Planner
pub mod Rollout
pub mod Expectations
pub mod Flags
pub mod Settings
pub mod Volumes
pub mod Queries
pub mod Bolt
pub mod Topology
pub mod External
pub mod Controller
pub mod Scenarios
