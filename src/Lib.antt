-- ===== src/Lib.antt =====
-- A model of the MinIO operator, a Kubernetes operator that keeps the services, claims, pods and the
-- status of a MinIO resource as its specification says, and the theorems about it.
--
-- The program. `main.go` starts a manager with the controller of controllers/minio_controller.go.
-- Its `Reconcile` reads a resource, writes a first status, records the specification in a
-- ControllerRevision, checks three services, creates the claims and then creates or updates the pods
-- of the pools that are new or changed. What it creates is built in utils/ from the types and names
-- of api/v1alpha1/. Two more controllers report status and health; `main` does not register them.
--
-- The modules.
--   Base           shared helpers: Booleans, lists, equality tests, decimal numerals (`strconv.Itoa`),
--                  maps, loops that may panic (Partial), calls of the API server (Exec), and what holds
--                  of a run however it ends (Ensures)
--   Api            api/v1alpha1/: Constants (constants.go), Types (minio_types.go), Helper (helper.go),
--                  Admin (NewMinIOAdmin, NewMinIOAdminForAddress, getMinIOTenantDetails and
--                  MinIOHealthCheck, with Credentials and Probe below it); Objects are the Kubernetes
--                  objects that the operator builds, Values the library types and functions that it
--                  passes on or calls
--   Api.DeepCopy   zz_generated.deepcopy.go, in a memory of objects and addresses: Memory (the memory,
--                  its loads and allocations, the loops of the copies), Layout (the API types as they
--                  lie in memory), Kinds; Shown says which value an object stands for, Fresh what a deep
--                  copy is, Statuses, Specs and Whole that the copies are deep
--   Service        utils/service.go; Matching and Specification say what its test of services accepts
--   EnvFile        utils/utils.go, the reader of a configuration file; Quoting, Lines, Credentials
--   Pods           utils/pod.go; Update, Mounts, and Names on when two pods have one name
--   Claims         utils/pvc.go; OfPods relates the claims to the pods, Names is about their names
--   Cluster        the API server as the operator calls it, an interface over an unknown state
--   Revision       utils/controllerrevision.go; Laws is what the server documents of revisions
--   StatusUpdate   updateMinIOStatusWithRetry of controllers/minio_controller.go, and updateMinIOStatus
--                  of the other two controllers; Server is what the API server documents, Retry the proofs
--   Reconcile      controllers/minio_controller.go: Steps (the controller's fields), Plan (which pools
--                  are added or updated), Services (the three checks), Volumes (checkPVC) and Main
--                  (Reconcile); the theorems stand in the modules below them: Keeps says what a step
--                  leaves as it is, Begins and Tail the parts of a run, Ends that it ends, Installed which
--                  services it leaves behind, Created and Populated which pods, Recorded and Retried what
--                  becomes of the recorded specification, Added what holds of the pods of a new pool,
--                  Revisions what leaves the revisions alone, Tried which claims are asked for
--   Health         controllers/minio_health_checker_controller.go, with createTransport; Keeps says what a
--                  run leaves as it is
--   Report         controllers/minio_status_controller.go: the status of the pools and of the
--                  deployment, Inventory (what it lists of the cluster), Addresses (the loop over the
--                  services, nodeIP), Run (Reconcile); Located, Summary, Refines and Keeps are its
--                  theorems, Described is the status that the cluster calls for
--   Operator       the three controllers on one cluster, as steps; Laws is what the server documents of
--                  resources, Stays and Settled what a run without anything to do leaves as it is,
--                  Reached what becomes of the services over any runs, Clash is about two resources,
--                  Contended about another client
--   Program        main.go and the functions SetupWithManager; Start says how `main` ends, Registration is
--                  groupversion_info.go and the functions init
--   Tests          concrete values, a server in memory, and runs
--
-- How the code is translated. A function of the source has its name in lower case. Pure functions
-- are functions; `none` is a panic on a nil pointer in them. A controller's method is an `Exec`: it
-- threads the state of the server and ends in a value, an error, a panic, or out of fuel; what was
-- written before an error stays written. A method that changes the resource in place returns it.
-- Logging is left out. The three checks of services are one text in the source but for names, and
-- one function here over a `ServiceCheck`.
--
-- Bounds. The recursion of a status update takes fuel, one more than the conflicts that the server
-- reports; two units are enough on a server that no other client writes to, and two more than its
-- writes where another one does. All other loops are over lists or count to a number of the
-- specification; a negative number of servers or volumes counts as none, as in the source. Ports and
-- indices are small constants and loop counters, so that no arithmetic wraps.
--
-- Assumptions. A text is a list of its code points, and a configuration file is valid UTF-8. The
-- host that is joined with a port holds no colon. DeployStatus is one of the operator's five values,
-- since only the operator writes it. Maps of labels are association lists. Slices of the
-- specification and of the status whose nil and empty values the program or the server tells apart
-- are optional lists, `none` being nil, with `items` for a loop over one and `appended` for what
-- `append` makes of a nil one. The library's functions are parameters: `DeepDerivative`,
-- `NewControllerRef`, JSON, the comparison of Kubernetes values; the hypotheses `IsDeepDerivative`,
-- `IsOptimistic`, `KeepsServices`, `KeepsOthers`, `KeepsResources`, `KeepsPods`, `KeepsRevisions`
-- and `NotesRequests` say what is documented of them and of the API server, `AreDeep` that the
-- libraries' own `DeepCopyInto` are deep, `Registers` what a scheme's builder does, `Observes` that
-- lists succeed and change nothing, `ForOnce` that a controller-runtime builder takes one `For`.
-- That JSON is read back as it was written is assumed of one specification where a theorem says so,
-- since it is not so of every one. The server, the lists, the admin client and the runtime in memory
-- of Tests satisfy them. The madmin client, the clientset's lists, `IsIpV4` and the
-- controller-runtime manager are the parameters `Madmin`, `Inventory` and `Runtime`, the builder of
-- schemes is `Schemes`.
--
-- In Operator the runs of the controllers do not overlap, and `Reconcile` of the MinIO controller
-- runs for one resource. In a memory an allocation and the writes that fill it are one step. Outside
-- Api.DeepCopy a copy is the value itself.
--
-- Not modelled. Logging; the parsing of flags; `envGet` and the constants and variables of
-- api/v1alpha1/ that nothing uses; how long a controller sleeps, and of a controller's result all
-- but `Requeue` and the error; manifests and build files.
pub mod Base
pub mod Api
pub mod Service
pub mod EnvFile
pub mod Pods
pub mod Claims
pub mod Cluster
pub mod Revision
pub mod StatusUpdate
pub mod Reconcile
pub mod Health
pub mod Report
pub mod Operator
pub mod Program
pub mod Tests
