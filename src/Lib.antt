-- ===== src/Lib.antt =====
-- A model of the humio operator's core: the reconciler that keeps the pods of a LogScale cluster in
-- line with a `HumioCluster` resource (internal/controller/humiocluster_*.go, with what it uses of
-- internal/kubernetes, internal/helpers and api/v1alpha1), and the reconcilers that keep what is in
-- LogScale in line with resources such as `HumioRepository` (internal/controller/humio*_controller.go,
-- with internal/humio/client.go).
--
-- One reconciliation of a cluster reads the resource, makes a node pool manager for the nodes of the
-- cluster and for each node pool, and works on each pool: it reads the state of the pool's pods,
-- compares each pod with the desired one, decides which pods are to be replaced and how, and then
-- either writes the status of the resource or deletes pods, within a budget. What it writes to the
-- status is read back by the node pool managers of the next reconciliation.
--
-- One reconciliation of a resource in LogScale adds a finalizer, reads the entity, and adds or updates
-- it, or deletes it for a resource that is marked to be deleted; then it writes a state. The ten
-- reconcilers take the same steps, and a `Controller` says in what they differ: the calls of the
-- client, the comparison, and when the state is written.
--
-- Common            names, tests on numbers, lists, integers, maps and text formats that all share
-- K8s               the Kubernetes objects, with the fields that the modelled code reads
-- Cluster.Types     the resource and the node pool manager, api/v1alpha1/humiocluster_types.go
-- Cluster.EnvVars   lists of environment variables: EnvVarValue, EnvVarHasKey, mergeEnvVars,
--                   mergeEnvironmentVariables, findDuplicateEnvVars
-- Cluster.NodePool  node pool managers: their constructors, GetUpdateStrategy, TLSEnabled, and
--                   nodePoolAllowsMaintenanceOperations, hasNoUnusedNodePoolStatus, validateNodeCount
-- Cluster.Status    internal/controller/humiocluster_status.go: the option builder and updateStatus
-- Cluster.Sanitize  sanitizePod, which hides the parts of a pod that are not to be compared
-- Cluster.Version   HumioVersionFromString
-- Cluster.PodCompare  internal/controller/humiocluster_pod_compare.go
-- Cluster.Zones     GetZoneForNodeName and the filters of pods by zone, revision and node
-- Cluster.Lifecycle internal/controller/humiocluster_pod_lifecycle.go and getPodDesiredLifecycleState
-- Cluster.Pvc       claims: FindPvcForPod, findPodForPvc, isPvcOrphaned, FindNextAvailablePvc
-- Cluster.PodsStatus  internal/controller/humiocluster_pod_status.go
-- Cluster.Deletion  ensureMismatchedPodsAreDeleted, composed of the above
-- Cluster.Eviction  unregisterNode, the checks of an eviction, and getZoneForPodRemoval
-- Cluster.Downscaling  processDownscaling: Marking (handleUnmarkedEvictions, markPodForEviction) and
--                   Removal (the pods that are marked, and their nodes)
-- Cluster.PodHash   internal/controller/humiocluster_pod_hasher.go
-- Cluster.Creation  ensurePodsExist, newPodAttachments, waitForNewPods
-- Cluster.Examples  concrete inputs
-- Helpers           internal/helpers/helpers.go: ContainsElement, RemoveElement
-- Resources         Reconcile of internal/controller/humioparser_controller.go, and the points in
--                   which the other controllers differ from it
-- Resources.Compare  cmp.Diff, sort.Strings and the pointers of the `...AlreadyAsExpected` functions
-- Resources.Numbers  int64 and float64
-- Resources.Repository, View, Parser, User, Group, Alert, FilterAlert, AggregateAlert
--                   one kind of resource each: its spec, what LogScale answers, the comparison, the
--                   methods of internal/humio/client.go for it, and its `Controller`
-- Resources.SearchDomain  what the methods for filter and aggregate alerts share
-- Resources.Token   internal/controller/common_tokens.go, and ensureTokenSecret of
--                   internal/controller/humiosystemtoken_controller.go
-- Resources.Role    system and organization permission roles, with equalSlices in Slices
-- Resources.Deletion, Writes, Convergence, Cleanup, Unsettled  proofs on all reconcilers
-- Resources.Examples  concrete resources, over a LogScale in memory
-- ScheduledSearch   the conversions of api/v1alpha1/humioscheduledsearch_types.go to and from
--                   api/v1beta1, with the texts of times in Times
--
-- An operation on the API server is an answer that the definitions take as an argument: the nodes,
-- the pods listed, whether a deletion fails, the attempts of an update. `semver.NewVersion`, the
-- scaling of `maxUnavailable`, url.Parse, json.Marshal, SHA-256, the pod hash that the deletion
-- compares and the construction of the desired pod are parameters too, and so are the GraphQL
-- calls, as records of operations over a state of LogScale's own. Within one reconciliation of a
-- resource all writes of its status succeed, or all fail. A float64 that LogScale answers is a
-- finite one, an integer over a power of two; a slice or a pointer that may be nil is an option
-- where the code tells nil from empty; sort.SliceStable is the insertion sort that it is for 20
-- elements at most. An error is `none`, and so is a panic, except where a call returns a value that
-- says which of the two it is (Cluster.Deletion, Cluster.Creation, Resources). A call of
-- processDownscaling leaves the list of its effects outside. Go's `int` is an integer without a
-- bound, but for the pod revision, which is increased with the wrap-around of 64 bits, the products
-- of a repository's retention, and those of a time's number and unit; `len` and the counters of
-- pods stay below the number of pods. Every loop is structural recursion over its list; the
-- deletion loop recurs on the budget and the rounds of waiting on their number, which are the
-- code's own bounds. Only the printing of a number takes fuel, one more than the number, which has
-- no more digits than that. A Go map that the code ranges over is an association list, in one of
-- the orders that Go may take. Times are natural numbers of nanoseconds, with the zero time apart.
--
-- Not modelled: the construction of pods and of the other Kubernetes objects, the TLS and ingress
-- resources, licences, the order of the steps of one reconciliation of a cluster, the reconcilers and
-- the client's methods for the other kinds of resources (actions, scheduled searches but for their
-- conversions, view roles, packages, multi cluster search views; of tokens, all but their secrets), the
-- GraphQL bindings, which are generated, and the webhook server. Logging and metrics are left out
-- everywhere.
pub mod Common
pub mod K8s
pub mod Helpers
pub mod Resources
pub mod ScheduledSearch
pub mod Cluster
