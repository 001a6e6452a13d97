-- ===== src/Lib.antt =====
-- releasea-worker: the worker that takes operations from a queue, deploys services and rules to
-- Kubernetes, and watches what it has deployed.
--
-- Parts and files. Paths are from the repository's root.
--   Models      internal/platform/models and the readers of an operation's payload. A Go error is a
--               record of all that the worker asks of it (Models/Failure): its text and what
--               `errors.Is` and `errors.As` find in its chain. A nil error is `none`.
--   Config      internal/platform/config/config_load.go: the corrected counts and durations.
--   Shared      internal/platform/shared: deduplication (Unique), strategy names (Strategy), the
--               application namespaces (Namespace), Kubernetes names (KubeName).
--   Auth        internal/platform/auth/tokens.go: the token that the worker shows to the API.
--   Deploys     internal/features/deploys/worker: strategy names and errors that may pass (Strategy), what
--               a payload says of its workloads (Hints), which workloads a deploy waits for and what one
--               look at them says (Readiness), the loops that wait (Readiness/Wait), the move of traffic
--               between two slots (BlueGreen), and the promotion of a canary (Canary): what its virtual
--               services become (Canary), the manifests of the stable workload (Canary/Retarget) and the
--               order of the steps (Canary/Promote).
--   Queue       internal/platform/queue/topology.go: the queues that are declared.
--   Workers     internal/features/workers/worker: may the worker take an operation (Compatibility), how
--               it carries one out (Process), the pool's flags (PoolControl), the two loops that take
--               operations from the queue (Consumer) and from the API (Poller).
--   Rules       internal/features/rules/worker: the names of a rule's resources and the readers of its lists
--               (Names, Policy), the manifests of its routes (Routes), of its access policies (Access) and of
--               its gateway (Edge, Filters), the calls to a cluster and the state they leave (Cluster), the
--               reconciliation of the resources (Apply), the guard and the clean-up of strategy workloads
--               (Guard), the deploy and the delete of a rule (Handle).
--   Maintenance internal/features/maintenance/worker: the status of a running service (Runtime), the
--               monitor that queues deploys of new commits (AutoDeploy), the pause of services without
--               traffic (Idle), the settling of stuck deploys (Curator), the time of a cycle (Timing).
--
-- How they interact. Consumer and Poller ask PoolControl whether the pool takes operations, and hand
-- each operation to Process, which asks Compatibility, claims, executes with retries under a heartbeat
-- that renews the claim, and reports. Compatibility rests on Shared.Namespace and Shared.Unique,
-- Process on Deploys.Strategy. Runtime, Idle and Curator judge the same deployments and pods; Curator
-- takes its targets and its judgement of pods from Deploys.Readiness. Rules takes namespaces, names and
-- strategies from Shared, and its Handle runs the guard before it builds the routes and the clean-up
-- after it has applied them. Deploys.Canary runs in the same way as the rules, takes its clean-up
-- from Rules.Guard, and undoes the shares that Rules.Routes has given the canary.
--
-- How state and calls are modelled. `processOperation` runs against an `Env`, which gives the reply to
-- each call from all calls made before it: the API, the executors, the clock and the other workers may
-- answer in any way. A run returns its error and the log of its calls. The heartbeat's goroutine is
-- the number of ticks that fall before a call of the main goroutine returns, so each interleaving of
-- the two is some `Env`. The auto-deploy monitor keeps its maps as functions from keys, and its API is
-- a `World` that answers from the requests made before. A look at the cluster is a record of functions
-- (`Look`), which may differ from one poll to the next. Time is a number of nanoseconds.
--
-- A handler of rules is a run of calls (`Act`) against `Surroundings`, which answer each call from the
-- calls made before it, so that any call may fail. `Rules.Cluster.State.after` is the state of the
-- cluster after a log: an apply puts a manifest under its kind, namespace and name, a delete takes it
-- away, a namespace is created and labelled where it is asked for, and a call that failed leaves a value of its resource that nothing is known of. Manifests
-- are the JSON values of `Models.Payload`. The promotion of a canary also asks a `Promotion` for the
-- service, for the ends of the two waits that Deploys.Readiness models, and for the time. Maps that Go
-- changes in place are values that a function returns; where two names share a map, as the destinations
-- of a route do while they are merged, the model keeps what is written through either.
--
-- Bounds. The retry loop recurses on the rounds that are left, which are the loop's own bound; the
-- loops over deliveries, operations and services recurse on the list. The loops that wait for the
-- cluster run on fuel, one unit for each poll; polls are at least a second apart and the deadline is
-- a number of seconds away, so that many units and two more are enough. The loop that squeezes dashes
-- has the length of the text as fuel, since each pass shortens it. Go's `int` is an unbounded
-- integer where the values are small counts and seconds from the configuration; the resume window of
-- Idle, a product of seconds that nothing bounds, wraps as Go's int64 does. Texts are their code
-- points, and lower-casing is that of the ASCII letters.
--
-- Not modelled: HTTP, JSON, AMQP and Kubernetes requests, logging, goroutine start-up and tickers;
-- the executors of deploys, what a strategy applies when a service is deployed, the deploy log and the curation
-- of rule deploys, workload discovery, secrets, SCM and registry providers.
mod Prelude
pub mod Queue
pub mod Shared
pub mod Models
pub mod Deploys
pub mod Rules
pub mod Workers
pub mod Maintenance
pub mod Config
pub mod Auth
