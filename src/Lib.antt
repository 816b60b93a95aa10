-- ===== src/Lib.antt =====
-- The Nomad Autoscaler: a model of its scaling core, and what is proved of it.
--
-- The policy manager turns scaling policies into evaluations and puts them into the broker
-- (policyeval/broker.go). Workers (policyeval/base_worker.go) take them out, ask the target plugin for
-- its status, let each check of the policy query its APM plugin and run its strategy plugin, choose
-- the safest of the proposed actions (sdk/strategy.go) and ask the target plugin to scale. They tell the
-- broker of success or failure, and the broker hands a failed evaluation out again, up to a limit.
--
-- Files:
-- - Sdk/Policy, Sdk/Action, Sdk/Eval: the data of the package sdk, and the methods of policies, actions
--   and evaluations. A field keeps its name in lower case; a pointer that the code tests for nil is
--   `Option`; an int64 is an integer.
-- - Heap: Go's container/heap over a slice, as the broker calls it. Its children treat the
--   order of the heap and its entries under `Push`, `Pop` and `Fix`.
-- - Broker: the type `Broker` and its methods, one function for each. Broker/System is a step relation
--   in which calls of the methods interleave where the code gives up the lock: between taking an
--   evaluation in `Dequeue` and recording it, and between the expiry of a timer and its `Nack`.
--   Broker/Deliveries counts the hand-outs along such steps, beside the counter of the broker.
-- - Plugins: the interfaces of plugins/apm, plugins/strategy and plugins/target, and `Dispense` of
--   plugins/manager/manager.go. What a plugin does is a parameter.
-- - Worker and Worker/Check: a round of the loop of `Run`, `handlePolicy` and the check handler. Calls
--   of plugins are functions of their arguments; calls with an effect are recorded in the result.
-- - TargetValue: plugins/builtin/strategy/target-value/plugin/plugin.go.
-- - Processor: the defaults, the validation and the queries of policies in policy/policy.go.
-- - Handler: policy/handler.go. A round of the loop of `Run` is a function of the event that it receives.
-- - Manager: policy/manager.go. Manager.Step is a step relation of the manager's loop and of the goroutines
--   of its handlers; the lock makes each listing, and each removal of an entry, one step.
-- - Nomad/Value, Nomad/Validate, Nomad/Parse: the validation and the parser of policies from Nomad's API
--   in policy/nomad. Decoded JSON is a data type, and a multierror is the list of its errors.
-- - Cluster: sdk/helper/scaleutils. Cluster/Filter and Cluster/Remote are filter.go, Cluster/ScaleIn the other
--   files. Nomad's API is a record of functions, and the drains and purges that are requested are results.
-- - JobTarget: plugins/builtin/target/nomad/plugin, the target plugin for Nomad jobs. A call of `Status` that
--   starts the loop of a job takes the answers that the loop gets, and is `none` if it waits for ever.
-- - NomadApm: the parsing of queries in plugins/builtin/apm/nomad/plugin; NomadApm/Pool is its node.go, the
--   resources of a pool of nodes, and NomadApm/Usage its job.go, the usage of task groups.
-- - Prelude: names of the libraries, maps as association lists, integers, sums over lists.
--
-- Loops are structural recursion on lists. In Heap, `up` goes to a parent in each round, so the index
-- and one more rounds are enough, and `down` goes to a child with a larger index, so the length and one
-- more are. `Dequeue` runs with two rounds, which is enough with no other call in between: a call waits at
-- most once on a channel that nobody fills.
--
-- Assumed: a UUID is fresh. Floating point numbers are bit patterns, and their operations are
-- parameters. The remaining cooldown of a handler wraps like an int64. Other integer arithmetic of the code
-- in scope compares and stores int64 values, and its sums of times and of resources stay far from their bounds.
--
-- Not modelled: logs and metrics, the HTTP server, the configuration, the readers of policies from
-- files, the monitoring of Nomad's policies, the sends of the policy manager to its handlers, the APM plugins but
-- for most of Nomad's, the target plugins that talk to a cloud, and the processes and the RPC of external plugins.
pub mod Prelude
pub mod Sdk
pub mod Heap
pub mod Broker
pub mod Plugins
pub mod Worker
pub mod TargetValue
pub mod Processor
pub mod Nomad
pub mod Handler
pub mod Manager
pub mod Cluster
pub mod JobTarget
pub mod NomadApm
