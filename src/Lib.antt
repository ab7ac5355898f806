-- ===== src/Lib.antt =====
-- Testudo is a Kubernetes operator for disaster recovery: it backs up applications with Velero,
-- restores them on a second cluster, and exercises the restoration in drills. This library models the
-- parts of its Go code that decide what is restored and how, and states what they guarantee.
--
-- Base holds what the other modules share: native numbers and Boolean tests, lists, Go maps as
-- association lists (Assoc), stable sorting (Sort), the functions of Go's strings package on texts
-- (Text), and functions that return a value or an error (Outcome).
--
-- Restore models the compiler of restore modifiers in internal/controller/restore. Restore/Types has
-- the data of modifier_engine.go and of pkg/apis/disaster/v1; Restore/Governance the limits of
-- modifier_governance_limits.go and validatePatchGovernance; Restore/Flow resolveModifierFlow and the
-- tests that skip a rule; Restore/Pair the values of reversible rules, with velero_value_semantics.go;
-- Restore/Keys makeConflictKey; Restore/Candidate the compilation of one rule and of the system rules;
-- Restore/Merge mergeCompiledCandidates, whose state is the loop's map of selected patches and the
-- order of the keys; Restore/Compile compileModifierRulesForInstance with modifier_snapshot.go, which
-- counts in a summary while it runs; Restore/Namespaces the namespaces of a rule at its submission, in
-- modifier_submission_validation.go.
--
-- ImageMapping models internal/controller/imagemapping/imagemapping.go: Registry has RewriteImage,
-- Resolve ResolveRegistryMappings, Workloads BuildRulesFromWorkloads. It produces rules of the type of
-- Restore.
--
-- RoleDrift models internal/controller/disasterinstance/role_drift.go: the sampling of both clusters,
-- the evaluation, and the guard that stops an instance. Sample and Judged describe a sample by the
-- workloads listed.
--
-- Drill models internal/controller/disasterdrill: Types has the objects, Mode backup_mode.go, Reason
-- the reasons of failures, Pending, Ready and Cleanup the handlers of the states, Reconcile the
-- reconciliation. A handler is a function from the answers of the API server at the time of the run
-- (Api) and the drill as read to the writes in their order and the answer to the manager; a write is
-- reached if those before it succeed. Diagram is the state diagram; Ready/Verified says what is
-- checked before a drill starts; Reconcile/Traces has the steps that a drill in the API server can
-- take, and the drills that they reach.
--
-- Operation models internal/controller/disasteroperation. Types has the objects of
-- pkg/apis/disaster/v1, the writes, and the answers of the API server in one run (Api). As in Drill a
-- handler gives the writes in their order and the answer to the manager (Handled), and a write is
-- reached if those before it succeed; settle_instance, mark_task_event and sync_statistics are updates
-- whose outcome the code only logs. The updates whose error a step returns, of synchronisations and of
-- the instance in undo's SwitchRoles, succeed or fail as Api says. Steps has the list of steps and the
-- loop over it, whose position is a Cursor; Failure the reasons of failed operations; Failover,
-- Reprotect, Undo, Cancel (with handlePause and handleResume), Sync, Group and Drill have the
-- handlers, of which Sync uses Trigger, Checks and Retry (controller_retry.go), and Group the
-- operations of Children; AutoCancel the compensation after a failed step of a failover, InFlight the
-- operations that a cancellation or an undo supersedes, Schedules the steps that pause and resume
-- synchronisations, Failed the failed steps of the handlers without compensation; Reports what a
-- reconciliation notes about the beginning and the end of an operation; Reconcile dispatches among
-- them. The work of a step on the clusters is a parameter (Clusters and Remote): the outcome of the
-- step, which depends on the name of the step and on the operation. What such a step writes, to the
-- clusters or to a ConfigMap of replicas, is no write of the model.
--
-- Operation/Each says what holds of each write of a run. Operation/Course is an abstract machine that
-- knows the steps of an operation only; its files show for each handler that a run is a move of the
-- machine. Course/Ordered runs it with writes that are lost, other operations that supersede this one
-- and synchronisations that are due again; Failover/Completes and AutoCancel/Terminates run the
-- handlers themselves, each on the status that the run before wrote.
--
-- What the code calls and this repository does not define is a parameter. Externals has the text of a
-- label selector, the size of a compiled regular expression and Unicode's printable characters; the
-- three records named Api, of RoleDrift, Drill and Operation, have what the API server answers. Times
-- are numbers of seconds, and the time of a run is part of the answers.
--
-- All loops are structural recursion, so that no fuel is needed; replace_placeholders of Restore/Pair
-- counts the characters of a placeholder that are still to be passed over. An int32 of replicas is its
-- bit pattern, and sums of replicas are taken modulo 2 ^ 32. ToLower and EqualFold are those of ASCII,
-- which are the ones that matter for the constants compared with. TrimSpace removes all of Unicode's
-- white space. In Operation the minutes of a timeout, the number of retries and their interval are
-- natural numbers, so that the negative values of an int32 are left out; a timeout wraps at 2 ^ 64
-- nanoseconds, and one with the sign bit set has passed. Base/Atoi reads decimal digits without a
-- sign, and gives an error from 2 ^ 63 on. The updates of an operation whose names end in WithRetry,
-- which read it again and repeat on a conflict, are updates of the operation as it was read. Where the
-- code ignores the outcome of a write of the status, the answer to the manager is given whether or not
-- the write succeeds.
--
-- Not modelled: texts of errors in Restore, where an error keeps its code and the ids it names; the
-- two maps in the text of a changed snapshot; events, logs and task reports; the restore policy and
-- the hooks that a drill hands on to its operation; labels and owners of an operation beyond the list
-- that a drill's label selects; the labels of the operations that a group creates; what the steps of
-- an operation do on the clusters (checks before a failover, scaling, replicas, final synchronisation,
-- switch of traffic); and the other controllers of the repository.
pub mod Base
pub mod Restore
pub mod ImageMapping
pub mod RoleDrift
pub mod Drill
pub mod Operation
