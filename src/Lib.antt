-- ===== src/Lib.antt =====
-- A Kubernetes operator that probes the pods of a Deployment over HTTP and replaces those that fail: a model
-- of its core and the theorems about it.
--
-- The program has two parts that run side by side. The prober (internal/prober/prober.go) holds, under one lock,
-- a record for each pod of each policy and runs a goroutine for each; the reconciler
-- (internal/controller/hotswappolicy_controller.go) is called for one policy at a time, tells the prober which pods
-- to probe, reads its verdicts, and decides by the functions of internal/controller/logic.go whether to restart the
-- Deployment, to delete pods, or to do nothing; it reports in the policy's status.
--
--   Prelude     shared names; integers with wrap-around (Int), order of strings (Text), lists, maps as
--               association lists (Dict), results (Outcome)
--   Api         api/v1alpha1/hotswappolicy_types.go; Api/Kube: the fields of Kubernetes objects that are read;
--               Api/Memory: the types as they lie in memory, with Copies and Pointers (what makes a copy deep);
--               Api/DeepCopy: zz_generated.deepcopy.go, with Views (what memory reads as) and Isolation
--   Prober      Config: ProbeConfig of checker.go, PodTarget, PodState; Threshold: podEntry and record, with the
--               automaton that they implement (Threshold/Automaton), histories (Threshold/History) and flips
--               (Threshold/Flaps); Manager: Manager with Sync, SetSeenReady, Snapshot, Forget and probeOnce;
--               Manager/Store: reading what was written; Manager/Sync: Sync as a function of the targets;
--               Manager/Everywhere: what holds of every pod; Manager/Workers (with Preserved), Lifecycle, Cancels
--               and Removal: goroutines against pods; Manager/Interleavings: the calls in any order;
--               Manager/Contexts: what is cancelled stays so; Manager/Snapshot: Snapshot after Sync; Checker:
--               HTTPChecker.Probe of checker.go, with Headers and Verdict; Loop: run, probeOnce and Start, each
--               goroutine at one of the places where it waits, with Simulation, Places, Running, Turns, Pace,
--               Return and Events
--   Controller  Logic: logic.go; Env: what is outside, and the record of a run; Effects: which effects disturb the
--               workload; Status: conditions and targets; Overlap: conflictingPolicy and lessPolicy, with Order
--               and Winner; Remedy: remediate, rolloutRestart, deletePod, with Deletions and Keeps; Finish:
--               finish and the finalizer; Reconcile: Reconcile, with Gates and Admission (when a run may disturb),
--               Action (when it does), Leaves and Report (how it ends), Finalizer, Spacing (what a remediation
--               leaves in the status), Memory, Apart and Rate (many runs after one another), Untouched and Calls
--               (what a run does to the prober), Accused (for which pods it acts), and Lapses (what goes
--               unrecorded); Logic/Requests: from the policy to the request; Watches: which policies a changed pod
--               or Deployment wakes, with Requests
--   Metrics     the collectors of internal/metrics/metrics.go and their registration
--   Program     cmd/main.go: flags, options of the servers (Tls), and main with its checks (Start)
--   System      the goroutines and the reconciler together: Refinement (what the steps of the prober preserve, the
--               whole preserves), Results (of a pod's probes), Backing, Taken and Invariant (what the prober holds
--               follows from them), Verdicts (who is unhealthy, and whom a run may delete)
--   Examples    the properties at concrete inputs
--
-- Reconcile is a function of the environment, the name of a policy and a run: the state of the prober and the list
-- of effects so far, the newest first. A write to the API server is an effect, answered by a function of the effects
-- before it, so that every pattern of failures is covered. The prober's state is a parameter of the reconciler
-- (ProbeSource); Controller/Reconcile/Finalizer puts the manager in. In System the source is the prober with its
-- goroutines, which take any turns after each call of a run, also after Snapshot, the last one, while the run calls
-- the API server.
--
-- An instant is the number of nanoseconds since Go's zero time, and 0 is that zero time. An int32 or int64 is the
-- integer that it stands for; ++ on an int32 wraps, and so does a product of durations. Subtraction of instants
-- saturates as Time.Sub does. No definition needs fuel: every loop of the code is over a list, but for the endless
-- loop of run, whose turns are steps (Prober/Loop); how many turns it takes is bounded by the ticks of its timer.
--
-- Parameters, with what their documentation promises as hypotheses: the functions of controllerutil, meta,
-- metav1 and fmt (Controller/Env, Library), the API server (Cluster) and how it keeps a time, without the
-- fractions of a second (Controller/Reconcile/Apart, TimeStorage), the orders in which Go visits a map and the
-- text of a NamespacedName (Prober/Manager, Runtime), net/http and what else the checker calls (Prober/Checker,
-- HttpLibrary), the registry of the metrics (Metrics, Registry), controller-runtime as the program starts
-- (Program, Answers), and the deep copies of the library's types (Api/DeepCopy, Copiers). In Prober/Loop a
-- checker may give any answer.
--
-- Not modelled: how long anything takes, so that a timer of a goroutine may fire at any step; SetupWithManager,
-- which registers the watches; the parsing of the command line, the logger, and the registration of the API group;
-- test code.
pub mod Prelude
pub mod Api
pub mod Prober
pub mod Controller
pub mod Metrics
pub mod Program
pub mod System
pub mod Examples
