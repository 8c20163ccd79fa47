-- ===== src/Lib.antt =====
-- SimKube records what happens in a Kubernetes cluster (the tracer), and replays it in a simulated
-- one (the driver). This library models the core of both and proves what makes them correct.
--
-- The parts, and where they stand
--
-- A tracer runs two watchers over one trace store. The object watcher
-- (sk-store/src/watchers/dyn_obj_watcher.rs, here Store/Watchers/DynObj) turns the events of a watch
-- into calls of `create_or_update_obj`, `delete_obj` and `update_all_objs` of the store
-- (sk-store/src/trace_store.rs, Store/TraceStore), which keeps a list of events and an index of the
-- live objects with the hash of their specs (sk-core/src/jsonutils/hash.rs, Core/Hash). The pod
-- watcher (sk-store/src/watchers/pod_watcher.rs, Store/Watchers/PodWatcher) computes what is known
-- of a pod's life (sk-core/src/k8s/pod_lifecycle.rs and container_state.rs, Core/Lifecycle and
-- Core/ContainerState), looks up the owners of the pod (sk-core/src/k8s/owners.rs and apiset.rs,
-- Core/Owners and Core/ApiSet), and calls `record_pod_lifecycle`, which stores it in the pod owners
-- map (sk-store/src/pod_owners_map.rs, Store/PodOwnersMap) under a hash of the stable part of the
-- pod spec (sk-core/src/k8s/pod_ext.rs, Core/PodExt).
--
-- `export` cuts a window out of the trace, with the filters of sk-store/src/trace_filter.rs
-- (Store/Event), and `import` reads it back (Store/Export). The command line asks the tracer for an
-- export (sk-cli/src/export.rs, Cli/Export); the tracer (sk-tracer/src/main.rs, Tracer) writes it to
-- a cloud provider, or sends it back for the client to write (sk-core/src/external_storage.rs,
-- Core/Storage). The command line also checks a trace (sk-cli/src/validation, Cli/Validation), shows
-- it (sk-cli/src/xray, Cli/Xray: the state and its updates in App, the drawing in View, the loop in
-- Loop), and creates a simulation (sk-cli/src/run.rs, Cli/Run, with the types of
-- sk-api/src/v1/simulations.rs in Core/Simulation).
--
-- The driver reads its options and its trace (sk-driver/src/main.rs, Driver/Main and Driver/Process),
-- goes over it with the iterator (Store/Iterator), applies and deletes the objects of each event in
-- the simulated cluster and cleans up at the end (sk-driver/src/runner.rs, Driver/Runner). It changes
-- the objects with extended JSON patches (sk-core/src/jsonutils/patch_ext.rs, Core/Patch and
-- Core/PatchExt). Its admission webhook (sk-driver/src/mutation.rs, Driver/Mutation) gives each pod of
-- the simulation the lifetime that was recorded for it. One simulation at a time holds the lease
-- (sk-core/src/k8s/lease.rs, Core/Lease). The controller (sk-ctrl/src/controller.rs,
-- Ctrl/Controller) claims it, sets up what the driver needs in a `Cluster`, which says of each
-- object of a simulation whether it exists, makes the driver's job and cleans up after it; it runs
-- the hooks of the simulation (sk-core/src/hooks.rs, Core/Hooks). What the objects hold is in
-- Ctrl/Objects (sk-ctrl/src/objects.rs) and Ctrl/CertManager (cert_manager.rs), their names in
-- Ctrl/Context (context.rs). Names, metadata and label selectors (sk-core/src/k8s/util.rs) are in
-- Core/Util, kinds (gvk.rs) in Core/Gvk, the configuration (sk-store/src/config.rs) in Store/Config,
-- the fields of the Kubernetes API that are read in Core/Kube. Each of these has its theorems in
-- child modules, named for what they prove. Common holds the shared types and lemmas, with the maps
-- that are kept sorted (BTreeMap) and the printing of numbers (Decimal); Fixtures and Tests run the
-- models on concrete data.
--
-- How the code is modelled
--
-- Functions keep their names, and structs and enums their fields and constructors, in the spelling
-- of this language. A handler takes the state and gives the state it leaves; where an error does not
-- undo a change, the result is a pair of an `Outcome` and a state. A panic is a constructor of
-- `Outcome`, apart from errors. Time, the server's answers and the results of writes are arguments.
-- Timestamps are unbounded integers: they are seconds since 1970, far from the bounds of an `i64`.
-- Sums of lease times and counters are unbounded too. Hashes are natural numbers. A `HashMap` is an
-- association list, and its order of iteration that of the list. Numbers in JSON are integers.
--
-- Code that is not in the repository is a parameter: names of objects that the server generates
-- (`Naming`), the hasher (`Hasher`), the encoding of pod specs (`SpecEncoder`), MessagePack and
-- durations (`Codec`, what was encoded is decoded; `Body`, and is not empty), the parser of API
-- versions (`TypeParser`), that of JSON pointers (`Pointers`), that of the command line (`Clap`), URLs
-- and object stores (`Urls`, `Backend`), the lists and layouts of the terminal (`Lists`, `Screen`) and
-- the server (`Server`, `Discovery`, `Commit`, and the fields of `Driver`, `Turns`, `Process` and
-- `Surroundings`), and running a command (`Shell`). The division of a time by the speed is a parameter
-- too. A check of the validation is any `Diagnostic`, with a state of its own.
--
-- `compute_owner_chain` recurs over the owners of owners, which need not end; its depth is fuel, and
-- running out of it is a panic. Any depth is enough that is above the rank of the object, if owners
-- have a lower rank than what they own. `drain`, the loop over the iterator, has fuel for its turns;
-- one turn more than there are events is enough. `cleanup_trace` has fuel for its turns, which take
-- at least the retry delay each; as many as fit before the timeout, and one, are enough.
--
-- What is not modelled
--
-- The snapshot command, the parsing of the command line's arguments, the start of the tracer, the web
-- servers, the logging and the generated code of sk-api/src/prometheus.rs are not modelled. Of the
-- object watcher the construction of the streams is left out. A read of the lease and the write
-- after it are one transaction. A run of the driver that fails gives its error and not the calls
-- before it. The controller's reads of the cluster succeed, and it reads and writes without others
-- in between. Of the viewer's drawings the texts are kept, and not the styles.
pub mod Common
pub mod Core
pub mod Store
pub mod Driver
pub mod Ctrl
pub mod Cli
pub mod Fixtures
pub mod Tests
pub mod Tracer
