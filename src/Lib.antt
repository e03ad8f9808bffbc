-- ===== src/Lib.antt =====
-- Kuasar runs sandboxes. This development models the parts of its VM sandboxer that decide which
-- snapshot a new sandbox is restored from, that keep the templates, the storages and the containers
-- of sandboxes, and the protocol that hands a task to the workloads in a restored sandbox.
--
-- Template (vmm/sandbox/src/template). `Template.Types` has the types of types.rs. `Template.Disk`
-- is the directory of a pool: per subdirectory, a directory for each template with its metadata and
-- perhaps the `consumed` marker. `Template.Pool` is pool.rs: `State` has the record `TemplatePool`,
-- a field for each mutex; `Add` has `add`, in the parts that its comments name; `Acquire` the
-- methods that hand templates out, and `release`; `Refs` the counters and refills; `Gc` the three
-- ways to remove templates; `Lease` the `TemplateLease`; `Recovery` the restart and what is left
-- behind by deleted sandboxes; `Wait` the loops that wait for a template, woken by the watch
-- channel; `Step` a history of calls. `Oldest`, `Validity`, `Pinned`, `Depth`, `Counting`, `Crash`,
-- `Rollback`, `Panics`, `Chosen`, `Waking` and `Waiting` are proofs.
--
-- Continuation (vmm/sandbox/src/template/continuation.rs). `Continuation.Store` has the store as
-- its directory tree, the methods on one entry and the lease; `Continuation.Scan` the methods that
-- walk over the tree. `Guard` and `Lease` are proofs.
--
-- WarmFork (vmm/task/src/sandbox_service.rs and vmm/common/src/warmfork/message.rs).
-- `WarmFork.Message` has the messages, `WarmFork.Framing` their framing, `WarmFork.Talk` what is
-- said to one workload, and `WarmFork.Inject` the method `inject_task`. `Commit`, `AllOrNothing`
-- and `Answers` are proofs.
--
-- Cpuset (vmm/sandbox/src/utils.rs) is the merging of cpusets, on parsed ranges: a range is a pair
-- of numbers, of which the code computes only comparisons. `Cpuset.Union` is its proof.
--
-- Device (vmm/sandbox/src/device.rs) has the bus and its slots.
--
-- Sandbox (vmm/sandbox/src/sandbox.rs, restore.rs and storage/mod.rs) is one sandbox:
-- `Sandbox.State` has the record `KuasarSandbox`, `Sandbox.Host` what it asks of the VM (the trait
-- `VM`), of the guest agent, the network and the host, as an interface over a state of which
-- nothing is assumed. `Storages` has the release of storages, `Agent` the requests to the guest,
-- `Lifecycle` start, stop and what belongs to them, `Restore` the restore from a snapshot,
-- `Recover` the restart. `Devices` has the devices of a VM (device.rs, vm.rs), `GuestFile` the
-- writing of files into the guest (storage/guest_file.rs), `Blocks` the images that become block
-- devices (storage/block_provider.rs and attach.rs), and `Attach` the method `attach_storage` with
-- its handlers: `Attach.Small` what they share, `Attach.Shared` the handlers that use the shared
-- directory, `Attach.Blk` those for virtio-blk. `Tags`, `Halting`, `Collecting`,
-- `GuestFile.Quoting`, `Attach.Stable`, `Attach.Keeping` and `Attach.Others` are proofs.
--
-- Container (vmm/sandbox/src/container and `append_container`, `update_container` of sandbox.rs):
-- `Container.Chain` has the chain of handlers with its rollback, which is generic; `Pipes` the
-- handler of streams, `Process` those of processes, `Entry` those of the metadata, the namespaces,
-- the mounts and the storages, `Files` that of the specification; `Update` puts the chains
-- together. `Unwinding`, `Roots` and `Forgetting` are proofs.
--
-- Sandboxer (vmm/sandbox/src/sandbox.rs) serves the requests over the sandboxes, the pool and the
-- store: `Sandboxer.State`, `Restore` with `start_from_snapshot`, `Templates` with the restores
-- from the pool, `Intent` and `Params` with the annotations of a pod, `Start` with the policy,
-- `Manage` with create, update, stop and delete, `Recovery` with the restart. `Pins`, `Policy` and
-- `Targets` are proofs; the trait `Hooks` is an interface, whose law in the proofs is that hooks
-- leave the restore metadata alone.
--
-- Service (vmm/sandbox/src/service/mod.rs) has the management requests: `Service.Fields` the fields
-- of a request, their checks and the fields of an answer, `Service.Requests` the handlers. The
-- fields stand for the JSON text of a request. `Service.Keeping` is a proof.
--
-- Storage (vmm/common/src/storage.rs) is the record of a storage and its reference counts, which
-- templates hold; `Storage.Graph` matches mounts to storages
-- (vmm/sandbox/src/storage/device_graph.rs), `Storage.MountInfo` reads the mounts of the host
-- (storage/mount.rs), with `MountInfo.Origin` and `MountInfo.Longest` as proofs. `Prelude` has
-- tests, lists, maps, sorting, texts, and actions that change a state and may fail. `Examples`
-- applies each theorem to concrete data.
--
-- A method is an action: it takes the state and gives its answer or error and the state after it, so
-- that what was written before an error stays written. `unreachable!` and `expect` are the error
-- `panicked`. A method runs as one step: calls of other tasks between the locks that it takes are
-- not modelled. The operating system is an argument (`Io`, `StoreIo`, `Peer`): a record of functions
-- that say which calls fail and what a failed call leaves behind, so a theorem with no hypothesis on
-- it holds for every pattern of failures. A hash map is a list of entries in some order. The
-- targets of `inject_task` run side by side and share nothing, so each is run by itself; where a
-- phase runs out of time, `Clock` says after how many messages each was stopped.
--
-- The counters of the pool are numbers without a bound, since a `usize` does not overflow by steps
-- of one; the version of the watch channel, the counts of a storage and the length of a frame wrap
-- around as in the source. Every loop is over a list, so no fuel is used, but for the digits of a
-- `u32`, of which ten are enough.
--
-- Not modelled: the management requests that create a template, make or end a sandbox, list the
-- templates or show the status of the pool; logging, metrics, statistics, the semaphore of
-- restores, the symbolic links of a directory, serde_json (a pair of functions in
-- `WarmFork.Framing`), the parsing of a decimal number (an argument of the requests), the walks
-- over a directory, the mounts and the tools behind an image (arguments), the parts of an OCI
-- specification that no handler reads, hypervisors, networks, the guest agent but for the
-- injection, and the other sandboxers of the repository. A request runs as one step; while it waits
-- for a template only refills run.
pub mod Prelude
pub mod Cpuset
pub mod Sandbox
pub mod Sandboxer
pub mod Device
pub mod Storage
pub mod Template
pub mod Container
pub mod Service
pub mod Continuation
pub mod Examples
pub mod WarmFork
