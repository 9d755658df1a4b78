-- ===== src/Lib.antt =====
-- Scrinium keeps content-addressed artifacts on a Location, behind a driver, and coordinates the hosts
-- that share it with files alone. This library models the parts that the safety of the data rests on:
-- the state machine of an open store, the encrypted blob format, the claim of a version of a system
-- artifact, the lease, the descriptor's two cells, the reference counts of the index, the collector,
-- the deletion of artifacts and of sessions, and the view that shows the artifacts at paths.
--
-- Base: texts as lists of bytes and their order, Boolean tests on the native numbers, big-endian
-- integers, times as engine/internal/timefmt writes them, and the lemmas that the parts share.
--
-- Store: the guarded fields of `store` (engine/store/store_type.go) as a record, and on it
-- checkOperational, checkWritable, enterRead, enterWrite and enterAdmin (engine/store/access.go),
-- SetMaintenanceMode (engine/store/admin_state.go), and probeLiveness with its three transitions and
-- refreshGovernance (engine/store/liveness.go). A mutex section is one function (enterWrite, which
-- reads under two locks, is one as well); what runs between two sections of refreshGovernance is an
-- argument. Store/Gates has the gates, Store/Sentinel the probes over time, Store/Governance the
-- refresh of the configuration.
--
-- Segaead: engine/pipeline/internal/segaead. The header codec (format.go) is in Segaead; Segaead/Seal
-- is the reader that frames a source into a blob (seal.go, iv.go), Segaead/Open the reader that opens
-- it (open.go), Segaead/Pull the Read loop that both have. The AEAD and Go's crypto packages are
-- records of functions; what is assumed of them is IsSound in Segaead/RoundTrip/Whole. The Read loop
-- and io.ReadAll run on fuel, and the round trip shows that some amount is enough for every larger one.
--
-- Driver: the contract of engine/driver/driver.go: objects by path, with Put, Get, Remove and the
-- listing as atomic calls. A schedule says, before each call, how the other processes change the
-- objects, how much time passes and whether the call fails; past its end nothing interferes. A
-- call that fails has no effect of its own.
--
-- Layout: engine/layout/layout.go, the paths of blobs and manifests. Pathx: projection/pathx/pathx.go.
-- Both stand on Cut, which is strings.IndexByte and strings.LastIndexByte with the slices around.
--
-- Named: engine/internal/named. The rules of names (name.go), the versioned files (version.go) and the
-- cells (cell.go) as programs over the driver; Named/Versions has Prune and RemoveAll,
-- Named/Listing has ListActive and ListCells. The 64 attempts of ClaimVersion are structural
-- recursion.
--
-- Lease: engine/lease/lease.go and domain/store_ownership.go over the cells. The nonce is an
-- argument; the encoding of a record as a manifest is a parameter, with times cut to seconds.
-- Lease/Acquire has Acquire on each content of the slot, Lease/Taking what a success has seen on
-- any schedule, Lease/Races two callers side by side, Lease/Holder Renew and Release.
--
-- Descriptor: engine/store/internal/descriptor and engine/store/internal/reconcile over the cells, with
-- healReplicas (engine/store/lifecycle_construct.go) and loadCanonicalDescriptor
-- (engine/store/lifecycle_open.go). JSON and the inline manifests are a parameter.
-- Descriptor/Consensus has the choice between the replicas, Descriptor/Cells each cell alone,
-- Descriptor/Register the two cells as one register, Descriptor/Healing the opening.
--
-- Index: the tables blobs, manifests, manifest_blobs and manifest_handles of engine/index/sqlite
-- (schema.go) as lists of rows, with IndexManifest and DeleteManifest (manifest.go, csn.go), Resolve and
-- ExistsByContent (resolve.go), ListOrphanBlobs (iterate.go) and DeleteOrphanBlob (maintenance.go). A
-- transaction commits or leaves the tables; what SQLite and the custom indexes answer is an argument.
-- Keys are the hex texts of the domain.
--
-- Collector: the cycle of engine/agent/gc (gc.go, media_reconcile.go) over those tables and over the
-- tombstones of engine/driver/localfs/tombstone.go, with the errors of engine/agent/cterr.go. Each call
-- takes one turn of a schedule, as in Driver. Collector/Loops, Collector/Passes, Collector/Orphans and
-- Collector/Cycle reduce a cycle to obligations on single paths; Collector/Markers and Collector/Grace give these.
--
-- Cas: commitBlob and dedupProbe (engine/internal/cas/write.go) and openRawBlob (read.go) over the site
-- of Collector, with Remove, Rename and Get of its files. Cas/Commit joins them with the registration in
-- the index.
--
-- Keyedlock: LockAll of internal/keyedlock/keyedlock.go. Keyedlock/Order has the order of its keys,
-- Keyedlock/Progress and Keyedlock/Runs the steps of callers that lock side by side.
--
-- Removal: Delete (engine/store/data_delete.go) and RollbackSession (engine/store/data_rollback.go), with
-- Load and loadManifestByDigest (engine/internal/cas/read.go), ResolveManifestDigest
-- (engine/index/sqlite/manifest.go) and GetBySession (iterate.go), over the gates of Store, the calls of
-- Driver and the tables of Index. The verification and decoding of a manifest's bytes is a parameter, and
-- so is the reading of the policy from the configuration. Removal/Calls has what each call keeps,
-- Removal/Deleting Delete, Removal/Sessions the rollback.
--
-- View: projection/internal/view. View/Nodes has the nodes of one tree and its edits (mutate.go,
-- helpers.go), View/Placement the paths and the filter (helpers.go, construct.go, backfill.go),
-- View/Ops the state (types.go) with the arbitration (collisions.go), View/Ops/Indexing
-- indexArtifact (backfill.go), View/Ops/Mutators Add, Remove and Move (mutate.go), backfill
-- (backfill.go), initTrees (construct.go) and applyDelta (refresh.go). Maps are association lists,
-- and what has a root as its first key is one record for each root. The formatting of times,
-- populateExt and the definitions of extensions are parameters. View/Freshness and View/Queues
-- have the queue of the claimants of a path, View/Roots and View/Changes what an operation does at
-- a root, View/Arbitration and View/History the invariant over the life of a view, View/Records
-- the claims, View/Members the directories. The loop of removeFile runs on the length of the path,
-- which every step shortens.
--
-- Not modelled: SQLite itself and the custom indexes' tables, the file system driver but for its
-- tombstones, the JSON of manifests, the agents but for the collector, the view's rebuild, search
-- and watching of a source, the other projections and the commands. Logs and the texts of errors are left out.
pub mod Base
pub mod Cas
pub mod Collector
pub mod Cut
pub mod Descriptor
pub mod Driver
pub mod Index
pub mod Keyedlock
pub mod Layout
pub mod Lease
pub mod Named
pub mod Pathx
pub mod Removal
pub mod Segaead
pub mod Store
pub mod View
