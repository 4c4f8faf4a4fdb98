-- ===== src/Lib.antt =====
-- The backend of the VSS console: its reconcile agent, the store of its configuration, the recovery
-- of stalled recordings, the diagnosis of cameras, the runs of test footage and the cache of clips.
-- The agent reads what an instance should be (cameras, a system prompt, alert scenarios) from a
-- store that the console's routes edit, converges the cluster toward it, and writes a status back; a
-- separate pass re-arms the sensors that have stopped recording. The diagnosis names the first
-- broken link of a camera. A run of test footage registers a video file as a camera, with the live
-- cameras paused meanwhile.
--
-- Files and the code that they model (paths from the repository's root):
--   Recovery, Recovery/Steps: src/lib/reconcile/recording-recovery.ts. `recoverStalledRecording` is
--     `recover_stalled_recording`, one function per gate, call and early return, over an explicit
--     memory (the module's maps) and the state `W` of what it calls.
--   Reconcile, Reconcile/Cameras: src/lib/reconcile/cameras.ts, `reconcileCameras`.
--   Reconcile/Workloads: src/lib/reconcile/prompt.ts, scenarios.ts and vlm-strategy.ts.
--   Reconcile/Run: src/lib/reconcile/run.ts, `reconcileInstanceCameras`.
--   Reconcile/Seed: src/lib/reconcile/prompt-seed.ts, `seedDefaultPromptSet`.
--   Store: the document of src/lib/config-store/file.ts and the edits of `FileConfigStore`;
--     Store/Validate: `validateDoc`; Store/File: `acquire`, `withFileLock`, `read`, `writeDocAtomic` and
--     the read-modify-write under the lock; Store/Lock: the lock file between several
--     writers; Store/Fill: `planFill` of src/lib/config-store/fill.ts and `fillEmpty`.
--   BoxMode: src/lib/box-mode.ts and box-mode-shared.ts, the cached mode and the guard of the
--     workloads that the GPU switch scales, which the pass and the routes ask before they write.
--   Diagnosis: src/lib/diagnostics/camera-chain.ts, `buildCameraChain`, one function per link;
--     Diagnosis/Report: `collectCameraChains`.
--   Footage: src/lib/test-footage-run.ts and test-footage.ts. Footage/Names: the names of a clip;
--     Footage/Rules: the mark of the paused cameras in the rules document, the profiles and the cameras
--     to pause; Footage/Stop: `restoreCameras`, `stopRun` and `listRuns`; Footage/Run: `startRun`.
--   Ingestion, Ingestion/Switch: src/lib/helpers/ingestion.ts, `setIngestion` as `enable` and `disable`;
--     Ingestion/Register: `registerSensorAndArm` of src/lib/helpers/vst-register.ts; Ingestion/Wired puts
--     the runs of test footage over both.
--   ErrorBridge: src/lib/error-bridge.ts, the window of duplicates and the poll of the pods.
--   Clips: src/lib/streams/clip-cache.ts.
--   Common: lists, options, tests on numbers, `Map` as an association list, and `Effect`.
--
-- An awaited call is an `Effect W A`, a function of a state `W` to a value or a thrown message and
-- the state after it, so what was done before a throw stays done. What the code is given (the
-- adapter of the cluster, the store, the clock, probes) and what libraries do (HTTP, Kubernetes,
-- YAML, files) are parameters, with their documented behaviour as records of laws (`CountsRemovals`,
-- `Registers`, `OnlySensors`, `OwnsVlm`, `Stores`, `HoldsText`, `HoldsSets`, `MarkLaws`,
-- `StopLaws`, `ScaleLaws`, `FailSoft`, `BridgeSoft`, `DocumentLaws`, `ClusterLaws`, `RuleLaws`, `VstSoft`,
-- `Removes`), each filled by a concrete system in the Tests modules. Reads that the code makes at
-- once are made in the order of the text. Loops are structural recursion over the lists that the
-- code iterates, without fuel, but for the loop of `acquire`, which the code does not bound (a lock
-- file that keeps vanishing is tried for again without a look at the deadline): `acquire` makes at
-- most a given number of rounds. A lock that is taken within them is taken alike with more of them
-- (`acquire-more` in Store/File/Locked), and where every round that goes on takes time and begins by
-- the deadline, as many as there is time left are enough (`acquire_enough`). Interleavings
-- (Store/Lock) are lists of actions, each a call of one writer; the creation of the lock file, its
-- writing and its closing are one action, and a writer that is
-- killed or that fails in between is that action followed by the writer's death.
--
-- Numbers are natural: times in milliseconds and counts, whose differences the code takes from a
-- later to an earlier time; a clock that goes back reads as no time passed. A JavaScript `undefined`
-- is `none`, and a test on a text treats the empty text as absent (`truthy`). Log lines are left
-- out. Of what the YAML library parses, Store/Validate tells apart what the check looks at; a stored
-- prompt or prompt set whose text is no string is one whose `has_text` is false.
--
-- The characters of a text are taken as one code unit each, which holds of the names, identifiers
-- and numbers that are cut or measured; only the names in the cache of clips count the code units.
--
-- Not modelled: the React pages and components, the HTTP routes, the clients of Kubernetes, VST,
-- Kafka and buckets, the schemas of requests, and the remaining modules of src/lib.
pub mod Common
pub mod Recovery
pub mod Reconcile
pub mod Store
pub mod BoxMode
pub mod Diagnosis
pub mod Footage
pub mod Clips
pub mod Ingestion
pub mod ErrorBridge
