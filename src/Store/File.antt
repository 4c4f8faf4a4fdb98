-- ===== src/Store/File.antt =====
-- The operations of `FileConfigStore` on the file (src/lib/config-store/file.ts): each edit is a
-- read-modify-write under the lock. The calls of the file system, the clock and the YAML library are
-- parameters. The loop of `acquire` has no bound of its own, so it is cut after any number of rounds;
-- a lock that is taken within `rounds` rounds is taken alike with more of them. The queue of the writers
-- in one process is left out: calls come one after the other.
pub mod Locked
mod Tests
use Prim.Native.String.{◌++◌ as text_append}
use artesca_vss_console.Common.{
  ℕ, zero, suc, ◌+◌, ◌-◌, ltb, throw, try_catch, if◌then◌else◌, String, Bool, true, false, Option,
  none, some, List, [], ◌∷◌, Try, value, thrown, Effect, pure, ◌>>=◌, ◌>>◌, get_or,
}
use artesca_vss_console.Reconcile.{
  CameraEntry, PromptDoc, PromptSet, ScenarioEntry, ReconcileStatus,
}
use artesca_vss_console.Store.{
  Stamp, Stored, ConfigDoc, empty_doc, write_cameras, upsert_camera, delete_camera, write_status,
  write_prompt, write_scenarios, upsert_prompt_set, delete_prompt_set, set_active_prompt_id,
  read_prompt,
}
use artesca_vss_console.Store.Lock.{lock_stale_ms}
use artesca_vss_console.Store.Validate.{Yaml, validate_doc}
use artesca_vss_console.Store.Fill.{FillList, FillSource, FillPlan, plan_fill, apply_plan, is_empty}

abbrev pub lock_timeout_ms : ℕ
lock_timeout_ms = 10_000

-- What the store uses of the file system, at the file of one instance, and of the YAML library.
pub record ConfigFile (W : Type 0) : Type 0 where
  pub file_name : String
  pub instance_name : String
  pub parse_yaml : String → Try Yaml
  pub stringify_yaml : ConfigDoc → String
  pub make_dir : Effect W Unit
  -- `open` with the flag "wx": `false` where the lock file exists.
  pub open_lock : Effect W Bool
  pub write_lock : Effect W Unit
  pub close_lock : Effect W Unit
  -- The time of the lock file's modification.
  pub stat_lock : Effect W ℕ
  pub rm_lock : Effect W Unit
  pub now : Effect W ℕ
  -- The pause between two rounds of `acquire`.
  pub sleep : Effect W Unit
  -- `none` where there is no file.
  pub read_file : Effect W (Option String)
  pub write_tmp : String → Effect W Unit
  pub rename_tmp : Effect W Unit

module _ {W A : Type 0} where
  -- `finally`, with what the cleaning throws swallowed.
  abbrev pub finally : Effect W A → Effect W Unit → Effect W A
  finally m clean w = let (t, w1) = m w in (t, (clean w1).1)

module _ {W : Type 0} (file : ConfigFile W) where
  -- The lock file is old, and removed, or vanished meanwhile: it is tried for again at once.
  pub is_reclaimed : Effect W Bool
  is_reclaimed =
      try_catch
        (do
          t ← file.stat_lock
          n ← file.now
          if ltb lock_stale_ms (n - t) then file.rm_lock >> pure true else pure false)
        (λ _. true)

  -- `false` where the lock is to be tried for again.
  pub wait_turn : ℕ → Bool → Effect W Bool
  wait_turn deadline true = pure false
  wait_turn deadline false = do
    n ← file.now
    if ltb deadline n
        then throw (text_append "timed out waiting for the lock of " file.file_name)
        else file.sleep >> pure false

  pub after_open : ℕ → Bool → Effect W Bool
  after_open deadline true = file.write_lock >> file.close_lock >> pure true
  after_open deadline false = is_reclaimed >>= wait_turn deadline

  -- One round of the loop: `true` where the lock is taken.
  abbrev pub try_lock : ℕ → Effect W Bool
  try_lock deadline = file.open_lock >>= after_open deadline

  abbrev pub unless_taken : Effect W Unit → Bool → Effect W Unit
  unless_taken again true = pure tt
  unless_taken again false = again

  -- At most `rounds` rounds of the loop.
  pub acquire : ℕ → ℕ → Effect W Unit
  acquire zero deadline = throw "no round is left"
  acquire (suc rounds) deadline = try_lock deadline >>= unless_taken (acquire rounds deadline)

  pub document_of : Option String → Try ConfigDoc
  document_of none = value (empty_doc file.instance_name)
  document_of (some body) = elim (file.parse_yaml body) [
    | value raw ↦ validate_doc raw file.instance_name file.file_name
    | thrown e ↦ thrown (text_append file.file_name (text_append " is not valid YAML: " e))
  ]

  -- A file that is missing reads as an empty document, one that does not parse is an error.
  abbrev pub read : Effect W ConfigDoc
  read = file.read_file >>= λ body w. (document_of body, w)

  pub write_doc_atomic : ConfigDoc → Effect W Unit
  write_doc_atomic doc = file.write_tmp (file.stringify_yaml doc) >> file.rename_tmp

  -- Inside the lock: the edit of what is read is written.
  abbrev pub rewrite : String → String → (ConfigDoc → ConfigDoc) → Effect W Unit
  rewrite who now f = do
    doc ← read
    write_doc_atomic (record (f doc) { updated_by = some who; updated_at = some now })

module _ {W : Type 0} (file : ConfigFile W) (rounds : ℕ) where
  abbrev pub take_lock : Effect W Unit
  take_lock = do file.make_dir; n ← file.now; acquire file rounds (n + lock_timeout_ms)

  pub with_file_lock : {A : Type 0} → Effect W A → Effect W A
  with_file_lock fn = take_lock >> finally fn file.rm_lock

  pub mutate : String → String → (ConfigDoc → ConfigDoc) → Effect W Unit
  mutate who now f = with_file_lock (rewrite file who now f)

  abbrev stamp_of : String → String → Stamp
  stamp_of who now = record { updated_by = who; updated_at = now }

  abbrev pub save_cameras : String → String → List CameraEntry → Effect W Unit
  save_cameras who now cams = mutate who now (write_cameras (stamp_of who now) cams)

  abbrev pub save_camera : String → String → CameraEntry → Effect W Unit
  save_camera who now cam = mutate who now (upsert_camera (stamp_of who now) cam)

  abbrev pub drop_camera : String → String → String → Effect W Unit
  drop_camera who now id = mutate who now (delete_camera id)

  abbrev pub save_status : String → ReconcileStatus → Effect W Unit
  save_status now status = mutate status.agent_version now (write_status status)

  abbrev pub save_prompt : String → String → PromptDoc → Effect W Unit
  save_prompt who now p = mutate who now (write_prompt (stamp_of who now) p)

  abbrev pub save_scenarios : String → String → List ScenarioEntry → Effect W Unit
  save_scenarios who now scenarios = mutate who now (write_scenarios (stamp_of who now) scenarios)

  abbrev pub save_prompt_set : String → String → PromptSet → Effect W Unit
  save_prompt_set who now set = mutate who now (upsert_prompt_set (stamp_of who now) set)

  abbrev pub drop_prompt_set : String → String → String → Effect W Unit
  drop_prompt_set who now id = mutate who now (delete_prompt_set id)

  abbrev pub save_active_prompt_id : String → String → String → Effect W Unit
  save_active_prompt_id who now id = mutate who now (set_active_prompt_id id)

  abbrev pub load_prompt : Effect W (Option PromptDoc)
  load_prompt = do doc ← read file; pure (read_prompt doc)

  -- A plan that restores nothing leaves the file unwritten.
  pub write_plan : Bool → Stamp → FillPlan → ConfigDoc → Effect W FillPlan
  write_plan true s p doc = pure p
  write_plan false s p doc = do write_doc_atomic file (apply_plan s p doc); pure p

  pub fill_file : String → String → FillSource → Effect W FillPlan
  fill_file who now src = with_file_lock do
    doc ← read file
    write_plan (is_empty (plan_fill doc src).restored) (stamp_of who now) (plan_fill doc src) doc
