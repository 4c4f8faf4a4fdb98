-- ===== src/Store/File/Tests.antt =====
-- An edit of the file on a small disk.
use artesca_vss_console.Common.{
  ℕ, ◌+◌, not, Option, thrown, get_or, ◌⊎◌, String, Bool, true, false, none, some, [], ◌∷◌, ◌≡◌,
  refl, value,
}
use artesca_vss_console.Reconcile.{CameraEntry}
use artesca_vss_console.Store.{Stored, ConfigDoc, empty_doc, delete_camera}
use artesca_vss_console.Store.Validate.{
  Field, entity, missing, items, RawDoc, mapping, config_schema, knows_schema, validate_doc,
  check_list, check_entries, check_entry,
}
use artesca_vss_console.Store.Validate.Named.{KeepsAll, validate_doc-KeepsAll}
use artesca_vss_console.Store.File.{
  ConfigFile, mutate, take_lock, acquire, after_open, rewrite, with_file_lock, document_of,
  write_doc_atomic,
}
use artesca_vss_console.Store.File.Locked.{HoldsText, Ends, IsEdited, mutate-atomic}

-- The disk: the file, the temporary file, whether the lock is there, and the time.
record Disk : Type 0 where
  text : Option String
  tmp : String
  locked : Bool
  time : ℕ

abbrev stored_camera : Stored CameraEntry
stored_camera = record {
  entry = record {
    id = "door";
    rtsp_url = "rtsp://door";
    description = none;
    role = none;
    scenario_ids = none;
    prompt_id = none;
    recording = none;
  };
  stamp = none;
  has_text = true;
}

abbrev raw_doc : RawDoc
raw_doc = record {
  schema = Field.text config_schema;
  instance_name = Field.text "box";
  updated_at = Field.absent;
  updated_by = Field.absent;
  active_prompt_id = Field.absent;
  prompt = none;
  reconcile_status = none;
  cameras = items (entity stored_camera ∷ []);
  scenarios = missing;
  prompt_sets = missing;
}

abbrev file : ConfigFile Disk
file = record {
  file_name = "box.yaml";
  instance_name = "box";
  parse_yaml = λ body. value (mapping raw_doc);
  stringify_yaml = λ d. get_or d.updated_by "nobody";
  make_dir = λ w. (value tt, w);
  open_lock = λ w. (value (not w.locked), record w { locked = true });
  write_lock = λ w. (value tt, w);
  close_lock = λ w. (value tt, w);
  stat_lock = λ w. (value 0, w);
  rm_lock = λ w. (value tt, record w { locked = false });
  now = λ w. (value w.time, w);
  sleep = λ w. (value tt, record w { time = w.time + 50 });
  read_file = λ w. (value w.text, w);
  write_tmp = λ body w. (value tt, record w { tmp = body });
  rename_tmp = λ w. (value tt, record w { text = some w.tmp });
}

holds : HoldsText file (λ w. w.text) (λ w. w.tmp) (λ w. w.locked)
holds = record {
  reads = λ w. (refl, refl);
  writes = λ body w. (refl, refl);
  renames = λ w. refl;
  removes = λ w. (refl, refl);
}

abbrev disk : Disk
disk = record { text = some "cameras: [...]"; tmp = ""; locked = false; time = 7 }

abbrev taken : Disk
taken = record disk { locked = true }

run_take : take_lock file 1 disk ≡ (value tt, taken)
unfolding acquire after_open
run_take = refl

-- The file was read and written.
run_mutate :
    mutate file 1 "ui" "2026" (delete_camera "c") disk
    ≡ (value tt, record disk { text = some "ui"; tmp = "ui" })
unfolding mutate with_file_lock acquire after_open document_of validate_doc check_list check_entries
    check_entry write_doc_atomic
run_mutate = refl

mutate-atomic_example :
    Ends
      (λ _. IsEdited file (λ w. w.text) "ui" "2026" (delete_camera "c") taken)
      (λ w. w.text ≡ taken.text)
      (mutate file 1 "ui" "2026" (delete_camera "c") disk)
    × (((mutate file 1 "ui" "2026" (delete_camera "c") disk).1.locked ≡ false)
        ⊎ ((e : String) × ((file.rm_lock (rewrite file "ui" "2026" (delete_camera "c") taken).1).0
              ≡ thrown e)))
mutate-atomic_example =
    mutate-atomic file (λ w. w.text) (λ w. w.tmp) (λ w. w.locked) holds 1 "ui" "2026"
      (delete_camera "c") disk taken run_take

abbrev doc : ConfigDoc
doc = record (empty_doc "box") { cameras = stored_camera ∷ [] }

run_check : validate_doc (mapping raw_doc) "box" "box.yaml" ≡ value doc
unfolding validate_doc check_list check_entries check_entry
run_check = refl

validate_doc-KeepsAll_example : (knows_schema raw_doc.schema ≡ true) × KeepsAll raw_doc doc
validate_doc-KeepsAll_example = validate_doc-KeepsAll raw_doc "box" "box.yaml" doc run_check
