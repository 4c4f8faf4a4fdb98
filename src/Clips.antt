-- ===== src/Clips.antt =====
-- The cache of the clips (src/lib/streams/clip-cache.ts): the names in it, the freshness of a file,
-- and the eviction of the oldest clips. The file system is the record below; its paths are the
-- library's, and the root is a setting.
pub mod Names
pub mod Oldest
pub mod Evicted
mod Tests
use Prim.Native.Char.{Char, code}
use Prim.Native.String.{◌++◌ as text_append}
use artesca_vss_console.Common.{
  ℕ, ◌+◌, ◌-◌, ◌*◌, ◌/◌, String, Bool, true, false, ◌||◌, ◌&&◌, not, Option, none, some, List, [],
  ◌∷◌, Effect, Try, value, thrown, pure, ◌>>=◌, ◌>>◌, try_catch, if◌then◌else◌, ltb, leb, eqb,
}
use artesca_vss_console.Common.Texts.{take_chars}

pub clip_cache_ttl_ms : ℕ
clip_cache_ttl_ms = 86400000

-- 4.5 GiB
abbrev pub max_cache_bytes : ℕ
max_cache_bytes = 4831838208

-- `[A-Za-z0-9_\-:.+]`
abbrev pub is_allowed : Char → Bool
is_allowed c =
    leb 65 (code c) && leb (code c) 90
    || leb 97 (code c) && leb (code c) 122
    || leb 48 (code c) && leb (code c) 58
    || eqb (code c) 95
    || eqb (code c) 45
    || eqb (code c) 46
    || eqb (code c) 43

-- An underscore for each code unit of any other character.
abbrev pub replaced : Char → String → String
replaced c rest =
    if is_allowed c
    then String.◌∷◌ c rest
    else if ltb 65535 (code c)
    then String.◌∷◌ "_" (String.◌∷◌ "_" rest)
    else String.◌∷◌ "_" rest

pub cleaned : String → String
cleaned String.[] = ""
cleaned (String.◌∷◌ c s) = replaced c (cleaned s)

pub sanitize : String → String
sanitize s = take_chars 128 (cleaned s)

-- What is read of a file or a directory; the times only in their order, and against the clock.
pub record Stat : Type 0 where
  pub is_directory : Bool
  pub size : ℕ
  pub mtime_ms : ℕ

pub record CacheFs (W : Type 0) : Type 0 where
  pub root : String
  -- `path.join` and `path.basename`
  pub join_path : String → String → String
  pub basename : String → String
  pub exists : String → Effect W Bool
  pub read_dir : String → Effect W (List String)
  pub stat : String → Effect W Stat
  pub mkdir_sync : String → Effect W Unit
  pub rm_sync : String → Effect W Unit
  pub now : Effect W ℕ

pub record DirEntry : Type 0 where
  pub dir : String
  pub size_bytes : ℕ
  pub mtime_ms : ℕ

abbrev pub total_of : List DirEntry → ℕ
total_of [] = 0
total_of (e ∷ es) = e.size_bytes + total_of es

-- A stable sort, the oldest first.
pub place : DirEntry → List DirEntry → List DirEntry
place e [] = e ∷ []
place e (f ∷ fs) =
    let rest = place e fs in if leb e.mtime_ms f.mtime_ms then e ∷ f ∷ fs else f ∷ rest

pub by_age : List DirEntry → List DirEntry
by_age [] = []
by_age (e ∷ es) = place e (by_age es)

-- A time rounded to ten seconds, a half upward.
pub round_ms : ℕ → ℕ
round_ms ms = (ms + 5000) / 10000 * 10000

-- The size and the time of an entry, with one file more.
abbrev pub with_file : DirEntry → Stat → DirEntry
with_file e s = record e {
  size_bytes = e.size_bytes + s.size;
  mtime_ms = if ltb e.mtime_ms s.mtime_ms then s.mtime_ms else e.mtime_ms;
}

abbrev pub and_entry : Option DirEntry → List DirEntry → List DirEntry
and_entry none es = es
and_entry (some e) es = e ∷ es

module _ {W : Type 0} (fs : CacheFs W) where
  pub cache_dir : String → String → String
  cache_dir sensor ts =
      fs.join_path fs.root (text_append (sanitize sensor) (text_append "-" (sanitize ts)))

  pub cache_path : String → String → String → String
  cache_path sensor ts file = fs.join_path (cache_dir sensor ts) (fs.basename file)

  -- `Date.now() - stat.mtimeMs < ttlMs`; false where the file cannot be looked up.
  pub is_cache_fresh : String → ℕ → Effect W Bool
  is_cache_fresh file ttl_ms =
      try_catch (do s ← fs.stat file; t ← fs.now; pure (ltb t (s.mtime_ms + ttl_ms))) (λ _. false)

  pub ensure_cache_dir : String → String → Effect W String
  ensure_cache_dir sensor ts = fs.mkdir_sync (cache_dir sensor ts) >> pure (cache_dir sensor ts)

  pub add_files : DirEntry → List String → Effect W DirEntry
  add_files e [] = pure e
  add_files e (file ∷ files) = do
    s ← fs.stat (fs.join_path e.dir file)
    add_files (with_file e s) files

  abbrev pub entry_if : Bool → String → Stat → Effect W (Option DirEntry)
  entry_if false dir s = pure none
  entry_if true dir s = do
    files ← fs.read_dir dir
    e ← add_files (record { dir = dir; size_bytes = 0; mtime_ms = s.mtime_ms }) files
    pure (some e)

  abbrev pub entry_of : String → Effect W (Option DirEntry)
  entry_of dir = do s ← fs.stat dir; entry_if s.is_directory dir s

  -- What is no directory is skipped, and so is what cannot be read.
  pub entries_of : List String → Effect W (List DirEntry)
  entries_of [] = pure []
  entries_of (name ∷ names) = do
    o ← try_catch (entry_of (fs.join_path fs.root name)) (λ _. none)
    es ← entries_of names
    pure (and_entry o es)

  abbrev pub walk_if : Bool → Effect W (List DirEntry)
  walk_if false = pure []
  walk_if true = do names ← fs.read_dir fs.root; es ← entries_of names; pure (by_age es)

  pub walk_cache_entries : Effect W (List DirEntry)
  walk_cache_entries = do found ← fs.exists fs.root; walk_if found

  -- What a removal leaves of the total: all of it where the removal throws.
  abbrev pub removed : ℕ → DirEntry → Effect W ℕ
  removed total e = try_catch (fs.rm_sync e.dir >> pure (total - e.size_bytes)) (λ _. total)

  -- From the oldest on, until the total is within the bound; the total at the end.
  pub evict_each : ℕ → List DirEntry → Effect W ℕ
  evict_each total [] = pure total
  evict_each total (e ∷ es) =
      if leb total max_cache_bytes
      then pure total
      else removed total e >>= λ left. evict_each left es

  pub do_evict_lru : Effect W Unit
  do_evict_lru = do entries ← walk_cache_entries; _ ← evict_each (total_of entries) entries; pure tt

  -- The promise at the end of the chain: what was asked before, then one eviction, with what either
  -- throws swallowed.
  pub evict_lru : Effect W Unit → Effect W Unit
  evict_lru chain = try_catch (chain >> do_evict_lru) (λ _. tt)
