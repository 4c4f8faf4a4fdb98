-- ===== src/Clips/Tests.antt =====
-- A cache of two clips that are too large together.
use Prim.Native.String.{◌++◌ as text_append}
use artesca_vss_console.Common.{
  ℕ, ◌≤◌, String, Bool, true, false, not, ◌&&◌, List, [], ◌∷◌, All, filter, filter-includes,
  includes, ◌≡◌, refl, Try, value, thrown, pure, if◌then◌else◌, ◌==◌,
}
use artesca_vss_console.Common.Texts.{take_chars}
use artesca_vss_console.Clips.{
  Stat, CacheFs, DirEntry, max_cache_bytes, total_of, cleaned, sanitize, place, by_age, round_ms,
  cache_dir, add_files, entries_of, walk_cache_entries, evict_each, do_evict_lru, is_cache_fresh,
}
use artesca_vss_console.Clips.Oldest.{kept_of, oldest_over, IsOlder}
use artesca_vss_console.Clips.Evicted.{Removes, do_evict_lru-exact}

abbrev stat_of : Bool → ℕ → ℕ → Stat
stat_of is_directory size mtime_ms = record {
  is_directory = is_directory;
  size = size;
  mtime_ms = mtime_ms;
}

abbrev stats : String → Try Stat
stats path =
    if path == "new"
    then value (stat_of true 0 2)
    else if path == "old"
    then value (stat_of true 0 1)
    else if path == "new/clip"
    then value (stat_of false 3000000000 90)
    else if path == "old/clip"
    then value (stat_of false 4000000000 70)
    else thrown "ENOENT"

-- The state is the directories that are there.
abbrev fs : CacheFs (List String)
fs = record {
  root = "";
  join_path = λ a b. if a == "" then b else text_append a (text_append "/" b);
  basename = λ p. p;
  exists = λ p. pure true;
  read_dir = λ p w. (value (if p == "" then w else "clip" ∷ []), w);
  stat = λ p w. (stats p, w);
  mkdir_sync = λ p. pure tt;
  rm_sync = λ p w. (value tt, filter (λ d. not (p == d)) w);
  now = pure 100;
}

abbrev removes : Removes fs
removes = record {
  is_there = λ w d. includes w d;
  rm_sync-removes = λ d w other. filter-includes (λ o. not (d == o)) w other;
  rm_sync-Returns = λ d w. (_, _, refl);
}

abbrev start : List String
start = "new" ∷ "lost" ∷ "old" ∷ []

abbrev walked : List DirEntry
walked =
    record { dir = "old"; size_bytes = 4000000000; mtime_ms = 70 }
    ∷ record { dir = "new"; size_bytes = 3000000000; mtime_ms = 90 }
    ∷ []

run_walk : walk_cache_entries fs start ≡ (value walked, start)
unfolding walk_cache_entries entries_of add_files by_age place
run_walk = refl

run_evict : do_evict_lru fs start ≡ (value tt, "new" ∷ "lost" ∷ [])
unfolding do_evict_lru evict_each walk_cache_entries entries_of add_files by_age place
run_evict = refl

stale : is_cache_fresh fs "old/clip" 30 start ≡ (value false, start)
unfolding is_cache_fresh
stale = refl

safe_dir : cache_dir fs "../gate" "2026-01-01T00:00:00Z" ≡ ".._gate-2026-01-01T00:00:00Z"
unfolding cache_dir sanitize cleaned take_chars
safe_dir = refl

rounded : round_ms 14999 ≡ 10000
unfolding round_ms
rounded = refl

do_evict_lru-exact_example :
    (w : List String) × (do_evict_lru fs start ≡ (value tt, w))
    × ((d : String) → includes w d ≡ (includes start d && not (includes ("old" ∷ []) d)))
    × (total_of (kept_of walked) ≤ max_cache_bytes)
    × All (λ e. All (IsOlder e) (kept_of walked)) (oldest_over walked)
do_evict_lru-exact_example = do_evict_lru-exact removes walked start start run_walk
