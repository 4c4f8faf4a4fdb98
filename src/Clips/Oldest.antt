-- ===== src/Clips/Oldest.antt =====
-- The clips that an eviction takes, described apart from it: the fewest of the oldest whose removal
-- brings the rest within the bound.
use artesca_vss_console.Common.{
  ◌≤◌, String, Bool, true, false, List, [], ◌∷◌, All, map, arith, OnValue, OnValue-bind, any_value,
  if◌then◌else◌, if_rule, leb, Bool-cases, inl, inr,
}
use artesca_vss_console.Clips.{
  CacheFs, DirEntry, max_cache_bytes, total_of, place, by_age, entries_of, walk_if,
  walk_cache_entries,
}

-- The longest end of the list that is within the bound, and what stands in front of it.
abbrev pub kept_of : List DirEntry → List DirEntry
kept_of [] = []
kept_of (e ∷ es) =
    let rest = kept_of es in if leb (total_of (e ∷ es)) max_cache_bytes then e ∷ es else rest

abbrev pub oldest_over : List DirEntry → List DirEntry
oldest_over [] = []
oldest_over (e ∷ es) =
    let rest = oldest_over es in if leb (total_of (e ∷ es)) max_cache_bytes then [] else e ∷ rest

abbrev pub dirs : List DirEntry → List String
dirs es = map (λ (e : DirEntry). e.dir) es

abbrev pub IsOlder : DirEntry → DirEntry → Type 0
IsOlder e f = e.mtime_ms ≤ f.mtime_ms

abbrev pub IsSorted : List DirEntry → Type 0
IsSorted [] = Unit
IsSorted (e ∷ es) = All (IsOlder e) es × IsSorted es

pub total_of-kept_of : (es : List DirEntry) → total_of (kept_of es) ≤ max_cache_bytes
total_of-kept_of [] = omega arith
total_of-kept_of (e ∷ es) = elim (Bool-cases (leb (total_of (e ∷ es)) max_cache_bytes)) [
  | inl h ↦ rw h (ground arith)
  | inr h ↦ rw h (total_of-kept_of es)
]

All-kept_of : (P : DirEntry → Type 0) (es : List DirEntry) → All P es → All P (kept_of es)
All-kept_of P [] h = tt
All-kept_of P (e ∷ es) h =
    if_rule (All P) (leb (total_of (e ∷ es)) max_cache_bytes) (λ _. h) (λ _. All-kept_of P es h.1)

pub oldest_over-IsOlder :
    (es : List DirEntry) → IsSorted es → All (λ e. All (IsOlder e) (kept_of es)) (oldest_over es)
oldest_over-IsOlder [] h = tt
oldest_over-IsOlder (e ∷ es) h = elim (Bool-cases (leb (total_of (e ∷ es)) max_cache_bytes)) [
  | inl k ↦ rw k tt
  | inr k ↦ rw k (All-kept_of (IsOlder e) es h.0, oldest_over-IsOlder es h.1)
]

All-place :
    (P : DirEntry → Type 0) (e : DirEntry) (es : List DirEntry)
    → P e
    → All P es
    → All P (place e es)
unfolding place
All-place P e [] p h = (p, tt)
All-place P e (f ∷ fs) p h =
    if_rule (All P) (leb e.mtime_ms f.mtime_ms) (λ _. (p, h)) (λ _. (h.0, All-place P e fs p h.1))

All-IsOlder :
    (e f : DirEntry) (fs : List DirEntry) → IsOlder e f → All (IsOlder f) fs → All (IsOlder e) fs
All-IsOlder e f [] o h = tt
All-IsOlder e f (g ∷ gs) o h = (omega (arith, o, h.0), All-IsOlder e f gs o h.1)

place-IsSorted : (e : DirEntry) (es : List DirEntry) → IsSorted es → IsSorted (place e es)
unfolding place
place-IsSorted e [] h = (tt, tt)
place-IsSorted e (f ∷ fs) h =
    if_rule IsSorted (leb e.mtime_ms f.mtime_ms)
      (λ k. let o : IsOlder e f = ground arith in ((o, All-IsOlder e f fs o h.0), h))
      (λ k.
        let o : IsOlder f e = ground arith in
        (All-place (IsOlder f) e fs o h.0, place-IsSorted e fs h.1))

by_age-IsSorted : (es : List DirEntry) → IsSorted (by_age es)
unfolding by_age
by_age-IsSorted [] = tt
by_age-IsSorted (e ∷ es) = place-IsSorted e (by_age es) (by_age-IsSorted es)

module _ {W : Type 0} (fs : CacheFs W) where
  -- What the walk gives stands the oldest first.
  pub walk_cache_entries-IsSorted :
      (w : W) → OnValue (λ es w1. IsSorted es) (walk_cache_entries fs w)
  unfolding walk_cache_entries
  walk_cache_entries-IsSorted w =
      OnValue-bind (λ _ _. Unit) (λ es w1. IsSorted es) (fs.exists fs.root) (walk_if fs) w
        (any_value (λ _. Unit) _ (λ _. tt)) (λ found w1 _. walked found w1)
    where
      walked : (found : Bool) (w1 : W) → OnValue (λ es w2. IsSorted es) (walk_if fs found w1)
      walked false w1 = tt
      walked true w1 =
          OnValue-bind (λ _ _. Unit) (λ es w2. IsSorted es) (fs.read_dir fs.root) _ w1
            (any_value (λ _. Unit) _ (λ _. tt))
            λ names w2 _.
              OnValue-bind (λ _ _. Unit) (λ es w3. IsSorted es) (entries_of fs names) _ w2
                (any_value (λ _. Unit) _ (λ _. tt)) (λ es w3 _. by_age-IsSorted es)
