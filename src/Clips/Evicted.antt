-- ===== src/Clips/Evicted.antt =====
-- What an eviction removes.
use artesca_vss_console.Common.{
  ℕ, ◌-◌, ◌≤◌, String, Bool, not, ◌&&◌, List, [], ◌∷◌, All, includes, ◌≡◌, refl, arith, Effect,
  value, OnValue, OnValue-at, Returns, try_catch-Returns, leb, ◌==◌, Bool-cases, inl, inr,
}
use artesca_vss_console.Clips.{
  CacheFs, DirEntry, max_cache_bytes, total_of, walk_cache_entries, evict_each, do_evict_lru,
  evict_lru,
}
use artesca_vss_console.Clips.Oldest.{
  kept_of, oldest_over, dirs, IsOlder, total_of-kept_of, oldest_over-IsOlder,
  walk_cache_entries-IsSorted,
}

-- A removal takes the directory, and no other.
pub record Removes {W : Type 0} (fs : CacheFs W) : Type 0 where
  pub is_there : W → String → Bool
  pub rm_sync-removes :
      (d : String) (w : W)
      → OnValue
          (λ _ w1. (other : String) → is_there w1 other ≡ (is_there w other && not (d == other)))
          (fs.rm_sync d w)
  pub rm_sync-Returns : (d : String) → Returns (fs.rm_sync d)

module _ {W : Type 0} {fs : CacheFs W} (laws : Removes fs) where
  -- Only the directories of the list are gone.
  abbrev pub Lost : List DirEntry → W → W → Type 0
  Lost es w w1 =
      (d : String) → laws.is_there w1 d ≡ (laws.is_there w d && not (includes (dirs es) d))

  evict_each-Lost :
      (total : ℕ) (es : List DirEntry) (w : W)
      → total ≡ total_of es
      → (left : ℕ) × (w1 : W) × (evict_each fs total es w ≡ (value left, w1))
        × (left ≡ total_of (kept_of es))
        × Lost (oldest_over es) w w1
  unfolding evict_each
  evict_each-Lost total [] w e = (total, w, refl, e, λ d. ground arith)
  evict_each-Lost total (x ∷ xs) w e = elim (Bool-cases (leb (total_of (x ∷ xs)) max_cache_bytes)) [
    | inl within ↦ rw (e, within) (total_of (x ∷ xs), w, refl, refl, λ d. ground arith)
    | inr over ↦
        let (u, w1, f) = laws.rm_sync-Returns x.dir w in
        let (left, w2, g, same, lost) =
          evict_each-Lost (total_of (x ∷ xs) - x.size_bytes) xs w1 (omega arith) in
        let gone : (d : String) → laws.is_there w1 d ≡ (laws.is_there w d && not (x.dir == d)) =
          OnValue-at
            (λ _ v. (d : String) → laws.is_there v d ≡ (laws.is_there w d && not (x.dir == d)))
            (fs.rm_sync x.dir w) (laws.rm_sync-removes x.dir w) u w1 f in
        rw (e, over) (left, w2, rw f g, same, λ d. ground (arith, lost d, gone d))
  ]

  -- Where removing a directory never throws and takes that directory alone, an eviction removes exactly
  -- the fewest of the oldest clips that the walk gives whose removal brings the rest within the bound;
  -- the rest is within the bound, and none of it is older than what is removed.
  pub do_evict_lru-exact :
      (entries : List DirEntry) (w w1 : W)
      → walk_cache_entries fs w ≡ (value entries, w1)
      → (w2 : W) × (do_evict_lru fs w ≡ (value tt, w2))
        × Lost (oldest_over entries) w1 w2
        × (total_of (kept_of entries) ≤ max_cache_bytes)
        × All (λ e. All (IsOlder e) (kept_of entries)) (oldest_over entries)
  unfolding do_evict_lru
  do_evict_lru-exact entries w w1 e =
      let (left, w2, run, same, lost) = evict_each-Lost (total_of entries) entries w1 refl in
      (
        w2,
        rw (e, run) refl,
        lost,
        total_of-kept_of entries,
        oldest_over-IsOlder entries
            (OnValue-at _ _ (walk_cache_entries-IsSorted fs w) entries w1 e),
      )

-- The chain that is kept for the next caller never ends in a throw.
pub evict_lru-Returns :
    {W : Type 0} (fs : CacheFs W) (chain : Effect W Unit) → Returns (evict_lru fs chain)
unfolding evict_lru
evict_lru-Returns fs chain = try_catch-Returns _ _
