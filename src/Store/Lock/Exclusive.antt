-- ===== src/Store/Lock/Exclusive.antt =====
-- Who holds the lock: at most one writer, as long as no lock file is reclaimed for its age.
use mathlib.Core.Option.{some-injective}
use artesca_vss_console.Common.{
  ℕ, zero, suc, ◌+◌, ◌-◌, ◌≤◌, Bool, true, false, Option, none, some, List, [], ◌∷◌, ◌≡◌, refl,
  count, is_some, arith, if◌then◌else◌, Option-cases, inl, inr, ltb, subst,
}
use artesca_vss_console.Store.Lock.{
  Phase, wants, blocked, reclaiming, holding, timed_out, ended, Volume, Action, create, stat,
  reclaim, release, die, tick, get_elem?, set_elem, lock_stale_ms, moved, create_with, stat_with,
  on_create, on_stat, on_reclaim, on_release, on_die, step, then_run, run,
}

abbrev pub is_holding : Phase → Bool
is_holding holding = true
is_holding _ = false

abbrev pub is_reclaim : Action → Bool
is_reclaim (reclaim i) = true
is_reclaim _ = false

abbrev pub holders : Volume → ℕ
holders v = count is_holding v.writers

-- At most one writer holds the lock, and only while the lock file exists.
abbrev pub IsExclusive : Volume → Type 0
IsExclusive v = holders v ≤ (if is_some v.lock then 1 else 0)

abbrev weight : Phase → ℕ
weight p = if is_holding p then 1 else 0

-- A writer that moves changes the number of holders by its own part.
set_elem-holders :
    (ws : List Phase) (i : ℕ) (old new : Phase)
    → get_elem? ws i ≡ some old
    → count is_holding (set_elem ws i new) + weight old ≡ count is_holding ws + weight new
set_elem-holders [] i old new h = cc
set_elem-holders (w ∷ ws) zero old new h = rw (some-injective _ _ h) (omega arith)
set_elem-holders (w ∷ ws) (suc i) old new h = omega (arith, set_elem-holders ws i old new h)

-- What a step that leaves the lock exclusive does, where it is possible.
abbrev Keeps : Option Volume → Type 0
Keeps none = Unit
Keeps (some v) = IsExclusive v

module _ (v : Volume) (i : ℕ) (h : IsExclusive v) where
  create-Keeps : (d : ℕ) → get_elem? v.writers i ≡ some (wants d) → Keeps (create_with v i d v.lock)
  unfolding create_with
  create-Keeps d at = elim (Option-cases v.lock) [
    | inl e ↦ rw e (ground (arith, set_elem-holders v.writers i (wants d) holding at))
    | inr (t, e) ↦ rw e (ground (arith, set_elem-holders v.writers i (wants d) (blocked d) at))
  ]

  idle :
      (p q : Phase)
      → is_holding q ≡ false
      → get_elem? v.writers i ≡ some p
      → Keeps (moved v i q v.lock)
  idle p q e at = ground (arith, set_elem-holders v.writers i p q at)

  checked :
      (d : ℕ) (b c : Bool)
      → is_holding (if b then reclaiming d else if c then timed_out else wants d) ≡ false
  checked d true c = refl
  checked d false true = refl
  checked d false false = refl

  stat-Keeps : (d : ℕ) → get_elem? v.writers i ≡ some (blocked d) → Keeps (stat_with v i d v.lock)
  unfolding stat_with
  stat-Keeps d at = elim (Option-cases v.lock) [
    | inl e ↦ rw e (ground (arith, set_elem-holders v.writers i (blocked d) (wants d) at))
    | inr (t, e) ↦ rw e (
        let q =
          if ltb lock_stale_ms (v.now - t)
          then reclaiming d
          else if ltb d v.now
          then timed_out
          else wants d in
        ground (
          arith,
          set_elem-holders v.writers i (blocked d) q at,
          checked d (ltb lock_stale_ms (v.now - t)) (ltb d v.now),
        ))
  ]

  on_create-Keeps : (o : Option Phase) → get_elem? v.writers i ≡ o → Keeps (on_create v i o)
  unfolding on_create
  on_create-Keeps none at = tt
  on_create-Keeps (some (wants d)) at = create-Keeps d at
  on_create-Keeps (some (blocked d)) at = tt
  on_create-Keeps (some (reclaiming d)) at = tt
  on_create-Keeps (some holding) at = tt
  on_create-Keeps (some timed_out) at = tt
  on_create-Keeps (some ended) at = tt

  on_stat-Keeps : (o : Option Phase) → get_elem? v.writers i ≡ o → Keeps (on_stat v i o)
  unfolding on_stat
  on_stat-Keeps none at = tt
  on_stat-Keeps (some (wants d)) at = tt
  on_stat-Keeps (some (blocked d)) at = stat-Keeps d at
  on_stat-Keeps (some (reclaiming d)) at = tt
  on_stat-Keeps (some holding) at = tt
  on_stat-Keeps (some timed_out) at = tt
  on_stat-Keeps (some ended) at = tt

  on_release-Keeps : (o : Option Phase) → get_elem? v.writers i ≡ o → Keeps (on_release v i o)
  unfolding on_release
  on_release-Keeps none at = tt
  on_release-Keeps (some (wants d)) at = tt
  on_release-Keeps (some (blocked d)) at = tt
  on_release-Keeps (some (reclaiming d)) at = tt
  on_release-Keeps (some holding) at = ground (arith, set_elem-holders v.writers i holding ended at)
  on_release-Keeps (some timed_out) at = tt
  on_release-Keeps (some ended) at = tt

  on_die-Keeps : (o : Option Phase) → get_elem? v.writers i ≡ o → Keeps (on_die v i o)
  unfolding on_die
  on_die-Keeps none at = tt
  on_die-Keeps (some p) at = idle p ended refl at

step-Keeps : (a : Action) (v : Volume) → is_reclaim a ≡ false → IsExclusive v → Keeps (step a v)
unfolding step
step-Keeps (create i) v fresh h = on_create-Keeps v i h _ refl
step-Keeps (stat i) v fresh h = on_stat-Keeps v i h _ refl
step-Keeps (reclaim i) v fresh h = cc
step-Keeps (release i) v fresh h = on_release-Keeps v i h _ refl
step-Keeps (die i) v fresh h = on_die-Keeps v i h _ refl
step-Keeps (tick n) v fresh h = h

run-Keeps :
    (actions : List Action) (v : Volume)
    → count is_reclaim actions ≡ 0
    → IsExclusive v
    → Keeps (run actions v)
unfolding run
run-Keeps [] v fresh h = h
run-Keeps (a ∷ actions) v fresh h =
    rest (step a v) (step-Keeps a v (ground (arith, fresh)) h)
      (λ v' k. run-Keeps actions v' (ground (arith, fresh)) k)
  where
    rest :
        (o : Option Volume)
        → Keeps o
        → ((v' : Volume) → IsExclusive v' → Keeps (run actions v'))
        → Keeps (then_run (run actions) o)
    rest none k go = tt
    rest (some v') k go = go v' k

-- From a volume on which the lock is held by at most one writer, and only while the lock file exists,
-- every interleaving of the writers in which no file is reclaimed for its age, killed writers
-- included, comes to such a volume.
pub run-IsExclusive :
    (actions : List Action) (v v' : Volume)
    → run actions v ≡ some v'
    → count is_reclaim actions ≡ 0
    → IsExclusive v
    → IsExclusive v'
run-IsExclusive actions v v' e fresh h = subst Keeps e (run-Keeps actions v fresh h)

-- Both waiting writers see the file, and both find it stale, before either reclaims it.
abbrev pub race : List Action
race = create 0 ∷ create 1 ∷ stat 0 ∷ stat 1 ∷ reclaim 0 ∷ create 0 ∷ reclaim 1 ∷ create 1 ∷ []

-- Where a lock file is left behind and two writers wait for it when it is stale, one interleaving of
-- their calls ends with both holding it.
pub race-holders :
    (t now d1 d2 : ℕ) (others : List Phase)
    → ltb lock_stale_ms (now - t) ≡ true
    → run race (record { lock = some t; now = now; writers = wants d1 ∷ wants d2 ∷ others })
      ≡ some (record { lock = some now; now = now; writers = holding ∷ holding ∷ others })
unfolding run step on_create create_with on_stat stat_with on_reclaim
race-holders t now d1 d2 others h = rw h refl
