-- ===== src/Store/Lock.antt =====
-- The lock file between several writers (`acquire` and the end of `withFileLock`,
-- src/lib/config-store/file.ts), as interleaved steps on the shared volume: each awaited call of the
-- file system is one step, but for the writing and closing of a lock file that was just created, which
-- belong to the step of its creation. A writer that is killed between them, or whose writing throws,
-- leaves the file behind: that is the creation followed by `die`.
pub mod Exclusive
mod Tests
use artesca_vss_console.Common.{
  ℕ, zero, suc, ◌+◌, ◌-◌, Bool, true, false, Option, none, some, List, [], ◌∷◌, ltb, if◌then◌else◌,
}

abbrev pub lock_stale_ms : ℕ
lock_stale_ms = 30_000

-- Where a writer stands, with the deadline of its `acquire`: it is about to create the lock file, has
-- found it existing, has found it stale, holds the lock, has timed out, or has ended or died.
pub data Phase : Type 0 where
  wants : ℕ → Phase
  blocked : ℕ → Phase
  reclaiming : ℕ → Phase
  holding : Phase
  timed_out : Phase
  ended : Phase

-- The lock file, if there is one, with its time of modification.
pub record Volume : Type 0 where
  pub lock : Option ℕ
  pub now : ℕ
  pub writers : List Phase

pub data Action : Type 0 where
  create stat reclaim release die : ℕ → Action
  tick : ℕ → Action

module _ {A : Type 0} where
  abbrev pub get_elem? : List A → ℕ → Option A
  get_elem? [] i = none
  get_elem? (x ∷ xs) zero = some x
  get_elem? (x ∷ xs) (suc i) = get_elem? xs i

  abbrev pub set_elem : List A → ℕ → A → List A
  set_elem [] i a = []
  set_elem (x ∷ xs) zero a = a ∷ xs
  set_elem (x ∷ xs) (suc i) a = x ∷ set_elem xs i a

abbrev pub moved : Volume → ℕ → Phase → Option ℕ → Option Volume
moved v i p lock = some (record v { lock = lock; writers = set_elem v.writers i p })

-- `open` with the flag "wx" succeeds only where there is no file; the new file is written and closed.
pub create_with : Volume → ℕ → ℕ → Option ℕ → Option Volume
create_with v i deadline none = moved v i holding (some v.now)
create_with v i deadline (some t) = moved v i (blocked deadline) (some t)

-- The age of the file decides; a file that has vanished is tried again.
pub stat_with : Volume → ℕ → ℕ → Option ℕ → Option Volume
stat_with v i deadline none = moved v i (wants deadline) none
stat_with v i deadline (some t) =
    moved v i
      (if ltb lock_stale_ms (v.now - t)
        then reclaiming deadline
        else if ltb deadline v.now
        then timed_out
        else wants deadline)
      (some t)

pub on_create : Volume → ℕ → Option Phase → Option Volume
on_create v i (some (wants deadline)) = create_with v i deadline v.lock
on_create v i _ = none

pub on_stat : Volume → ℕ → Option Phase → Option Volume
on_stat v i (some (blocked deadline)) = stat_with v i deadline v.lock
on_stat v i _ = none

-- `rm` removes whatever file is there by then.
pub on_reclaim : Volume → ℕ → Option Phase → Option Volume
on_reclaim v i (some (reclaiming deadline)) = moved v i (wants deadline) none
on_reclaim v i _ = none

pub on_release : Volume → ℕ → Option Phase → Option Volume
on_release v i (some holding) = moved v i ended none
on_release v i _ = none

-- A writer that is killed leaves the file behind.
pub on_die : Volume → ℕ → Option Phase → Option Volume
on_die v i none = none
on_die v i (some p) = moved v i ended v.lock

-- `none` where the writer is not at that call.
pub step : Action → Volume → Option Volume
step (create i) v = on_create v i (get_elem? v.writers i)
step (stat i) v = on_stat v i (get_elem? v.writers i)
step (reclaim i) v = on_reclaim v i (get_elem? v.writers i)
step (release i) v = on_release v i (get_elem? v.writers i)
step (die i) v = on_die v i (get_elem? v.writers i)
step (tick n) v = some (record v { now = v.now + n })

abbrev pub then_run : (Volume → Option Volume) → Option Volume → Option Volume
then_run rest none = none
then_run rest (some v) = rest v

pub run : List Action → Volume → Option Volume
run [] v = some v
run (a ∷ actions) v = then_run (run actions) (step a v)
