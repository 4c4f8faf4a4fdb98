-- ===== src/BoxMode/Cache.antt =====
-- How old a mode may be that the writers are given.
use artesca_vss_console.Common.{
  ℕ, ◌-◌, ◌<◌, true, Option, none, some, ◌≡◌, refl, ltb, arith, Bool-cases, inl, inr,
}
use artesca_vss_console.BoxMode.{BoxMode, Cached, fresh, box_mode_ttl_ms, serve, get_box_mode}

module _ {W : Type 0} (read : W → BoxMode × W) (clock : W → ℕ) where
  -- The cache holds the mode `m`, read less than the time to live ago.
  abbrev pub HoldsFresh : BoxMode → Option Cached × W → Type 0
  HoldsFresh m s =
      (c : Cached) × (s.0 ≡ some c) × (c.value ≡ m) × (clock s.1 - c.at < box_mode_ttl_ms)

  -- The mode that is given was read less than the time to live before, by the clock at the answer.
  pub get_box_mode-HoldsFresh :
      (s : Option Cached × W)
      → HoldsFresh (get_box_mode read clock s).0 (get_box_mode read clock s).1
  unfolding get_box_mode serve fresh
  get_box_mode-HoldsFresh (none, w) = (_, refl, refl, omega arith)
  get_box_mode-HoldsFresh (some c, w) = elim (Bool-cases (ltb (clock w - c.at) box_mode_ttl_ms)) [
    | inl e ↦ rw e (c, refl, refl, ground (arith, e))
    | inr e ↦ rw e (_, refl, refl, omega arith)
  ]

  HoldsFresh-served :
      (m : BoxMode) (s : Option Cached × W) → HoldsFresh m s → get_box_mode read clock s ≡ (m, s)
  unfolding get_box_mode serve fresh
  HoldsFresh-served m (cached, w) (c, e1, e2, young) =
      let hit : ltb (clock w - c.at) box_mode_ttl_ms ≡ true = ground (arith, young) in
      rw (e1, hit, e2) refl

  -- Asked again before the clock moves on, the same mode is given and the record is not read.
  pub get_box_mode-again :
      (s : Option Cached × W)
      → get_box_mode read clock (get_box_mode read clock s).1 ≡ get_box_mode read clock s
  get_box_mode-again s = HoldsFresh-served _ _ (get_box_mode-HoldsFresh s)
