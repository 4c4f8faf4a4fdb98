-- ===== src/Reconcile/Run/WriteBack.antt =====
-- The status that a pass writes back, and the only way in which a pass throws.
use artesca_vss_console.Common.{String, List, ◌≡◌, refl, Try, value, thrown, pure, get_or, continue}
use artesca_vss_console.Reconcile.{ScenarioEntry, ReconcileStatus, empty_status, ClusterAdapter}
use artesca_vss_console.Reconcile.Run.{
  ReconcileRunOptions, ConfigStore, recorded, converge, write_back, reconcile_instance_cameras,
}

-- The write of a status that ended so.
abbrev pub Wrote :
    {W : Type 0} → ConfigStore W → String → ReconcileStatus → Try (Unit {0}) → W → Type 0
Wrote {W = W} store instance s t w' = (v : W) × (store.write_status instance s v ≡ (t, w'))

module _ {W : Type 0} (store : ConfigStore W) (adapter : ClusterAdapter W) (instance : String)
    (serialize : List ScenarioEntry → String) where
  write_back-thrown :
      (s : ReconcileStatus) (v w' : W) (e : String)
      → write_back store adapter instance serialize s v ≡ (thrown e, w')
      → Wrote store instance s (thrown e) w'
  unfolding write_back
  write_back-thrown s v w' e h = (v, go (store.write_status instance s v) h)
    where
      go : (t : Try Unit × W) → continue t.0 (λ _. pure s) t.1 ≡ (thrown e, w') → t ≡ (thrown e, w')
      go (value _, u) k = cc
      go (thrown f, u) k = cc

  write_back-value :
      (s r : ReconcileStatus) (v w' : W)
      → write_back store adapter instance serialize s v ≡ (value r, w')
      → Wrote store instance r (value tt) w'
  unfolding write_back
  write_back-value s r v w' h = (v, go (store.write_status instance s v) refl h)
    where
      go :
          (t : Try Unit × W)
          → store.write_status instance s v ≡ t
          → continue t.0 (λ _. pure s) t.1 ≡ (value r, w')
          → store.write_status instance r v ≡ (value tt, w')
      go (value tt, u) q k = cc
      go (thrown f, u) q k = cc

  -- A pass that throws has thrown what writing the status threw, and ends in its state.
  pub throws-write_status :
      (opts : ReconcileRunOptions) (w w' : W) (e : String)
      → reconcile_instance_cameras store adapter instance serialize opts w ≡ (thrown e, w')
      → (s : ReconcileStatus) × Wrote store instance s (thrown e) w'
  unfolding reconcile_instance_cameras
  throws-write_status opts w w' e h =
      let start : ReconcileStatus × W =
        (empty_status (get_or opts.agent_version "dev") opts.now, w) in
      let (t, (s, v)) = converge store adapter instance serialize opts start in
      (recorded t s, write_back-thrown (recorded t s) v w' e h)

  -- The status that a pass returns is the one that it wrote last.
  pub returns-written :
      (opts : ReconcileRunOptions) (w w' : W) (s : ReconcileStatus)
      → reconcile_instance_cameras store adapter instance serialize opts w ≡ (value s, w')
      → Wrote store instance s (value tt) w'
  unfolding reconcile_instance_cameras
  returns-written opts w w' r h =
      let start : ReconcileStatus × W =
        (empty_status (get_or opts.agent_version "dev") opts.now, w) in
      let (t, (s, v)) = converge store adapter instance serialize opts start in
      write_back-value (recorded t s) r v w' h
