-- ===== src/Diagnosis/Report/Complete.antt =====
-- The report is soft: whatever throws, every desired camera is diagnosed.
use artesca_vss_console.Common.{
  String, Bool, true, false, Option, none, some, List, [], ◌∷◌, map, ◌≡◌, refl, ap, Effect, value,
  Returns, Returns-bind, Returns-pure, truthy, try_catch-Returns,
}
use artesca_vss_console.Common.Maps.{lookup}
use artesca_vss_console.Diagnosis.{DesiredCamera, ScenarioBinding, CameraChain, build_camera_chain}
use artesca_vss_console.Diagnosis.Report.{
  ReportDeps, Observed, CameraChainReport, is_ok, soft, probe_status, chain_input, read_live,
  diagnose, diagnose_all, collect_camera_chains, unknown_storage,
}

-- The call always gives a value, of which `P` holds.
abbrev Gives : {W A : Type 0} → (A → Type 0) → Effect W A → Type 0
Gives {W} {A} P m = (w : W) → (a : A) × (w' : W) × (m w ≡ (value a, w')) × P a

module _ {W : Type 0} (deps : ReportDeps W) where
  probe_status-Returns : (up : Bool) (o : Option String) → Returns (probe_status deps.probe up o)
  unfolding probe_status
  probe_status-Returns true (some sid) = try_catch-Returns (deps.probe sid) _
  probe_status-Returns true none = Returns-pure _
  probe_status-Returns false o = Returns-pure _

  diagnose_all-Gives :
      (o : Observed) (scenarios : List ScenarioBinding) (desired : List DesiredCamera)
      → Gives
          (λ chains.
            map (λ (c : CameraChain). c.camera_id) chains
            ≡ map (λ (d : DesiredCamera). d.id) desired)
          (diagnose_all deps o scenarios desired)
  unfolding diagnose_all diagnose build_camera_chain chain_input
  diagnose_all-Gives o scenarios [] w = ([], w, refl, refl)
  diagnose_all-Gives o scenarios (camera ∷ cameras) w =
      let (status, w1, e) =
        probe_status-Returns (is_ok o.storage) (truthy (lookup camera.id o.streams)) w in
      let (chains, w2, f, same) = diagnose_all-Gives o scenarios cameras w1 in
      (
        build_camera_chain (chain_input o scenarios camera status) ∷ chains,
        w2,
        rw (e, f) refl,
        ap (λ l. camera.id ∷ l) same,
      )

  read_live-Returns : Returns deps.live_model → Returns (read_live deps)
  unfolding read_live soft
  read_live-Returns h =
      Returns-bind (soft "storage preflight failed: " unknown_storage deps.storage) _
        (try_catch-Returns _ _)
        λ (storage, w1).
          Returns-bind (soft "VST sensor list failed: " (λ e. ([], some e)) deps.sensors) _
            (try_catch-Returns _ _)
            λ (sensors, w2).
              Returns-bind (soft "alert-bridge rule list failed: " (λ e. ([], some e)) deps.rules) _
                (try_catch-Returns _ _)
                λ (rules, w3). Returns-bind deps.live_model _ h (λ live. Returns-pure _)

  -- Where reading the served model never throws, whatever else throws, the report is given and has a
  -- diagnosis of every desired camera, in their order.
  pub collect_complete :
      (desired : List DesiredCamera) (scenarios : List ScenarioBinding)
      → Returns deps.live_model
      → (w : W)
      → (r : CameraChainReport) × (w' : W) × (collect_camera_chains deps desired scenarios w
          ≡ (value r, w'))
        × (map (λ (c : CameraChain). c.camera_id) r.cameras
            ≡ map (λ (d : DesiredCamera). d.id) desired)
  unfolding collect_camera_chains
  collect_complete desired scenarios h w =
      let (o, w1, e) = read_live-Returns h w in
      let (chains, w2, f, same) = diagnose_all-Gives o scenarios desired w1 in
      (
        record {
          cameras = chains;
          storage = o.storage;
          checked_at = deps.checked_at;
          warnings = o.warnings;
        },
        w2,
        rw (e, f) refl,
        same,
      )
