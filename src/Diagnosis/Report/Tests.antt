-- ===== src/Diagnosis/Report/Tests.antt =====
-- A report on two cameras, where the sensors cannot be listed.
use artesca_vss_console.Common.{
  ℕ, ◌+◌, none, some, List, [], ◌∷◌, map, ◌≡◌, refl, value, OnValue, pure, throw, Returns-pure,
}
use artesca_vss_console.Common.Maps.{lookup, insert}
use artesca_vss_console.Recovery.{RecordingStatus}
use artesca_vss_console.Diagnosis.{DesiredCamera, CameraChain}
use artesca_vss_console.Diagnosis.Report.{
  ok, CameraChainReport, ReportDeps, Observed, soft, by_name_from, add_named, read_live,
  collect_camera_chains,
}
use artesca_vss_console.Diagnosis.Report.Complete.{collect_complete}

-- The state counts the probes.
abbrev probing : ReportDeps ℕ
probing = record {
  storage = pure (record { state = ok; reason = none });
  sensors = pure (
    record { name = some "gate"; sensor_id = none; stream_id = some "a" }
        ∷ record { name = none; sensor_id = some "door"; stream_id = none }
        ∷ record { name = some "gate"; sensor_id = none; stream_id = some "b" }
        ∷ [],
    none,
  );
  rules = throw "gone";
  live_model = pure none;
  probe = λ sid n. (value RecordingStatus.recording, n + 1);
  checked_at = "now";
}

abbrev blind : ReportDeps ℕ
blind = record probing { sensors = throw "HTTP 502" }

abbrev desired : List DesiredCamera
desired =
    record { id = "gate"; rtsp_url = some "rtsp://gate" }
    ∷ record { id = "door"; rtsp_url = none }
    ∷ []

-- The first sensor of a name counts.
observed_streams :
    OnValue
      (λ (o : Observed) n. o.streams ≡ ("gate", "a") ∷ ("door", "") ∷ [])
      (read_live probing 0)
unfolding read_live soft by_name_from add_named lookup insert
observed_streams = refl

observed_warnings :
    OnValue
      (λ (o : Observed) n.
        o.warnings
        ≡ "alert-bridge rule list failed: gone" ∷ "gone"
          ∷ "VLM model list unreadable — model drift not checked" ∷ [])
      (read_live probing 0)
unfolding read_live soft by_name_from add_named lookup insert
observed_warnings = refl

collect_complete_example :
    (r : CameraChainReport) × (n : ℕ) × (collect_camera_chains blind desired [] 0 ≡ (value r, n))
    × (map (λ (c : CameraChain). c.camera_id) r.cameras ≡ "gate" ∷ "door" ∷ [])
collect_complete_example = collect_complete blind desired [] (Returns-pure none) 0
