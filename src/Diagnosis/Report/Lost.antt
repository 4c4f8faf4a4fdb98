-- ===== src/Diagnosis/Report/Lost.antt =====
-- What the report says where the sensors cannot be listed.
use artesca_vss_console.Common.{String, true, Option, List, [], any, ◌≡◌}
use artesca_vss_console.Diagnosis.{CameraChain, is_fail}
use artesca_vss_console.Diagnosis.Report.{ReportDeps, ListedSensor, Observed}

abbrev pub HasFailure : CameraChain → Type 0
HasFailure c = any is_fail c.steps ≡ true

module _ {W : Type 0} (deps : ReportDeps W) where
  abbrev NoStreams : Observed → W → Type 0
  NoStreams o w = o.streams ≡ []

  abbrev NoSensors : (List ListedSensor × Option String) × List String → W → Type 0
  NoSensors r w = r.0.0 ≡ []
