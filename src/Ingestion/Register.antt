-- ===== src/Ingestion/Register.antt =====
-- The registration of a camera with VST and the arming of its recorder
-- (src/lib/helpers/vst-register.ts).
use Prim.Native.String.{◌++◌ as text_append}
use artesca_vss_console.Common.{
  String, Bool, true, false, Option, none, some, List, [], ◌∷◌, find?, Effect, pure, ◌>>=◌,
  try_catch, try_catch-Returns, truthy, is_text, Returns, Returns-bind, Returns-pure, if◌then◌else◌,
  if_rule,
}
use artesca_vss_console.Footage.{Registration, Registered, Answered, VstSensor, warned}
use artesca_vss_console.Footage.Stop.{warning_list}

-- What adding a sensor answers; without an identifier where the sensor was there already.
pub record Added : Type 0 where
  pub ok : Bool
  pub warning : Option String
  pub uuid : Option String

pub record VstDeps (W : Type 0) : Type 0 where
  pub add_sensor : Registration → Effect W Added
  pub start_stream : String → String → Effect W Answered
  pub vst_list_sensors : Effect W (List VstSensor)

abbrev either_id : Option String → Option String → Option String
either_id none other = other
either_id (some id) other = some id

abbrev uuid_in : Option VstSensor → Option String
uuid_in none = none
uuid_in (some s) = truthy (either_id s.stream_id s.sensor_uuid)

abbrev not_armed : String → String
not_armed name =
    text_append name
      ": VST returned no sensor UUID — recording not armed (camera is registered but will not record)"

abbrev with_uuid : Option String → List String → Registered
with_uuid uuid warnings = record { ok = true; uuid = uuid; warnings = warnings }

abbrev not_added : Option String → Registered
not_added warning = record { ok = false; uuid = none; warnings = warning_list warning }

module _ {W : Type 0} (deps : VstDeps W) where
  -- No identifier, and no throw, where the sensors cannot be listed.
  unfoldable pub resolve_sensor_uuid : String → Effect W (Option String)
  resolve_sensor_uuid name =
      try_catch
        (deps.vst_list_sensors >>= λ sensors.
          pure (uuid_in (find? (λ s. is_text s.sensor_id name) sensors)))
        (λ _. none)

  abbrev pub uuid_for : String → Option String → Effect W (Option String)
  uuid_for name (some uuid) = pure (some uuid)
  uuid_for name none = resolve_sensor_uuid name

  -- The recorder is armed with the identifier, never with the name.
  abbrev pub arm : Registration → Option String → Effect W Registered
  arm input none = pure (with_uuid none (not_armed input.name ∷ []))
  arm input (some uuid) = do
    stream ← deps.start_stream uuid input.rtsp_url
    pure (with_uuid (some uuid) (warning_list (warned stream)))

  abbrev pub arm_added : Registration → Added → Effect W Registered
  arm_added input added =
      if added.ok
      then uuid_for input.name added.uuid >>= (λ uuid. arm input (truthy uuid))
      else pure (not_added (truthy added.warning))

  unfoldable pub register_sensor_and_arm : Registration → Effect W Registered
  register_sensor_and_arm input = deps.add_sensor input >>= arm_added input

-- Adding a sensor and starting a stream answer with a warning in place of throwing.
pub record VstSoft {W : Type 0} (deps : VstDeps W) : Type 0 where
  pub add_sensor-Returns : (r : Registration) → Returns (deps.add_sensor r)
  pub start_stream-Returns : (uuid url : String) → Returns (deps.start_stream uuid url)

module _ {W : Type 0} {deps : VstDeps W} (soft : VstSoft deps) where
  uuid_for-Returns : (name : String) (o : Option String) → Returns (uuid_for deps name o)
  unfolding resolve_sensor_uuid
  uuid_for-Returns name (some uuid) = Returns-pure _
  uuid_for-Returns name none = try_catch-Returns _ _

  arm-Returns : (input : Registration) (o : Option String) → Returns (arm deps input o)
  arm-Returns input none = Returns-pure _
  arm-Returns input (some uuid) =
      Returns-bind (deps.start_stream uuid input.rtsp_url) _
        (soft.start_stream-Returns uuid input.rtsp_url) (λ stream. Returns-pure _)

  -- A registration never throws.
  pub register_sensor_and_arm-Returns :
      (input : Registration) → Returns (register_sensor_and_arm deps input)
  unfolding register_sensor_and_arm
  register_sensor_and_arm-Returns input =
      Returns-bind (deps.add_sensor input) _ (soft.add_sensor-Returns input) λ added.
        if_rule Returns added.ok
          (λ _.
            Returns-bind (uuid_for deps input.name added.uuid) _
              (uuid_for-Returns input.name added.uuid) (λ uuid. arm-Returns input (truthy uuid)))
          (λ _. Returns-pure _)
