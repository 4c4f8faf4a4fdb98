-- ===== src/Ingestion.antt =====
-- VLM ingestion: the live rules of a camera and its entry of the rules document, as data
-- (src/lib/helpers/ingestion.ts). The alert bridge, VST, the ConfigMap and the VLM's list of models are
-- the record below; the types of the document and of the answers are those of Footage.
pub mod Switch
pub mod Soft
pub mod Rules
pub mod Suspended
pub mod Register
pub mod Wired
mod Tests
use Prim.Native.String.{◌++◌ as text_append}
use artesca_vss_console.Common.{
  ℕ, String, Bool, true, false, not, ◌&&◌, Option, none, some, List, [], ◌∷◌, ◌++◌, filter, find?,
  any, Effect, Try, value, thrown, pure, ◌>>=◌, ◌>>◌, try_catch, get_or, truthy, is_text, is_some,
  if◌then◌else◌, ◌==◌, add,
}
use artesca_vss_console.Common.Texts.{join}
use artesca_vss_console.Footage.{
  Answered, Ingestion, RuleEntry, RulesDoc, Sampling, VstSensor, warned,
}
use artesca_vss_console.Footage.Stop.{warning_list}

-- A live rule; the fields that are read.
pub record LiveRule : Type 0 where
  pub id : Option String
  pub sensor_name : Option String

-- The request that creates a live rule.
pub record NewRule : Type 0 where
  pub stream_url : String
  pub alert_type : String
  pub prompt : String
  pub sensor_name : String
  pub sensor_id : Option String
  pub system_prompt : Option String
  pub model : Option String
  pub sampling : Option Sampling

-- What the VLM's server answers when it is asked for its models: the first identifier, where there is
-- one and it is a text.
pub record ModelAnswer : Type 0 where
  pub ok : Bool
  pub first_id : Option String

pub record IngestionDeps (W : Type 0) : Type 0 where
  pub list_realtime_rules : Effect W (List LiveRule × Option String)
  pub add_realtime_rule : NewRule → Effect W Answered
  pub delete_realtime_rule : String → Effect W Answered
  pub vst_list_sensors : Effect W (List VstSensor)
  pub read_rules : Effect W (RulesDoc × Option String)
  pub patch_rules : RulesDoc → Option String → Effect W Unit
  pub fetch_models : Effect W ModelAnswer

abbrev pub model_of : ModelAnswer → Option String
model_of a = if a.ok then truthy a.first_id else none

abbrev with_name : Option String → List String → List String
with_name none names = names
with_name (some name) names = add names name

-- The sensor names of the rules, as a set.
pub names_from : List String → List LiveRule → List String
names_from names [] = names
names_from names (r ∷ rs) = names_from (with_name (truthy r.sensor_name) names) rs

-- The identifiers of a camera's live rules; a rule without one is passed over.
abbrev pub id_if : Bool → Option String → List String → List String
id_if true (some id) ids = id ∷ ids
id_if true none ids = ids
id_if false o ids = ids

pub rule_ids : String → List LiveRule → List String
rule_ids camera [] = []
rule_ids camera (r ∷ rs) = id_if (is_text r.sensor_name camera) (truthy r.id) (rule_ids camera rs)

abbrev pub failed : String → Answered
failed warning = record { ok = false; warning = some warning }

-- `warnings.length ? { ok: false, warning } : { ok: true }`
abbrev pub answer_from : List String → Answered
answer_from [] = record { ok = true; warning = none }
answer_from (w ∷ ws) = failed (join "; " (w ∷ ws))

-- What the ConfigMap says of a camera; nothing where it cannot be read.
pub record RuleSpec : Type 0 where
  pub doc : Option RulesDoc
  pub rule : Option RuleEntry
  pub resource_version : Option String

abbrev pub is_entry_of : String → RuleEntry → Bool
is_entry_of camera r = is_text r.sensor camera

abbrev pub no_spec : RuleSpec
no_spec = record { doc = none; rule = none; resource_version = none }

abbrev pub spec_of : String → RulesDoc → Option String → RuleSpec
spec_of camera doc version = record {
  doc = some doc;
  rule = find? (is_entry_of camera) (get_or doc.rules []);
  resource_version = version;
}

abbrev pub without_camera : String → RulesDoc → RulesDoc
without_camera camera doc = record doc {
  rules = some (filter (λ r. not (is_entry_of camera r)) (get_or doc.rules []));
}

abbrev pub with_rules : RulesDoc → List RuleEntry → RulesDoc
with_rules doc rules = record doc { rules = some rules }

-- The first entry of the camera says what was armed.
abbrev pub armed_entry : NewRule → RuleEntry → RuleEntry
armed_entry n r = record r {
  alert_type = some n.alert_type;
  prompt = some n.prompt;
  stream_url = some n.stream_url;
}

pub update_first : String → NewRule → List RuleEntry → List RuleEntry
update_first camera n [] = []
update_first camera n (r ∷ rs) =
    let rest = update_first camera n rs in
    if is_entry_of camera r then armed_entry n r ∷ rs else r ∷ rest

abbrev pub new_entry : NewRule → RuleEntry
new_entry n = record {
  sensor = some n.sensor_name;
  alert_type = some n.alert_type;
  prompt = some n.prompt;
  stream_url = some n.stream_url;
}

abbrev pub says : NewRule → RuleEntry → Bool
says n r = is_text r.alert_type n.alert_type && is_text r.prompt n.prompt

abbrev pub url_from : Option RuleEntry → Option String
url_from none = none
url_from (some r) = truthy r.stream_url

abbrev pub url_or : Option String → Option String → Option String
url_or none given = truthy given
url_or (some url) given = some url

abbrev type_from : Option RuleEntry → Option String
type_from none = none
type_from (some r) = r.alert_type

abbrev prompt_from : Option RuleEntry → Option String
prompt_from none = none
prompt_from (some r) = r.prompt

abbrev model_from : Option RulesDoc → Option String
model_from none = none
model_from (some doc) = doc.model

abbrev system_from : Option RulesDoc → Option String
system_from none = none
system_from (some doc) = doc.system_prompt

abbrev sampling_from : Option RulesDoc → Option Sampling
sampling_from none = none
sampling_from (some doc) = some doc.sampling

abbrev or_option : Option String → Option String → Option String
or_option none d = d
or_option (some a) d = some a

-- The request: the override wins over the recorded entry, and the served model over the recorded one.
pub rule_for : Ingestion → RuleSpec → String → Option String → Option String → NewRule
rule_for i spec url sensor_id live = record {
  stream_url = url;
  alert_type = get_or i.alert_type (get_or (type_from spec.rule) "general-activity");
  prompt =
      get_or i.prompt
        (get_or (prompt_from spec.rule) "Alert on any notable or anomalous activity.");
  sensor_name = i.camera;
  sensor_id = sensor_id;
  system_prompt = system_from spec.doc;
  model = or_option live (model_from spec.doc);
  sampling = sampling_from spec.doc;
}

abbrev pub no_url : String → String
no_url camera =
    text_append (text_append "no stream URL for " camera)
      " (not in realtime-alert-rules CM and no rtspUrl)"

abbrev pub stream_of : Option VstSensor → Option String
stream_of none = none
stream_of (some s) = s.stream_id
