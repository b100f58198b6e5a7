-- ===== src/Execution.antt =====
-- internal/domain/execution/execution.go, with the engines of internal/domain/taurus/executor.go.
pub mod Targets
use honryu.Base.{
  ℕ, ◌+◌, Bool, true, false, ◌&&◌, ◌||◌, not, List, [], ◌∷◌, ◌++◌, Option, none, some, String,
  str_eq, if◌then◌else◌, is_empty, Result, ok, err, ltb, ◌==◌,
}
use honryu.Base.Ints.{ℤ, pos, nonpos}
use honryu.Base.Text.{Text, byte_length, trim_space, same_text}

pub data ExecutionError : Type 0 where
  name_required name_too_long project_required : ExecutionError
  engine_unknown kind_unknown : String → ExecutionError
  fan_out_target_duplicate : Text → ExecutionError

abbrev pub max_name_len : ℕ
max_name_len = 100

unfoldable pub kind_known : String → Bool
kind_known kind = str_eq kind "normal" || str_eq kind "calibrate_engine"

unfoldable pub engine_known : String → Bool
engine_known engine =
    str_eq engine "jmeter"
    || str_eq engine "gatling"
    || str_eq engine "locust"
    || str_eq engine "apiritif"
    || str_eq engine "ab"
    || str_eq engine "siege"
    || str_eq engine "k6"

pub record Execution : Type 0 where
  pub id : ℤ
  pub name : Text
  pub project_id : ℤ
  pub engine : String
  pub kind : String
  pub cpu : String
  pub memory : String
  pub cluster : Text
  pub fan_out_targets : List Text
  pub csv_split : Bool
  pub tenant_id : Option ℤ
  pub created_by : String
  pub updated_by : String

-- `_, dup := seen[t]`
unfoldable pub already_seen : Text → List Text → Bool
unfolding same_text
already_seen t [] = false
already_seen t (u ∷ seen) = same_text u t || already_seen t seen

-- The loop of `NormalizeFanOutTargets`.
unfoldable pub normalize_from :
    List Text → List Text → List Text → Result ExecutionError (List Text)
unfolding already_seen trim_space
normalize_from seen out [] = ok out
normalize_from seen out (target ∷ targets) =
    let t = trim_space target in
    elim (is_empty t) [
      | true ↦ normalize_from seen out targets
      | false ↦ elim (already_seen t seen) [
        | true ↦ err (fan_out_target_duplicate t)
        | false ↦ normalize_from (t ∷ seen) (out ++ t ∷ []) targets
      ]
    ]

unfoldable pub normalize_fan_out_targets : List Text → Result ExecutionError (List Text)
unfolding normalize_from
normalize_fan_out_targets targets = normalize_from [] [] targets

unfoldable pub validate : Execution → Option ExecutionError
unfolding normalize_fan_out_targets engine_known kind_known byte_length
validate c =
    if is_empty c.name
    then some name_required
    else if ltb max_name_len (byte_length c.name)
    then some name_too_long
    else if nonpos c.project_id
    then some project_required
    else if not (str_eq c.engine "") && not (engine_known c.engine)
    then some (engine_unknown c.engine)
    else if not (str_eq c.kind "") && not (kind_known c.kind)
    then some (kind_unknown c.kind)
    else elim (normalize_fan_out_targets c.fan_out_targets) [ ok _ ↦ none | err e ↦ some e ]

-- `New`, whose other fields are left at their zero values.
unfoldable pub new : Text → ℤ → Result ExecutionError Execution
unfolding validate trim_space
new name project_id =
    let c : Execution = record {
      id = pos 0;
      name = trim_space name;
      project_id = project_id;
      engine = "";
      kind = "normal";
      cpu = "";
      memory = "";
      cluster = [];
      fan_out_targets = [];
      csv_split = false;
      tenant_id = none;
      created_by = "";
      updated_by = "";
    } in
    elim (validate c) [ some e ↦ err e | none ↦ ok c ]

unfoldable pub is_fan_out : Execution → Bool
is_fan_out c = not (is_empty c.fan_out_targets)

unfoldable pub clusters : Execution → List Text
unfolding is_fan_out
clusters c = if is_fan_out c then c.fan_out_targets else c.cluster ∷ []
