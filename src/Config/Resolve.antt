-- ===== src/Config/Resolve.antt =====
-- src/config/resolve.rs: `resolve`, from the files to the effective config.
pub mod Tncs
pub mod Ports
pub mod Proper
pub mod References
pub mod Sound
use Prim.Native.String.{String, ◌++◌ as append}
use kiss_tnc_bridge.Prelude.{
  Bool, true, false, not, List, [], ◌∷◌, ◌++◌, Option, none, some, is_nil, if◌then◌else◌,
}
use kiss_tnc_bridge.Prelude.Results.{Result, ok, err}
use kiss_tnc_bridge.Config.Settings.{AppParams, pass_params}
use kiss_tnc_bridge.Config.Addresses.{AdapterSel, default_adapter}
use kiss_tnc_bridge.Config.Model.{Source, Adapter, Tnc, Bridge, Config}
use kiss_tnc_bridge.Config.File.{BridgeDef, GlobalSection, ControlSection, ConfigFile}
use kiss_tnc_bridge.Config.Text.{is_empty, trim}
use kiss_tnc_bridge.Config.Values.{Parsers, check_id, default_log_level, default_control_group}
use kiss_tnc_bridge.Config.Problem.{
  Message, wrong_value, no_bridge_id, empty_name, empty_public_name, Problem, problem_if,
}
use kiss_tnc_bridge.Config.Resolve.Tncs.{
  Checked, checked, or_else, adapters_of, tncs_of, over_files, resolve_adapter_value,
}
use kiss_tnc_bridge.Config.Resolve.Ports.{ports_of}

-- The sections of the main file; a later file's setting takes the place of an earlier one's.
unfoldable pub setting : {A B : Type 0} → Option A → (A → Option B) → Option B
setting none get = none
setting (some section) get = get section

unfoldable pub last_of :
    {A : Type 0} → (Source × ConfigFile → Option A) → List (Source × ConfigFile) → Option A
last_of get [] = none
last_of get (f ∷ files) = elim (last_of get files) [ some a ↦ some a | none ↦ get f ]

unfoldable pub log_level_of : List (Source × ConfigFile) → String
unfolding or_else last_of setting
log_level_of files =
    or_else default_log_level (last_of (λ f. setting f.1.global (λ g. g.log_level)) files)

unfoldable pub control_group_of : List (Source × ConfigFile) → String
unfolding or_else last_of setting
control_group_of files =
    or_else default_control_group (last_of (λ f. setting f.1.control (λ c. c.group)) files)

unfoldable pub with_source : Source → Option String → Option (Source × String)
with_source source none = none
with_source source (some a) = some (source, a)

unfoldable pub global_adapter_of : List Adapter → List (Source × ConfigFile) → Checked AdapterSel
unfolding last_of setting with_source resolve_adapter_value
global_adapter_of adapters files =
    elim (last_of (λ f. with_source f.0 (setting f.1.global (λ g. g.adapter))) files) [
      | some (source, value) ↦ resolve_adapter_value adapters value source "[global] adapter"
      | none ↦ record { value = default_adapter; problems = [] }
    ]

unfoldable pub is_blank : Option String → Bool
unfolding is_empty trim
is_blank none = false
is_blank (some s) = is_empty (trim s)

module _ {N : Type 0} (p : Parsers N) (adapters : List Adapter) (global : AdapterSel)
    (tncs : List Tnc) where
  unfoldable pub resolve_bridge : BridgeDef → Source → String → Checked (Bridge N)
  unfolding checked check_id problem_if is_blank or_else ports_of
  resolve_bridge def source id =
      let object = append "bridge " id in
      let ports = ports_of p adapters global tncs source object [] def.ports in
      record {
        value = record {
          id = id;
          name = def.name;
          public_name = or_else def.name def.public_name;
          enabled = or_else true def.enabled;
          enabled_override = none;
          app_params = or_else pass_params def.app_params;
          ports = ports.value;
          source = source;
        };
        problems =
            (checked (check_id id "bridge") tt object wrong_value).problems
            ++ problem_if (is_blank (some def.name)) object empty_name
            ++ problem_if (is_blank def.public_name) object empty_public_name
            ++ ports.problems;
      }

  -- A definition with no id is left out; its name is shown without the quotes of `{:?}`.
  unfoldable pub add_bridge :
      BridgeDef → Source → Option String → Checked (List (Bridge N)) → Checked (List (Bridge N))
  unfolding resolve_bridge
  add_bridge def source none rest = record rest {
    problems =
        record { object = append "bridge " def.name; message = no_bridge_id } ∷ rest.problems;
  }
  add_bridge def source (some id) rest =
      let bridge = resolve_bridge def source id in
      record { value = bridge.value ∷ rest.value; problems = bridge.problems ++ rest.problems }

  unfoldable pub bridges_of : Source → List BridgeDef → Checked (List (Bridge N))
  unfolding add_bridge
  bridges_of source [] = record { value = []; problems = [] }
  bridges_of source (def ∷ defs) = add_bridge def source def.id (bridges_of source defs)

unfoldable pub resolve :
    {N : Type 0} → Parsers N → List (Source × ConfigFile) → Result (List Problem) (Config N)
unfolding over_files adapters_of global_adapter_of tncs_of bridges_of log_level_of control_group_of
resolve p files =
    let adapters = over_files (λ source file. adapters_of source file.adapter) files in
    let global = global_adapter_of adapters.value files in
    let tncs =
      over_files (λ source file. tncs_of adapters.value global.value source file.tnc) files in
    let bridges =
      over_files
        (λ source file. bridges_of p adapters.value global.value tncs.value source file.bridge)
        files in
    let problems = adapters.problems ++ global.problems ++ tncs.problems ++ bridges.problems in
    if is_nil problems
    then ok (record {
      global = record { log_level = log_level_of files; adapter = global.value };
      control = record { group = control_group_of files };
      adapters = adapters.value;
      tncs = tncs.value;
      bridges = bridges.value;
    })
    else err problems
