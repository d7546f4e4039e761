-- ===== src/Config/Resolve/Tncs.antt =====
-- src/config/resolve.rs: adapters and TNCs of the effective config. A value comes with the problems
-- that were found on the way.
use Prim.Native.String.{String, ◌++◌ as append}
use text.Mathlib.Text.{◌==◌ as str_eq, starts_with}
use kiss_tnc_bridge.Prelude.{
  ℕ, Bool, true, false, not, ◌&&◌, ◌||◌, ◌==◌, List, [], ◌∷◌, ◌++◌, Option, none, some, leb,
  is_some, if◌then◌else◌,
}
use kiss_tnc_bridge.Prelude.Results.{Result, ok, err}
use kiss_tnc_bridge.Config.Addresses.{Mac, AdapterSel, default_adapter, mac, hci}
use kiss_tnc_bridge.Config.Model.{
  Source, static_file, dynamic, TncModel, generic, Adapter, Tnc, Spp, Ble, SerialDevice,
}
use kiss_tnc_bridge.Config.File.{AdapterDef, TncDef, SppDef, BleDef, SerialDef, ConfigFile}
use kiss_tnc_bridge.Config.Text.{is_empty, trim}
use kiss_tnc_bridge.Config.Values.{
  ValueError, id_value, mac_value, hci_value, parse_mac, is_hci_name, parse_adapter, check_id,
  parse_model, default_serial_baud,
}
use kiss_tnc_bridge.Config.Problem.{
  Message, wrong_value, wrong_setting, unknown_adapter, adapter_not_static, empty_name, bad_channel,
  relative_path, zero_baud, no_transport, reserved_id, Problem, problem_if,
}

pub record Checked (A : Type 0) : Type 0 where
  pub value : A
  pub problems : List Problem

unfoldable pub is_static : Source → Bool
is_static (static_file path) = true
is_static dynamic = false

unfoldable pub or_else : {A : Type 0} → A → Option A → A
or_else a none = a
or_else a (some b) = b

unfoldable pub is_success : {A : Type 0} → Result ValueError A → Bool
is_success (ok a) = true
is_success (err e) = false

-- The value, or `instead` of it and a problem.
unfoldable pub checked :
    {A : Type 0} → Result ValueError A → A → String → (ValueError → Message) → Checked A
checked (ok a) instead object message = record { value = a; problems = [] }
checked (err e) instead object message = record {
  value = instead;
  problems = record { object = object; message = message e } ∷ [];
}

unfoldable pub resolve_adapter : AdapterDef → Source → Result Problem Adapter
resolve_adapter def source =
    let object = append "adapter " def.id in
    elim (check_id def.id "adapter") [
      | err e ↦ err (record { object = object; message = wrong_value e })
      | ok t ↦
          if is_hci_name def.id || is_success (parse_mac def.id)
          then err (record { object = object; message = reserved_id })
          else elim (parse_mac def.mac) [
            | err e ↦ err (record { object = object; message = wrong_setting "mac" e })
            | ok m ↦ ok (record { id = def.id; mac = m; source = source })
          ]
    ]

unfoldable pub add_adapter :
    Result Problem Adapter → Checked (List Adapter) → Checked (List Adapter)
add_adapter (ok a) rest = record rest { value = a ∷ rest.value }
add_adapter (err p) rest = record rest { problems = p ∷ rest.problems }

unfoldable pub adapters_of : Source → List AdapterDef → Checked (List Adapter)
unfolding resolve_adapter add_adapter
adapters_of source [] = record { value = []; problems = [] }
adapters_of source (def ∷ defs) = add_adapter (resolve_adapter def source) (adapters_of source defs)

-- A loop over the files, each with what its definitions give.
unfoldable pub over_files :
    {A : Type 0}
    → (Source → ConfigFile → Checked (List A))
    → List (Source × ConfigFile)
    → Checked (List A)
over_files f [] = record { value = []; problems = [] }
over_files f ((source, file) ∷ files) =
    let here = f source file in
    let rest = over_files f files in
    record { value = here.value ++ rest.value; problems = here.problems ++ rest.problems }

-- `adapter_ids.get(id)`: the last adapter of that id.
unfoldable pub adapter_named : String → List Adapter → Option Adapter
adapter_named id [] = none
adapter_named id (a ∷ rest) = elim (adapter_named id rest) [
  | some b ↦ some b
  | none ↦ if str_eq a.id id then some a else none
]

module _ (adapters : List Adapter) where
  unfoldable pub resolve_adapter_value : String → Source → String → Checked AdapterSel
  unfolding parse_adapter adapter_named problem_if is_static
  resolve_adapter_value value source object = elim (parse_adapter value) [
    | mac_value m ↦ record { value = mac m; problems = [] }
    | hci_value h ↦ record { value = hci h; problems = [] }
    | id_value id ↦ elim (adapter_named id adapters) [
      | some a ↦ record {
        value = mac a.mac;
        problems =
            problem_if (is_static source && not (is_static a.source)) object
              (adapter_not_static id);
      }
      | none ↦ record {
        value = default_adapter;
        problems = problem_if true object (unknown_adapter id);
      }
    ]
  ]

  -- An adapter that may be left out.
  unfoldable pub adapter_or : AdapterSel → Option String → Source → String → Checked AdapterSel
  unfolding resolve_adapter_value
  adapter_or global none source object = record { value = global; problems = [] }
  adapter_or global (some value) source object = resolve_adapter_value value source object

unfoldable pub is_channel : Option ℕ → Bool
is_channel none = true
is_channel (some ch) = leb 1 ch && leb ch 30

abbrev pub no_mac : Mac
no_mac = record { octets = (0, 0, 0, 0, 0, 0) }

unfoldable pub resolve_spp : String → AdapterSel → SppDef → Checked Spp
unfolding checked parse_mac problem_if is_channel
resolve_spp object adapter def =
    let address = checked (parse_mac def.address) no_mac object (wrong_setting "spp.address") in
    record {
      value = record { address = address.value; adapter = adapter; channel = def.channel };
      problems =
          address.problems
          ++ problem_if (not (is_channel def.channel)) object (bad_channel (or_else 0 def.channel));
    }

unfoldable pub resolve_ble : String → AdapterSel → BleDef → Checked Ble
unfolding checked parse_mac
resolve_ble object adapter def =
    let address = checked (parse_mac def.address) no_mac object (wrong_setting "ble.address") in
    record {
      value = record { address = address.value; adapter = adapter };
      problems = address.problems;
    }

unfoldable pub resolve_serial : String → SerialDef → Checked SerialDevice
unfolding problem_if or_else
resolve_serial object def =
    let baud = or_else default_serial_baud def.baud in
    record {
      value = record { path = def.path; baud = baud };
      problems =
          problem_if (not (starts_with def.path "/")) object (relative_path def.path)
          ++ problem_if (baud == 0) object zero_baud;
    }

-- A section that may be left out.
unfoldable pub section : {D A : Type 0} → (D → Checked A) → Option D → Checked (Option A)
section f none = record { value = none; problems = [] }
section f (some def) = record { value = some (f def).value; problems = (f def).problems }

unfoldable pub model_or : Option String → String → Checked TncModel
unfolding checked parse_model
model_or none object = record { value = generic; problems = [] }
model_or (some s) object = checked (parse_model s) generic object wrong_value

unfoldable pub resolve_tnc : TncDef → Source → AdapterSel → AdapterSel → Checked Tnc
unfolding checked check_id or_else is_empty trim problem_if model_or section resolve_spp resolve_ble
    resolve_serial
resolve_tnc def source spp_adapter ble_adapter =
    let object = append "tnc " def.id in
    let name = or_else def.id def.name in
    let model = model_or def.model object in
    let spp = section (resolve_spp object spp_adapter) def.spp in
    let ble = section (resolve_ble object ble_adapter) def.ble in
    let serial = section (resolve_serial object) def.serial in
    record {
      value = record {
        id = def.id;
        name = name;
        model = model.value;
        spp = spp.value;
        ble = ble.value;
        serial = serial.value;
        source = source;
      };
      problems =
          (checked (check_id def.id "tnc") tt object wrong_value).problems
          ++ problem_if (is_empty (trim name)) object empty_name
          ++ model.problems
          ++ spp.problems
          ++ ble.problems
          ++ serial.problems
          ++ problem_if
              (not (is_some spp.value) && not (is_some ble.value) && not (is_some serial.value))
              object no_transport;
    }

unfoldable pub adapter_of :
    {D : Type 0}
    → List Adapter
    → AdapterSel
    → Source
    → String
    → (D → Option String)
    → Option D
    → Checked AdapterSel
unfolding adapter_or
adapter_of adapters global source object adapter none = record {
  value = default_adapter;
  problems = [];
}
adapter_of adapters global source object adapter (some def) =
    adapter_or adapters global (adapter def) source object

unfoldable pub tncs_of : List Adapter → AdapterSel → Source → List TncDef → Checked (List Tnc)
unfolding adapter_of resolve_tnc
tncs_of adapters global source [] = record { value = []; problems = [] }
tncs_of adapters global source (def ∷ defs) =
    let object = append "tnc " def.id in
    let spp = adapter_of adapters global source object (λ d. d.adapter) def.spp in
    let ble = adapter_of adapters global source object (λ d. d.adapter) def.ble in
    let tnc = resolve_tnc def source spp.value ble.value in
    let rest = tncs_of adapters global source defs in
    record {
      value = tnc.value ∷ rest.value;
      problems = spp.problems ++ ble.problems ++ tnc.problems ++ rest.problems;
    }
