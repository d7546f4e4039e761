-- ===== src/Config/Resolve/Sound.antt =====
-- src/config/resolve.rs: `resolve` gives a config, or problems, and what holds of the config.
use Prim.Native.String.{String, ◌++◌ as append}
use kiss_tnc_bridge.Prelude.{
  true, false, List, [], ◌∷◌, ◌++◌, ◌≡◌, ◌≢◌, refl, sym, ap, Option, none, some, is_nil, All,
  if◌then◌else◌,
}
use kiss_tnc_bridge.Prelude.Results.{Result, ok, err}
use kiss_tnc_bridge.Config.Addresses.{AdapterSel}
use kiss_tnc_bridge.Config.Model.{Source, Adapter, Tnc, Bridge, Config}
use kiss_tnc_bridge.Config.File.{BridgeDef, ConfigFile}
use kiss_tnc_bridge.Config.Values.{Parsers, check_id}
use kiss_tnc_bridge.Config.Problem.{Problem, problem_if, wrong_value, empty_name, empty_public_name}
use kiss_tnc_bridge.Config.Resolve.{
  is_blank, resolve_bridge, add_bridge, bridges_of, global_adapter_of, resolve,
}
use kiss_tnc_bridge.Config.Resolve.Tncs.{
  Checked, checked, or_else, adapters_of, tncs_of, over_files,
}
use kiss_tnc_bridge.Config.Resolve.Ports.{ports_of}
use kiss_tnc_bridge.Config.Resolve.Proper.{
  ProperId, ProperAdapter, ProperTnc, check_id-ProperId, checked-is_success, nil_left, nil_right,
  unless, adapters_of-ProperAdapter, tncs_of-ProperTnc, over_files-All,
}
use kiss_tnc_bridge.Config.Resolve.References.{ProperPort, ports_of-ProperPort}

-- A bridge with an id and names that are not blank, and with ports that can be opened.
pub record ProperBridge {N : Type 0} (tncs : List Tnc) (b : Bridge N) : Type 0 where
  pub id : ProperId b.id
  pub named : is_blank (some b.name) ≡ false
  pub announced : is_blank (some b.public_name) ≡ false
  pub ports : All (ProperPort tncs) b.ports

pub record Proper {N : Type 0} (c : Config N) : Type 0 where
  pub adapters : All (λ a. ProperAdapter a.id) c.adapters
  pub tncs : All ProperTnc c.tncs
  pub bridges : All (ProperBridge c.tncs) c.bridges

announced_as :
    (name : String) (public : Option String)
    → is_blank (some name) ≡ false
    → is_blank public ≡ false
    → is_blank (some (or_else name public)) ≡ false
unfolding or_else
announced_as name none e f = e
announced_as name (some s) e f = f

module _ {N : Type 0} (p : Parsers N) (adapters : List Adapter) (global : AdapterSel)
    (tncs : List Tnc) where
  resolve_bridge-ProperBridge :
      (def : BridgeDef) (source : Source) (id : String)
      → is_nil (resolve_bridge p adapters global tncs def source id).problems ≡ true
      → ProperBridge tncs (resolve_bridge p adapters global tncs def source id).value
  unfolding resolve_bridge
  resolve_bridge-ProperBridge def source id e =
      let object = append "bridge " id in
      let a = (checked (check_id id "bridge") tt object wrong_value).problems in
      let b = problem_if (is_blank (some def.name)) object empty_name in
      let c = problem_if (is_blank def.public_name) object empty_public_name in
      let d = (ports_of p adapters global tncs source object [] def.ports).problems in
      let e3 = nil_left (a ++ b ++ c) d e in
      let e2 = nil_left (a ++ b) c e3 in
      let named = unless (is_blank (some def.name)) object empty_name (nil_right a b e2) in
      record {
        id =
            check_id-ProperId id "bridge"
              (checked-is_success (check_id id "bridge") tt object wrong_value (nil_left a b e2));
        named = named;
        announced =
            announced_as def.name def.public_name named (
              unless (is_blank def.public_name) object empty_public_name (nil_right (a ++ b) c e3));
        ports =
            ports_of-ProperPort p adapters global tncs source object [] def.ports
              (nil_right (a ++ b ++ c) d e);
      }

  add_bridge-All :
      (def : BridgeDef) (source : Source) (id : Option String) (rest : Checked (List (Bridge N)))
      → is_nil (add_bridge p adapters global tncs def source id rest).problems ≡ true
      → (is_nil rest.problems ≡ true → All (ProperBridge tncs) rest.value)
      → All (ProperBridge tncs) (add_bridge p adapters global tncs def source id rest).value
  unfolding add_bridge
  add_bridge-All def source none rest e h = absurd (cc (e))
  add_bridge-All def source (some id) rest e h =
      let bridge = resolve_bridge p adapters global tncs def source id in
      (
        resolve_bridge-ProperBridge def source id (nil_left bridge.problems rest.problems e),
        h (nil_right bridge.problems rest.problems e),
      )

  bridges_of-ProperBridge :
      (source : Source) (defs : List BridgeDef)
      → is_nil (bridges_of p adapters global tncs source defs).problems ≡ true
      → All (ProperBridge tncs) (bridges_of p adapters global tncs source defs).value
  unfolding bridges_of
  bridges_of-ProperBridge source [] e = tt
  bridges_of-ProperBridge source (def ∷ defs) e =
      add_bridge-All def source def.id (bridges_of p adapters global tncs source defs) e
        (bridges_of-ProperBridge source defs)

true_ne : true ≢ false
true_ne q = cc (q)

-- Problems, at least one, or a proper config.
abbrev pub Outcome : {N : Type 0} → Result (List Problem) (Config N) → Type 0
Outcome (ok c) = Proper c
Outcome (err ps) = ps ≢ []

either_way :
    {N : Type 0} (ps : List Problem) (c : Config N)
    → (is_nil ps ≡ true → Proper c)
    → Outcome (if is_nil ps then ok c else err ps)
either_way [] c h = h refl
either_way (x ∷ ps) c h = λ e. true_ne (sym (ap is_nil e))

module _ {N : Type 0} (p : Parsers N) (files : List (Source × ConfigFile)) where
  -- Whatever the files hold, and whatever the parsers of addresses give: `resolve` gives at least one
  -- problem, or a config that has only ids of at most 15 lowercase letters, digits and dashes, adapter
  -- ids that are neither MACs nor hciN names, TNCs that can be reached in one way at least, with RFCOMM
  -- channels from 1 to 30, absolute device paths and baud rates above 0, bridges whose names are not
  -- blank, servers that admit a client, and TNC ports that take their settings from a defined TNC.
  pub resolve-Outcome : Outcome (resolve p files)
  unfolding resolve
  resolve-Outcome =
      let adapters = over_files (λ source file. adapters_of source file.adapter) files in
      let global = global_adapter_of adapters.value files in
      let tncs_in = λ (source : Source) (file : ConfigFile).
        tncs_of adapters.value global.value source file.tnc in
      let tncs = over_files tncs_in files in
      let bridges_in = λ (source : Source) (file : ConfigFile).
        bridges_of p adapters.value global.value tncs.value source file.bridge in
      let bridges = over_files bridges_in files in
      let first = adapters.problems ++ global.problems in
      either_way (first ++ tncs.problems ++ bridges.problems) _ (λ n.
        let front = nil_left (first ++ tncs.problems) bridges.problems n in
        record {
          adapters =
              over_files-All (λ a. ProperAdapter a.id)
                (λ source file. adapters_of source file.adapter)
                (λ source file q. adapters_of-ProperAdapter source file.adapter) files
                (nil_left adapters.problems global.problems (nil_left first tncs.problems front));
          tncs =
              over_files-All ProperTnc tncs_in
                (λ source file q. tncs_of-ProperTnc adapters.value global.value source file.tnc q)
                files (nil_right first tncs.problems front);
          bridges =
              over_files-All (ProperBridge tncs.value) bridges_in
                (λ source file q.
                  bridges_of-ProperBridge p adapters.value global.value tncs.value source
                    file.bridge q)
                files (nil_right (first ++ tncs.problems) bridges.problems n);
        })
