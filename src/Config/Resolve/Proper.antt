-- ===== src/Config/Resolve/Proper.antt =====
-- src/config/resolve.rs: what holds of a config that `resolve` gives.
use Prim.Native.String.{String, len, ◌++◌ as append}
use text.Mathlib.Text.{starts_with}
use mathlib.Core.Path.{subst}
use kiss_tnc_bridge.Prelude.{
  ◌≤◌, Bool, true, false, not, ◌&&◌, ◌||◌, ◌==◌, List, [], ◌∷◌, ◌++◌, ◌≡◌, refl, ap, arith, Option,
  none, some, is_some, is_nil, All, All-append,
}
use kiss_tnc_bridge.Prelude.Results.{Result, ok, err}
use kiss_tnc_bridge.Config.Addresses.{AdapterSel}
use kiss_tnc_bridge.Config.Model.{Source, Adapter, Tnc, Spp, SerialDevice}
use kiss_tnc_bridge.Config.File.{AdapterDef, TncDef, SppDef, SerialDef, ConfigFile}
use kiss_tnc_bridge.Config.Text.{is_empty, all_chars, trim}
use kiss_tnc_bridge.Config.Values.{
  ValueError, check_id, is_id_char, default_serial_baud, parse_mac, is_hci_name,
}
use kiss_tnc_bridge.Config.Problem.{
  Message, wrong_value, wrong_setting, bad_channel, relative_path, zero_baud, empty_name,
  no_transport, Problem, problem_if,
}
use kiss_tnc_bridge.Config.Resolve.Tncs.{
  Checked, checked, or_else, is_success, resolve_adapter, add_adapter, adapters_of, over_files,
  is_channel, resolve_spp, resolve_ble, resolve_serial, section, resolve_tnc, tncs_of, adapter_of,
  no_mac, model_or,
}

-- An id of at most 15 lowercase letters, digits and dashes.
pub record ProperId (id : String) : Type 0 where
  pub there : is_empty id ≡ false
  pub short : len id ≤ 15
  pub plain : all_chars is_id_char id ≡ true

pub check_id-ProperId : (id what : String) → is_success (check_id id what) ≡ true → ProperId id
unfolding check_id is_success
check_id-ProperId id what e = record {
  there = ground (arith, e);
  short = ground (arith, e);
  plain = ground (arith, e);
}

pub nil_left : {A : Type 0} (xs ys : List A) → is_nil (xs ++ ys) ≡ true → is_nil xs ≡ true
nil_left [] ys e = refl
nil_left (x ∷ xs) ys e = e

pub nil_right : {A : Type 0} (xs ys : List A) → is_nil (xs ++ ys) ≡ true → is_nil ys ≡ true
nil_right [] ys e = e
nil_right (x ∷ xs) ys e = absurd (cc (e))

-- No problem, so the test failed.
pub unless :
    (found : Bool) (object : String) (m : Message)
    → is_nil (problem_if found object m) ≡ true
    → found ≡ false
unfolding problem_if
unless true object m e = absurd (cc (e))
unless false object m e = refl

pub checked-is_success :
    {A : Type 0} (r : Result ValueError A) (a : A) (object : String) (m : ValueError → Message)
    → is_nil (checked r a object m).problems ≡ true
    → is_success r ≡ true
unfolding checked is_success
checked-is_success (ok b) a object m e = refl
checked-is_success (err b) a object m e = absurd (cc (e))

pub record ProperTnc (t : Tnc) : Type 0 where
  pub id : ProperId t.id
  pub channel : (s : Spp) → t.spp ≡ some s → is_channel s.channel ≡ true
  pub path : (d : SerialDevice) → t.serial ≡ some d → starts_with d.path "/" ≡ true
  pub baud : (d : SerialDevice) → t.serial ≡ some d → 1 ≤ d.baud
  pub reachable : (is_some t.spp || is_some t.ble || is_some t.serial) ≡ true

pub some_eq : {A : Type 0} {a b : A} → some a ≡ some b → a ≡ b
unfolding or_else
some_eq {a} q = ap (or_else a) q

module _ {D A : Type 0} (P : A → Type 0) (f : D → Checked A)
    (h : (d : D) → is_nil (f d).problems ≡ true → P (f d).value) where
  section-value :
      (o : Option D)
      → is_nil (section f o).problems ≡ true
      → (a : A) → (section f o).value ≡ some a
      → P a
  unfolding section
  section-value none e a q = absurd (cc (q))
  section-value (some d) e a q = subst P (some_eq q) (h d e)

resolve_spp-channel :
    (object : String) (adapter : AdapterSel) (def : SppDef)
    → is_nil (resolve_spp object adapter def).problems ≡ true
    → is_channel (resolve_spp object adapter def).value.channel ≡ true
unfolding resolve_spp
resolve_spp-channel object adapter def e =
    let found = not (is_channel def.channel) in
    let u : found ≡ false = unless found object (bad_channel (or_else 0 def.channel)) (
      nil_right
        (checked (parse_mac def.address) no_mac object (wrong_setting "spp.address")).problems _
        e) in
    ground (arith, u)

resolve_serial-device :
    (object : String) (def : SerialDef)
    → is_nil (resolve_serial object def).problems ≡ true
    → (starts_with (resolve_serial object def).value.path "/" ≡ true)
      × (1 ≤ (resolve_serial object def).value.baud)
unfolding resolve_serial
resolve_serial-device object def e =
    let relative = not (starts_with def.path "/") in
    let zero = or_else default_serial_baud def.baud == 0 in
    let first = problem_if relative object (relative_path def.path) in
    let u : relative ≡ false =
      unless relative object (relative_path def.path) (nil_left first _ e) in
    let v : zero ≡ false =
      unless zero object zero_baud (nil_right first (problem_if zero object zero_baud) e) in
    (ground (arith, u), ground (arith, v))

nil_of_seven :
    {A : Type 0} (a b c d e f g : List A)
    → is_nil (a ++ b ++ c ++ d ++ e ++ f ++ g) ≡ true
    → (is_nil a ≡ true) × (is_nil d ≡ true) × (is_nil f ≡ true) × (is_nil g ≡ true)
nil_of_seven [] [] [] [] [] [] g h = (refl, refl, refl, h)
nil_of_seven [] [] [] [] [] (x ∷ f) g h = absurd (cc (h))
nil_of_seven [] [] [] [] (x ∷ e) f g h = absurd (cc (h))
nil_of_seven [] [] [] (x ∷ d) e f g h = absurd (cc (h))
nil_of_seven [] [] (x ∷ c) d e f g h = absurd (cc (h))
nil_of_seven [] (x ∷ b) c d e f g h = absurd (cc (h))
nil_of_seven (x ∷ a) b c d e f g h = absurd (cc (h))

resolve_tnc-ProperTnc :
    (def : TncDef) (source : Source) (a b : AdapterSel)
    → is_nil (resolve_tnc def source a b).problems ≡ true
    → ProperTnc (resolve_tnc def source a b).value
unfolding resolve_tnc
resolve_tnc-ProperTnc def source a b e =
    let object = append "tnc " def.id in
    let spp = section (resolve_spp object a) def.spp in
    let ble = section (resolve_ble object b) def.ble in
    let serial = section (resolve_serial object) def.serial in
    let cut = not (is_some spp.value) && not (is_some ble.value) && not (is_some serial.value) in
    let (e0, e1, e2, e3) =
      nil_of_seven (checked (check_id def.id "tnc") tt object wrong_value).problems
        (problem_if (is_empty (trim (or_else def.id def.name))) object empty_name)
        (model_or def.model object).problems spp.problems ble.problems serial.problems
        (problem_if cut object no_transport) e in
    let device =
      section-value (λ d. (starts_with d.path "/" ≡ true) × (1 ≤ d.baud)) (resolve_serial object)
        (resolve_serial-device object) def.serial e2 in
    let u : cut ≡ false = unless cut object no_transport e3 in
    record {
      id =
          check_id-ProperId def.id "tnc"
            (checked-is_success (check_id def.id "tnc") tt object wrong_value e0);
      channel =
          section-value (λ s. is_channel s.channel ≡ true) (resolve_spp object a)
            (resolve_spp-channel object a) def.spp e1;
      path = λ d q. (device d q).0;
      baud = λ d q. (device d q).1;
      reachable = ground (arith, u);
    }

pub tncs_of-ProperTnc :
    (adapters : List Adapter) (global : AdapterSel) (source : Source) (defs : List TncDef)
    → is_nil (tncs_of adapters global source defs).problems ≡ true
    → All ProperTnc (tncs_of adapters global source defs).value
unfolding tncs_of
tncs_of-ProperTnc adapters global source [] e = tt
tncs_of-ProperTnc adapters global source (def ∷ defs) e =
    let object = append "tnc " def.id in
    let spp = adapter_of adapters global source object (λ d. d.adapter) def.spp in
    let ble = adapter_of adapters global source object (λ d. d.adapter) def.ble in
    let tnc = resolve_tnc def source spp.value ble.value in
    let rest = tncs_of adapters global source defs in
    let front = spp.problems ++ ble.problems in
    (
      resolve_tnc-ProperTnc def source spp.value ble.value
          (nil_right front tnc.problems (nil_left (front ++ tnc.problems) rest.problems e)),
      tncs_of-ProperTnc adapters global source defs
          (nil_right (front ++ tnc.problems) rest.problems e),
    )

-- An adapter's id cannot be taken for a MAC or for the name of a device.
pub record ProperAdapter (id : String) : Type 0 where
  pub proper : ProperId id
  pub not_mac : is_success (parse_mac id) ≡ false
  pub not_hci : is_hci_name id ≡ false

resolve_adapter-ProperAdapter :
    (def : AdapterDef) (source : Source) (a : Adapter)
    → resolve_adapter def source ≡ ok a
    → ProperAdapter a.id
unfolding resolve_adapter is_success
resolve_adapter-ProperAdapter def source a e =
    let i : def.id ≡ a.id = ground (arith, e) in
    let s : is_success (check_id def.id "adapter") ≡ true = ground (arith, e) in
    let m : is_success (parse_mac def.id) ≡ false = ground (arith, e) in
    let h : is_hci_name def.id ≡ false = ground (arith, e) in
    subst ProperAdapter i
      (record { proper = check_id-ProperId def.id "adapter" s; not_mac = m; not_hci = h })

add_adapter-All :
    (P : Adapter → Type 0) (r : Result Problem Adapter) (rest : Checked (List Adapter))
    → ((a : Adapter) → r ≡ ok a → P a)
    → All P rest.value
    → All P (add_adapter r rest).value
unfolding add_adapter
add_adapter-All P (ok a) rest h k = (h a refl, k)
add_adapter-All P (err p) rest h k = k

pub adapters_of-ProperAdapter :
    (source : Source) (defs : List AdapterDef)
    → All (λ a. ProperAdapter a.id) (adapters_of source defs).value
unfolding adapters_of
adapters_of-ProperAdapter source [] = tt
adapters_of-ProperAdapter source (def ∷ defs) =
    add_adapter-All _ (resolve_adapter def source) (adapters_of source defs)
      (resolve_adapter-ProperAdapter def source) (adapters_of-ProperAdapter source defs)

-- What each file gives, all files give.
pub over_files-All :
    {A : Type 0} (P : A → Type 0) (f : Source → ConfigFile → Checked (List A))
    → ((source : Source) (file : ConfigFile)
        → is_nil (f source file).problems ≡ true
        → All P (f source file).value)
    → (files : List (Source × ConfigFile)) → is_nil (over_files f files).problems ≡ true
    → All P (over_files f files).value
unfolding over_files
over_files-All P f h [] e = tt
over_files-All P f h ((source, file) ∷ files) e =
    let here = f source file in
    let rest = over_files f files in
    All-append P here.value rest.value (h source file (nil_left here.problems rest.problems e))
      (over_files-All P f h files (nil_right here.problems rest.problems e))
