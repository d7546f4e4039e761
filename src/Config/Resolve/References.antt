-- ===== src/Config/Resolve/References.antt =====
-- src/config/resolve.rs: the ports of a config that `resolve` gives, and what they refer to.
use Prim.Native.String.{String, ◌++◌ as append}
use text.Mathlib.Text.{◌==◌ as str_eq}
use text.Mathlib.TextEquality.{eq_iff}
use mathlib.Core.Path.{subst}
use mathlib.Core.Option as Option
use kiss_tnc_bridge.Prelude.{
  ℕ, ◌≤◌, true, false, ◌==◌, List, [], ◌∷◌, ◌++◌, ◌≡◌, ◌≢◌, refl, sym, ap, ◌∙◌, arith, Option, none,
  some, is_nil, All, Bool-cases, Option-cases, inl, inr, if◌then◌else◌,
}
use kiss_tnc_bridge.Config.Addresses.{AdapterSel, addr, v4}
use kiss_tnc_bridge.Config.Model.{
  Source, Adapter, Tnc, TncPort, Port, PortKind, tcp_client, tcp_server, ble_server, spp_client,
  ble_client, serial,
}
use kiss_tnc_bridge.Config.File.{
  TncPortDef, TcpServerDef, BleServerDef, KindDef, tcp_client_def, tcp_server_def, ble_server_def,
  spp_client_def, ble_client_def, serial_def, PortDef, def_type_name,
}
use kiss_tnc_bridge.Config.Values.{Parsers, check_id, parse_listen, default_ble_max_clients}
use kiss_tnc_bridge.Config.Problem.{
  wrong_value, wrong_setting, no_clients, no_clients_or_none, problem_if,
}
use kiss_tnc_bridge.Config.Resolve.Tncs.{Checked, checked, or_else, adapter_or}
use kiss_tnc_bridge.Config.Resolve.Ports.{
  reached, pair_with, port_from, find_tnc, resolve_tnc_port, is_zero, resolve_tcp_server,
  resolve_ble_server, networks, kept, kind_if, resolve_kind, add_port, port_id, ports_of,
}
use kiss_tnc_bridge.Config.Resolve.Proper.{
  ProperId, check_id-ProperId, checked-is_success, nil_left, nil_right, unless, some_eq,
}

-- The port's TNC is defined, and is reached and set up as the port says.
pub record Uses {T : Type 0} (tncs : List Tnc) (reach : Tnc → Option T) (k : TncPort T)
    : Type 0 where
  pub tnc : Tnc
  pub found : find_tnc k.tnc tncs ≡ some tnc
  pub reached_by : reach tnc ≡ some k.reach
  pub model : tnc.model ≡ k.model

-- A port with room for a client, or for a TNC that is defined.
abbrev pub ProperKind : {N : Type 0} → List Tnc → PortKind N → Type 0
ProperKind tncs (tcp_client k) = Unit {0}
ProperKind tncs (tcp_server k) = k.max_clients ≢ some 0
ProperKind tncs (ble_server k) = 1 ≤ k.max_clients
ProperKind tncs (spp_client k) = Uses tncs (λ t. t.spp) k
ProperKind tncs (ble_client k) = Uses tncs (λ t. t.ble) k
ProperKind tncs (serial k) = Uses tncs (λ t. t.serial) k

pub record ProperPort {N : Type 0} (tncs : List Tnc) (p : Port N) : Type 0 where
  pub id : ProperId p.id
  pub kind : ProperKind tncs p.kind

find_tnc-id : (id : String) (tncs : List Tnc) (t : Tnc) → find_tnc id tncs ≡ some t → t.id ≡ id
unfolding find_tnc
find_tnc-id id [] t e = absurd (cc (e))
find_tnc-id id (u ∷ tncs) t e = elim (Bool-cases (str_eq u.id id)) [
  | inl f ↦
      let same : some u ≡ some t = (λ i. if sym f i then some u else find_tnc id tncs) ∙ e in
      sym (ap (λ v. v.id) (some_eq same)) ∙ (eq_iff u.id id).0 f
  | inr f ↦ find_tnc-id id tncs t ((λ i. if sym f i then some u else find_tnc id tncs) ∙ e)
]

none_some : {A : Type 0} {a : A} → ◌≢◌ {A = Option A} none (some a)
none_some e = cc (e)

module _ {T : Type 0} (tncs : List Tnc) (reach : Tnc → Option T) (def : TncPortDef) where
  found-Uses :
      (idle_timeout : ℕ) (found : Option Tnc) (k : TncPort T)
      → find_tnc def.tnc tncs ≡ found
      → port_from def idle_timeout (reached reach found) ≡ some k
      → Uses tncs reach k
  unfolding port_from reached
  found-Uses idle_timeout none k f e = absurd (cc (e))
  found-Uses idle_timeout (some t) k f e = elim (Option-cases (reach t)) [
    | inl n ↦ absurd (none_some ((λ i. port_from def idle_timeout (pair_with t (sym n i))) ∙ e))
    | inr (r, q) ↦
        subst (Uses tncs reach)
          (some_eq ((λ i. port_from def idle_timeout (pair_with t (sym q i))) ∙ e))
          (record {
            tnc = t;
            found = ap (λ id. find_tnc id tncs) (find_tnc-id def.tnc tncs t f) ∙ f;
            reached_by = q;
            model = refl;
          })
  ]

  resolve_tnc_port-Uses :
      (section : String) (source : Source) (object : String) (k : TncPort T)
      → (resolve_tnc_port tncs reach section def source object).value ≡ some k
      → Uses tncs reach k
  unfolding resolve_tnc_port
  resolve_tnc_port-Uses section source object k e = found-Uses _ (find_tnc def.tnc tncs) k refl e

zero_some : false ≢ is_zero (some 0)
unfolding is_zero
zero_some e = cc (e)

kind_if-ProperKind :
    {N T : Type 0} (tncs : List Tnc) (make : TncPort T → PortKind N)
    (c : Checked (Option (TncPort T)))
    → ((k : TncPort T) → c.value ≡ some k → ProperKind tncs (make k))
    → (kind : PortKind N) → (kind_if make c).value ≡ some kind
    → ProperKind tncs kind
unfolding kind_if
kind_if-ProperKind tncs make c h kind e = elim (Option-cases c.value) [
  | inl n ↦ absurd (none_some ((λ i. Option.map make (sym n i)) ∙ e))
  | inr (k, q) ↦ subst (ProperKind tncs) (some_eq ((λ i. Option.map make (sym q i)) ∙ e)) (h k q)
]

module _ {N : Type 0} (p : Parsers N) where
  resolve_tcp_server-clients :
      (tncs : List Tnc) (def : TcpServerDef) (object : String)
      → is_nil (resolve_tcp_server p def object).problems ≡ true
      → ProperKind tncs (resolve_tcp_server p def object).value
  unfolding resolve_tcp_server
  resolve_tcp_server-clients tncs def object e f =
      let listen =
        checked (parse_listen p def.listen)
          (addr (record { ip = v4 0x7F000001; port = 0; flowinfo = 0; scope_id = 0 })) object
          (wrong_setting "listen") in
      let found = problem_if (is_zero def.max_clients) object no_clients_or_none in
      let u : is_zero def.max_clients ≡ false =
        unless (is_zero def.max_clients) object no_clients_or_none (
          nil_right listen.problems found (
            nil_left (listen.problems ++ found) (networks p (or_else [] def.allow) object).problems
              e)) in
      absurd (zero_some (sym u ∙ ap is_zero f))

  resolve_ble_server-clients :
      (adapters : List Adapter) (global : AdapterSel) (tncs : List Tnc) (def : BleServerDef)
      (source : Source) (object : String)
      → is_nil (resolve_ble_server p adapters global def source object).problems ≡ true
      → ProperKind tncs (resolve_ble_server p adapters global def source object).value
  unfolding resolve_ble_server
  resolve_ble_server-clients adapters global tncs def source object e =
      let max_clients = or_else default_ble_max_clients def.max_clients in
      let u : (max_clients == 0) ≡ false =
        unless (max_clients == 0) object no_clients
          (nil_right (adapter_or adapters global def.adapter source object).problems _ e) in
      ground (arith, u)

  resolve_kind-ProperKind :
      (adapters : List Adapter) (global : AdapterSel) (tncs : List Tnc) (def : KindDef)
      (source : Source) (object : String)
      → is_nil (resolve_kind p adapters global tncs def source object).problems ≡ true
      → (kind : PortKind N)
      → (resolve_kind p adapters global tncs def source object).value ≡ some kind
      → ProperKind tncs kind
  unfolding resolve_kind kept
  resolve_kind-ProperKind adapters global tncs (tcp_client_def def) source object e kind q =
      subst (ProperKind tncs) (some_eq q) tt
  resolve_kind-ProperKind adapters global tncs (tcp_server_def def) source object e kind q =
      subst (ProperKind tncs) (some_eq q) (resolve_tcp_server-clients tncs def object e)
  resolve_kind-ProperKind adapters global tncs (ble_server_def def) source object e kind q =
      subst (ProperKind tncs) (some_eq q)
        (resolve_ble_server-clients adapters global tncs def source object e)
  resolve_kind-ProperKind adapters global tncs (spp_client_def def) source object e kind q =
      kind_if-ProperKind tncs spp_client
        (resolve_tnc_port tncs (λ t. t.spp) "spp" def source object)
        (resolve_tnc_port-Uses tncs (λ t. t.spp) def "spp" source object) kind q
  resolve_kind-ProperKind adapters global tncs (ble_client_def def) source object e kind q =
      kind_if-ProperKind tncs ble_client
        (resolve_tnc_port tncs (λ t. t.ble) "ble" def source object)
        (resolve_tnc_port-Uses tncs (λ t. t.ble) def "ble" source object) kind q
  resolve_kind-ProperKind adapters global tncs (serial_def def) source object e kind q =
      kind_if-ProperKind tncs serial
        (resolve_tnc_port tncs (λ t. t.serial) "serial" def source object)
        (resolve_tnc_port-Uses tncs (λ t. t.serial) def "serial" source object) kind q

  add_port-All :
      (tncs : List Tnc) (def : PortDef) (id : String) (kind : Option (PortKind N))
      (ports : List (Port N))
      → ProperId id
      → ((k : PortKind N) → kind ≡ some k → ProperKind tncs k)
      → All (ProperPort tncs) ports
      → All (ProperPort tncs) (add_port def id kind ports)
  unfolding add_port
  add_port-All tncs def id none ports i h all = all
  add_port-All tncs def id (some k) ports i h all = (record { id = i; kind = h k refl }, all)

  pub ports_of-ProperPort :
      (adapters : List Adapter) (global : AdapterSel) (tncs : List Tnc) (source : Source)
      (object : String) (seen : List String) (defs : List PortDef)
      → is_nil (ports_of p adapters global tncs source object seen defs).problems ≡ true
      → All (ProperPort tncs) (ports_of p adapters global tncs source object seen defs).value
  unfolding ports_of
  ports_of-ProperPort adapters global tncs source object seen [] e = tt
  ports_of-ProperPort adapters global tncs source object seen (def ∷ defs) e =
      let id = port_id def seen in
      let pobject = append object (append " port " id) in
      let named = (checked (check_id id "port") tt pobject wrong_value).problems in
      let kind = resolve_kind p adapters global tncs def.kind source pobject in
      let rest =
        ports_of p adapters global tncs source object (def_type_name def.kind ∷ seen) defs in
      let front = nil_left (named ++ kind.problems) rest.problems e in
      add_port-All tncs def id kind.value rest.value
        (check_id-ProperId id "port" (
          checked-is_success (check_id id "port") tt pobject wrong_value
            (nil_left named kind.problems front)))
        (resolve_kind-ProperKind adapters global tncs def.kind source pobject
          (nil_right named kind.problems front))
        (ports_of-ProperPort adapters global tncs source object (def_type_name def.kind ∷ seen) defs
          (nil_right (named ++ kind.problems) rest.problems e))
