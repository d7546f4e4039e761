-- ===== src/Config/Resolve/Ports.antt =====
-- src/config/resolve.rs: the ports of a bridge.
use Prim.Native.String.{String, ◌++◌ as append}
use text.Mathlib.Text.{◌==◌ as str_eq}
use mathlib.Core.Option as Option
use kiss_tnc_bridge.Prelude.{
  ℕ, ◌+◌, Bool, false, not, ◌&&◌, ◌==◌, List, [], ◌∷◌, ◌++◌, Option, none, some, is_some,
  find_first, if◌then◌else◌,
}
use kiss_tnc_bridge.Config.Settings.{on_demand}
use kiss_tnc_bridge.Config.Addresses.{AdapterSel, addr, v4, is_loopback}
use kiss_tnc_bridge.Config.Model.{
  Source, Adapter, Tnc, TncPort, Port, PortKind, tcp_client, tcp_server, ble_server, spp_client,
  ble_client, serial,
}
use kiss_tnc_bridge.Config.File.{
  TcpClientDef, TcpServerDef, BleServerDef, TncPortDef, KindDef, tcp_client_def, tcp_server_def,
  ble_server_def, spp_client_def, ble_client_def, serial_def, PortDef, def_type_name, default_role,
}
use kiss_tnc_bridge.Config.Text.{show_number}
use kiss_tnc_bridge.Config.Values.{
  Parsers, parse_duration, parse_host_port, parse_listen, check_id, default_ble_max_clients,
}
use kiss_tnc_bridge.Config.Problem.{
  Message, wrong_value, wrong_setting, wrong_network, unknown_tnc, tnc_without, tnc_not_static,
  no_clients, no_clients_or_none, Problem, problem_if,
}
use kiss_tnc_bridge.Config.Resolve.Tncs.{Checked, checked, or_else, is_static, adapter_or}

unfoldable pub resolve_idle_timeout : Option String → String → Checked ℕ
unfolding checked parse_duration
resolve_idle_timeout none object = record { value = 0; problems = [] }
resolve_idle_timeout (some s) object =
    checked (parse_duration s) 0 object (wrong_setting "idle_timeout")

unfoldable pub check_tnc_visible : Option Tnc → String → Source → String → List Problem
unfolding problem_if is_static
check_tnc_visible none id source object = []
check_tnc_visible (some t) id source object =
    problem_if (is_static source && not (is_static t.source)) object (tnc_not_static id)

unfoldable pub tnc_reference_error : String → Bool → String → Message
tnc_reference_error tnc defined section =
    if defined then tnc_without tnc section else unknown_tnc tnc

unfoldable pub pair_with : {A B : Type 0} → A → Option B → Option (A × B)
pair_with a none = none
pair_with a (some b) = some (a, b)

-- `found.map(|t| (t, &t.spp))`, where both are there.
unfoldable pub reached : {T : Type 0} → (Tnc → Option T) → Option Tnc → Option (Tnc × T)
unfolding pair_with
reached reach none = none
reached reach (some t) = pair_with t (reach t)

unfoldable pub find_tnc : String → List Tnc → Option Tnc
find_tnc id tncs = find_first (λ t. str_eq t.id id) tncs

-- `PortKind::SppClient` and its kin, with the idle timeout, where the TNC can be reached.
unfoldable pub port_from : {T : Type 0} → TncPortDef → ℕ → Option (Tnc × T) → Option (TncPort T)
unfolding or_else
port_from def idle_timeout none = none
port_from def idle_timeout (some (t, r)) = some (record {
  tnc = t.id;
  model = t.model;
  reach = r;
  connect = or_else on_demand def.connect;
  idle_timeout = idle_timeout;
  exit_kiss_on_disconnect = or_else false def.exit_kiss_on_disconnect;
})

-- `SppClient`, `BleClient` and `Serial`, by the section of the TNC that they use; `none` where the port
-- is left out.
unfoldable pub resolve_tnc_port :
    {T : Type 0}
    → List Tnc
    → (Tnc → Option T)
    → String
    → TncPortDef
    → Source
    → String
    → Checked (Option (TncPort T))
unfolding find_tnc resolve_idle_timeout check_tnc_visible tnc_reference_error reached port_from
    problem_if
resolve_tnc_port tncs reach section def source object =
    let idle_timeout = resolve_idle_timeout def.idle_timeout object in
    let found = find_tnc def.tnc tncs in
    record {
      value = port_from def idle_timeout.value (reached reach found);
      problems =
          idle_timeout.problems
          ++ check_tnc_visible found def.tnc source object
          ++ problem_if (not (is_some (reached reach found))) object
              (tnc_reference_error def.tnc (is_some found) section);
    }

unfoldable pub is_zero : Option ℕ → Bool
is_zero none = false
is_zero (some n) = n == 0

-- The kind is there.
unfoldable pub kept : {N : Type 0} → Checked (PortKind N) → Checked (Option (PortKind N))
kept c = record { value = some c.value; problems = c.problems }

unfoldable pub kind_if :
    {N T : Type 0}
    → (TncPort T → PortKind N)
    → Checked (Option (TncPort T))
    → Checked (Option (PortKind N))
kind_if make c = record { value = Option.map make c.value; problems = c.problems }

-- `counts`: how many ports of the type stand before.
unfoldable pub count_of : String → List String → ℕ
count_of name [] = 0
count_of name (s ∷ seen) = if str_eq s name then count_of name seen + 1 else count_of name seen

unfoldable pub port_id : PortDef → List String → String
unfolding or_else def_type_name count_of show_number
port_id def seen =
    or_else (append (def_type_name def.kind) (show_number (count_of (def_type_name def.kind) seen)))
      def.id

unfoldable pub add_port :
    {N : Type 0} → PortDef → String → Option (PortKind N) → List (Port N) → List (Port N)
unfolding or_else default_role
add_port def id none ports = ports
add_port def id (some kind) ports =
    record { id = id; role = or_else (default_role def.kind) def.role; kind = kind } ∷ ports

module _ {N : Type 0} (p : Parsers N) where
  -- `parse::<IpNet>()`, or a network of one address.
  unfoldable pub network : String → Option N
  network s = elim (p.parse_net s) [
    | some net ↦ some net
    | none ↦ elim (p.parse_ip_addr s) [ some ip ↦ some (p.net_of ip) | none ↦ none ]
  ]

  unfoldable pub networks : List String → String → Checked (List N)
  unfolding network
  networks [] object = record { value = []; problems = [] }
  networks (s ∷ more) object =
      let rest = networks more object in
      elim (network s) [
        | some net ↦ record rest { value = net ∷ rest.value }
        | none ↦ record rest {
          problems = record { object = object; message = wrong_network s } ∷ rest.problems;
        }
      ]

  unfoldable pub resolve_tcp_client : TcpClientDef → String → Checked (PortKind N)
  unfolding checked parse_host_port resolve_idle_timeout or_else
  resolve_tcp_client def object =
      let address =
        checked (parse_host_port p def.address) ("", 0) object (wrong_setting "address") in
      let idle_timeout = resolve_idle_timeout def.idle_timeout object in
      record {
        value = tcp_client (record {
          host = address.value.0;
          port = address.value.1;
          connect = or_else on_demand def.connect;
          idle_timeout = idle_timeout.value;
        });
        problems = address.problems ++ idle_timeout.problems;
      }

  unfoldable pub resolve_tcp_server : TcpServerDef → String → Checked (PortKind N)
  unfolding checked parse_listen networks or_else problem_if is_zero
  resolve_tcp_server def object =
      let listen =
        checked (parse_listen p def.listen)
          (addr (record { ip = v4 0x7F000001; port = 0; flowinfo = 0; scope_id = 0 })) object
          (wrong_setting "listen") in
      let allow = networks (or_else [] def.allow) object in
      record {
        value = tcp_server (record {
          listen = listen.value;
          max_clients = def.max_clients;
          allow = allow.value;
          announce = or_else (not (is_loopback listen.value)) def.announce;
        });
        problems =
            listen.problems
            ++ problem_if (is_zero def.max_clients) object no_clients_or_none
            ++ allow.problems;
      }

  unfoldable pub resolve_ble_server :
      List Adapter → AdapterSel → BleServerDef → Source → String → Checked (PortKind N)
  unfolding adapter_or or_else problem_if
  resolve_ble_server adapters global def source object =
      let adapter = adapter_or adapters global def.adapter source object in
      let max_clients = or_else default_ble_max_clients def.max_clients in
      record {
        value = ble_server (record { adapter = adapter.value; max_clients = max_clients });
        problems = adapter.problems ++ problem_if (max_clients == 0) object no_clients;
      }

  unfoldable pub resolve_kind :
      List Adapter
      → AdapterSel
      → List Tnc
      → KindDef
      → Source
      → String
      → Checked (Option (PortKind N))
  unfolding kept kind_if resolve_tcp_client resolve_tcp_server resolve_ble_server resolve_tnc_port
  resolve_kind adapters global tncs (tcp_client_def def) source object =
      kept (resolve_tcp_client def object)
  resolve_kind adapters global tncs (tcp_server_def def) source object =
      kept (resolve_tcp_server def object)
  resolve_kind adapters global tncs (ble_server_def def) source object =
      kept (resolve_ble_server adapters global def source object)
  resolve_kind adapters global tncs (spp_client_def def) source object =
      kind_if spp_client (resolve_tnc_port tncs (λ t. t.spp) "spp" def source object)
  resolve_kind adapters global tncs (ble_client_def def) source object =
      kind_if ble_client (resolve_tnc_port tncs (λ t. t.ble) "ble" def source object)
  resolve_kind adapters global tncs (serial_def def) source object =
      kind_if serial (resolve_tnc_port tncs (λ t. t.serial) "serial" def source object)

  unfoldable pub ports_of :
      List Adapter
      → AdapterSel
      → List Tnc
      → Source
      → String
      → List String
      → List PortDef
      → Checked (List (Port N))
  unfolding port_id resolve_kind add_port checked check_id def_type_name
  ports_of adapters global tncs source object seen [] = record { value = []; problems = [] }
  ports_of adapters global tncs source object seen (def ∷ defs) =
      let id = port_id def seen in
      let pobject = append object (append " port " id) in
      let kind = resolve_kind adapters global tncs def.kind source pobject in
      let rest = ports_of adapters global tncs source object (def_type_name def.kind ∷ seen) defs in
      record {
        value = add_port def id kind.value rest.value;
        problems =
            (checked (check_id id "port") tt pobject wrong_value).problems
            ++ kind.problems
            ++ rest.problems;
      }
