-- ===== src/Reconcile/Tests.antt =====
-- Plans for small configs, and uses of the theorems on them.
use native.Mathlib.Decide.{ℕ_discrete}
use mathlib.Core.List.{Perm}
use kiss_tnc_bridge.Prelude.{
  ℕ, Bool, true, false, min, List, [], ◌∷◌, ◌++◌, ◌≡◌, ◌↔◌, refl, Option, none, some, length,
}
use kiss_tnc_bridge.Prelude.Decide.{equal}
use kiss_tnc_bridge.Config.Settings.{tnc, app, on_demand, pass_params}
use kiss_tnc_bridge.Config.Addresses.{
  IpAddr, v4, SocketAddr, addr, default_adapter, IpAddr-discrete,
}
use kiss_tnc_bridge.Config.Networks.{Networks}
use kiss_tnc_bridge.Config.Model.{
  static_file, Port, Bridge, Config, tcp_client, tcp_server, TcpClient, TcpServer,
}
use kiss_tnc_bridge.Config.Problem.{is_ok}
use kiss_tnc_bridge.Config.Validate.{validate}
use kiss_tnc_bridge.Config.Validate.Warnings.{Host}
use kiss_tnc_bridge.Config.Validate.Valid.{Valid, validate-Valid}
use kiss_tnc_bridge.Reconcile.Reload.{reload-Valid}
use kiss_tnc_bridge.Reconcile.Report.{
  is_noop, disconnects, disruptive, is_unchanged, describe_disruptions,
}
use kiss_tnc_bridge.Reconcile.Ports.{Runtime, BridgeView, SessionView, newest_beyond, ids}
use kiss_tnc_bridge.Reconcile.Compare.{compare_port}
use kiss_tnc_bridge.Reconcile.Bridges.{plan}
use kiss_tnc_bridge.Reconcile.Noop.{is_noop-disruptive}
use kiss_tnc_bridge.Reconcile.Unchanged.{compare_port-unchanged}
use kiss_tnc_bridge.Reconcile.Newest.{newest_beyond-split, NoneNewer}

-- Networks of one address, and one peer address for all.
abbrev hosts : Networks
hosts = record {
  Net = IpAddr;
  Net-discrete = IpAddr-discrete;
  contains = λ n a. equal IpAddr-discrete n a;
  parse_ip = λ s. some (v4 7);
}

abbrev first_session : SessionView
first_session = record { id = record { port = "lan"; peer = "10.0.0.1:4711" }; seq = 1 }

abbrev second_session : SessionView
second_session = record { id = record { port = "lan"; peer = "10.0.0.2:4712" }; seq = 2 }

abbrev live : Runtime
live = record {
  bridge =
      λ id. some (record { tnc_active = true; sessions = second_session ∷ first_session ∷ [] });
  adapter_mac = none;
}

abbrev radio : Port IpAddr
radio = record {
  id = "radio";
  role = tnc;
  kind =
      tcp_client
        (record { host = "tnc.local"; port = 8001; connect = on_demand; idle_timeout = 0 });
}

abbrev lan : Option ℕ → Port IpAddr
lan max = record {
  id = "lan";
  role = app;
  kind = tcp_server (record {
    listen = addr (record { ip = v4 0; port = 8100; flowinfo = 0; scope_id = 0 });
    max_clients = max;
    allow = [];
    announce = false;
  });
}

abbrev bridge : List (Port IpAddr) → Bridge IpAddr
bridge ports = record {
  id = "ktbr0";
  name = "shack";
  public_name = "shack";
  enabled = true;
  enabled_override = none;
  app_params = pass_params;
  ports = ports;
  source = static_file "main.toml";
}

abbrev config : List (Bridge IpAddr) → Config IpAddr
config bridges = record {
  global = record { log_level = "info"; adapter = default_adapter };
  control = record { group = "kiss" };
  adapters = [];
  tncs = [];
  bridges = bridges;
}

abbrev two_ports : Config IpAddr
two_ports = config (bridge (radio ∷ lan none ∷ []) ∷ [])

lowered :
    disconnects (plan hosts live two_ports (config (bridge (radio ∷ lan (some 1) ∷ []) ∷ [])))
    ≡ second_session.id ∷ []
unfolding disconnects plan kiss_tnc_bridge.Reconcile.Compare.compare_noted
    kiss_tnc_bridge.Config.Model.Role-discrete kiss_tnc_bridge.Reconcile.Compare.compare_kind
    kiss_tnc_bridge.Reconcile.Ports.note_if ℕ_discrete
    kiss_tnc_bridge.Config.Model.ConnectPolicy-discrete kiss_tnc_bridge.Reconcile.Ports.restart_if
    kiss_tnc_bridge.Prelude.Decide.String-discrete kiss_tnc_bridge.Reconcile.Ports.nothing
    kiss_tnc_bridge.Config.Addresses.Listen-discrete
    kiss_tnc_bridge.Reconcile.Compare.compare_clients kiss_tnc_bridge.Prelude.Decide.Option-discrete
    kiss_tnc_bridge.Prelude.Decide.List-discrete
lowered = refl

stopping_in_use :
    describe_disruptions (plan hosts live (config (bridge (radio ∷ []) ∷ [])) (config []))
    ≡ "stop bridge ktbr0 while it's in use"
unfolding describe_disruptions plan
stopping_in_use = refl

is_noop-disruptive_example :
    (disconnects (plan hosts live two_ports two_ports) ≡ [])
    × (disruptive (plan hosts live two_ports two_ports) ≡ false)
unfolding is_noop plan kiss_tnc_bridge.Prelude.Decide.String-discrete
    kiss_tnc_bridge.Config.Model.AppParams-discrete kiss_tnc_bridge.Reconcile.Compare.compare_noted
    kiss_tnc_bridge.Config.Model.Role-discrete kiss_tnc_bridge.Reconcile.Compare.compare_kind
    kiss_tnc_bridge.Reconcile.Ports.note_if ℕ_discrete
    kiss_tnc_bridge.Config.Model.ConnectPolicy-discrete kiss_tnc_bridge.Reconcile.Ports.restart_if
    kiss_tnc_bridge.Reconcile.Ports.nothing kiss_tnc_bridge.Config.Addresses.Listen-discrete
    kiss_tnc_bridge.Reconcile.Compare.compare_clients kiss_tnc_bridge.Prelude.Decide.Option-discrete
    kiss_tnc_bridge.Prelude.Decide.List-discrete
is_noop-disruptive_example = is_noop-disruptive hosts live two_ports two_ports refl

compare_port-unchanged_example :
    (is_unchanged (compare_port hosts live "ktbr0" (lan none) (lan none)).action ≡ true)
    ↔ ((app ≡ app) × ((lan none).kind ≡ (lan none).kind))
compare_port-unchanged_example =
    compare_port-unchanged hosts live "ktbr0" (lan none) (lan none) refl

newest_beyond-split_example :
    let sessions = second_session ∷ first_session ∷ [] in
    (stay : List SessionView) × (go : List SessionView) × Perm (stay ++ go) sessions
    × (length stay ≡ min 1 (length sessions))
    × NoneNewer stay go
    × (newest_beyond sessions 1 [] ≡ [] ++ ids go)
newest_beyond-split_example = newest_beyond-split (second_session ∷ first_session ∷ []) 1 []

-- A host with no files and no interfaces.
abbrev bare : Host
bare = record { path_exists = λ path. false; if_nametoindex = λ name. 0 }

two_bridges_clash :
    length
      (validate bare
        (config (bridge (radio ∷ lan none ∷ []) ∷ bridge (radio ∷ lan none ∷ []) ∷ []))
        false).errors
    ≡ 4
unfolding validate ℕ_discrete
two_bridges_clash = refl

validate-Valid_example : (is_ok (validate bare two_ports true) ≡ true) ↔ Valid two_ports
validate-Valid_example = validate-Valid bare two_ports true

two_ports-Valid : Valid two_ports
unfolding validate is_ok
two_ports-Valid = (validate-Valid bare two_ports true).0 refl

reload-Valid_example : is_noop (plan hosts live two_ports two_ports) ≡ true
reload-Valid_example = reload-Valid hosts live two_ports two_ports-Valid
