-- ===== src/Config/Tests/Resolve.antt =====
-- A config file with a radio on a serial port and a TCP server, and a use of the theorem on it.
use kiss_tnc_bridge.Prelude.{
  ℕ, Bool, true, false, List, [], ◌∷◌, ◌≡◌, refl, arith, Option, none, some,
}
use kiss_tnc_bridge.Prelude.Results.{Result, ok, err}
use kiss_tnc_bridge.Config.Settings.{always}
use kiss_tnc_bridge.Config.Addresses.{IpAddr}
use kiss_tnc_bridge.Config.Model.{Source, static_file}
use kiss_tnc_bridge.Config.File.{ConfigFile, TncDef, BridgeDef, PortDef, serial_def, tcp_server_def}
use kiss_tnc_bridge.Config.Values.{Parsers, parse_mac, show_mac, parse_duration}
use kiss_tnc_bridge.Config.Macs.{parse_mac-show_mac}
use kiss_tnc_bridge.Config.Resolve.{resolve}
use kiss_tnc_bridge.Config.Resolve.Sound.{Outcome, resolve-Outcome}

abbrev none_known : Parsers IpAddr
none_known = record {
  parse_socket_addr = λ s. none;
  parse_ip_addr = λ s. none;
  show_ip_addr = λ a. "";
  parse_net = λ s. none;
  net_of = λ a. a;
}

abbrev d75 : TncDef
d75 = record {
  id = "d75";
  name = none;
  model = some "th-d75";
  spp = none;
  ble = none;
  serial = some (record { path = "/dev/ttyACM0"; baud = none });
}

abbrev to_radio : PortDef
to_radio = record {
  id = none;
  role = none;
  kind = serial_def (record {
    tnc = "d75";
    connect = some always;
    idle_timeout = some "2m";
    exit_kiss_on_disconnect = none;
  });
}

abbrev to_lan : Option ℕ → PortDef
to_lan max_clients = record {
  id = some "lan";
  role = none;
  kind =
      tcp_server_def (record {
        listen = "wlan0:8001";
        max_clients = max_clients;
        allow = none;
        announce = none;
      });
}

abbrev shack : Option ℕ → BridgeDef
shack max_clients = record {
  id = some "ktbr0";
  name = "shack";
  enabled = none;
  public_name = none;
  app_params = none;
  ports = to_radio ∷ to_lan max_clients ∷ [];
}

abbrev files : Option ℕ → List (Source × ConfigFile)
files max_clients =
    (
      static_file "main.toml",
      record {
        global = none;
        control = none;
        adapter = [];
        tnc = d75 ∷ [];
        bridge = shack max_clients ∷ [];
      },
    )
    ∷ []

abbrev succeeds : {E A : Type 0} → Result E A → Bool
succeeds (ok a) = true
succeeds (err e) = false

shack_succeeds : succeeds (resolve none_known (files none)) ≡ true
unfolding resolve
shack_succeeds = refl

no_room : succeeds (resolve none_known (files (some 0))) ≡ false
unfolding resolve
no_room = refl

mac_with_signs : parse_mac "+1:00:00:00:00:ff" ≡ ok (record { octets = (1, 0, 0, 0, 0, 255) })
unfolding parse_mac
mac_with_signs = refl

minutes_wrap : parse_duration " 307445734561825861m " ≡ ok 44000
unfolding parse_duration
minutes_wrap = refl

resolve-Outcome_example : Outcome (resolve none_known (files none))
resolve-Outcome_example = resolve-Outcome none_known (files none)

parse_mac-show_mac_example :
    parse_mac (show_mac (record { octets = (184, 39, 235, 0, 9, 255) }))
    ≡ ok (record { octets = (184, 39, 235, 0, 9, 255) })
parse_mac-show_mac_example =
    parse_mac-show_mac (record { octets = (184, 39, 235, 0, 9, 255) })
      (omega arith, omega arith, omega arith, omega arith, omega arith, omega arith)
