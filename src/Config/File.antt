-- ===== src/Config/File.antt =====
-- src/config/model.rs: a config file as serde reads it.
use Prim.Native.String.{String}
use kiss_tnc_bridge.Prelude.{ℕ, Bool, List, Option}
use kiss_tnc_bridge.Config.Settings.{AppParams, Role, tnc, app, ConnectPolicy}

pub record GlobalSection : Type 0 where
  pub log_level : Option String
  pub adapter : Option String

pub record ControlSection : Type 0 where
  pub group : Option String

pub record AdapterDef : Type 0 where
  pub id : String
  pub mac : String

pub record SppDef : Type 0 where
  pub address : String
  pub adapter : Option String
  pub channel : Option ℕ

pub record BleDef : Type 0 where
  pub address : String
  pub adapter : Option String

pub record SerialDef : Type 0 where
  pub path : String
  pub baud : Option ℕ

pub record TncDef : Type 0 where
  pub id : String
  pub name : Option String
  pub model : Option String
  pub spp : Option SppDef
  pub ble : Option BleDef
  pub serial : Option SerialDef

-- The variants of `PortDef`, apart from `id` and `role`, which they all have.
pub record TcpClientDef : Type 0 where
  pub address : String
  pub connect : Option ConnectPolicy
  pub idle_timeout : Option String

pub record TcpServerDef : Type 0 where
  pub listen : String
  pub max_clients : Option ℕ
  pub allow : Option (List String)
  pub announce : Option Bool

pub record BleServerDef : Type 0 where
  pub adapter : Option String
  pub max_clients : Option ℕ

-- `SppClient`, `BleClient` and `Serial`.
pub record TncPortDef : Type 0 where
  pub tnc : String
  pub connect : Option ConnectPolicy
  pub idle_timeout : Option String
  pub exit_kiss_on_disconnect : Option Bool

pub data KindDef : Type 0 where
  tcp_client_def : TcpClientDef → KindDef
  tcp_server_def : TcpServerDef → KindDef
  ble_server_def : BleServerDef → KindDef
  spp_client_def : TncPortDef → KindDef
  ble_client_def : TncPortDef → KindDef
  serial_def : TncPortDef → KindDef

pub record PortDef : Type 0 where
  pub id : Option String
  pub role : Option Role
  pub kind : KindDef

unfoldable pub def_type_name : KindDef → String
def_type_name (tcp_client_def k) = "tcp-client"
def_type_name (tcp_server_def k) = "tcp-server"
def_type_name (ble_server_def k) = "ble-server"
def_type_name (spp_client_def k) = "spp-client"
def_type_name (ble_client_def k) = "ble-client"
def_type_name (serial_def k) = "serial"

unfoldable pub default_role : KindDef → Role
default_role (tcp_client_def k) = tnc
default_role (tcp_server_def k) = app
default_role (ble_server_def k) = app
default_role (spp_client_def k) = tnc
default_role (ble_client_def k) = tnc
default_role (serial_def k) = tnc

pub record BridgeDef : Type 0 where
  pub id : Option String
  pub name : String
  pub enabled : Option Bool
  pub public_name : Option String
  pub app_params : Option AppParams
  pub ports : List PortDef

pub record ConfigFile : Type 0 where
  pub global : Option GlobalSection
  pub control : Option ControlSection
  pub adapter : List AdapterDef
  pub tnc : List TncDef
  pub bridge : List BridgeDef
