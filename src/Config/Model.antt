-- ===== src/Config/Model.antt =====
-- src/config/resolve.rs: the effective config. A duration is in milliseconds. The networks of the
-- crate ipnet are the parameter `N`.
use Prim.Native.String.{String}
use native.Mathlib.Decide.{ℕ_discrete}
use kiss_tnc_bridge.Prelude.{ℕ, Bool, List, Option}
use kiss_tnc_bridge.Prelude.Decide.{String-discrete}
use kiss_tnc_bridge.Config.Settings.{AppParams, Role, ConnectPolicy}
use kiss_tnc_bridge.Config.Addresses.{Mac, AdapterSel, Listen}

-- `config::Source`
pub data Source : Type 0 where
  static_file : String → Source
  dynamic : Source

pub data TncModel : Type 0 where
  generic th_d7x td_h9 : TncModel

pub record Spp : Type 0 where
  pub address : Mac
  pub adapter : AdapterSel
  pub channel : Option ℕ

pub record Ble : Type 0 where
  pub address : Mac
  pub adapter : AdapterSel

pub record SerialDevice : Type 0 where
  pub path : String
  pub baud : ℕ

-- The fields of the variants of `PortKind`.
pub record TcpClient : Type 0 where
  pub host : String
  pub port : ℕ
  pub connect : ConnectPolicy
  pub idle_timeout : ℕ

pub record TcpServer (N : Type 0) : Type 0 where
  pub listen : Listen
  pub max_clients : Option ℕ
  pub allow : List N
  pub announce : Bool

pub record BleServer : Type 0 where
  pub adapter : AdapterSel
  pub max_clients : ℕ

-- Those of `SppClient`, `BleClient` and `Serial`, which differ in how the TNC is reached.
pub record TncPort (T : Type 0) : Type 0 where
  pub tnc : String
  pub model : TncModel
  pub reach : T
  pub connect : ConnectPolicy
  pub idle_timeout : ℕ
  pub exit_kiss_on_disconnect : Bool

pub data PortKind (N : Type 0) : Type 0 where
  tcp_client : TcpClient → PortKind N
  tcp_server : TcpServer N → PortKind N
  ble_server : BleServer → PortKind N
  spp_client : TncPort Spp → PortKind N
  ble_client : TncPort Ble → PortKind N
  serial : TncPort SerialDevice → PortKind N

pub record Port (N : Type 0) : Type 0 where
  pub id : String
  pub role : Role
  pub kind : PortKind N

pub record Bridge (N : Type 0) : Type 0 where
  pub id : String
  pub name : String
  pub public_name : String
  pub enabled : Bool
  pub enabled_override : Option Bool
  pub app_params : AppParams
  pub ports : List (Port N)
  pub source : Source

pub record Global : Type 0 where
  pub log_level : String
  pub adapter : AdapterSel

pub record Control : Type 0 where
  pub group : String

pub record Adapter : Type 0 where
  pub id : String
  pub mac : Mac
  pub source : Source

pub record Tnc : Type 0 where
  pub id : String
  pub name : String
  pub model : TncModel
  pub spp : Option Spp
  pub ble : Option Ble
  pub serial : Option SerialDevice
  pub source : Source

pub record Config (N : Type 0) : Type 0 where
  pub global : Global
  pub control : Control
  pub adapters : List Adapter
  pub tncs : List Tnc
  pub bridges : List (Bridge N)

unfoldable pub TncModel-discrete : Discrete TncModel
TncModel-discrete = hlevel

unfoldable pub Role-discrete : Discrete Role
Role-discrete = hlevel

unfoldable pub ConnectPolicy-discrete : Discrete ConnectPolicy
ConnectPolicy-discrete = hlevel

unfoldable pub AppParams-discrete : Discrete AppParams
AppParams-discrete = hlevel

unfoldable pub SerialDevice-discrete : Discrete SerialDevice
SerialDevice-discrete = hlevel (ℕ_discrete, String-discrete)
