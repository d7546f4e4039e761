-- ===== src/Bridge/State.antt =====
-- src/bridge/mod.rs: the types of the bridge task and its state. Durations and instants are in
-- milliseconds. A sender's state comes by the parameters `S` (to an app) and `W` (to the link's writer).
use Prim.Native.String.{String}
use text.Mathlib.Text.{◌==◌ as str_eq}
use kiss_tnc_bridge.Prelude.{ℕ, ◌+◌, ◌%◌, ◌^◌, Bool, true, false, ◌&&◌, List, Option}
use kiss_tnc_bridge.Prelude.Text.{Bytes}
use kiss_tnc_bridge.Config.Settings.{AppParams, ConnectPolicy}

pub record SessionId : Type 0 where
  pub port : String
  pub peer : String

-- The derived `PartialEq`.
unfoldable pub session_eq : SessionId → SessionId → Bool
session_eq a b = str_eq a.port b.port && str_eq a.peer b.peer

pub data TncState : Type 0 where
  idle connecting connected : TncState
  backoff : ℕ → ℕ → TncState
  unpaired waiting_for_device : String → TncState

-- `TncState::name`
unfoldable pub state_name : TncState → String
state_name idle = "idle"
state_name connecting = "connecting"
state_name connected = "connected"
state_name (backoff attempt retry_in) = "backoff"
state_name (unpaired why) = "unpaired"
state_name (waiting_for_device why) = "waiting for device"

-- The atomic counters; each is a `u64` that wraps.
pub record Counters : Type 0 where
  pub frames_up : ℕ
  pub frames_down : ℕ
  pub dropped : ℕ
  pub sessions : ℕ
  pub tnc_connects : ℕ

-- `fetch_add(1)` on a `u64`.
unfoldable pub inc64 : ℕ → ℕ
inc64 n = (n + 1) % 2 ^ 64

unfoldable pub inc32 : ℕ → ℕ
inc32 n = (n + 1) % 2 ^ 32

pub record TncSettings : Type 0 where
  pub port_id : String
  pub connect : ConnectPolicy
  pub idle_timeout : ℕ
  pub app_params : AppParams
  pub exit_kiss_on_disconnect : Bool

-- `crate::error::Error`, in the cases that the bridge tells apart.
pub data Error : Type 0 where
  unpaired_error device_absent other_error : String → Error

-- What the link's writer task is told.
pub data WriterMsg : Type 0 where
  frame_msg : Bytes → WriterMsg
  exit_kiss_msg : List Bytes → WriterMsg

-- `TncLink`, without the handles of its tasks; `backoff_link` has the delay of its timer.
pub data TncLink : Type 0 where
  idle_link connecting_link connected_link : TncLink
  backoff_link : ℕ → TncLink

unfoldable pub is_waiting : TncLink → Bool
is_waiting connecting_link = true
is_waiting (backoff_link delay) = true
is_waiting _ = false

unfoldable pub is_connected : TncLink → Bool
is_connected connected_link = true
is_connected _ = false

unfoldable pub is_idle : TncLink → Bool
is_idle idle_link = true
is_idle _ = false

pub data Wait : Type 0 where
  for_pairing for_device : Wait

pub data Dir : Type 0 where
  tx rx : Dir

-- What the hub is told; an object is the TNC port, or one session of the bridge.
pub data HubEvent : Type 0 where
  tnc_state : String → HubEvent
  session_opened session_closed : SessionId → HubEvent
  frame_seen : Dir → Option SessionId → Bytes → HubEvent
  tnc_activity : Dir → ℕ → HubEvent
  session_activity : SessionId → Dir → ℕ → HubEvent

-- The event hub, as the bridge sees it: whether anyone listens, and what it was told.
pub record Hub : Type 0 where
  pub wants_frames : Bool
  pub wants_activity : Bool
  pub told : List HubEvent

pub record Session (S : Type 0) : Type 0 where
  pub sender : S
  pub kicked : Bool
  pub seq : ℕ
  pub since : ℕ

pub record Pending : Type 0 where
  pub at : ℕ
  pub content : Bytes
  pub from : Option SessionId

-- `Run`, without the receiving halves, which are the events of a step. `connector` stands for the
-- connector by its description.
pub record Run (S W : Type 0) : Type 0 where
  pub connector : String
  pub settings : TncSettings
  pub state : TncState
  pub state_since : ℕ
  pub counters : Counters
  pub sessions : List (SessionId × Session S)
  pub next_seq : ℕ
  pub link : TncLink
  pub writer_tx : Option W
  pub exit_kiss : List Bytes
  pub generation : ℕ
  pub attempt : ℕ
  pub pending : List Pending
  pub idle_timer : Option ℕ
  pub waiting : Option Wait
  pub link_start : ℕ × ℕ
  pub hub : Option Hub
  pub held : Option Bool

pub data AppEvent (S : Type 0) : Type 0 where
  opened : SessionId → S → AppEvent S
  closed : SessionId → AppEvent S
  app_frame : SessionId → Bytes → AppEvent S

pub data TncEvent : Type 0 where
  tnc_frame : ℕ → Bytes → TncEvent
  tnc_closed : ℕ → TncEvent

-- A connected link brings the sequences that take the TNC out of KISS mode.
pub data LinkEvent : Type 0 where
  link_up : List Bytes → LinkEvent
  link_failed : Error → LinkEvent
  backoff_over : LinkEvent

pub data BridgeCmd : Type 0 where
  new_settings : TncSettings → BridgeCmd
  new_connector : String → BridgeCmd
  kick : SessionId → BridgeCmd
  hold : Option Bool → BridgeCmd
  snapshot : BridgeCmd
