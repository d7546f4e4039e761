-- ===== src/Bridge/Commands.antt =====
-- src/bridge/mod.rs, `impl Run`: `on_cmd` and `apply_settings`.
use Prim.Native.String.{String}
use text.Mathlib.Text.{◌==◌ as str_eq}
use kiss_tnc_bridge.Prelude.{
  ℕ, Bool, true, false, not, ◌&&◌, ◌||◌, Option, none, ◌==◌, if◌then◌else◌, is_some, is_nil,
}
use kiss_tnc_bridge.Config.Settings.{
  ConnectPolicy, on_demand, always, AppParams, pass_params, drop_params,
}
use kiss_tnc_bridge.Bridge.Channel.{Channel}
use kiss_tnc_bridge.Bridge.State.{
  Run, TncSettings, is_idle, WriterMsg, BridgeCmd, new_settings, new_connector, kick, hold,
  snapshot,
}
use kiss_tnc_bridge.Bridge.Link.{start_connect, wants_link, set_idle_timer, close}
use kiss_tnc_bridge.Bridge.Apps.{let_go, cancel}

-- The derived `PartialEq`s.
unfoldable pub policy_eq : ConnectPolicy → ConnectPolicy → Bool
policy_eq on_demand on_demand = true
policy_eq always always = true
policy_eq _ _ = false

unfoldable pub params_eq : AppParams → AppParams → Bool
params_eq pass_params pass_params = true
params_eq drop_params drop_params = true
params_eq _ _ = false

unfoldable pub bool_eq : Bool → Bool → Bool
bool_eq true b = b
bool_eq false b = not b

unfoldable pub settings_eq : TncSettings → TncSettings → Bool
settings_eq a b =
    str_eq a.port_id b.port_id
    && policy_eq a.connect b.connect
    && a.idle_timeout == b.idle_timeout
    && params_eq a.app_params b.app_params
    && bool_eq a.exit_kiss_on_disconnect b.exit_kiss_on_disconnect

module _ {S : Type 0} (w : Channel WriterMsg) where
  -- `match (old.connect, self.settings.connect)`; the run has the new settings already.
  unfoldable pub change_policy : ConnectPolicy → ConnectPolicy → ℕ → Run S w.Sender → Run S w.Sender
  change_policy on_demand always now r =
      let kept = record r { idle_timer = none } in
      if is_idle r.link then start_connect now kept else kept
  change_policy always on_demand now r = if is_nil r.sessions then let_go w now r else r
  change_policy _ _ now r = r

  unfoldable pub apply_settings : ℕ → TncSettings → Run S w.Sender → Run S w.Sender
  unfolding change_policy settings_eq
  apply_settings now new r =
      let changed = record r { settings = new } in
      if settings_eq r.settings new
      then changed
      else change_policy r.settings.connect new.connect now changed

  -- `BridgeCmd::Connector`
  unfoldable pub on_connector : ℕ → String → Run S w.Sender → Run S w.Sender
  on_connector now connector r =
      let closed = record (close w now r) { connector = connector; attempt = 0 } in
      if wants_link closed then start_connect now closed else closed

  -- `BridgeCmd::Hold`
  unfoldable pub on_hold : ℕ → Option Bool → Run S w.Sender → Run S w.Sender
  on_hold now held r =
      let told = record r { held = held; idle_timer = none } in
      if wants_link told
      then (if is_idle told.link then start_connect now told else told)
      else if is_some held || told.settings.idle_timeout == 0
      then close w now told
      else set_idle_timer now told

  unfoldable pub on_cmd : ℕ → BridgeCmd → Run S w.Sender → Run S w.Sender
  unfolding apply_settings on_connector on_hold cancel
  on_cmd now (new_settings new) r = apply_settings now new r
  on_cmd now (new_connector connector) r = on_connector now connector r
  on_cmd now (kick id) r = record r { sessions = cancel id r.sessions }
  on_cmd now (hold held) r = on_hold now held r
  on_cmd now snapshot r = r
