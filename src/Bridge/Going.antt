-- ===== src/Bridge/Going.antt =====
-- src/bridge/mod.rs: a link that is wanted is not left idle.
pub mod Attempts
pub mod Reachable
use Prim.Native.String.{String}
use kiss_tnc_bridge.Prelude.{
  ℕ, Bool, true, false, not, ◌&&◌, ◌||◌, List, [], ◌∷◌, ◌≡◌, refl, ap, sym, ◌∙◌, Option, none, some,
  arith, ◌==◌, is_some, is_nil, Bool-cases, inl, inr, length,
}
use kiss_tnc_bridge.Prelude.Text.{Bytes}
use kiss_tnc_bridge.Config.Settings.{ConnectPolicy, on_demand, always}
use kiss_tnc_bridge.Bridge.Channel.{Channel}
use kiss_tnc_bridge.Bridge.State.{
  Run, SessionId, Session, TncSettings, idle_link, connecting_link, connected_link, backoff_link,
  TncLink, is_idle, is_connected, WriterMsg, AppEvent, opened, closed, app_frame, Hub, TncEvent,
  tnc_frame, tnc_closed, LinkEvent, link_up, link_failed, backoff_over, Error, unpaired_error,
  device_absent, other_error, BridgeCmd, new_settings, new_connector, kick, hold, snapshot,
  session_activity, rx,
}
use kiss_tnc_bridge.Bridge.Link.{
  start_connect, wants_link, close, set_idle_timer, tell_activity, is_always, start_wait,
  start_backoff, set_state,
}
use kiss_tnc_bridge.Bridge.Apps.{
  on_app, on_opened, on_closed, on_frame, let_go, uplink, uplink_on, uplink_connected,
  count_dropped, is_held_down, queue_pending, insert, with_sessions, cancel, remove,
}
use kiss_tnc_bridge.Bridge.Commands.{
  settings_eq, policy_eq, change_policy, apply_settings, on_connector, on_hold, on_cmd,
}
use kiss_tnc_bridge.Bridge.Tnc.{
  on_tnc, on_tnc_frame, on_tnc_closed, on_link, on_link_up, on_link_failed, on_backoff_over,
  on_idle_elapsed, send_pending, link_ready, send_all,
}
use kiss_tnc_bridge.Bridge.Run.{
  Read, Drained, Awaits, Step, app_step, tnc_step, cmd_step, link_step, idle_step, writer_step,
  session_step, begin, initial,
}

-- The link is up, on its way, or not wanted.
abbrev pub is_going : {S W : Type 0} → Run S W → Bool
is_going r = not (is_idle r.link && wants_link r)

abbrev pub is_held_up : Option Bool → Bool
is_held_up none = false
is_held_up (some up) = up

-- The settings change only on a link that is not held up.
abbrev pub HeedsCmd : Option Bool → BridgeCmd → Type 0
HeedsCmd held (new_settings new) = is_held_up held ≡ false
HeedsCmd held _ = Unit {0}

is_nil-insert :
    {S : Type 0} (id : SessionId) (s : S) (m : List (SessionId × S))
    → is_nil (insert id s m) ≡ false
unfolding insert
is_nil-insert id s [] = refl
is_nil-insert id s (x ∷ m) = ground arith

is_nil-cancel :
    {S : Type 0} (id : SessionId) (m : List (SessionId × Session S))
    → is_nil (cancel id m) ≡ is_nil m
unfolding cancel
is_nil-cancel id [] = refl
is_nil-cancel id (x ∷ m) = ground arith

is_nil-Drained :
    {S : Type 0} (P : S → S → Type 0) (m n : List (SessionId × Session S))
    → Drained P m n
    → is_nil n ≡ is_nil m
is_nil-Drained P [] [] d = refl
is_nil-Drained P [] (y ∷ n) d = absurd d
is_nil-Drained P (x ∷ m) [] d = absurd d
is_nil-Drained P (x ∷ m) (y ∷ n) d = refl

is_nil-remove :
    {S : Type 0} (id : SessionId) (m : List (SessionId × S))
    → is_nil m ≡ true
    → is_nil (remove id m) ≡ true
unfolding remove
is_nil-remove id [] e = refl
is_nil-remove id (x ∷ m) e = absurd (cc)

policy-settings_eq :
    (a b : TncSettings) → settings_eq a b ≡ true → policy_eq a.connect b.connect ≡ true
unfolding settings_eq
policy-settings_eq a b e = ground arith

policy_eq_lem : (a b : ConnectPolicy) → policy_eq a b ≡ true → b ≡ a
unfolding policy_eq
policy_eq_lem on_demand on_demand e = refl
policy_eq_lem on_demand always e = absurd (cc)
policy_eq_lem always on_demand e = absurd (cc)
policy_eq_lem always always e = refl

module _ {S : Type 0} (w : Channel WriterMsg) (now : ℕ) (r : Run S w.Sender)
    (g : is_going r ≡ true) where
  on_opened-going : (id : SessionId) (s : S) → is_going (on_opened w now id s r) ≡ true
  unfolding on_opened wants_link start_connect is_idle
  on_opened-going id s = ground arith

  on_closed-going : (id : SessionId) → is_going (on_closed w now id r) ≡ true
  unfolding on_closed wants_link let_go close set_idle_timer is_idle
  on_closed-going id = ground (arith, is_nil-remove id r.sessions)

  uplink_on-going :
      (l : TncLink) (content : Bytes) (from : Option SessionId)
      → r.link ≡ l
      → is_going (uplink_on w l now content from r) ≡ true
  unfolding uplink_on wants_link start_connect queue_pending is_idle
  uplink_on-going connected_link content from e = ground arith
  uplink_on-going connecting_link content from e = ground arith
  uplink_on-going (backoff_link d) content from e = ground arith
  uplink_on-going idle_link content from e = ground arith

  on_connector-going : (c : String) → is_going (on_connector w now c r) ≡ true
  unfolding on_connector wants_link close start_connect is_idle
  on_connector-going c = ground arith

  on_hold-going : (held : Option Bool) → is_going (on_hold w now held r) ≡ true
  unfolding on_hold wants_link close start_connect set_idle_timer is_idle
  on_hold-going held = ground arith

  on_idle_elapsed-going : is_going (on_idle_elapsed w now r) ≡ true
  unfolding on_idle_elapsed wants_link close is_idle
  on_idle_elapsed-going = ground arith

  on_link_failed-going : (e : Error) → is_going (on_link_failed w now e r) ≡ true
  unfolding on_link_failed wants_link start_wait start_backoff is_idle
  on_link_failed-going (unpaired_error why) = ground arith
  on_link_failed-going (device_absent why) = ground arith
  on_link_failed-going (other_error why) = ground arith

  on_backoff_over-going : is_going (on_backoff_over w now r) ≡ true
  unfolding on_backoff_over wants_link start_connect is_idle
  on_backoff_over-going = ground arith

  change_policy-going :
      (old : ConnectPolicy) (new : TncSettings)
      → r.settings.connect ≡ old
      → is_held_up r.held ≡ false
      → (settings : ConnectPolicy) → new.connect ≡ settings
      → is_going (change_policy w old settings now (record r { settings = new })) ≡ true
  unfolding change_policy wants_link start_connect close let_go set_idle_timer is_idle is_always
  change_policy-going on_demand new e h on_demand f = ground arith
  change_policy-going on_demand new e h always f = ground arith
  change_policy-going always new e h on_demand f = ground arith
  change_policy-going always new e h always f = ground arith

  same_policy-going :
      (new : TncSettings)
      → new.connect ≡ r.settings.connect
      → is_going (record r { settings = new }) ≡ true
  unfolding wants_link is_idle
  same_policy-going new e = ground arith

  apply_settings-going :
      (new : TncSettings) → is_held_up r.held ≡ false → is_going (apply_settings w now new r) ≡ true
  unfolding apply_settings
  apply_settings-going new h = ground (
    arith,
    policy-settings_eq r.settings new,
    policy_eq_lem r.settings.connect new.connect,
    same_policy-going new,
    change_policy-going r.settings.connect new refl h new.connect refl,
  )

  uplink-going :
      (content : Bytes) (from : Option SessionId) → is_going (uplink w now content from r) ≡ true
  unfolding uplink
  uplink-going content from = uplink_on-going r.link content from refl

  cancel-going : (id : SessionId) → is_going (record r { sessions = cancel id r.sessions }) ≡ true
  unfolding wants_link
  cancel-going id = ground (arith, is_nil-cancel id r.sessions)

  pub on_cmd-going : (c : BridgeCmd) → HeedsCmd r.held c → is_going (on_cmd w now c r) ≡ true
  unfolding on_cmd
  on_cmd-going (new_settings new) h = apply_settings-going new h
  on_cmd-going (new_connector c) h = on_connector-going c
  on_cmd-going (kick id) h = cancel-going id
  on_cmd-going (hold held) h = on_hold-going held
  on_cmd-going snapshot h = g

module _ {S : Type 0} (w : Channel WriterMsg) (now : ℕ) (r : Run S w.Sender)
    (g : is_going r ≡ true) where
  on_frame-going :
      (id : SessionId) (content : Bytes) → is_going (on_frame w now id content r) ≡ true
  unfolding on_frame count_dropped wants_link
  on_frame-going id content =
      let seen = record r { hub = tell_activity (session_activity id rx (length content)) r.hub } in
      ground (arith, uplink-going w now seen g content (some id))

module _ {W : Type 0} (a : Channel Bytes) (now : ℕ) (r : Run a.Sender W)
    (g : is_going r ≡ true) where
  on_tnc_closed-going : (n : ℕ) → is_going (on_tnc_closed a now n r) ≡ true
  unfolding on_tnc_closed wants_link start_backoff set_state is_idle is_connected
  on_tnc_closed-going n = ground arith
