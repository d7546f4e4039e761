-- ===== src/Bridge/Link.antt =====
-- src/bridge/mod.rs, `impl Run`: the TNC link's own operations. `now` is the time of the call.
use Prim.Native.String.{String}
use text.Mathlib.Text.{◌==◌ as str_eq}
use kiss_tnc_bridge.Prelude.{
  ℕ, ◌+◌, ◌-◌, ◌*◌, ◌%◌, ◌^◌, min, Bool, true, false, not, ◌||◌, List, [], ◌∷◌, ◌++◌, Option, none,
  some, if◌then◌else◌, is_some, is_nil,
}
use kiss_tnc_bridge.Prelude.Text.{Bytes}
use kiss_tnc_bridge.Config.Settings.{ConnectPolicy, on_demand, always}
use kiss_tnc_bridge.Bridge.Channel.{Channel}
use kiss_tnc_bridge.Bridge.State.{
  Run, TncState, state_name, idle, connecting, backoff, unpaired, waiting_for_device, TncLink,
  idle_link, connecting_link, connected_link, backoff_link, Wait, for_pairing, for_device, Hub,
  HubEvent, tnc_state, WriterMsg, exit_kiss_msg, inc32, inc64,
}

abbrev pub uplink_queue_frames : ℕ
uplink_queue_frames = 32

abbrev pub uplink_queue_age : ℕ
uplink_queue_age = 5000

abbrev pub backoff_min : ℕ
backoff_min = 1000

abbrev pub backoff_max : ℕ
backoff_max = 30000

abbrev pub unpaired_poll : ℕ
unpaired_poll = 5000

abbrev pub device_poll : ℕ
device_poll = 2000

abbrev pub writer_queue : ℕ
writer_queue = 256

-- `if let Some(hub) = &self.hub { hub.… }`
unfoldable pub tell : HubEvent → Option Hub → Option Hub
tell e none = none
tell e (some h) = some (record h { told = h.told ++ e ∷ [] })

-- The same under `hub.wants_frames()` and `hub.wants_activity()`.
unfoldable pub tell_frames : HubEvent → Option Hub → Option Hub
tell_frames e none = none
tell_frames e (some h) =
    if h.wants_frames then some (record h { told = h.told ++ e ∷ [] }) else some h

unfoldable pub tell_activity : HubEvent → Option Hub → Option Hub
tell_activity e none = none
tell_activity e (some h) =
    if h.wants_activity then some (record h { told = h.told ++ e ∷ [] }) else some h

unfoldable pub is_always : ConnectPolicy → Bool
is_always always = true
is_always on_demand = false

-- `BACKOFF_MIN.checked_mul(1u32 << (attempt - 1).min(16)).unwrap_or(BACKOFF_MAX).min(BACKOFF_MAX)`;
-- the product, at most 2 ^ 16 seconds, fits a `Duration`.
unfoldable pub backoff_delay : ℕ → ℕ
backoff_delay attempt = min (backoff_min * 2 ^ min ((attempt + 2 ^ 32 - 1) % 2 ^ 32) 16) backoff_max

abbrev pub poll_delay : Wait → ℕ
poll_delay for_pairing = unpaired_poll
poll_delay for_device = device_poll

abbrev pub poll_state : Wait → String → TncState
poll_state for_pairing why = unpaired why
poll_state for_device why = waiting_for_device why

module _ {S W : Type 0} where
  unfoldable pub set_state : ℕ → TncState → Run S W → Run S W
  set_state now state r = record r {
    state = state;
    state_since = if str_eq (state_name r.state) (state_name state) then r.state_since else now;
    hub =
        if str_eq (state_name r.state) (state_name state)
        then r.hub
        else tell (tnc_state (state_name state)) r.hub;
  }

  unfoldable pub start_connect : ℕ → Run S W → Run S W
  unfolding set_state
  start_connect now r =
      let spawned = record r { generation = inc64 r.generation; link = connecting_link } in
      if is_some r.waiting then spawned else set_state now connecting spawned

  unfoldable pub start_wait : ℕ → Wait → String → Run S W → Run S W
  unfolding set_state
  start_wait now kind why r =
      set_state now (poll_state kind why)
        (record r { waiting = some kind; attempt = 0; link = backoff_link (poll_delay kind) })

  unfoldable pub start_backoff : ℕ → Run S W → Run S W
  unfolding set_state
  start_backoff now r =
      let attempt = inc32 r.attempt in
      let delay = backoff_delay attempt in
      set_state now (backoff attempt delay)
        (record r { attempt = attempt; link = backoff_link delay })

  -- Whether the link should be up.
  unfoldable pub wants_link : Run S W → Bool
  unfolding is_always
  wants_link r = elim r.held [
    | some up ↦ up
    | none ↦ is_always r.settings.connect || not (is_nil r.sessions)
  ]

  unfoldable pub set_idle_timer : ℕ → Run S W → Run S W
  set_idle_timer now r = record r { idle_timer = some (now + r.settings.idle_timeout) }

module _ (w : Channel WriterMsg) where
  -- The teardown, if it is wanted, put on the writer's queue; the sender is dropped after it.
  unfoldable pub send_teardown : Bool → List Bytes → w.Sender → w.Sender
  send_teardown wanted [] tx = tx
  send_teardown false steps tx = tx
  send_teardown true (step ∷ steps) tx = elim (w.try_send tx (exit_kiss_msg (step ∷ steps))) [
    | some tx' ↦ tx'
    | none ↦ tx
  ]

  -- `self.writer_tx.take()`, on a connected link only.
  unfoldable pub kept_writer : TncLink → Option w.Sender → Option w.Sender
  kept_writer connected_link tx = none
  kept_writer _ tx = tx

module _ {S : Type 0} (w : Channel WriterMsg) where
  -- What a connected link leaves behind: its writer, with the queue that it still works off.
  unfoldable pub left_writer : TncLink → Run S w.Sender → Option w.Sender
  unfolding send_teardown
  left_writer connected_link r = elim r.writer_tx [
    | some tx ↦ some (send_teardown w r.settings.exit_kiss_on_disconnect r.exit_kiss tx)
    | none ↦ none
  ]
  left_writer _ r = none

  unfoldable pub disconnect : ℕ → Run S w.Sender → Run S w.Sender × Option w.Sender
  unfolding left_writer kept_writer set_state
  disconnect now r = (
    set_state now idle (record r {
      link = idle_link;
      writer_tx = kept_writer w r.link r.writer_tx;
      generation = inc64 r.generation;
      pending = [];
      waiting = none;
    }),
    left_writer r.link r,
  )

  unfoldable pub close : ℕ → Run S w.Sender → Run S w.Sender
  unfolding disconnect
  close now r = (disconnect now r).0
