-- ===== src/Bridge/Filtered.antt =====
-- src/bridge/mod.rs and src/bridge/policy.rs: which frames are let past the filter under some setting,
-- and the handlers that add none to what waits or is sent.
pub mod Reachable
use Prim.Native.String.{String}
use mathlib.Core.Path.{subst}
use kiss_tnc_bridge.Prelude.{
  ℕ, ◌+◌, Bool, List, [], ◌∷◌, ◌≡◌, refl, Option, none, some, arith, ◌==◌, ltb, leb, ◌⊎◌, inl, inr,
  All, All-append, All-of_append, not, ◌&&◌, Bool-cases, Option-cases, length,
}
use kiss_tnc_bridge.Prelude.Text.{Bytes}
use kiss_tnc_bridge.Config.Settings.{pass_params, ConnectPolicy, on_demand, always}
use kiss_tnc_bridge.Bridge.Policy.{filter_app_frame, Verdict, Why, pass, refuse, filter_mono}
use kiss_tnc_bridge.Bridge.Channel.{Channel}
use kiss_tnc_bridge.Bridge.State.{
  Run, Pending, SessionId, TncSettings, Hub, TncLink, idle_link, connecting_link, connected_link,
  backoff_link, WriterMsg, frame_msg, exit_kiss_msg, AppEvent, opened, closed, app_frame, TncEvent,
  tnc_frame, tnc_closed, LinkEvent, link_up, link_failed, backoff_over, Error, unpaired_error,
  device_absent, other_error, BridgeCmd, new_settings, new_connector, kick, hold, snapshot,
}
use kiss_tnc_bridge.Bridge.Link.{
  uplink_queue_frames, uplink_queue_age, start_connect, close, set_idle_timer, wants_link,
  start_wait, start_backoff, set_state, writer_queue,
}
use kiss_tnc_bridge.Bridge.Apps.{
  uplink, uplink_on, uplink_connected, deliver, queue_pending, tail_of, is_held_down, count_dropped,
  on_app, on_opened, on_closed, on_frame, contains_key, let_go,
}
use kiss_tnc_bridge.Bridge.Commands.{
  settings_eq, change_policy, apply_settings, on_connector, on_hold, on_cmd,
}
use kiss_tnc_bridge.Bridge.Tnc.{
  on_tnc, on_tnc_frame, on_tnc_closed, on_link, on_link_up, on_link_failed, on_backoff_over,
  send_pending, link_ready, on_idle_elapsed,
}
use kiss_tnc_bridge.Bridge.Run.{
  Step, app_step, tnc_step, cmd_step, link_step, idle_step, writer_step, session_step, Reach, here,
  then_step, begin, initial,
}

-- The filter lets it pass under one setting at least.
abbrev pub MayPass : Bytes → Type 0
MayPass content = filter_app_frame content pass_params ≡ pass

abbrev pub MessageMayPass : WriterMsg → Type 0
MessageMayPass (frame_msg content) = MayPass content
MessageMayPass (exit_kiss_msg steps) = Unit {0}

abbrev pub PendingMayPass : Pending → Type 0
PendingMayPass p = MayPass p.content

abbrev pub WriterMayPass : (w : Channel WriterMsg) → Option w.Sender → Type 0
WriterMayPass w none = Unit {0}
WriterMayPass w (some s) = All MessageMayPass (w.queued s)

pub record Filtered {S : Type 0} (w : Channel WriterMsg) (r : Run S w.Sender) : Type 0 where
  pub waiting : All PendingMayPass r.pending
  pub sent : WriterMayPass w r.writer_tx

-- A step that adds nothing to either queue.
pub record Narrows {S W : Type 0} (r s : Run S W) : Type 0 where
  fewer : (s.pending ≡ r.pending) ⊎ (s.pending ≡ [])
  silent : (s.writer_tx ≡ r.writer_tx) ⊎ (s.writer_tx ≡ none)

module _ {S : Type 0} (w : Channel WriterMsg) where
  pub Narrows-Filtered : (r s : Run S w.Sender) → Narrows r s → Filtered w r → Filtered w s
  Narrows-Filtered r s n f = record {
    waiting = elim n.fewer [ inl e ↦ rw e f.waiting | inr e ↦ rw e tt ];
    sent = elim n.silent [ inl e ↦ rw e f.sent | inr e ↦ rw e tt ];
  }

  module _ (now : ℕ) (r : Run S w.Sender) where
    pub start_connect-Narrows : Narrows r (start_connect now r)
    unfolding start_connect
    start_connect-Narrows = ground arith

    pub close-Narrows : Narrows r (close w now r)
    unfolding close
    close-Narrows = ground arith

    pub on_opened-Narrows : (id : SessionId) (s : S) → Narrows r (on_opened w now id s r)
    unfolding on_opened start_connect
    on_opened-Narrows id s = ground arith

    pub on_closed-Narrows : (id : SessionId) → Narrows r (on_closed w now id r)
    unfolding on_closed close set_idle_timer
    on_closed-Narrows id = ground arith

    pub change_policy-Narrows :
        (old new : ConnectPolicy) → Narrows r (change_policy w old new now r)
    unfolding change_policy start_connect let_go close set_idle_timer
    change_policy-Narrows on_demand always = ground arith
    change_policy-Narrows always on_demand = ground arith
    change_policy-Narrows on_demand on_demand = ground arith
    change_policy-Narrows always always = ground arith

    pub on_connector-Narrows : (c : String) → Narrows r (on_connector w now c r)
    unfolding on_connector close start_connect
    on_connector-Narrows c = ground arith

    pub on_hold-Narrows : (held : Option Bool) → Narrows r (on_hold w now held r)
    unfolding on_hold close start_connect set_idle_timer
    on_hold-Narrows held = ground arith

    pub on_link_failed-Narrows : (e : Error) → Narrows r (on_link_failed w now e r)
    unfolding on_link_failed start_wait start_backoff set_state
    on_link_failed-Narrows (unpaired_error why) = ground arith
    on_link_failed-Narrows (device_absent why) = ground arith
    on_link_failed-Narrows (other_error why) = ground arith

    pub on_backoff_over-Narrows : Narrows r (on_backoff_over w now r)
    unfolding on_backoff_over start_connect set_state
    on_backoff_over-Narrows = ground arith

    pub on_idle_elapsed-Narrows : Narrows r (on_idle_elapsed w now r)
    unfolding on_idle_elapsed close
    on_idle_elapsed-Narrows = ground arith

  pub apply_settings-Narrows :
      (now : ℕ) (new : TncSettings) (r : Run S w.Sender) → Narrows r (apply_settings w now new r)
  unfolding apply_settings
  apply_settings-Narrows now new r =
      let n =
        change_policy-Narrows now (record r { settings = new }) r.settings.connect new.connect in
      elim (Bool-cases (settings_eq r.settings new)) [
        | inl e ↦ rw e (record { fewer = inl refl; silent = inl refl })
        | inr e ↦ rw e (record { fewer = n.fewer; silent = n.silent })
      ]

pub on_tnc-Narrows :
    (a : Channel Bytes) {W : Type 0} (now : ℕ) (e : TncEvent) (r : Run a.Sender W)
    → Narrows r (on_tnc a now e r)
unfolding on_tnc on_tnc_frame on_tnc_closed start_backoff set_state
on_tnc-Narrows a now (tnc_frame g content) r = ground arith
on_tnc-Narrows a now (tnc_closed g) r = ground arith
