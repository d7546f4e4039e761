-- ===== src/Bridge/Tests.antt =====
-- Runs of the bridge on small inputs, with a bounded queue for the channels, and uses of its theorems.
pub mod Setup
mod Going
mod Writer
mod Snapshot
use kiss_tnc_bridge.Prelude.{
  ℕ, zero, suc, ◌+◌, ◌%◌, ◌≤◌, ◌↔◌, ◌⊎◌, ◌≢◌, ◌<◌, true, false, List, [], ◌∷◌, ◌++◌, ◌≡◌, refl,
  Option, none, some, arith,
}
use kiss_tnc_bridge.Prelude.Text.{Bytes}
use kiss_tnc_bridge.Config.Settings.{pass_params, drop_params, on_demand, always}
use kiss_tnc_bridge.Bridge.Tests.Setup.{Queue, to_app, to_link, settings}
use kiss_tnc_bridge.Bridge.Policy.{filter_app_frame, pass, filter_app_frame_iff}
use kiss_tnc_bridge.Bridge.Channel.{Channel}
use kiss_tnc_bridge.Bridge.State.{
  Run, TncSettings, SessionId, Session, inc64, is_connected, is_waiting, WriterMsg, frame_msg,
  exit_kiss_msg, hold, opened, app_frame, tnc_frame, tnc_closed, idle, connecting, connected_link,
  connecting_link, backoff_link, idle_link, other_error, unpaired_error, device_absent,
}
use kiss_tnc_bridge.Bridge.Link.{wants_link, close, disconnect, set_state, start_connect}
use kiss_tnc_bridge.Bridge.Apps.{on_frame, on_opened, on_closed, uplink, queue_pending}
use kiss_tnc_bridge.Bridge.Commands.{on_hold, on_cmd, apply_settings}
use kiss_tnc_bridge.Bridge.Tnc.{on_tnc, on_tnc_frame, on_tnc_closed, on_link_up, on_link_failed}
use kiss_tnc_bridge.Bridge.Run.{
  initial, begin, Step, app_step, cmd_step, link_step, Reach, here, then_step,
}
use kiss_tnc_bridge.Bridge.Run.Invariant.{Inv}
use kiss_tnc_bridge.Bridge.Run.Reachable.{Reach-begin-Inv}
use kiss_tnc_bridge.Bridge.Accounts.{accounted, on_frame-accounted}
use kiss_tnc_bridge.Bridge.Waiting.{on_link_up-fresh}
use kiss_tnc_bridge.Bridge.Hold.{HeldDown, start, then_quiet, on_hold-Quietly}
use kiss_tnc_bridge.Bridge.Broadcast.{Broadcast, on_frame-sessions, on_tnc_frame-Broadcast}
use kiss_tnc_bridge.Bridge.Backoff.{on_link_failed-delay}
use kiss_tnc_bridge.Bridge.Late.{on_purpose, no_round, round, on_tnc-late}
use kiss_tnc_bridge.Bridge.Filtered.{Filtered}
use kiss_tnc_bridge.Bridge.Filtered.Reachable.{Reach-initial-Filtered}

abbrev TestRun : Type 0
TestRun = Run (Queue Bytes) (Queue WriterMsg)

abbrev first_app : SessionId
first_app = record { port = "tcp"; peer = "10.0.0.1:4711" }

abbrev second_app : SessionId
second_app = record { port = "tcp"; peer = "10.0.0.2:4712" }

abbrev session : ℕ → Session (Queue Bytes)
session room = record {
  sender = record { items = []; room = room };
  kicked = false;
  seq = 1;
  since = 0;
}

abbrev fresh : TestRun
fresh = initial "spp" settings none 0

-- Two apps, the second of which reads nothing, and a frame on its way to the TNC.
abbrev busy : TestRun
busy = record fresh {
  sessions = (first_app, session 4) ∷ (second_app, session 0) ∷ [];
  link = connected_link;
  writer_tx = some (record { items = frame_msg (0 ∷ 1 ∷ []) ∷ []; room = 3 });
  exit_kiss = (192 ∷ 255 ∷ 192 ∷ []) ∷ [];
  generation = 5;
}

-- Waiting for the link with an old frame and a new one.
abbrev eager : TestRun
eager = record fresh {
  held = some true;
  state = connecting;
  link = connecting_link;
  pending =
      record { at = 100; content = 0 ∷ 1 ∷ []; from = none }
      ∷ record { at = 9000; content = 0 ∷ 2 ∷ []; from = some first_app }
      ∷ [];
}

abbrev held_down : TestRun
held_down = record fresh { held = some false }

filter_app_frame_iff_example : (filter_app_frame (0x11 ∷ 50 ∷ []) pass_params ≡ pass) ↔ (
    (cmd : ℕ) × (rest : Bytes) × (◌≡◌ {A = Bytes} (0x11 ∷ 50 ∷ []) (cmd ∷ rest))
    × (cmd ≢ 255)
    × ((cmd % 16 ≡ 0) ⊎ ((pass_params ≡ pass_params) × (1 ≤ cmd % 16) × (cmd % 16 ≤ 6))))
filter_app_frame_iff_example = filter_app_frame_iff (0x11 ∷ 50 ∷ []) pass_params

frame_from_app : Step to_app to_link fresh (on_frame to_link 10 first_app (0 ∷ 7 ∷ []) fresh)
unfolding kiss_tnc_bridge.Bridge.Apps.on_app kiss_tnc_bridge.Bridge.Run.app_ready initial
frame_from_app = app_step 10 (app_frame first_app (0 ∷ 7 ∷ [])) refl

Reach-begin-Inv_example : Inv (on_frame to_link 10 first_app (0 ∷ 7 ∷ []) fresh)
unfolding begin on_frame kiss_tnc_bridge.Bridge.Link.is_always initial
Reach-begin-Inv_example =
    Reach-begin-Inv to_app to_link "spp" settings none 0 0 (then_step here frame_from_app)

Reach-initial-Filtered_example : Filtered to_link (on_frame to_link 10 first_app (0 ∷ 7 ∷ []) fresh)
unfolding begin on_frame kiss_tnc_bridge.Bridge.Link.is_always initial
Reach-initial-Filtered_example =
    Reach-initial-Filtered to_app to_link "spp" settings none 0 _ (then_step here frame_from_app)

on_frame-accounted_example :
    accounted (on_frame to_link 10 first_app (0 ∷ 7 ∷ []) busy) ≡ accounted busy + 1
unfolding initial
on_frame-accounted_example = on_frame-accounted to_link 10 first_app (0 ∷ 7 ∷ []) busy (omega arith)

eager-Inv : Inv eager
unfolding is_connected is_waiting initial
eager-Inv = record {
  writer = refl;
  shown = refl;
  pending_fits = omega arith;
  pending_waits = λ e. ground arith;
  timer = λ e. ground arith;
  counted = refl;
}

-- At 10 s, the frame of 0.1 s is too old.
on_link_up-fresh_example :
    let up = on_link_up to_link 10000 [] eager in
    (s : Queue WriterMsg) × (up.writer_tx ≡ some s)
    × (s.items ≡ frame_msg (0 ∷ 2 ∷ []) ∷ [])
    × (up.link ≡ connected_link)
    × (up.pending ≡ [])
    × (up.counters.dropped ≡ 1)
unfolding wants_link initial
on_link_up-fresh_example = on_link_up-fresh to_link 10000 [] eager eager-Inv refl (omega arith)

-- An app comes while the link is held down.
on_hold-Quietly_example : HeldDown (
    on_opened to_link 20 first_app
      (record { items = []; room = 4 })
      (on_hold to_link 10 (some false) busy))
unfolding kiss_tnc_bridge.Bridge.Apps.on_app kiss_tnc_bridge.Bridge.Run.app_ready on_hold wants_link
    close
on_hold-Quietly_example =
    on_hold-Quietly to_app to_link 10 busy
      (then_quiet start (app_step 20 (opened first_app (record { items = []; room = 4 })) refl) tt)

-- New settings take the link up although it is held down, and down although it is held up.
overrides :
    let up = record settings { connect = always } in
    let held_up = record busy { settings = up; held = some true; sessions = [] } in
    let down = apply_settings to_link 50 (record settings { idle_timeout = 0 }) held_up in
    ((apply_settings to_link 50 up held_down).link ≡ connecting_link)
    × (down.link ≡ idle_link)
    × (wants_link down ≡ true)
unfolding apply_settings wants_link initial kiss_tnc_bridge.Bridge.Commands.policy_eq
    kiss_tnc_bridge.Bridge.State.is_idle start_connect kiss_tnc_bridge.Bridge.Apps.let_go close
overrides = (refl, refl, refl)

-- The second app's queue is full.
on_tnc_frame-Broadcast_example :
    let after = on_tnc_frame to_app 5 (0 ∷ 9 ∷ []) busy in
    Broadcast to_app (0 ∷ 9 ∷ []) busy.sessions after.sessions
    × (after.counters.dropped ≡ 1)
    × (after.counters.frames_down ≡ inc64 0)
    × (after.counters.frames_up ≡ 0)
    × (after.writer_tx ≡ busy.writer_tx)
    × (after.pending ≡ [])
unfolding initial
on_tnc_frame-Broadcast_example = on_tnc_frame-Broadcast to_app (0 ∷ 9 ∷ []) busy (omega arith)

abbrev third_try : TestRun
third_try = record fresh { held = some true; attempt = 2; link = connecting_link }

on_link_failed-delay_example :
    ((on_link_failed to_link 70 (other_error "refused") third_try).link ≡ backoff_link 4000)
    × ((on_link_failed to_link 70 (other_error "refused") third_try).attempt ≡ 3)
    × ((on_link_failed to_link 70 (unpaired_error "refused") third_try).link ≡ backoff_link 5000)
    × ((on_link_failed to_link 70 (device_absent "refused") third_try).link ≡ backoff_link 2000)
    × ((on_link_failed to_link 70 (unpaired_error "refused") third_try).attempt ≡ 0)
    × ((on_link_failed to_link 70 (device_absent "refused") third_try).attempt ≡ 0)
unfolding wants_link
on_link_failed-delay_example =
    on_link_failed-delay to_link 70 "refused" third_try refl (omega arith)

-- The link is closed, and `port.connect` makes another one; a frame of the first comes late.
on_tnc-late_example :
    let after = on_cmd to_link 85 (hold (some true)) (close to_link 80 busy) in
    on_tnc to_app 90 (tnc_frame 5 (0 ∷ 9 ∷ [])) after ≡ after
on_tnc-late_example =
    on_tnc-late to_app to_link 90 (tnc_frame 5 (0 ∷ 9 ∷ [])) (on_purpose 80)
      (round no_round (cmd_step 85 (hold (some true)))) (omega arith) refl
