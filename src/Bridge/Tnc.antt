-- ===== src/Bridge/Tnc.antt =====
-- src/bridge/mod.rs, `impl Run`: events of the TNC's link, `on_tnc` and `on_link`.
use kiss_tnc_bridge.Prelude.{
  ℕ, ◌+◌, not, ◌&&◌, ◌||◌, List, [], ◌∷◌, Option, none, some, ◌==◌, ltb, if◌then◌else◌, length,
}
use kiss_tnc_bridge.Prelude.Text.{Bytes}
use kiss_tnc_bridge.Bridge.Channel.{Channel}
use kiss_tnc_bridge.Bridge.State.{
  Run, SessionId, Session, Pending, idle, connected, connected_link, idle_link, is_connected, Hub,
  frame_seen, tnc_activity, session_activity, tx, rx, WriterMsg, inc64, Error, unpaired_error,
  device_absent, other_error, for_pairing, for_device, TncEvent, tnc_frame, tnc_closed, LinkEvent,
  link_up, link_failed, backoff_over,
}
use kiss_tnc_bridge.Bridge.Link.{
  tell_frames, tell_activity, set_state, start_connect, start_wait, start_backoff, wants_link,
  close, writer_queue, uplink_queue_age,
}
use kiss_tnc_bridge.Bridge.Apps.{uplink, count_dropped}

-- The variables that the loop over the sessions changes.
pub record Sent (S : Type 0) : Type 0 where
  pub sessions : List (SessionId × Session S)
  pub dropped : ℕ
  pub hub : Option Hub

module _ (a : Channel Bytes) where
  -- One round of the loop: the frame goes to the session, or is dropped if it cannot take it.
  unfoldable pub send_one : Bytes → Session a.Sender → Option (Session a.Sender)
  send_one content s = elim (a.try_send s.sender content) [
    | some taken ↦ some (record s { sender = taken })
    | none ↦ none
  ]

  unfoldable pub send_all :
      Bytes → List (SessionId × Session a.Sender) → ℕ → Option Hub → Sent a.Sender
  unfolding send_one
  send_all content [] dropped hub = record { sessions = []; dropped = dropped; hub = hub }
  send_all content ((id, s) ∷ m) dropped hub = elim (send_one content s) [
    | some s' ↦
        let rest =
          send_all content m dropped
            (tell_activity (session_activity id tx (length content)) hub) in
        record rest { sessions = (id, s') ∷ rest.sessions }
    | none ↦
        let rest = send_all content m (inc64 dropped) hub in
        record rest { sessions = (id, s) ∷ rest.sessions }
  ]

module _ (a : Channel Bytes) {W : Type 0} where
  -- `TncEvent::Frame`
  unfoldable pub on_tnc_frame : ℕ → Bytes → Run a.Sender W → Run a.Sender W
  unfolding send_all
  on_tnc_frame generation content r =
      let seen =
        tell_activity (tnc_activity rx (length content))
          (tell_frames (frame_seen rx none content) r.hub) in
      let sent = send_all a content r.sessions r.counters.dropped seen in
      if generation == r.generation
      then record r {
        counters = record (r.counters) {
          frames_down = inc64 r.counters.frames_down;
          dropped = sent.dropped;
        };
        sessions = sent.sessions;
        hub = sent.hub;
      }
      else r

  -- `TncEvent::Closed`
  unfoldable pub on_tnc_closed : ℕ → ℕ → Run a.Sender W → Run a.Sender W
  on_tnc_closed now generation r =
      let lost = record r { link = idle_link; writer_tx = none; generation = inc64 r.generation } in
      if not (generation == r.generation) || not (is_connected r.link)
      then r
      else if wants_link lost
      then start_backoff now (record lost { attempt = 0 })
      else set_state now idle lost

  unfoldable pub on_tnc : ℕ → TncEvent → Run a.Sender W → Run a.Sender W
  unfolding on_tnc_frame on_tnc_closed
  on_tnc now (tnc_frame generation content) r = on_tnc_frame generation content r
  on_tnc now (tnc_closed generation) r = on_tnc_closed now generation r

module _ {S : Type 0} (w : Channel WriterMsg) where
  -- The `for` loop over the frames that arrived while connecting.
  unfoldable pub send_pending : ℕ → List Pending → Run S w.Sender → Run S w.Sender
  send_pending now [] r = r
  send_pending now (p ∷ ps) r = send_pending now ps (
      if ltb (p.at + uplink_queue_age) now
      then count_dropped r
      else uplink w now p.content p.from r)

  -- The state before that loop.
  unfoldable pub link_ready : ℕ → List Bytes → Run S w.Sender → Run S w.Sender
  link_ready now exit_kiss r = set_state now connected (record r {
    waiting = none;
    exit_kiss = exit_kiss;
    link = connected_link;
    writer_tx = some (w.channel writer_queue);
    attempt = 0;
    counters = record (r.counters) { tnc_connects = inc64 r.counters.tnc_connects };
    link_start = (r.counters.frames_up, r.counters.frames_down);
    pending = [];
  })

  -- `LinkEvent::Connected(Ok(…))`
  unfoldable pub on_link_up : ℕ → List Bytes → Run S w.Sender → Run S w.Sender
  unfolding send_pending link_ready
  on_link_up now exit_kiss r =
      let up = send_pending now r.pending (link_ready now exit_kiss r) in
      if not (wants_link up) && up.settings.idle_timeout == 0 then close w now up else up

  -- The link is given up, with nobody waiting for it.
  unfoldable pub give_up : ℕ → Run S w.Sender → Run S w.Sender
  give_up now r = set_state now idle (record r { pending = []; waiting = none })

  unfoldable pub retry : ℕ → Error → Run S w.Sender → Run S w.Sender
  retry now (unpaired_error why) r = start_wait now for_pairing why r
  retry now (device_absent why) r = start_wait now for_device why r
  retry now (other_error why) r = start_backoff now (record r { waiting = none })

  -- `LinkEvent::Connected(Err(e))`
  unfoldable pub on_link_failed : ℕ → Error → Run S w.Sender → Run S w.Sender
  unfolding give_up retry
  on_link_failed now e r =
      let down = record r { link = idle_link } in
      if wants_link down then retry now e down else give_up now down

  -- `LinkEvent::BackoffOver`
  unfoldable pub on_backoff_over : ℕ → Run S w.Sender → Run S w.Sender
  unfolding give_up
  on_backoff_over now r =
      let down = record r { link = idle_link } in
      if wants_link down then start_connect now down else give_up now down

  unfoldable pub on_link : ℕ → LinkEvent → Run S w.Sender → Run S w.Sender
  unfolding on_link_up on_link_failed on_backoff_over
  on_link now (link_up exit_kiss) r = on_link_up now exit_kiss r
  on_link now (link_failed e) r = on_link_failed now e r
  on_link now backoff_over r = on_backoff_over now r

  -- The idle timer's arm of `main`.
  unfoldable pub on_idle_elapsed : ℕ → Run S w.Sender → Run S w.Sender
  on_idle_elapsed now r =
      let over = record r { idle_timer = none } in
      if wants_link over then over else close w now over
