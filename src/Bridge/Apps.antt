-- ===== src/Bridge/Apps.antt =====
-- src/bridge/mod.rs, `impl Run`: what apps send, and commands to a running bridge.
use kiss_tnc_bridge.Prelude.{
  ℕ, Bool, true, false, not, ◌&&◌, ◌||◌, List, [], ◌∷◌, ◌++◌, Option, none, some, ◌==◌, leb,
  if◌then◌else◌, is_nil, length,
}
use kiss_tnc_bridge.Prelude.Text.{Bytes}
use kiss_tnc_bridge.Bridge.Channel.{Channel}
use kiss_tnc_bridge.Bridge.Policy.{filter_app_frame, pass, refuse}
use kiss_tnc_bridge.Bridge.State.{
  Run, SessionId, session_eq, Session, Pending, TncLink, idle_link, connecting_link, connected_link,
  backoff_link, is_idle, session_opened, session_closed, frame_seen, tnc_activity, session_activity,
  tx, rx, WriterMsg, frame_msg, inc64, AppEvent, opened, closed, app_frame,
}
use kiss_tnc_bridge.Bridge.Link.{
  tell, tell_frames, tell_activity, start_connect, wants_link, set_idle_timer, close,
  uplink_queue_frames,
}

module _ {S : Type 0} where
  unfoldable pub contains_key : SessionId → List (SessionId × S) → Bool
  contains_key k [] = false
  contains_key k ((j, s) ∷ m) = session_eq j k || contains_key k m

  -- `HashMap::insert`
  unfoldable pub insert : SessionId → S → List (SessionId × S) → List (SessionId × S)
  insert k s [] = (k, s) ∷ []
  insert k s ((j, t) ∷ m) = if session_eq j k then (k, s) ∷ m else (j, t) ∷ insert k s m

  unfoldable pub remove : SessionId → List (SessionId × S) → List (SessionId × S)
  remove k [] = []
  remove k ((j, t) ∷ m) = if session_eq j k then m else (j, t) ∷ remove k m

-- `s.kick.cancel()` on the session of that id.
unfoldable pub cancel :
    {S : Type 0} → SessionId → List (SessionId × Session S) → List (SessionId × Session S)
cancel k [] = []
cancel k ((j, s) ∷ m) =
    if session_eq j k then (j, record s { kicked = true }) ∷ m else (j, s) ∷ cancel k m

-- `pop_front`
abbrev pub tail_of : List Pending → List Pending
tail_of [] = []
tail_of (p ∷ ps) = ps

-- `self.held == Some(false)`
unfoldable pub is_held_down : Option Bool → Bool
is_held_down none = false
is_held_down (some up) = not up

module _ {S W : Type 0} where
  unfoldable pub count_dropped : Run S W → Run S W
  count_dropped r = record r {
    counters = record (r.counters) { dropped = inc64 r.counters.dropped };
  }

  -- `self.counters.sessions.store(self.sessions.len())`, behind a change of the sessions.
  unfoldable pub with_sessions : List (SessionId × Session S) → Run S W → Run S W
  with_sessions sessions r = record r {
    sessions = sessions;
    counters = record (r.counters) { sessions = length sessions };
  }

  unfoldable pub queue_pending : ℕ → Bytes → Option SessionId → Run S W → Run S W
  unfolding count_dropped
  queue_pending now content from r =
      let arrived : Pending = record { at = now; content = content; from = from } in
      if leb uplink_queue_frames (length r.pending)
      then record (count_dropped r) { pending = tail_of r.pending ++ arrived ∷ [] }
      else record r { pending = r.pending ++ arrived ∷ [] }

module _ (w : Channel WriterMsg) where
  -- `self.writer_tx.as_ref().map(|tx| tx.try_send(…))`, `none` unless it is `Some(Ok(()))`.
  unfoldable pub deliver : Bytes → Option w.Sender → Option w.Sender
  deliver content none = none
  deliver content (some sender) = w.try_send sender (frame_msg content)

module _ {S : Type 0} (w : Channel WriterMsg) where
  -- The `match` of `uplink` on a connected link.
  unfoldable pub uplink_connected : Bytes → Run S w.Sender → Run S w.Sender
  unfolding deliver count_dropped
  uplink_connected content r = elim (deliver w content r.writer_tx) [
    | some sent ↦ record r {
      writer_tx = some sent;
      counters = record (r.counters) { frames_up = inc64 r.counters.frames_up };
      hub = tell_activity (tnc_activity tx (length content)) r.hub;
    }
    | none ↦ count_dropped r
  ]

  unfoldable pub uplink_on :
      TncLink → ℕ → Bytes → Option SessionId → Run S w.Sender → Run S w.Sender
  unfolding uplink_connected is_held_down
  uplink_on connected_link now content from r =
      uplink_connected content (record r { hub = tell_frames (frame_seen tx from content) r.hub })
  uplink_on idle_link now content from r =
      if is_held_down r.held
      then count_dropped r
      else start_connect now (queue_pending now content from r)
  uplink_on connecting_link now content from r = queue_pending now content from r
  uplink_on (backoff_link delay) now content from r = queue_pending now content from r

  unfoldable pub uplink : ℕ → Bytes → Option SessionId → Run S w.Sender → Run S w.Sender
  unfolding uplink_on
  uplink now content from r = uplink_on r.link now content from r

  -- `AppEvent::SessionOpened`
  unfoldable pub on_opened : ℕ → SessionId → S → Run S w.Sender → Run S w.Sender
  unfolding with_sessions
  on_opened now id sender r =
      let session : Session S = record {
        sender = sender;
        kicked = false;
        seq = inc64 r.next_seq;
        since = now;
      } in
      let joined = record (with_sessions (insert id session r.sessions) r) {
        next_seq = inc64 r.next_seq;
        hub = tell (session_opened id) r.hub;
        idle_timer = none;
      } in
      if is_idle joined.link && wants_link joined then start_connect now joined else joined

  -- With nobody left, the link goes now or when the idle timer runs out.
  unfoldable pub let_go : ℕ → Run S w.Sender → Run S w.Sender
  let_go now r = if r.settings.idle_timeout == 0 then close w now r else set_idle_timer now r

  -- `AppEvent::SessionClosed`
  unfoldable pub on_closed : ℕ → SessionId → Run S w.Sender → Run S w.Sender
  unfolding with_sessions let_go
  on_closed now id r =
      let left = record (with_sessions (remove id r.sessions) r) {
        hub = if contains_key id r.sessions then tell (session_closed id) r.hub else r.hub;
      } in
      if is_nil left.sessions && not (wants_link left) then let_go now left else left

  -- `AppEvent::Frame`
  unfoldable pub on_frame : ℕ → SessionId → Bytes → Run S w.Sender → Run S w.Sender
  unfolding count_dropped
  on_frame now id content r =
      if not (contains_key id r.sessions)
      then count_dropped r
      else (let seen = record r {
        hub = tell_activity (session_activity id rx (length content)) r.hub;
      } in
          elim (filter_app_frame content r.settings.app_params) [
            | pass ↦ uplink now content (some id) seen
            | refuse why ↦ count_dropped seen
          ])

  unfoldable pub on_app : ℕ → AppEvent S → Run S w.Sender → Run S w.Sender
  unfolding on_opened on_closed on_frame
  on_app now (opened id sender) r = on_opened now id sender r
  on_app now (closed id) r = on_closed now id r
  on_app now (app_frame id content) r = on_frame now id content r
