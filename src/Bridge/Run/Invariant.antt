-- ===== src/Bridge/Run/Invariant.antt =====
-- src/bridge/mod.rs: what holds of the bridge's state between any two events.
use Prim.Native.String.{String}
use kiss_tnc_bridge.Prelude.{
  ℕ, ◌+◌, ◌<◌, ◌≤◌, Bool, true, false, List, [], ◌∷◌, ◌≡◌, refl, Option, none, some, ◌==◌, is_some,
  is_nil, length, length-append, arith,
}
use kiss_tnc_bridge.Prelude.Text.{Bytes}
use kiss_tnc_bridge.Bridge.Channel.{Channel}
use kiss_tnc_bridge.Bridge.State.{
  Run, Pending, SessionId, TncState, idle, connecting, connected, backoff, unpaired,
  waiting_for_device, TncLink, idle_link, connecting_link, connected_link, backoff_link, is_waiting,
  is_connected, is_idle, Wait, for_pairing, for_device, WriterMsg, session_activity, rx, AppEvent,
  opened, closed, app_frame,
}
use kiss_tnc_bridge.Bridge.Link.{tell_activity, start_connect, close, set_idle_timer, start_wait}
use kiss_tnc_bridge.Bridge.Apps.{
  queue_pending, on_opened, on_closed, let_go, uplink, uplink_on, tail_of, remove, on_frame, on_app,
}

-- The state shown for a link, and what it waits for.
abbrev pub agrees : TncLink → Option Wait → TncState → Bool
agrees idle_link none idle = true
agrees connected_link none connected = true
agrees connecting_link none connecting = true
agrees connecting_link (some for_pairing) (unpaired why) = true
agrees connecting_link (some for_device) (waiting_for_device why) = true
agrees (backoff_link delay) none (backoff attempt retry_in) = delay == retry_in
agrees (backoff_link delay) (some for_pairing) (unpaired why) = true
agrees (backoff_link delay) (some for_device) (waiting_for_device why) = true
agrees _ _ _ = false

pub record Inv {S W : Type 0} (r : Run S W) : Type 0 where
  pub writer : is_some r.writer_tx ≡ is_connected r.link
  pub shown : agrees r.link r.waiting r.state ≡ true
  pub pending_fits : length r.pending ≤ 32
  pub pending_waits : is_waiting r.link ≡ false → r.pending ≡ []
  pub timer : is_some r.idle_timer ≡ true → r.sessions ≡ []
  pub counted : r.counters.sessions ≡ length r.sessions

length-tail_of : (ps : List Pending) → 0 < length ps → length (tail_of ps) + 1 ≡ length ps
length-tail_of [] h = absurd (omega arith)
length-tail_of (p ∷ ps) h = omega arith

pub nil_of_is_nil : {A : Type 0} (xs : List A) → is_nil xs ≡ true → xs ≡ []
nil_of_is_nil [] h = refl
nil_of_is_nil (x ∷ xs) h = cc

remove-nil : {S : Type 0} (id : SessionId) (m : List (SessionId × S)) → m ≡ [] → remove id m ≡ []
unfolding remove
remove-nil id [] e = refl
remove-nil id (x ∷ m) e = cc

module _ {S W : Type 0} (r : Run S W) where
  pub start_connect-Inv : (now : ℕ) → is_idle r.link ≡ true → Inv r → Inv (start_connect now r)
  unfolding start_connect is_idle is_connected is_waiting
  start_connect-Inv now e v = ground arith

  pub queue_pending-Inv :
      (now : ℕ) (content : Bytes) (from : Option SessionId)
      → is_waiting r.link ≡ true
      → Inv r
      → Inv (queue_pending now content from r)
  unfolding queue_pending
  queue_pending-Inv now content from e v =
      let p : Pending = record { at = now; content = content; from = from } in
      ground (
        arith,
        length-append r.pending (p ∷ []),
        length-append (tail_of r.pending) (p ∷ []),
        length-tail_of r.pending,
      )

  pub start_wait-Inv :
      (now : ℕ) (kind : Wait) (why : String)
      → Inv r
      → r.writer_tx ≡ none
      → r.link ≡ idle_link
      → Inv (start_wait now kind why r)
  unfolding start_wait is_connected is_waiting
  start_wait-Inv now for_pairing why v e l = ground arith
  start_wait-Inv now for_device why v e l = ground arith

module _ {S : Type 0} (w : Channel WriterMsg) (r : Run S w.Sender) where
  pub close-Inv : (now : ℕ) → Inv r → Inv (close w now r)
  unfolding close is_connected is_waiting
  close-Inv now v = ground arith

  pub let_go-Inv : (now : ℕ) → r.sessions ≡ [] → Inv r → Inv (let_go w now r)
  unfolding let_go set_idle_timer
  let_go-Inv now e v = ground (arith, close-Inv now v)

  pub uplink_on-Inv :
      (l : TncLink) (now : ℕ) (content : Bytes) (from : Option SessionId)
      → r.link ≡ l
      → Inv r
      → Inv (uplink_on w l now content from r)
  unfolding uplink_on is_connected is_waiting is_idle
  uplink_on-Inv connected_link now content from e v = ground arith
  uplink_on-Inv idle_link now content from e v =
      unfold start_connect queue_pending in ground (arith, v.pending_waits (ground arith))
  uplink_on-Inv connecting_link now content from e v =
      queue_pending-Inv r now content from (ground arith) v
  uplink_on-Inv (backoff_link delay) now content from e v =
      queue_pending-Inv r now content from (ground arith) v

  pub uplink-Inv :
      (now : ℕ) (content : Bytes) (from : Option SessionId)
      → Inv r
      → Inv (uplink w now content from r)
  unfolding uplink
  uplink-Inv now content from v = uplink_on-Inv r.link now content from refl v

  pub on_opened-Inv : (now : ℕ) (id : SessionId) (s : S) → Inv r → Inv (on_opened w now id s r)
  unfolding on_opened start_connect is_connected is_waiting is_idle
  on_opened-Inv now id s v = ground arith

  pub on_closed-Inv : (now : ℕ) (id : SessionId) → Inv r → Inv (on_closed w now id r)
  unfolding on_closed let_go close set_idle_timer is_connected is_waiting
  on_closed-Inv now id v =
      ground (arith, nil_of_is_nil (remove id r.sessions), remove-nil id r.sessions)

module _ {S : Type 0} (w : Channel WriterMsg) (r : Run S w.Sender) where
  on_frame-Inv :
      (now : ℕ) (id : SessionId) (content : Bytes) → Inv r → Inv (on_frame w now id content r)
  unfolding on_frame
  on_frame-Inv now id content v = ground (
    arith,
    uplink-Inv w (record r { hub = tell_activity (session_activity id rx (length content)) r.hub })
        now content (some id) (ground (arith)),
  )

  pub on_app-Inv : (now : ℕ) (e : AppEvent S) → Inv r → Inv (on_app w now e r)
  unfolding on_app
  on_app-Inv now (opened id s) v = on_opened-Inv w r now id s v
  on_app-Inv now (closed id) v = on_closed-Inv w r now id v
  on_app-Inv now (app_frame id content) v = on_frame-Inv now id content v
