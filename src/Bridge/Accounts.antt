-- ===== src/Bridge/Accounts.antt =====
-- src/bridge/mod.rs: what becomes of a frame from an app, by the counters.
use kiss_tnc_bridge.Prelude.{
  ℕ, ◌+◌, ◌^◌, ◌<◌, List, [], ◌∷◌, ◌≡◌, Option, some, length, length-append, arith,
}
use kiss_tnc_bridge.Prelude.Text.{Bytes}
use kiss_tnc_bridge.Bridge.Channel.{Channel}
use kiss_tnc_bridge.Bridge.State.{
  Run, Pending, SessionId, TncLink, idle_link, connecting_link, connected_link, backoff_link,
  WriterMsg, inc64, session_activity, rx,
}
use kiss_tnc_bridge.Bridge.Link.{tell_activity, start_connect}
use kiss_tnc_bridge.Bridge.Apps.{queue_pending, tail_of, uplink_on, uplink, on_frame, count_dropped}

-- Frames from apps: sent to the TNC, dropped, or waiting.
abbrev pub accounted : {S W : Type 0} → Run S W → ℕ
accounted r = r.counters.frames_up + r.counters.dropped + length r.pending

pub inc64-suc : (n : ℕ) → n + 1 < 2 ^ 64 → inc64 n ≡ n + 1
unfolding inc64
inc64-suc n h = omega arith

length-tail : (ps : List Pending) → 0 < length ps → length (tail_of ps) + 1 ≡ length ps
length-tail [] h = absurd (omega arith)
length-tail (p ∷ ps) h = omega arith

module _ {S : Type 0} (w : Channel WriterMsg) where
  queue_pending-accounted :
      (now : ℕ) (content : Bytes) (from : Option SessionId) (r : Run S w.Sender)
      → accounted r + 1 < 2 ^ 64
      → accounted (queue_pending now content from r) ≡ accounted r + 1
  unfolding queue_pending
  queue_pending-accounted now content from r h =
      let p : Pending = record { at = now; content = content; from = from } in
      ground (
        arith,
        inc64-suc r.counters.dropped (omega arith),
        length-append r.pending (p ∷ []),
        length-append (tail_of r.pending) (p ∷ []),
        length-tail r.pending,
      )

  start_connect-accounted :
      (now : ℕ) (r : Run S w.Sender) → accounted (start_connect now r) ≡ accounted r
  unfolding start_connect
  start_connect-accounted now r = ground arith

  count_dropped-accounted :
      (r : Run S w.Sender)
      → accounted r + 1 < 2 ^ 64
      → accounted (count_dropped r) ≡ accounted r + 1
  unfolding count_dropped
  count_dropped-accounted r h = omega (arith, inc64-suc r.counters.dropped (omega arith))

  uplink_on-accounted :
      (l : TncLink) (now : ℕ) (content : Bytes) (from : Option SessionId) (r : Run S w.Sender)
      → accounted r + 1 < 2 ^ 64
      → accounted (uplink_on w l now content from r) ≡ accounted r + 1
  unfolding uplink_on
  uplink_on-accounted connected_link now content from r h = ground (
    arith,
    inc64-suc r.counters.dropped (omega arith),
    inc64-suc r.counters.frames_up (omega arith),
  )
  uplink_on-accounted idle_link now content from r h = ground (
    arith,
    count_dropped-accounted r h,
    start_connect-accounted now (queue_pending now content from r),
    queue_pending-accounted now content from r h,
  )
  uplink_on-accounted connecting_link now content from r h =
      queue_pending-accounted now content from r h
  uplink_on-accounted (backoff_link delay) now content from r h =
      queue_pending-accounted now content from r h

  -- A frame from an app, in whatever state the bridge is, is sent, dropped and counted, or queued;
  -- if the queue is full, it is the oldest frame that is dropped and counted. So the frames sent,
  -- dropped and waiting are one more, unless a counter wraps.
  pub on_frame-accounted :
      (now : ℕ) (id : SessionId) (content : Bytes) (r : Run S w.Sender)
      → accounted r + 1 < 2 ^ 64
      → accounted (on_frame w now id content r) ≡ accounted r + 1
  unfolding on_frame uplink
  on_frame-accounted now id content r h = ground (
    arith,
    inc64-suc r.counters.dropped (omega arith),
    uplink_on-accounted r.link now content (some id)
        (record r { hub = tell_activity (session_activity id rx (length content)) r.hub }) h,
  )
