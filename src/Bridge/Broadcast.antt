-- ===== src/Bridge/Broadcast.antt =====
-- src/bridge/mod.rs: the forwarding rules. Frames of apps go to the TNC only, frames of the TNC to
-- every app.
use kiss_tnc_bridge.Prelude.{
  ℕ, ◌+◌, ◌^◌, ◌<◌, true, List, [], ◌∷◌, ◌++◌, ◌≡◌, ◌⊎◌, inl, inr, refl, Option, none, some, arith,
  ◌==◌, length, Option-cases, is_some, if◌then◌else◌,
}
use kiss_tnc_bridge.Prelude.Text.{Bytes}
use kiss_tnc_bridge.Bridge.Channel.{Channel}
use kiss_tnc_bridge.Bridge.State.{
  Run, SessionId, Session, Hub, TncLink, idle_link, connecting_link, connected_link, backoff_link,
  WriterMsg, inc64, session_activity, rx,
}
use kiss_tnc_bridge.Bridge.Link.{start_connect, tell_activity}
use kiss_tnc_bridge.Bridge.Apps.{on_frame, uplink, uplink_on, queue_pending}
use kiss_tnc_bridge.Bridge.Tnc.{send_one, send_all, on_tnc_frame}
use kiss_tnc_bridge.Bridge.Accounts.{inc64-suc}

module _ {S : Type 0} (w : Channel WriterMsg) where
  uplink_on-sessions :
      (l : TncLink) (now : ℕ) (content : Bytes) (from : Option SessionId) (r : Run S w.Sender)
      → (uplink_on w l now content from r).sessions ≡ r.sessions
  unfolding uplink_on queue_pending start_connect
  uplink_on-sessions connected_link now content from r = ground arith
  uplink_on-sessions idle_link now content from r = ground arith
  uplink_on-sessions connecting_link now content from r = ground arith
  uplink_on-sessions (backoff_link delay) now content from r = ground arith

  -- App-to-app never happens: a frame from an app leaves every session's queue as it was.
  pub on_frame-sessions :
      (now : ℕ) (id : SessionId) (content : Bytes) (r : Run S w.Sender)
      → (on_frame w now id content r).sessions ≡ r.sessions
  unfolding on_frame uplink
  on_frame-sessions now id content r = ground (
    arith,
    uplink_on-sessions r.link now content (some id)
        (record r { hub = tell_activity (session_activity id rx (length content)) r.hub }),
  )

module _ (a : Channel Bytes) where
  -- A session that took the frame has it behind what it had; one that could not is as it was.
  abbrev pub Reached : Bytes → Session a.Sender → Session a.Sender → Type 0
  Reached content s t =
      ((a.queued t.sender ≡ a.queued s.sender ++ content ∷ [])
        × (t ≡ record s { sender = t.sender }))
      ⊎ ((a.try_send s.sender content ≡ none) × (t ≡ s))

  abbrev pub Broadcast :
      Bytes → List (SessionId × Session a.Sender) → List (SessionId × Session a.Sender) → Type 0
  Broadcast content [] [] = Unit {0}
  Broadcast content ((i, s) ∷ m) ((j, t) ∷ n) =
      (j ≡ i) × Reached content s t × Broadcast content m n
  Broadcast content _ _ = ⊥

  -- How many sessions cannot take the frame.
  abbrev pub refusals : Bytes → List (SessionId × Session a.Sender) → ℕ
  refusals content [] = 0
  refusals content ((i, s) ∷ m) =
      (if is_some (a.try_send s.sender content) then 0 else 1) + refusals content m

  send_all-Broadcast :
      (content : Bytes) (m : List (SessionId × Session a.Sender)) (dropped : ℕ) (hub : Option Hub)
      → dropped + length m < 2 ^ 64
      → Broadcast content m (send_all a content m dropped hub).sessions
        × ((send_all a content m dropped hub).dropped ≡ dropped + refusals content m)
  unfolding send_all
  send_all-Broadcast content [] dropped hub h = (tt, omega arith)
  send_all-Broadcast content ((id, s) ∷ m) dropped hub h =
      elim (Option-cases (a.try_send s.sender content)) [
        | inl e ↦
            let (b, d) =
              send_all-Broadcast content m (inc64 dropped) hub
                (omega (arith, h, inc64-suc dropped (omega arith))) in
            rw (e, send_all, send_one)
              ((refl, inr (e, refl), b), omega (arith, d, inc64-suc dropped (omega (arith, h))))
        | inr (s', e) ↦
            let (b, d) = send_all-Broadcast content m dropped _ (omega (arith, h)) in
            rw (e, send_all, send_one)
              ((refl, inl (a.try_send-queued s.sender s' content e, refl), b), omega (arith, d))
      ]

  -- A frame from the current link goes to every session, behind what the session's queue holds. A
  -- session that cannot take it stays as it is, and is counted once as a drop; the frame itself is
  -- counted once. Nothing goes back to the TNC, and the waiting frames stay.
  pub on_tnc_frame-Broadcast :
      {W : Type 0} (content : Bytes) (r : Run a.Sender W)
      → r.counters.dropped + length r.sessions < 2 ^ 64
      → let after = on_tnc_frame a r.generation content r in
        Broadcast content r.sessions after.sessions
        × (after.counters.dropped ≡ r.counters.dropped + refusals content r.sessions)
        × (after.counters.frames_down ≡ inc64 r.counters.frames_down)
        × (after.counters.frames_up ≡ r.counters.frames_up)
        × (after.writer_tx ≡ r.writer_tx)
        × (after.pending ≡ r.pending)
  unfolding on_tnc_frame
  on_tnc_frame-Broadcast content r h =
      let same : (r.generation == r.generation) ≡ true = ground arith in
      let (b, d) = send_all-Broadcast content r.sessions r.counters.dropped _ h in
      rw same (b, d, refl, refl, refl, refl)
