-- ===== src/Bridge/Filtered/Reachable.antt =====
-- src/bridge/mod.rs: nothing that the filter refuses under every setting gets past it, whatever
-- happens to the settings while frames wait.
use Prim.Native.String.{String}
use mathlib.Core.Path.{subst}
use kiss_tnc_bridge.Prelude.{
  ℕ, ◌+◌, List, [], ◌∷◌, ◌≡◌, refl, Option, none, some, arith, ◌==◌, ltb, leb, ◌⊎◌, inl, inr, All,
  All-append, All-of_append, not, ◌&&◌, Bool-cases, Option-cases, length,
}
use kiss_tnc_bridge.Prelude.Text.{Bytes}
use kiss_tnc_bridge.Bridge.Policy.{filter_app_frame, Verdict, Why, pass, refuse, filter_mono}
use kiss_tnc_bridge.Bridge.Channel.{Channel}
use kiss_tnc_bridge.Bridge.State.{
  Run, Pending, SessionId, TncSettings, Hub, TncLink, idle_link, connecting_link, connected_link,
  backoff_link, WriterMsg, frame_msg, AppEvent, opened, closed, app_frame, LinkEvent, link_up,
  link_failed, backoff_over, BridgeCmd, new_settings, new_connector, kick, hold, snapshot,
}
use kiss_tnc_bridge.Bridge.Link.{
  uplink_queue_frames, uplink_queue_age, start_connect, wants_link, set_state, writer_queue,
}
use kiss_tnc_bridge.Bridge.Apps.{
  uplink, uplink_on, uplink_connected, deliver, queue_pending, tail_of, is_held_down, count_dropped,
  on_app, on_frame, contains_key,
}
use kiss_tnc_bridge.Bridge.Commands.{on_cmd}
use kiss_tnc_bridge.Bridge.Tnc.{on_link, on_link_up, send_pending, link_ready}
use kiss_tnc_bridge.Bridge.Run.{
  Step, app_step, tnc_step, cmd_step, link_step, idle_step, writer_step, session_step, Reach, here,
  then_step, begin, initial,
}
use kiss_tnc_bridge.Bridge.Filtered.{
  MayPass, MessageMayPass, PendingMayPass, WriterMayPass, Filtered, Narrows-Filtered,
  apply_settings-Narrows, close-Narrows, on_backoff_over-Narrows, on_closed-Narrows,
  on_connector-Narrows, on_hold-Narrows, on_idle_elapsed-Narrows, on_link_failed-Narrows,
  on_opened-Narrows, on_tnc-Narrows, start_connect-Narrows,
}

verdict_cases : (v : Verdict) → (v ≡ pass) ⊎ ((why : Why) × (v ≡ refuse why))
verdict_cases pass = inl refl
verdict_cases (refuse why) = inr (why, refl)

tail_MayPass : (ps : List Pending) → All PendingMayPass ps → All PendingMayPass (tail_of ps)
tail_MayPass [] h = tt
tail_MayPass (p ∷ ps) h = h.1

deliver-MayPass :
    (w : Channel WriterMsg) (content : Bytes) (tx : Option w.Sender) (s : w.Sender)
    → deliver w content tx ≡ some s
    → MayPass content
    → WriterMayPass w tx
    → All MessageMayPass (w.queued s)
unfolding deliver
deliver-MayPass w content none s e h f = absurd (cc (e))
deliver-MayPass w content (some t) s e h f =
    rw (w.try_send-queued t s (frame_msg content) e)
      (All-append MessageMayPass (w.queued t) (frame_msg content ∷ []) f (h, tt))

module _ {S : Type 0} (w : Channel WriterMsg) where
  queue_pending-Filtered :
      (now : ℕ) (content : Bytes) (from : Option SessionId) (r : Run S w.Sender)
      → MayPass content
      → Filtered w r
      → Filtered w (queue_pending now content from r)
  unfolding queue_pending count_dropped
  queue_pending-Filtered now content from r h f =
      let arrived : Pending = record { at = now; content = content; from = from } in
      elim (Bool-cases (leb uplink_queue_frames (length r.pending))) [
        | inl e ↦ rw e (record {
          waiting =
              All-append PendingMayPass (tail_of r.pending) (arrived ∷ [])
                (tail_MayPass r.pending f.waiting) (h, tt);
          sent = f.sent;
        })
        | inr e ↦ rw e (record {
          waiting = All-append PendingMayPass r.pending (arrived ∷ []) f.waiting (h, tt);
          sent = f.sent;
        })
      ]

  uplink_connected-sent :
      (content : Bytes) (r : Run S w.Sender)
      → MayPass content
      → Filtered w r
      → Filtered w (uplink_connected w content r)
  unfolding uplink_connected count_dropped
  uplink_connected-sent content r h f = elim (Option-cases (deliver w content r.writer_tx)) [
    | inl e ↦ rw (e, uplink_connected) (record { waiting = f.waiting; sent = f.sent })
    | inr (s, e) ↦
        rw (e, uplink_connected)
          (record {
            waiting = f.waiting;
            sent = deliver-MayPass w content r.writer_tx s e h f.sent;
          })
  ]

  uplink_on-Filtered :
      (l : TncLink) (now : ℕ) (content : Bytes) (from : Option SessionId) (r : Run S w.Sender)
      → MayPass content
      → Filtered w r
      → Filtered w (uplink_on w l now content from r)
  unfolding uplink_on count_dropped
  uplink_on-Filtered connected_link now content from r h f =
      uplink_connected-sent content _ h (record { waiting = f.waiting; sent = f.sent })
  uplink_on-Filtered connecting_link now content from r h f =
      queue_pending-Filtered now content from r h f
  uplink_on-Filtered (backoff_link d) now content from r h f =
      queue_pending-Filtered now content from r h f
  uplink_on-Filtered idle_link now content from r h f =
      let g = queue_pending-Filtered now content from r h f in
      elim (Bool-cases (is_held_down r.held)) [
        | inl e ↦ rw e (record { waiting = f.waiting; sent = f.sent })
        | inr e ↦ rw e (Narrows-Filtered w _ _ (start_connect-Narrows w now _) g)
      ]

  on_frame-Filtered :
      (now : ℕ) (id : SessionId) (content : Bytes) (r : Run S w.Sender)
      → Filtered w r
      → Filtered w (on_frame w now id content r)
  unfolding on_frame count_dropped uplink
  on_frame-Filtered now id content r f = elim (Bool-cases (contains_key id r.sessions)) [
    | inl known ↦ elim (verdict_cases (filter_app_frame content r.settings.app_params)) [
      | inl e ↦
          rw (known, e, on_frame, uplink)
            (uplink_on-Filtered r.link now content (some id) _
              (filter_mono content r.settings.app_params e)
              (record { waiting = f.waiting; sent = f.sent }))
      | inr (why, e) ↦ rw (known, e, on_frame) (record { waiting = f.waiting; sent = f.sent })
    ]
    | inr e ↦ rw (e, on_frame) (record { waiting = f.waiting; sent = f.sent })
  ]

  send_pending-Filtered :
      (now : ℕ) (ps : List Pending) (r : Run S w.Sender)
      → All PendingMayPass ps
      → Filtered w r
      → Filtered w (send_pending w now ps r)
  unfolding send_pending uplink count_dropped
  send_pending-Filtered now [] r h f = f
  send_pending-Filtered now (p ∷ ps) r h f =
      send_pending-Filtered now ps _ h.1 (elim (Bool-cases (ltb (p.at + uplink_queue_age) now)) [
        | inl e ↦ rw e (record { waiting = f.waiting; sent = f.sent })
        | inr e ↦ rw e (uplink_on-Filtered r.link now p.content p.from r h.0 f)
      ])

  on_link_up-Filtered :
      (now : ℕ) (exit_kiss : List Bytes) (r : Run S w.Sender)
      → Filtered w r
      → Filtered w (on_link_up w now exit_kiss r)
  unfolding on_link_up link_ready set_state
  on_link_up-Filtered now exit_kiss r f =
      let ready : Filtered w (link_ready w now exit_kiss r) = record {
        waiting = tt;
        sent = rw (w.channel-queued writer_queue) tt;
      } in
      let sent =
        send_pending-Filtered now r.pending (link_ready w now exit_kiss r) f.waiting ready in
      let up = send_pending w now r.pending (link_ready w now exit_kiss r) in
      elim (Bool-cases (not (wants_link up) && (up.settings.idle_timeout == 0))) [
        | inl e ↦ rw (e, on_link_up) (Narrows-Filtered w _ _ (close-Narrows w now _) sent)
        | inr e ↦ rw (e, on_link_up) sent
      ]

  on_cmd-Filtered :
      (now : ℕ) (c : BridgeCmd) (r : Run S w.Sender) → Filtered w r → Filtered w (on_cmd w now c r)
  unfolding on_cmd
  on_cmd-Filtered now (new_settings s) r f =
      Narrows-Filtered w _ _ (apply_settings-Narrows w now s r) f
  on_cmd-Filtered now (new_connector c) r f =
      Narrows-Filtered w _ _ (on_connector-Narrows w now r c) f
  on_cmd-Filtered now (kick k) r f = record { waiting = f.waiting; sent = f.sent }
  on_cmd-Filtered now (hold h) r f = Narrows-Filtered w _ _ (on_hold-Narrows w now r h) f
  on_cmd-Filtered now snapshot r f = f

  on_app-Filtered :
      (now : ℕ) (e : AppEvent S) (r : Run S w.Sender) → Filtered w r → Filtered w (on_app w now e r)
  unfolding on_app
  on_app-Filtered now (opened id s) r f = Narrows-Filtered w _ _ (on_opened-Narrows w now r id s) f
  on_app-Filtered now (closed id) r f = Narrows-Filtered w _ _ (on_closed-Narrows w now r id) f
  on_app-Filtered now (app_frame id c) r f = on_frame-Filtered now id c r f

  on_link-Filtered :
      (now : ℕ) (e : LinkEvent) (r : Run S w.Sender) → Filtered w r → Filtered w (on_link w now e r)
  unfolding on_link
  on_link-Filtered now (link_up x) r f = on_link_up-Filtered now x r f
  on_link-Filtered now (link_failed e) r f =
      Narrows-Filtered w _ _ (on_link_failed-Narrows w now r e) f
  on_link-Filtered now backoff_over r f = Narrows-Filtered w _ _ (on_backoff_over-Narrows w now r) f

module _ (a : Channel Bytes) (w : Channel WriterMsg) where
  Step-Filtered : {r s : Run a.Sender w.Sender} → Step a w r s → Filtered w r → Filtered w s
  Step-Filtered {r} (app_step now e ready) f = on_app-Filtered w now e r f
  Step-Filtered {r} (tnc_step now e) f = Narrows-Filtered w _ _ (on_tnc-Narrows a now e r) f
  Step-Filtered {r} (cmd_step now c) f = on_cmd-Filtered w now c r f
  Step-Filtered {r} (link_step now e h) f = on_link-Filtered w now e r f
  Step-Filtered {r} (idle_step now h) f = Narrows-Filtered w _ _ (on_idle_elapsed-Narrows w now r) f
  Step-Filtered {r} (writer_step s s' e (taken, q)) f = record {
    waiting = f.waiting;
    sent =
        (All-of_append MessageMayPass taken (w.queued s')
          (subst (All MessageMayPass) q (subst (WriterMayPass w) e f.sent))).1;
  }
  Step-Filtered {r} (session_step m d) f = record { waiting = f.waiting; sent = f.sent }

  Reach-Filtered : {r s : Run a.Sender w.Sender} → Reach a w r s → Filtered w r → Filtered w s
  Reach-Filtered here f = f
  Reach-Filtered (then_step h t) f = Step-Filtered t (Reach-Filtered h f)

-- In every state that a bridge can reach, under whatever settings and changes of settings, each
-- frame that waits for the link and each frame in the writer's queue is one that the filter lets
-- pass under one setting at least: a frame that is never allowed gets neither to the TNC nor into
-- the line for it.
pub Reach-initial-Filtered :
    (a : Channel Bytes) (w : Channel WriterMsg) (connector : String) (settings : TncSettings)
    (hub : Option Hub) (now : ℕ) (r : Run a.Sender w.Sender)
    → Reach a w (begin now (initial connector settings hub now)) r
    → Filtered w r
unfolding begin initial start_connect
Reach-initial-Filtered a w connector settings hub now r h = Reach-Filtered a w h (ground arith)
