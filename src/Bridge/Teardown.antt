-- ===== src/Bridge/Teardown.antt =====
-- src/bridge/mod.rs: leaving a connected link, and the writer's queue behind it.
use mathlib.Core.List.{append-nil}
use kiss_tnc_bridge.Prelude.{
  ℕ, ◌<◌, Bool, true, false, List, [], ◌∷◌, ◌++◌, ◌≡◌, refl, sym, some, if◌then◌else◌,
}
use kiss_tnc_bridge.Prelude.Text.{Bytes}
use kiss_tnc_bridge.Bridge.Channel.{Channel}
use kiss_tnc_bridge.Bridge.State.{Run, connected_link, WriterMsg, exit_kiss_msg}
use kiss_tnc_bridge.Bridge.Link.{send_teardown, left_writer, disconnect}

-- The steps out of KISS mode that are to be taken, as the settings say.
abbrev pub way_out : {S W : Type 0} → Run S W → List Bytes
way_out r = if r.settings.exit_kiss_on_disconnect then r.exit_kiss else []

-- The message for them, if there are any.
abbrev pub teardown : List Bytes → List WriterMsg
teardown [] = []
teardown (step ∷ steps) = exit_kiss_msg (step ∷ steps) ∷ []

module _ (w : Channel WriterMsg) where
  queued-send_teardown :
      (wanted : Bool) (steps : List Bytes) (s : w.Sender)
      → w.is_open s ≡ true
      → 0 < w.capacity s
      → w.queued (send_teardown w wanted steps s)
        ≡ w.queued s ++ teardown (if wanted then steps else [])
  unfolding send_teardown
  queued-send_teardown true [] s o room = sym (append-nil (w.queued s))
  queued-send_teardown false [] s o room = sym (append-nil (w.queued s))
  queued-send_teardown false (step ∷ steps) s o room = sym (append-nil (w.queued s))
  queued-send_teardown true (step ∷ steps) s o room =
      let (s', taken) = w.try_send_room s (exit_kiss_msg (step ∷ steps)) o room in
      rw (send_teardown, taken) (w.try_send-queued s s' (exit_kiss_msg (step ∷ steps)) taken)

  -- The writer of a connected link is left with the frames it had, and the way out behind them.
  pub disconnect-teardown :
      {S : Type 0} (now : ℕ) (r : Run S w.Sender) (s : w.Sender)
      → r.link ≡ connected_link
      → r.writer_tx ≡ some s
      → w.is_open s ≡ true
      → 0 < w.capacity s
      → (s' : w.Sender) × ((disconnect w now r).1 ≡ some s')
        × (w.queued s' ≡ w.queued s ++ teardown (way_out r))
  unfolding disconnect left_writer
  disconnect-teardown now r s l t o room = (
    send_teardown w r.settings.exit_kiss_on_disconnect r.exit_kiss s,
    rw (l, t) refl,
    queued-send_teardown r.settings.exit_kiss_on_disconnect r.exit_kiss s o room,
  )
