-- ===== src/Bridge/Writer/Teardown.antt =====
-- src/bridge/mod.rs: `disconnect` and the writer's task together.
use kiss_tnc_bridge.Prelude.{
  ℕ, zero, suc, ◌+◌, ◌≤◌, ◌<◌, Bool, true, false, List, [], ◌∷◌, ◌++◌, some, map, length, take, ◌≡◌,
  refl, ap, ◌∙◌, arith,
}
use kiss_tnc_bridge.Prelude.Text.{Bytes}
use kiss_tnc_bridge.Kiss.Stream.{write_frame}
use kiss_tnc_bridge.Bridge.Channel.{Channel}
use kiss_tnc_bridge.Bridge.State.{Run, connected_link, WriterMsg, frame_msg}
use kiss_tnc_bridge.Bridge.Link.{disconnect}
use kiss_tnc_bridge.Bridge.Teardown.{way_out, teardown, disconnect-teardown}
use kiss_tnc_bridge.Bridge.Writer.{writer_task}
use kiss_tnc_bridge.Bridge.Writer.Written.{
  written, is_shut, steps_of, asked_for, bytes_of, fails_at_frame, writer_task-written,
}

-- The frames of the messages, and the way out of KISS mode behind them, if there is one.
abbrev pub parting : List Bytes → List Bytes → List WriterMsg
parting fs steps = map frame_msg fs ++ teardown steps

-- The frames as they are written, and the steps.
abbrev pub parting_bytes : List Bytes → List Bytes → List Bytes
parting_bytes [] steps = steps
parting_bytes (f ∷ fs) steps = write_frame f ∷ parting_bytes fs steps

bytes_of-steps_of : (steps : List Bytes) → bytes_of (steps_of steps ++ []) ≡ steps
bytes_of-steps_of [] = refl
bytes_of-steps_of (step ∷ steps) = rw (bytes_of-steps_of steps)

bytes_of-asked_for :
    (fs steps : List Bytes) → bytes_of (asked_for (parting fs steps)) ≡ parting_bytes fs steps
unfolding asked_for
bytes_of-asked_for [] [] = refl
bytes_of-asked_for [] (step ∷ steps) = bytes_of-steps_of (step ∷ steps)
bytes_of-asked_for (f ∷ fs) steps = rw (bytes_of-asked_for fs steps)

length-steps_of : (steps : List Bytes) → length (steps_of steps ++ []) ≡ length steps
length-steps_of [] = refl
length-steps_of (step ∷ steps) = omega (arith, length-steps_of steps)

length-asked_for :
    (fs steps : List Bytes) → length (asked_for (parting fs steps)) ≡ length fs + length steps
unfolding asked_for
length-asked_for [] [] = refl
length-asked_for [] (step ∷ steps) = omega (arith, length-steps_of (step ∷ steps))
length-asked_for (f ∷ fs) steps = omega (arith, length-asked_for fs steps)

take_all : (n : ℕ) (ws : List (Bool × Bytes)) → length ws ≤ n → take n (bytes_of ws) ≡ bytes_of ws
take_all zero [] h = refl
take_all (suc n) [] h = refl
take_all zero (w ∷ ws) h = absurd (omega (arith, h))
take_all (suc n) (w ∷ ws) h = rw (take_all n ws (omega (arith, h)))

fails_at_frame_all :
    (n : ℕ) (ws : List (Bool × Bytes)) → length ws ≤ n → fails_at_frame n ws ≡ false
fails_at_frame_all n [] h = refl
fails_at_frame_all zero (w ∷ ws) h = absurd (omega (arith, h))
fails_at_frame_all (suc n) (w ∷ ws) h = fails_at_frame_all n ws (omega (arith, h))

writer_task-parting :
    (n : ℕ) (fs steps : List Bytes)
    → length fs + length steps ≤ n
    → (written (writer_task n false (parting fs steps)).0 ≡ parting_bytes fs steps)
      × ((writer_task n false (parting fs steps)).1 ≡ false)
      × (is_shut (writer_task n false (parting fs steps)).0 ≡ true)
writer_task-parting n fs steps h =
    let ws = asked_for (parting fs steps) in
    let (bytes, told, down) = writer_task-written (parting fs steps) n in
    let fits : length ws ≤ n = omega (arith, length-asked_for fs steps, h) in
    (
      bytes ∙ take_all n ws fits ∙ bytes_of-asked_for fs steps,
      told ∙ fails_at_frame_all n ws fits,
      down ∙ ground (arith, fits),
    )

module _ {S : Type 0} (w : Channel WriterMsg) (now : ℕ) (r : Run S w.Sender) where
  -- After the disconnection of a connected link whose writer can take a message and has only frames
  -- in its queue, on a link that takes the writes, the writer's task writes all these frames and
  -- behind them each step of the way out of KISS mode, if the settings ask for it and there are
  -- any, in order and nothing else; it tells the bridge of no loss, and shuts the link down.
  pub writer_task-disconnect :
      (s : w.Sender) (fs : List Bytes) (n : ℕ)
      → r.link ≡ connected_link
      → r.writer_tx ≡ some s
      → w.is_open s ≡ true
      → 0 < w.capacity s
      → w.queued s ≡ map frame_msg fs
      → length fs + length (way_out r) ≤ n
      → (s' : w.Sender) × ((disconnect w now r).1 ≡ some s')
        × (written (writer_task n false (w.queued s')).0 ≡ parting_bytes fs (way_out r))
        × ((writer_task n false (w.queued s')).1 ≡ false)
        × (is_shut (writer_task n false (w.queued s')).0 ≡ true)
  writer_task-disconnect s fs n l t o room q h =
      let d = disconnect-teardown w now r s l t o room in
      let p = writer_task-parting n fs (way_out r) h in
      let queue = d.2 ∙ ap (λ ms. ms ++ teardown (way_out r)) q in
      (d.0, d.1, rw queue p.0, rw queue p.1, rw queue p.2)
