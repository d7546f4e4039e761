-- ===== src/Bridge/Writer.antt =====
-- src/bridge/mod.rs: `writer_task`, which puts what the bridge hands it on the link to the TNC. The
-- link takes so many writes, and the one behind them fails; the task ends at the first that fails,
-- so that none comes after it.
pub mod Written
pub mod Teardown
use kiss_tnc_bridge.Prelude.{
  ℕ, zero, suc, ◌+◌, Bool, true, false, List, [], ◌∷◌, ◌++◌, Option, none, some, ltb, if◌then◌else◌,
}
use kiss_tnc_bridge.Prelude.Text.{Bytes}
use kiss_tnc_bridge.Kiss.Stream.{write_frame}
use kiss_tnc_bridge.Bridge.State.{WriterMsg, frame_msg, exit_kiss_msg}

-- What the task does: a write that succeeds, a pause of `TEARDOWN_GAP`, or a shutdown of the link.
pub data LinkOp : Type 0 where
  wrote : Bytes → LinkOp
  paused shut : LinkOp

-- The loop over the steps, from the `i`-th one on: what it does, and the writes that the link still
-- takes afterwards, if none failed.
unfoldable pub write_steps : ℕ → ℕ → List Bytes → List LinkOp × Option ℕ
write_steps i n [] = ([], some n)
write_steps i zero (step ∷ steps) = (if ltb 0 i then paused ∷ [] else [], none)
write_steps i (suc n) (step ∷ steps) =
    let rest = write_steps (i + 1) n steps in
    ((if ltb 0 i then paused ∷ [] else []) ++ wrote step ∷ rest.0, rest.1)

-- The messages are those that come before the bridge drops its sender; the answer says whether the
-- bridge is told that the link is closed.
unfoldable pub writer_task : ℕ → Bool → List WriterMsg → List LinkOp × Bool
unfolding write_steps write_frame
writer_task n exited [] = ((if exited then paused ∷ [] else []) ++ shut ∷ [], false)
writer_task zero exited (frame_msg f ∷ ms) = ([], true)
writer_task (suc n) exited (frame_msg f ∷ ms) =
    let rest = writer_task n exited ms in (wrote (write_frame f) ∷ rest.0, rest.1)
writer_task n exited (exit_kiss_msg steps ∷ ms) =
    let wrote_steps = write_steps 0 n steps in
    elim wrote_steps.1 [
      | none ↦ (wrote_steps.0, false)
      | some m ↦ let rest = writer_task m true ms in (wrote_steps.0 ++ rest.0, rest.1)
    ]
