-- ===== src/Bridge/Writer/Written.antt =====
-- src/bridge/mod.rs: what the writer's task puts on a link, and where it stops.
use kiss_tnc_bridge.Prelude.{
  ℕ, zero, suc, ◌+◌, Bool, true, false, List, [], ◌∷◌, ◌++◌, Option, none, some, length, take, ltb,
  leb, ◌≡◌, refl, ◌∙◌, arith,
}
use kiss_tnc_bridge.Prelude.Text.{Bytes}
use kiss_tnc_bridge.Kiss.Stream.{write_frame}
use kiss_tnc_bridge.Bridge.State.{WriterMsg, frame_msg, exit_kiss_msg}
use kiss_tnc_bridge.Bridge.Writer.{LinkOp, wrote, paused, shut, write_steps, writer_task}

abbrev pub written : List LinkOp → List Bytes
written [] = []
written (wrote b ∷ ops) = b ∷ written ops
written (paused ∷ ops) = written ops
written (shut ∷ ops) = written ops

abbrev pub is_shut : List LinkOp → Bool
is_shut [] = false
is_shut (shut ∷ ops) = true
is_shut (paused ∷ ops) = is_shut ops
is_shut (wrote b ∷ ops) = is_shut ops

-- The writes that the messages ask for; those of frames are marked.
abbrev pub steps_of : List Bytes → List (Bool × Bytes)
steps_of [] = []
steps_of (step ∷ steps) = (false, step) ∷ steps_of steps

unfoldable pub asked_for : List WriterMsg → List (Bool × Bytes)
unfolding write_frame
asked_for [] = []
asked_for (frame_msg f ∷ ms) = (true, write_frame f) ∷ asked_for ms
asked_for (exit_kiss_msg steps ∷ ms) = steps_of steps ++ asked_for ms

abbrev pub bytes_of : List (Bool × Bytes) → List Bytes
bytes_of [] = []
bytes_of (w ∷ ws) = w.1 ∷ bytes_of ws

-- Whether the write that fails, if there is one, is that of a frame.
abbrev pub fails_at_frame : ℕ → List (Bool × Bytes) → Bool
fails_at_frame n [] = false
fails_at_frame zero (w ∷ ws) = w.0
fails_at_frame (suc n) (w ∷ ws) = fails_at_frame n ws

-- What is said of the task's work, where `n` writes succeed and `ws` are asked for.
record Done (n : ℕ) (ws : List (Bool × Bytes)) (ops : List LinkOp) (told : Bool) : Type 0 where
  pub prefix : written ops ≡ take n (bytes_of ws)
  pub told_of : told ≡ fails_at_frame n ws
  pub shut_if : is_shut ops ≡ leb (length ws) n

wrote_first :
    (n : ℕ) (ws : List (Bool × Bytes)) (ops : List LinkOp) (told : Bool) (w : Bool × Bytes)
    → Done n ws ops told
    → Done (suc n) (w ∷ ws) (wrote w.1 ∷ ops) told
wrote_first n ws ops told w d = record {
  prefix = rw d.prefix;
  told_of = d.told_of;
  shut_if = d.shut_if ∙ ground arith;
}

paused_first :
    (n : ℕ) (ws : List (Bool × Bytes)) (ops : List LinkOp) (told : Bool)
    → Done n ws ops told
    → Done n ws (paused ∷ ops) told
paused_first n ws ops told d = record {
  prefix = d.prefix;
  told_of = d.told_of;
  shut_if = d.shut_if;
}

-- What is done behind the steps, where all of them were written.
abbrev then_after : List LinkOp × Option ℕ → (ℕ → List LinkOp × Bool) → List LinkOp × Bool
then_after w k = elim w.1 [ none ↦ (w.0, false) | some m ↦ (w.0 ++ (k m).0, (k m).1) ]

abbrev DoneAll : ℕ → List (Bool × Bytes) → List LinkOp × Bool → Type 0
DoneAll n ws r = Done n ws r.0 r.1

op_first :
    (n : ℕ) (ws : List (Bool × Bytes)) (k : ℕ → List LinkOp × Bool) (op : LinkOp)
    (w : List LinkOp × Option ℕ)
    → Done n ws (op ∷ (then_after w k).0) (then_after w k).1
    → DoneAll n ws (then_after (op ∷ w.0, w.1) k)
op_first n ws k op (ops, none) d = d
op_first n ws k op (ops, some m) d = d

behind_first : (i : ℕ) → ltb 0 (suc i) ≡ true
behind_first i = ground arith

write_steps-Done :
    (steps : List Bytes) (i n : ℕ) (ws : List (Bool × Bytes)) (k : ℕ → List LinkOp × Bool)
    → ((m : ℕ) → DoneAll m ws (k m))
    → DoneAll n (steps_of steps ++ ws) (then_after (write_steps i n steps) k)
unfolding write_steps
write_steps-Done [] i n ws k h = h n
write_steps-Done (step ∷ steps) zero zero ws k h = record {
  prefix = refl;
  told_of = refl;
  shut_if = ground arith;
}
write_steps-Done (step ∷ steps) (suc i) zero ws k h =
    rw (behind_first i) (record { prefix = refl; told_of = refl; shut_if = ground arith })
write_steps-Done (step ∷ steps) zero (suc n) ws k h =
    let rest = write_steps 1 n steps in
    op_first (suc n) _ k (wrote step) rest
      (wrote_first n _ _ _ (false, step) (write_steps-Done steps 1 n ws k h))
write_steps-Done (step ∷ steps) (suc i) (suc n) ws k h =
    let rest = write_steps (suc i + 1) n steps in
    rw (behind_first i) (
      op_first (suc n) _ k paused (wrote step ∷ rest.0, rest.1)
        (paused_first (suc n) _ _ _ (
          op_first (suc n) _ k (wrote step) rest
            (wrote_first n _ _ _ (false, step) (write_steps-Done steps (suc i + 1) n ws k h)))))

take_nil : (n : ℕ) → [] ≡ take {A = Bytes} n []
take_nil zero = refl
take_nil (suc n) = refl

writer_task-Done :
    (ms : List WriterMsg) (n : ℕ) (exited : Bool)
    → DoneAll n (asked_for ms) (writer_task n exited ms)
unfolding writer_task asked_for
writer_task-Done [] n true = record { prefix = take_nil n; told_of = refl; shut_if = ground arith }
writer_task-Done [] n false = record { prefix = take_nil n; told_of = refl; shut_if = ground arith }
writer_task-Done (frame_msg f ∷ ms) zero exited = record {
  prefix = refl;
  told_of = refl;
  shut_if = ground arith;
}
writer_task-Done (frame_msg f ∷ ms) (suc n) exited =
    wrote_first n _ _ _ (true, write_frame f) (writer_task-Done ms n exited)
writer_task-Done (exit_kiss_msg steps ∷ ms) n exited =
    write_steps-Done steps 0 n (asked_for ms) (λ m. writer_task m true ms)
      (λ m. writer_task-Done ms m true)

-- On a link that takes `n` writes and then fails, the task writes the first `n` of the writes that
-- its messages ask for, in order, and nothing else; it tells the bridge of a closed link exactly if
-- the write that fails is that of a frame; and it shuts the link down exactly if none fails.
pub writer_task-written :
    (ms : List WriterMsg) (n : ℕ)
    → (written (writer_task n false ms).0 ≡ take n (bytes_of (asked_for ms)))
      × ((writer_task n false ms).1 ≡ fails_at_frame n (asked_for ms))
      × (is_shut (writer_task n false ms).0 ≡ leb (length (asked_for ms)) n)
writer_task-written ms n = let d = writer_task-Done ms n false in (d.prefix, d.told_of, d.shut_if)
