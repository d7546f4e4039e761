-- ===== src/Bridge/Tests/Writer.antt =====
-- The writer's task of a link, up to its end.
use kiss_tnc_bridge.Prelude.{
  true, false, List, [], ◌∷◌, none, some, take, length, leb, ◌≡◌, refl, arith,
}
use kiss_tnc_bridge.Prelude.Text.{Bytes}
use kiss_tnc_bridge.Bridge.State.{Run, connected_link, WriterMsg, frame_msg, exit_kiss_msg}
use kiss_tnc_bridge.Bridge.Link.{disconnect}
use kiss_tnc_bridge.Bridge.Run.{initial}
use kiss_tnc_bridge.Bridge.Writer.{wrote, paused, shut, writer_task}
use kiss_tnc_bridge.Bridge.Writer.Written.{
  written, is_shut, asked_for, bytes_of, fails_at_frame, writer_task-written,
}
use kiss_tnc_bridge.Bridge.Writer.Teardown.{parting_bytes, writer_task-disconnect}
use kiss_tnc_bridge.Bridge.Tests.Setup.{to_link, Queue, settings}

abbrev parting_messages : List WriterMsg
parting_messages = frame_msg (0 ∷ 1 ∷ []) ∷ exit_kiss_msg ((192 ∷ []) ∷ (255 ∷ []) ∷ []) ∷ []

whole_parting : writer_task 9 false parting_messages ≡ (
  wrote (192 ∷ 0 ∷ 1 ∷ 192 ∷ [])
      ∷ wrote (192 ∷ [])
      ∷ paused
      ∷ wrote (255 ∷ [])
      ∷ paused
      ∷ shut
      ∷ [],
  false,
)
unfolding writer_task
whole_parting = refl

cut_parting :
    writer_task 2 false parting_messages
    ≡ (wrote (192 ∷ 0 ∷ 1 ∷ 192 ∷ []) ∷ wrote (192 ∷ []) ∷ paused ∷ [], false)
unfolding writer_task
cut_parting = refl

failed_frame : writer_task 0 false parting_messages ≡ ([], true)
unfolding writer_task
failed_frame = refl

writer_task-written_example :
    (written (writer_task 2 false parting_messages).0
      ≡ take 2 (bytes_of (asked_for parting_messages)))
    × ((writer_task 2 false parting_messages).1 ≡ fails_at_frame 2 (asked_for parting_messages))
    × (is_shut (writer_task 2 false parting_messages).0
        ≡ leb (length (asked_for parting_messages)) 2)
writer_task-written_example = writer_task-written parting_messages 2

abbrev working : Run (Queue Bytes) (Queue WriterMsg)
working = record (initial "spp" settings none 0) {
  link = connected_link;
  writer_tx = some (record { items = frame_msg (0 ∷ 1 ∷ []) ∷ []; room = 3 });
  exit_kiss = (192 ∷ 255 ∷ 192 ∷ []) ∷ [];
}

writer_task-disconnect_example :
    (s' : Queue WriterMsg) × ((disconnect to_link 80 working).1 ≡ some s')
    × (written (writer_task 2 false s'.items).0
        ≡ parting_bytes ((0 ∷ 1 ∷ []) ∷ []) ((192 ∷ 255 ∷ 192 ∷ []) ∷ []))
    × ((writer_task 2 false s'.items).1 ≡ false)
    × (is_shut (writer_task 2 false s'.items).0 ≡ true)
unfolding initial
writer_task-disconnect_example =
    writer_task-disconnect to_link 80 working
      (record { items = frame_msg (0 ∷ 1 ∷ []) ∷ []; room = 3 }) ((0 ∷ 1 ∷ []) ∷ []) 2 refl refl
      refl (omega arith) refl (omega arith)
