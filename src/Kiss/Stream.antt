-- ===== src/Kiss/Stream.antt =====
-- src/port/stream.rs: reading and writing KISS frames on a byte stream, and the task that reads a
-- TNC's link (`reader_task` of src/bridge/mod.rs). The stream itself is the list of what its reads
-- return.
pub mod Delivery
use kiss_tnc_bridge.Prelude.{ℕ, zero, suc, ◌≡◌, List, [], ◌∷◌, ◌++◌, Option, none, some}
use kiss_tnc_bridge.Prelude.Text.{Bytes}
use kiss_tnc_bridge.Kiss.Frame.{fend}
use kiss_tnc_bridge.Kiss.Buffer.{Reassembly, Pushed, accepted, overflowed, new, push, drain_frames}

abbrev pub max_frame_bytes : ℕ
max_frame_bytes = 8192

-- `KissReader`; the scratch buffer `buf` bounds a read at 2048 bytes.
pub record KissReader : Type 0 where
  pub reassembly : Reassembly
  pub pending : List Bytes

abbrev pub read_size : ℕ
read_size = 2048

pub with_max_frame : ℕ → KissReader
unfolding new
with_max_frame max_frame = record { reassembly = new max_frame; pending = [] }

unfoldable pub new_reader : KissReader
unfolding with_max_frame
new_reader = with_max_frame max_frame_bytes

-- What one `read` returns: bytes, none of them at the end of the stream, or an I/O error.
pub data Read : Type 0 where
  chunk : Bytes → Read
  io_error : Read

pub data ReadError : Type 0 where
  link_closed buffer_overflow io : ReadError

-- `waiting` stands for a read that has not returned.
pub data Next : Type 0 where
  frame : Bytes → Next
  failed : ReadError → Next
  waiting : Next

pub record Took : Type 0 where
  pub result : Next
  pub reader : KissReader
  pub unread : List Read

-- The loop of `read_frame`, with `pending` and `reassembly` as its variables.
pub read_loop : List Bytes → Reassembly → List Read → Took
read_loop (f ∷ fs) r reads = record {
  result = frame f;
  reader = record { reassembly = r; pending = fs };
  unread = reads;
}
read_loop [] r [] = record {
  result = waiting;
  reader = record { reassembly = r; pending = [] };
  unread = [];
}
read_loop [] r (io_error ∷ reads) = record {
  result = failed io;
  reader = record { reassembly = r; pending = [] };
  unread = reads;
}
read_loop [] r (chunk [] ∷ reads) = record {
  result = failed link_closed;
  reader = record { reassembly = r; pending = [] };
  unread = reads;
}
read_loop [] r (chunk (b ∷ bs) ∷ reads) =
    let pushed = push r (b ∷ bs) in
    elim pushed.1 [
      | accepted ↦ read_loop (drain_frames pushed.0).0 (drain_frames pushed.0).1 reads
      | overflowed ↦ record {
        result = failed buffer_overflow;
        reader = record { reassembly = pushed.0; pending = [] };
        unread = reads;
      }
    ]

unfoldable pub read_frame : KissReader → List Read → Took
unfolding read_loop push drain_frames
read_frame k reads = read_loop k.pending k.reassembly reads

-- `reader_task`: frames are handed on until a read fails; `none` if it never does. The first
-- argument bounds the rounds of its loop.
unfoldable pub reader_task : ℕ → KissReader → List Read → List Bytes × Option ReadError
unfolding read_frame
reader_task zero k reads = ([], none)
reader_task (suc n) k reads =
    let took = read_frame k reads in
    elim took.result [
      | frame f ↦ let rest = reader_task n took.reader took.unread in (f ∷ rest.0, rest.1)
      | failed e ↦ ([], some e)
      | waiting ↦ ([], none)
    ]

-- What `write_frame` hands to one `write_all`.
unfoldable pub write_frame : Bytes → Bytes
write_frame raw = fend ∷ (raw ++ fend ∷ [])
