-- ===== src/Kiss/Buffer.antt =====
-- src/kiss/buffer.rs: the reassembly buffer between a byte stream and whole frames.
pub mod Receiver
pub mod Refines
pub mod Chunks
use kiss_tnc_bridge.Prelude.{
  ℕ, ◌+◌, ◌-◌, Bool, true, false, ◌||◌, ◌&&◌, Option, none, some, List, [], ◌∷◌, ◌++◌, ltb, ◌==◌,
  if◌then◌else◌, length, take, drop, is_some,
}
use kiss_tnc_bridge.Prelude.Text.{Bytes}
use kiss_tnc_bridge.Kiss.Frame.{fend}

-- `KissReassemblyBuffer`
pub record Reassembly : Type 0 where
  pub buf : Bytes
  pub max_size : ℕ
  pub in_frame : Bool

unfoldable pub new : ℕ → Reassembly
new max_size = record { buf = []; max_size = max_size; in_frame = false }

-- `Ok(())`, or the error "reassembly buffer overflow".
pub data Pushed : Type 0 where
  accepted overflowed : Pushed

unfoldable pub push : Reassembly → Bytes → Reassembly × Pushed
push r chunk =
    if ltb r.max_size (length r.buf + length chunk)
    then (record r { buf = []; in_frame = false }, overflowed)
    else (record r { buf = r.buf ++ chunk }, accepted)

-- The local variables of `drain_frames`.
pub record Drain : Type 0 where
  pub frames : List Bytes
  pub frame_start : Option ℕ
  pub last_consumed : ℕ

-- `self.buf[s..i]`
abbrev pub slice : Bytes → ℕ → ℕ → Bytes
slice buf s i = take (i - s) (drop s buf)

-- The frame that a FEND at `i` closes, if one is open and not empty.
pub closed_frame : Bytes → ℕ → Option ℕ → List Bytes
closed_frame buf i none = []
closed_frame buf i (some s) = if ltb s i then slice buf s i ∷ [] else []

-- The body of the `for` loop at index `i`, where the byte `b` stands.
pub drain_byte : Bytes → ℕ → ℕ → Drain → Drain
drain_byte buf i b d =
    if b == fend
    then record {
      frames = d.frames ++ closed_frame buf i d.frame_start;
      frame_start = some (i + 1);
      last_consumed = i + 1;
    }
    else d

-- The `for` loop from index `i` on; the third argument is `self.buf[i..]`.
pub drain_loop : Bytes → ℕ → Bytes → Drain → Drain
drain_loop buf i [] d = d
drain_loop buf i (b ∷ rest) d = drain_loop buf (i + 1) rest (drain_byte buf i b d)

pub drain_start : Reassembly → Drain
drain_start r = record {
  frames = [];
  frame_start = if r.in_frame then some 0 else none;
  last_consumed = 0;
}

-- What is left in the buffer behind the loop.
pub drain_end : Reassembly → Drain → Reassembly
drain_end r d = record r {
  buf = if ltb 0 d.last_consumed then drop d.last_consumed r.buf else r.buf;
  in_frame = if ltb 0 d.last_consumed || is_some d.frame_start then true else r.in_frame;
}

unfoldable pub drain_frames : Reassembly → List Bytes × Reassembly
unfolding closed_frame drain_byte drain_loop drain_start drain_end
drain_frames r = let d = drain_loop r.buf 0 r.buf (drain_start r) in (d.frames, drain_end r d)
