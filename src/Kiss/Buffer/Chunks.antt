-- ===== src/Kiss/Buffer/Chunks.antt =====
-- src/kiss/buffer.rs: how a stream is cut into chunks does not matter to the frames that come out.
use mathlib.Core.List.{append-nil, append_assoc}
use kiss_tnc_bridge.Prelude.{
  ℕ, ◌+◌, ◌≤◌, ◌<◌, true, List, [], ◌∷◌, ◌++◌, ◌≡◌, ◌≢◌, refl, sym, ◌∙◌, ltb, ◌==◌, length, arith,
  length-append, leb, is_nil, not, ◌&&◌, All, All-append, Bool-cases, inl, inr,
}
use kiss_tnc_bridge.Prelude.Text.{Bytes}
use kiss_tnc_bridge.Kiss.Frame.{fend}
use kiss_tnc_bridge.Kiss.Frame.Stuffing.{NoFend}
use kiss_tnc_bridge.Kiss.Buffer.Receiver.{
  Receiver, next, emitted, frames_of, state_of, frames_of-append, state_of-append,
}
use kiss_tnc_bridge.Kiss.Buffer.Refines.{receiver, drain_frames-receiver}
use kiss_tnc_bridge.Kiss.Buffer.{Reassembly, accepted, push, drain_frames, new}

-- One `push` of a chunk, and `drain_frames` behind it.
unfoldable pub receive : Reassembly → Bytes → List Bytes × Reassembly
receive r chunk = drain_frames (push r chunk).0

pub next_plain :
    (s : Receiver) (b : ℕ)
    → b ≢ fend
    → (emitted s b ≡ []) × (next s b ≡ record s { part = s.part ++ b ∷ [] })
next_plain s b h = ground arith

pub NoFend-run :
    (s : Receiver) (xs : Bytes)
    → NoFend xs
    → (frames_of s xs ≡ []) × (state_of s xs ≡ record s { part = s.part ++ xs })
NoFend-run s [] n = (refl, λ i. record s { part = sym (append-nil s.part) i })
NoFend-run s (b ∷ xs) n =
    let (e, k) = next_plain s b n.0 in
    let (f, g) = NoFend-run (record s { part = s.part ++ b ∷ [] }) xs n.1 in
    (rw (e, k) f, rw k (g ∙ λ i. record s { part = append_assoc s.part (b ∷ []) xs i }))

next-NoFend : (s : Receiver) (b : ℕ) → NoFend s.part → NoFend (next s b).part
next-NoFend s b n = elim (Bool-cases (b == fend)) [
  | inl e ↦ rw e tt
  | inr e ↦ rw e (All-append _ s.part (b ∷ []) n (ground arith))
]

state_of-NoFend : (s : Receiver) (xs : Bytes) → NoFend s.part → NoFend (state_of s xs).part
state_of-NoFend s [] n = n
state_of-NoFend s (b ∷ xs) n = state_of-NoFend (next s b) xs (next-NoFend s b n)

pub length-state_of :
    (s : Receiver) (xs : Bytes) → length (state_of s xs).part ≤ length s.part + length xs
length-state_of s [] = omega arith
length-state_of s (b ∷ xs) =
    ground (arith, length-state_of (next s b) xs, length-append s.part (b ∷ []))

-- What the buffer holds between calls: never more than its limit, and no delimiter.
pub record IsValid (r : Reassembly) : Type 0 where
  pub within : length r.buf ≤ r.max_size
  pub no_fend : NoFend r.buf

abbrev pub with_state : Reassembly → Receiver → Reassembly
with_state r s = record r { buf = s.part; in_frame = s.inside }

-- While nothing overflows, a chunk is received as the byte-wise receiver takes it.
pub receive-receiver :
    (r : Reassembly) (chunk : Bytes)
    → IsValid r
    → length r.buf + length chunk ≤ r.max_size
    → receive r chunk ≡ (frames_of (receiver r) chunk, with_state r (state_of (receiver r) chunk))
unfolding receive push
receive-receiver r chunk v h =
    let (f, g) = NoFend-run (record { inside = r.in_frame; part = [] }) r.buf v.no_fend in
    let pushed : push r chunk ≡ (record r { buf = r.buf ++ chunk }, accepted) = ground arith in
    rw pushed (
      drain_frames-receiver (record r { buf = r.buf ++ chunk })
      ∙ rw (frames_of-append _ r.buf chunk, state_of-append _ r.buf chunk) (rw (f, g) refl))

with_state-IsValid :
    (r : Reassembly) (chunk : Bytes)
    → IsValid r
    → length r.buf + length chunk ≤ r.max_size
    → IsValid (with_state r (state_of (receiver r) chunk))
with_state-IsValid r chunk v h = record {
  within = omega (arith, length-state_of (receiver r) chunk);
  no_fend = state_of-NoFend (receiver r) chunk v.no_fend;
}

-- A chunk that does not fit leaves the buffer as a new one.
pub receive_overflow :
    (r : Reassembly) (chunk : Bytes)
    → r.max_size < length r.buf + length chunk
    → receive r chunk ≡ ([], new r.max_size)
unfolding receive push new
receive_overflow r chunk h =
    let full : ltb r.max_size (length r.buf + length chunk) ≡ true = ground arith in
    rw full (drain_frames-receiver (new r.max_size))

pub new-IsValid : (n : ℕ) → IsValid (new n)
unfolding new
new-IsValid n = omega arith

-- Frames as the bridge passes them on: not empty, and with no delimiter inside.
abbrev pub IsFrame : Bytes → Type 0
IsFrame f = (f ≢ []) × NoFend f

emitted-IsFrame : (s : Receiver) (b : ℕ) → NoFend s.part → All IsFrame (emitted s b)
emitted-IsFrame s b n = elim (Bool-cases (b == fend && s.inside && not (is_nil s.part))) [
  | inl e ↦ rw e (((λ z. ground arith), n), tt)
  | inr e ↦ rw e tt
]

frames_of-IsFrame : (s : Receiver) (xs : Bytes) → NoFend s.part → All IsFrame (frames_of s xs)
frames_of-IsFrame s [] n = tt
frames_of-IsFrame s (b ∷ xs) n =
    All-append _ (emitted s b) _ (emitted-IsFrame s b n)
      (frames_of-IsFrame (next s b) xs (next-NoFend s b n))

-- Whatever arrives, in any state: the buffer stays valid, and each frame that comes out is not empty
-- and has no FEND in it.
pub receive-IsValid :
    (r : Reassembly) (chunk : Bytes)
    → IsValid r
    → IsValid (receive r chunk).1 × All IsFrame (receive r chunk).0
receive-IsValid r chunk v = elim (Bool-cases (leb (length r.buf + length chunk) r.max_size)) [
  | inl fits ↦
      rw (receive-receiver r chunk v (ground arith)) (
        with_state-IsValid r chunk v (ground arith),
        frames_of-IsFrame (receiver r) chunk v.no_fend,
      )
  | inr over ↦ rw (receive_overflow r chunk (ground arith)) (new-IsValid r.max_size, tt)
]

-- A stream may be cut anywhere: two chunks one after the other give the frames of the chunks
-- together, in the same order, and leave the same buffer, if they fit together.
pub receive-append :
    (r : Reassembly) (x y : Bytes)
    → IsValid r
    → length r.buf + (length x + length y) ≤ r.max_size
    → let first = receive r x in
      let second = receive first.1 y in
      (first.0 ++ second.0 ≡ (receive r (x ++ y)).0) × (second.1 ≡ (receive r (x ++ y)).1)
receive-append r x y v h =
    let fits : length r.buf + length x ≤ r.max_size = omega arith in
    let part = length-state_of (receiver r) x in
    let whole = receive-receiver r (x ++ y) v (omega (arith, length-append x y)) in
    rw (receive-receiver r x v fits, whole)
      (rw
        (receive-receiver (with_state r (state_of (receiver r) x)) y (with_state-IsValid r x v fits)
          (omega (arith, part)))
        (
          sym (frames_of-append (receiver r) x y),
          λ i. with_state r (sym (state_of-append (receiver r) x y) i),
        ))
