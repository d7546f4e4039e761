-- ===== src/Kiss/Stream/Delivery.antt =====
-- src/port/stream.rs: what one side writes the other side reads, however the bytes are cut.
use mathlib.Core.List.{append-nil, append_assoc}
use kiss_tnc_bridge.Prelude.{
  ℕ, suc, ◌+◌, ◌≤◌, true, false, List, [], ◌∷◌, ◌++◌, ◌≡◌, ◌≢◌, refl, sym, ◌∙◌, length, arith,
  length-append, All, some,
}
use kiss_tnc_bridge.Prelude.Text.{Bytes}
use kiss_tnc_bridge.Kiss.Frame.{fend}
use kiss_tnc_bridge.Kiss.Frame.Stuffing.{NoFend}
use kiss_tnc_bridge.Kiss.Buffer.Receiver.{
  Receiver, next, emitted, frames_of, state_of, frames_of-append,
}
use kiss_tnc_bridge.Kiss.Buffer.Refines.{receiver}
use kiss_tnc_bridge.Kiss.Buffer.Chunks.{
  IsFrame, IsValid, receive, receive-receiver, receive-IsValid, with_state, new-IsValid, NoFend-run,
  next_plain,
}
use kiss_tnc_bridge.Kiss.Buffer.{Reassembly, accepted, push, new}
use kiss_tnc_bridge.Kiss.Stream.{
  KissReader, Read, chunk, link_closed, frame, failed, Took, read_loop, read_frame, reader_task,
  write_frame, new_reader, max_frame_bytes, read_size,
}

-- The unfinished frame is never longer than `n`, at any byte of the stream.
abbrev Partials : ℕ → Receiver → Bytes → Type 0
Partials n s [] = length s.part ≤ n
Partials n s (b ∷ bs) = (length s.part ≤ n) × Partials n (next s b) bs

Partials-head : (n : ℕ) (s : Receiver) (w : Bytes) → Partials n s w → length s.part ≤ n
Partials-head n s [] p = p
Partials-head n s (b ∷ w) p = p.0

Partials-append :
    (n : ℕ) (s : Receiver) (xs ys : Bytes) → Partials n s (xs ++ ys) → Partials n (state_of s xs) ys
Partials-append n s [] ys p = p
Partials-append n s (b ∷ xs) ys p = Partials-append n (next s b) xs ys p.1

-- A stream that brings these chunks and then ends.
abbrev pub stream : List Bytes → List Read
stream [] = chunk [] ∷ []
stream (x ∷ xs) = chunk x ∷ stream xs

abbrev pub joined : List Bytes → Bytes
joined [] = []
joined (x ∷ xs) = x ++ joined xs

-- A read that returns brings a byte at least, and no more than the scratch buffer holds.
abbrev pub IsRead : Bytes → Type 0
IsRead x = (x ≢ []) × (length x ≤ read_size)

-- The longest frame for which no cut of the stream overflows the buffer.
abbrev pub safe_length : ℕ
safe_length = 6144

-- The reader still has the frames `fs` to give, and then the end of the stream.
record Owes (ps : List Bytes) (r : Reassembly) (xs fs : List Bytes) : Type 0 where
  valid : IsValid r
  limit : r.max_size ≡ max_frame_bytes
  reads : All IsRead xs
  partials : Partials safe_length (receiver r) (joined xs)
  owed : ps ++ frames_of (receiver r) (joined xs) ≡ fs

-- One chunk more is taken in.
Owes-chunk :
    (r : Reassembly) (x : Bytes) (xs fs : List Bytes)
    → Owes [] r (x ∷ xs) fs
    → (push r x ≡ (record r { buf = r.buf ++ x }, accepted))
      × Owes (receive r x).0 (receive r x).1 xs fs
unfolding push
Owes-chunk r x xs fs o = (
  ground (arith, room),
  record {
    valid = (receive-IsValid r x o.valid).0;
    limit = rw taken o.limit;
    reads = o.reads.1;
    partials = rw taken (Partials-append safe_length (receiver r) x (joined xs) o.partials);
    owed = rw taken (sym (frames_of-append (receiver r) x (joined xs)) ∙ o.owed);
  },
)
  where
    room : length r.buf + length x ≤ r.max_size
    room = omega (
      arith,
      o.limit,
      o.reads.0.1,
      Partials-head safe_length (receiver r) (x ++ joined xs) o.partials,
    )

    taken : receive r x ≡ (frames_of (receiver r) x, with_state r (state_of (receiver r) x))
    taken = receive-receiver r x o.valid room

abbrev Gives : Took → Bytes → List Bytes → Type 0
Gives t f fs =
    (t.result ≡ frame f)
    × ((xs : List Bytes) × (t.unread ≡ stream xs) × Owes t.reader.pending t.reader.reassembly xs fs)

read_loop-Gives :
    (xs ps : List Bytes) (r : Reassembly) (f : Bytes) (fs : List Bytes)
    → Owes ps r xs (f ∷ fs)
    → Gives (read_loop ps r (stream xs)) f fs
unfolding read_loop receive
read_loop-Gives xs (p ∷ ps) r f fs o = (
  ground (arith, o.owed),
  (
    xs,
    refl,
    record {
      valid = o.valid;
      limit = o.limit;
      reads = o.reads;
      partials = o.partials;
      owed = ground (arith, o.owed);
    },
  ),
)
read_loop-Gives [] [] r f fs o = absurd (ground (arith, o.owed))
read_loop-Gives ([] ∷ xs) [] r f fs o = absurd (o.reads.0.0 refl)
read_loop-Gives ((b ∷ bs) ∷ xs) [] r f fs o =
    let (taken, owes) = Owes-chunk r (b ∷ bs) xs (f ∷ fs) o in
    let accept : (push r (b ∷ bs)).1 ≡ accepted = rw taken refl in
    rw (accept, read_loop) (read_loop-Gives xs _ _ f fs owes)

read_loop_closed :
    (xs ps : List Bytes) (r : Reassembly)
    → Owes ps r xs []
    → (read_loop ps r (stream xs)).result ≡ failed link_closed
unfolding read_loop receive
read_loop_closed xs (p ∷ ps) r o = absurd (ground (arith, o.owed))
read_loop_closed [] [] r o = refl
read_loop_closed ([] ∷ xs) [] r o = absurd (o.reads.0.0 refl)
read_loop_closed ((b ∷ bs) ∷ xs) [] r o =
    let (taken, owes) = Owes-chunk r (b ∷ bs) xs [] o in
    let accept : (push r (b ∷ bs)).1 ≡ accepted = rw taken refl in
    rw (accept, read_loop) (read_loop_closed xs _ _ owes)

reader_task-Owes :
    (fs xs : List Bytes) (k : KissReader)
    → Owes k.pending k.reassembly xs fs
    → reader_task (suc (length fs)) k (stream xs) ≡ (fs, some link_closed)
unfolding reader_task read_frame
reader_task-Owes [] xs k o = rw (read_loop_closed xs k.pending k.reassembly o, reader_task) refl
reader_task-Owes (f ∷ fs) xs k o =
    let (given, (xs', unread, owes)) = read_loop-Gives xs k.pending k.reassembly f fs o in
    let took = read_frame k (stream xs) in
    let rest = rw (← unread) at (reader_task-Owes fs xs' took.reader owes) in
    rw (given, reader_task) (λ i. (f ∷ (rest i).0, (rest i).1))

-- The bytes of one frame after the other, as the writer sends them.
abbrev pub wire : List Bytes → Bytes
wire [] = []
wire (f ∷ fs) = write_frame f ++ wire fs

-- A frame's bytes behind what the receiver holds already.
Partials-frame :
    (f rest : Bytes) (s : Receiver)
    → NoFend f
    → length s.part + length f ≤ safe_length
    → Partials safe_length (record s { part = s.part ++ f }) rest
    → Partials safe_length s (f ++ rest)
Partials-frame [] rest s n h p = rw append-nil at p
Partials-frame (b ∷ f) rest s n h p =
    let longer : Receiver = record s { part = s.part ++ b ∷ [] } in
    let later =
      Partials-frame f rest longer n.1 (omega (arith, length-append s.part (b ∷ [])))
        (rw (append_assoc s.part (b ∷ []) f) p) in
    (omega arith, rw ((next_plain s b n.0).1) later)

abbrev opened : Receiver
opened = record { inside = true; part = [] }

run_frame :
    (f rest : Bytes)
    → IsFrame f
    → length f ≤ safe_length
    → Partials safe_length opened rest
    → (frames_of opened (f ++ fend ∷ rest) ≡ f ∷ frames_of opened rest)
      × Partials safe_length opened (f ++ fend ∷ rest)
run_frame [] rest (ne, n) h p = absurd (ne refl)
run_frame (b ∷ f) rest (ne, n) h p =
    let (quiet, ends) = NoFend-run opened (b ∷ f) n in
    (
      frames_of-append opened (b ∷ f) (fend ∷ rest) ∙ rw (quiet, ends) refl,
      Partials-frame (b ∷ f) (fend ∷ rest) opened n (omega arith) (h, p),
    )

run_wire :
    (fs : List Bytes) (s : Receiver)
    → s.part ≡ []
    → All (λ f. IsFrame f × (length f ≤ safe_length)) fs
    → (frames_of s (wire fs) ≡ fs) × Partials safe_length s (wire fs)
unfolding write_frame
run_wire [] s e h = (refl, rw e (omega arith))
run_wire (f ∷ fs) s e h =
    let (all, fits) = run_wire fs opened refl h.1 in
    let (given, p) = run_frame f (wire fs) h.0.0 h.0.1 fits in
    let silent : emitted s fend ≡ [] = ground (arith, e) in
    rw (append_assoc f (fend ∷ []) (wire fs))
      (rw (silent, given, all) refl, (rw e (omega arith), p))

-- What a `write_frame` for each of the frames puts on a stream, `reader_task` takes off it again,
-- in order and unchanged, and then it reports that the link has closed: however the reads cut the
-- bytes (each brings one byte at least and 2048 at most), if the frames are not empty, hold no
-- FEND and are no longer than 6144 bytes.
pub reader_task-write_frame :
    (fs xs : List Bytes)
    → All (λ f. IsFrame f × (length f ≤ safe_length)) fs
    → All IsRead xs
    → joined xs ≡ wire fs
    → reader_task (suc (length fs)) new_reader (stream xs) ≡ (fs, some link_closed)
unfolding new_reader new
reader_task-write_frame fs xs h reads e =
    let (f, p) = run_wire fs (record { inside = false; part = [] }) refl h in
    reader_task-Owes fs xs new_reader (record {
      valid = new-IsValid max_frame_bytes;
      limit = refl;
      reads = reads;
      partials = rw e p;
      owed = rw e f;
    })
