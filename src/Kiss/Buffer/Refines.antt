-- ===== src/Kiss/Buffer/Refines.antt =====
-- src/kiss/buffer.rs: `drain_frames` finds the frames that the byte-wise receiver finds.
use mathlib.Core.List.{append-nil, append_assoc}
use kiss_tnc_bridge.Prelude.{
  ℕ, zero, suc, ◌+◌, ◌-◌, Bool, true, false, ◌||◌, none, some, List, [], ◌∷◌, ◌++◌, ◌≡◌, ◌≢◌, inl,
  inr, refl, sym, ap, ◌∙◌, ltb, ◌==◌, if◌then◌else◌, length, drop, is_some, arith, length-append,
  drop-length_append, take-length_append, Bool-cases, ==_iff,
}
use kiss_tnc_bridge.Prelude.Text.{Bytes}
use kiss_tnc_bridge.Kiss.Frame.{fend}
use kiss_tnc_bridge.Kiss.Buffer.Receiver.{Receiver, next, emitted, frames_of, state_of}
use kiss_tnc_bridge.Kiss.Buffer.{
  Reassembly, Drain, slice, closed_frame, drain_byte, drain_loop, drain_start, drain_end,
  drain_frames,
}

-- `done` are the bytes up to the last FEND, `part` those behind it, `rest` those not looked at.
record At (whole done part rest : Bytes) (i : ℕ) (inside : Bool) (d : Drain) : Type 0 where
  splits : whole ≡ done ++ (part ++ rest)
  index : i ≡ length done + length part
  consumed : d.last_consumed ≡ length done
  start : d.frame_start ≡ (if inside then some (length done) else none)
  fresh : inside ≡ false → done ≡ []

slice_part :
    (done part rest : Bytes)
    → slice (done ++ (part ++ rest)) (length done) (length done + length part) ≡ part
slice_part done part rest =
    let e : length done + length part - length done ≡ length part = omega arith in
    rw e (rw (drop-length_append done (part ++ rest)) (take-length_append part rest))

closed_frame-emitted :
    (done part rest : Bytes) (inside : Bool) (b : ℕ)
    → b ≡ fend
    → closed_frame
        (done ++ (part ++ rest))
        (length done + length part)
        (if inside then some (length done) else none)
      ≡ emitted (record { inside = inside; part = part }) b
unfolding closed_frame
closed_frame-emitted done [] rest inside b e = ground arith
closed_frame-emitted done (p ∷ part) rest inside b e =
    ground (arith, slice_part done (p ∷ part) rest)

-- The step at a FEND, and at any other byte.
At-fend :
    (whole done part rest : Bytes) (i b : ℕ) (inside : Bool) (d : Drain)
    → At whole done part (b ∷ rest) i inside d
    → b ≡ fend
    → At whole (done ++ (part ++ b ∷ [])) [] rest (i + 1) true (drain_byte whole i b d)
unfolding drain_byte
At-fend whole done part rest i b inside d h e =
    let lengths = length-append done (part ++ b ∷ []) in
    let lengths' = length-append part (b ∷ []) in
    record {
      splits =
          h.splits
          ∙ sym (
              append_assoc done (part ++ b ∷ []) rest
              ∙ ap (◌++◌ done) (append_assoc part (b ∷ []) rest));
      index = omega (arith, h.index);
      consumed = ground (arith, h.index, lengths, lengths');
      start = ground (arith, h.index, lengths, lengths');
      fresh = λ p. cc;
    }

At-other :
    (whole done part rest : Bytes) (i b : ℕ) (inside : Bool) (d : Drain)
    → At whole done part (b ∷ rest) i inside d
    → b ≢ fend
    → At whole done (part ++ b ∷ []) rest (i + 1) inside (drain_byte whole i b d)
unfolding drain_byte
At-other whole done part rest i b inside d h e = record {
  splits = h.splits ∙ ap (◌++◌ done) (sym (append_assoc part (b ∷ []) rest));
  index = omega (arith, h.index, length-append part (b ∷ []));
  consumed = ground (arith, h.consumed);
  start = ground (arith, h.start);
  fresh = h.fresh;
}

drain_byte-frames :
    (whole done part rest : Bytes) (i b : ℕ) (inside : Bool) (d : Drain)
    → At whole done part (b ∷ rest) i inside d
    → (drain_byte whole i b d).frames
      ≡ d.frames ++ emitted (record { inside = inside; part = part }) b
unfolding drain_byte
drain_byte-frames whole done part rest i b inside d h = elim (Bool-cases (b == fend)) [
  | inl e ↦ rw e (
      rw (h.splits, h.index, h.start)
        (rw (closed_frame-emitted done part (b ∷ rest) inside b (ground arith)) (rw e refl)))
  | inr e ↦ rw e (sym (append-nil d.frames))
]

-- What the loop leaves, against the state `s` of the receiver.
record Ends (whole : Bytes) (d : Drain) (s : Receiver) : Type 0 where
  left : drop d.last_consumed whole ≡ s.part
  open_frame : is_some d.frame_start ≡ s.inside
  untouched : s.inside ≡ false → d.last_consumed ≡ 0

At-end :
    (whole done part : Bytes) (i : ℕ) (inside : Bool) (d : Drain)
    → At whole done part [] i inside d
    → Ends whole d (record { inside = inside; part = part })
At-end whole done part i inside d h = record {
  left = rw (h.splits, h.consumed) (drop-length_append done (part ++ []) ∙ append-nil part);
  open_frame = ground (arith, h.start);
  untouched = λ e. h.consumed ∙ ap length (h.fresh e);
}

drain_loop-Ends :
    (rest whole done part : Bytes) (i : ℕ) (inside : Bool) (d : Drain)
    → At whole done part rest i inside d
    → let s : Receiver = record { inside = inside; part = part } in
      ((drain_loop whole i rest d).frames ≡ d.frames ++ frames_of s rest)
      × Ends whole (drain_loop whole i rest d) (state_of s rest)
unfolding drain_loop
drain_loop-Ends [] whole done part i inside d h =
    (sym (append-nil d.frames), At-end whole done part i inside d h)
drain_loop-Ends (b ∷ rest) whole done part i inside d h = elim (Bool-cases (b == fend)) [
  | inl e ↦
      let (f, g) =
        drain_loop-Ends rest whole (done ++ (part ++ b ∷ [])) [] (i + 1) true
          (drain_byte whole i b d)
          (At-fend whole done part rest i b inside d h ((==_iff b fend).0 e)) in
      (f ∙ frames (frames_of (record { inside = true; part = [] }) rest) ∙ rw e refl, rw e g)
  | inr e ↦
      let (f, g) =
        drain_loop-Ends rest whole done (part ++ b ∷ []) (i + 1) inside (drain_byte whole i b d)
          (At-other whole done part rest i b inside d h (λ p. ground arith)) in
      (f ∙ frames _ ∙ rw e refl, rw e g)
]
  where
    frames :
        (fs : List Bytes)
        → (drain_byte whole i b d).frames ++ fs
          ≡ d.frames ++ (emitted (record { inside = inside; part = part }) b ++ fs)
    frames fs =
        ap (λ (x : List Bytes). x ++ fs) (drain_byte-frames whole done part rest i b inside d h)
        ∙ append_assoc d.frames _ fs

abbrev pub receiver : Reassembly → Receiver
receiver r = record { inside = r.in_frame; part = r.buf }

abbrev blank : Reassembly → Receiver
blank r = record { inside = r.in_frame; part = [] }

At-start : (r : Reassembly) → At r.buf [] [] r.buf 0 r.in_frame (drain_start r)
unfolding drain_start
At-start r = record {
  splits = refl;
  index = omega arith;
  consumed = refl;
  start = refl;
  fresh = λ e. refl;
}

drop_consumed : (n : ℕ) (xs : Bytes) → (if ltb 0 n then drop n xs else xs) ≡ drop n xs
drop_consumed zero xs = refl
drop_consumed (suc n) xs = ground arith

drain_end-Ends :
    (r : Reassembly) (d : Drain) (s : Receiver)
    → Ends r.buf d s
    → (r.in_frame ≡ true → s.inside ≡ true)
    → drain_end r d ≡ record r { buf = s.part; in_frame = s.inside }
unfolding drain_end
drain_end-Ends r d s e k = λ i. record {
  buf = (drop_consumed d.last_consumed r.buf ∙ e.left) i;
  max_size = r.max_size;
  in_frame = inside i;
}
  where
    inside :
        (if ltb 0 d.last_consumed || is_some d.frame_start then true else r.in_frame) ≡ s.inside
    inside = ground (arith, e.open_frame, e.untouched, k)

state_of_inside : (s : Receiver) (bs : Bytes) → s.inside ≡ true → (state_of s bs).inside ≡ true
state_of_inside s [] h = h
state_of_inside s (b ∷ bs) h = state_of_inside (next s b) bs (ground arith)

-- `drain_frames` gives the frames that the receiver finds in the buffer, and leaves its state.
pub drain_frames-receiver :
    (r : Reassembly)
    → let s = state_of (blank r) r.buf in
      drain_frames r ≡ (frames_of (blank r) r.buf, record r { buf = s.part; in_frame = s.inside })
unfolding drain_frames
drain_frames-receiver r =
    let (f, g) = drain_loop-Ends r.buf r.buf [] [] 0 r.in_frame (drain_start r) (At-start r) in
    λ i. (f i, drain_end-Ends r _ _ g (state_of_inside (blank r) r.buf) i)
