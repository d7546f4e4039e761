-- ===== src/Port/Prefixed/Handed.antt =====
-- src/port/tnc_init.rs: the frames of init come out of the link's reader before the link's own.
use mathlib.Core.List.{append_assoc}
use kiss_tnc_bridge.Prelude.{
  ℕ, zero, suc, ◌+◌, ◌-◌, ◌≤◌, min, List, [], ◌∷◌, ◌++◌, some, ltb, ◌==◌, length, take, drop, All,
  All-append, ◌≡◌, ◌≢◌, refl, sym, ap, ◌∙◌, arith, Bool-cases, inl, inr,
}
use kiss_tnc_bridge.Prelude.Text.{Bytes}
use kiss_tnc_bridge.Kiss.Frame.{fend}
use kiss_tnc_bridge.Kiss.Buffer.Chunks.{IsFrame}
use kiss_tnc_bridge.Kiss.Stream.{read_size, new_reader, reader_task, link_closed, write_frame}
use kiss_tnc_bridge.Kiss.Stream.Delivery.{
  joined, wire, IsRead, stream, safe_length, reader_task-write_frame,
}
use kiss_tnc_bridge.Port.Prefixed.{Prefixed, delimited, new_prefixed, poll_read, read_prefix}

take-drop : (n : ℕ) (xs : Bytes) → take n xs ++ drop n xs ≡ xs
take-drop zero xs = refl
take-drop (suc n) [] = refl
take-drop (suc n) (x ∷ xs) = rw (take-drop n xs)

drop_nil : (n : ℕ) → drop {A = ℕ} n [] ≡ []
drop_nil zero = refl
drop_nil (suc n) = refl

drop-drop : (m n : ℕ) (xs : Bytes) → drop n (drop m xs) ≡ drop (m + n) xs
drop-drop zero n xs = ap (λ k. drop k xs) (omega arith)
drop-drop (suc m) n [] = drop_nil n ∙ sym (drop_nil (suc m + n))
drop-drop (suc m) n (x ∷ xs) =
    let e : suc (m + n) ≡ suc m + n = omega arith in drop-drop m n xs ∙ ap (λ k. drop k (x ∷ xs)) e

length-take : (n : ℕ) (xs : Bytes) → n ≤ length xs → length (take n xs) ≡ n
length-take zero xs h = refl
length-take (suc n) [] h = absurd (omega (arith, h))
length-take (suc n) (x ∷ xs) h = ap suc (length-take n xs (omega (arith, h)))

length-drop : (n : ℕ) (xs : Bytes) → length (drop n xs) ≡ length xs - n
length-drop zero xs = omega arith
length-drop (suc n) [] = omega arith
length-drop (suc n) (x ∷ xs) = omega (arith, length-drop n xs)

drop_all : (n : ℕ) (xs : Bytes) → length xs ≤ n → drop n xs ≡ []
drop_all zero [] h = refl
drop_all zero (x ∷ xs) h = absurd (omega (arith, h))
drop_all (suc n) [] h = refl
drop_all (suc n) (x ∷ xs) h = drop_all n xs (omega (arith, h))

delimited-wire : (fs : List Bytes) → delimited fs ≡ wire fs
unfolding delimited kiss_tnc_bridge.Kiss.Stream.write_frame
delimited-wire [] = refl
delimited-wire (f ∷ fs) =
    rw (delimited-wire fs) (ap (λ t. fend ∷ t) (sym (append_assoc f (fend ∷ []) (wire fs))))

ne_of_length : (xs : Bytes) → 1 ≤ length xs → xs ≢ []
ne_of_length [] h e = absurd (omega (arith, h))
ne_of_length (x ∷ xs) h e = cc (e)

-- The reads bring the prefix, in pieces that fit the buffer.
record Piecewise (rest : Bytes) (xs : List Bytes) : Type 0 where
  pub whole : joined xs ≡ rest
  pub pieces : All IsRead xs

read_prefix-Piecewise :
    (n : ℕ) (p : Prefixed)
    → length p.prefix ≤ p.pos + n
    → Piecewise (drop p.pos p.prefix) (read_prefix n p)
unfolding read_prefix
read_prefix-Piecewise zero p h = record {
  whole = sym (drop_all p.pos p.prefix (omega (arith, h)));
  pieces = tt;
}
read_prefix-Piecewise (suc n) p h = elim (Bool-cases (ltb p.pos (length p.prefix))) [
  | inr t ↦
      rw (t, read_prefix, poll_read)
        (record { whole = sym (drop_all p.pos p.prefix (ground (arith, t))); pieces = tt })
  | inl t ↦
      let size = min (length p.prefix - p.pos) read_size in
      let rest = drop p.pos p.prefix in
      let room : 1 ≤ size = ground (arith, t) in
      let bound : size ≤ length rest = omega (arith, length-drop p.pos p.prefix) in
      let piece : length (take size rest) ≡ size = length-take size rest bound in
      let read : IsRead (take size rest) =
        (ne_of_length (take size rest) (omega (arith, piece, room)), omega (arith, piece)) in
      elim (Bool-cases (p.pos + size == length p.prefix)) [
        | inl u ↦
            let more = read_prefix-Piecewise n (record { prefix = []; pos = 0 }) (omega arith) in
            let over : drop size rest ≡ [] =
              drop-drop p.pos size p.prefix
              ∙ drop_all (p.pos + size) p.prefix (ground (arith, u)) in
            rw (t, u, read_prefix, poll_read)
              (record {
                whole = ap (λ x. take size rest ++ x) (more.whole ∙ sym over) ∙ take-drop size rest;
                pieces = (read, more.pieces);
              })
        | inr u ↦
            let more =
              read_prefix-Piecewise n (record p { pos = p.pos + size }) (omega (arith, h, room)) in
            rw (t, u, read_prefix, poll_read)
              (record {
                whole =
                    ap (λ x. take size rest ++ x) (more.whole ∙ sym (drop-drop p.pos size p.prefix))
                    ∙ take-drop size rest;
                pieces = (read, more.pieces);
              })
      ]
]

joined-append : (xs ys : List Bytes) → joined (xs ++ ys) ≡ joined xs ++ joined ys
joined-append [] ys = refl
joined-append (x ∷ xs) ys =
    ap (λ t. x ++ t) (joined-append xs ys) ∙ sym (append_assoc x (joined xs) (joined ys))

wire-append : (fs gs : List Bytes) → wire (fs ++ gs) ≡ wire fs ++ wire gs
wire-append [] gs = refl
wire-append (f ∷ fs) gs =
    ap (λ t. write_frame f ++ t) (wire-append fs gs)
    ∙ sym (append_assoc (write_frame f) (wire fs) (wire gs))

-- A link that is handed the frames of init, and then brings frames of its own, however cut: the task
-- that reads it gives first the ones and then the others, in order and unchanged, and then reports
-- that the link has closed; if the frames are not empty, hold no FEND and are no longer than 6144
-- bytes, and the reads bring one byte at least and 2048 at most.
pub reader_task-new_prefixed :
    (fs gs xs : List Bytes)
    → All (λ f. IsFrame f × (length f ≤ safe_length)) fs
    → All (λ f. IsFrame f × (length f ≤ safe_length)) gs
    → All IsRead xs
    → joined xs ≡ wire gs
    → reader_task
        (suc (length (fs ++ gs)))
        new_reader
        (stream (read_prefix (length (delimited fs)) (new_prefixed fs) ++ xs))
      ≡ (fs ++ gs, some link_closed)
unfolding new_prefixed
reader_task-new_prefixed fs gs xs hf hg hx e =
    let first = read_prefix-Piecewise (length (delimited fs)) (new_prefixed fs) (omega arith) in
    let pieces = read_prefix (length (delimited fs)) (new_prefixed fs) in
    reader_task-write_frame (fs ++ gs) (pieces ++ xs) (All-append _ fs gs hf hg)
      (All-append IsRead pieces xs first.pieces hx)
      (joined-append pieces xs
        ∙ ap (λ t. t ++ joined xs) (first.whole ∙ delimited-wire fs)
        ∙ ap (λ t. wire fs ++ t) e
        ∙ sym (wire-append fs gs))
