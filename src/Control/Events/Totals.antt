-- ===== src/Control/Events/Totals.antt =====
-- src/control/events.rs: no byte is lost on the way to the events, and none told twice.
use kiss_tnc_bridge.Prelude.{
  ℕ, ◌+◌, ◌-◌, ◌%◌, ◌^◌, ◌<◌, true, false, List, [], ◌∷◌, ◌++◌, ltb, leb, if◌then◌else◌, ◌≡◌, refl,
  ap, ◌⊎◌, All, ◌⊎◌, All, arith, Bool-cases, inl, inr,
}
use kiss_tnc_bridge.Prelude.Decide.{equal, equal-eq-true}
use kiss_tnc_bridge.Control.Events.{
  Key, activity_interval, Key-discrete, same_key, Slot, Activity, Coalescer, Raw, got, tick, is_due,
  add_bytes, emit_due, on_entry, tick_slot, is_kept, on_tick, on_raw, coalesce, no_slots,
}

-- The bytes of a key that were told, that wait, and that came in.
abbrev pub told_bytes : Key → List Activity → ℕ
told_bytes k [] = 0
told_bytes k (a ∷ as') = (if same_key a.key k then a.bytes else 0) + told_bytes k as'

abbrev pub pending_bytes : Key → List (Key × Slot) → ℕ
pending_bytes k [] = 0
pending_bytes k ((j, s) ∷ slots) = (if same_key j k then s.pending else 0) + pending_bytes k slots

abbrev pub bytes_in : Key → Raw → ℕ
bytes_in k (got now j bytes) = if same_key j k then bytes else 0
bytes_in k (tick now) = 0

abbrev pub received_bytes : Key → List Raw → ℕ
received_bytes k [] = 0
received_bytes k (e ∷ es) = bytes_in k e + received_bytes k es

told_bytes-append :
    (k : Key) (xs ys : List Activity) → told_bytes k (xs ++ ys) ≡ told_bytes k xs + told_bytes k ys
told_bytes-append k [] ys = omega arith
told_bytes-append k (x ∷ xs) ys = omega (arith, told_bytes-append k xs ys)

-- A slot gives what it holds, or keeps it.
emit_due-total :
    (now : ℕ) (j k : Key) (s : Slot)
    → told_bytes k (emit_due now j s).1 + (if same_key j k then (emit_due now j s).0.pending else 0)
      ≡ (if same_key j k then s.pending else 0)
unfolding emit_due
emit_due-total now j k s = ground arith

tick_slot-total :
    (now : ℕ) (j k : Key) (s : Slot)
    → told_bytes k (tick_slot now j s).1
        + (if same_key j k then (tick_slot now j s).0.pending else 0)
      ≡ (if same_key j k then s.pending else 0)
unfolding tick_slot
tick_slot-total now j k s = ground (arith, emit_due-total now j k s)

-- A slot that is forgotten holds nothing.
is_kept-pending : (now : ℕ) (s : Slot) → is_kept now s ≡ false → s.pending ≡ 0
unfolding is_kept
is_kept-pending now s e = ground (arith, e)

on_tick-total :
    (now : ℕ) (k : Key) (slots : List (Key × Slot))
    → told_bytes k (on_tick now slots).1 + pending_bytes k (on_tick now slots).0
      ≡ pending_bytes k slots
unfolding on_tick
on_tick-total now k [] = omega arith
on_tick-total now k ((j, s) ∷ slots) =
    let sent = tick_slot now j s in
    let rest = on_tick now slots in
    let told = told_bytes-append k rest.1 sent.1 in
    elim (Bool-cases (is_kept now sent.0)) [
      | inl e ↦ rw e (omega (arith, told, tick_slot-total now j k s, on_tick-total now k slots))
      | inr e ↦
          let none_left : (if same_key j k then sent.0.pending else 0) ≡ 0 =
            ground (arith, is_kept-pending now sent.0 e) in
          rw e
            (omega (arith, told, none_left, tick_slot-total now j k s, on_tick-total now k slots))
    ]

add_bytes-pending :
    (bytes : ℕ) (s : Slot) → (add_bytes bytes s).pending ≡ (s.pending + bytes) % 2 ^ 64
unfolding add_bytes
add_bytes-pending bytes s = refl

same_key_trans : (i j k : Key) → same_key i j ≡ true → same_key i k ≡ same_key j k
unfolding same_key
same_key_trans i j k e = ap (λ x. equal Key-discrete x k) (equal-eq-true Key-discrete i j e)

-- The bytes that came in are in the slot or in what is sent, but for the wrap of the counter.
slot-total :
    (now : ℕ) (j k : Key) (bytes : ℕ) (s : Slot)
    → (told_bytes k (emit_due now j (add_bytes bytes s)).1
          + (if same_key j k then (emit_due now j (add_bytes bytes s)).0.pending else 0))
        % 2 ^ 64
      ≡ ((if same_key j k then s.pending else 0) + (if same_key j k then bytes else 0)) % 2 ^ 64
slot-total now j k bytes s =
    let t = emit_due-total now j k (add_bytes bytes s) in
    let a = add_bytes-pending bytes s in
    elim (Bool-cases (same_key j k)) [
      | inl e ↦ rw e (omega (arith, rw e at t, a))
      | inr e ↦ rw e (omega (arith, rw e at t))
    ]

on_entry-total :
    (now : ℕ) (j k : Key) (bytes : ℕ) (slots : List (Key × Slot))
    → (told_bytes k (on_entry now j bytes slots).1 + pending_bytes k (on_entry now j bytes slots).0)
        % 2 ^ 64
      ≡ (pending_bytes k slots + (if same_key j k then bytes else 0)) % 2 ^ 64
unfolding on_entry
on_entry-total now j k bytes [] =
    let fresh : Slot = record { last = now - 100; pending = 0 } in
    let t = slot-total now j k bytes fresh in
    elim (Bool-cases (same_key j k)) [
      | inl e ↦ rw e (omega (arith, rw e at t))
      | inr e ↦ rw e (omega (arith, rw e at t))
    ]
on_entry-total now j k bytes ((i, s) ∷ slots) = elim (Bool-cases (same_key i j)) [
  | inl e ↦ let t = slot-total now j k bytes s in rw (e, same_key_trans i j k e) (omega (arith, t))
  | inr e ↦ rw e (omega (arith, on_entry-total now j k bytes slots))
]

on_raw-total :
    (k : Key) (e : Raw) (c : Coalescer)
    → (told_bytes k (on_raw e c).out + pending_bytes k (on_raw e c).slots) % 2 ^ 64
      ≡ (told_bytes k c.out + pending_bytes k c.slots + bytes_in k e) % 2 ^ 64
unfolding on_raw
on_raw-total k (got now j bytes) c = omega (
  arith,
  told_bytes-append k (on_entry now j bytes c.slots).1 c.out,
  on_entry-total now j k bytes c.slots,
)
on_raw-total k (tick now) c =
    omega (arith, told_bytes-append k (on_tick now c.slots).1 c.out, on_tick-total now k c.slots)

coalesce_from :
    (k : Key) (es : List Raw) (c : Coalescer)
    → (told_bytes k (coalesce es c).out + pending_bytes k (coalesce es c).slots) % 2 ^ 64
      ≡ (told_bytes k c.out + pending_bytes k c.slots + received_bytes k es) % 2 ^ 64
unfolding coalesce
coalesce_from k [] c = omega arith
coalesce_from k (e ∷ es) c = omega (arith, on_raw-total k e c, coalesce_from k es (on_raw e c))

-- Nothing waits at `now` that was not told of in the interval before.
abbrev pub IsPrompt : ℕ → Key × Slot → Type 0
IsPrompt now e = (e.1.pending ≡ 0) ⊎ (now < e.1.last + activity_interval)

tick_slot-IsPrompt : (now : ℕ) (k : Key) (s : Slot) → IsPrompt now (k, (tick_slot now k s).0)
unfolding tick_slot emit_due is_due
tick_slot-IsPrompt now k s = elim (Bool-cases (ltb 0 s.pending)) [
  | inr e ↦ rw e (inl (ground (arith, e)))
  | inl e ↦ elim (Bool-cases (leb activity_interval (now - s.last))) [
    | inl f ↦ rw (e, f) (inl refl)
    | inr f ↦ rw (e, f) (inr (ground (arith, f)))
  ]
]

on_tick-IsPrompt : (now : ℕ) (slots : List (Key × Slot)) → All (IsPrompt now) (on_tick now slots).0
unfolding on_tick
on_tick-IsPrompt now [] = tt
on_tick-IsPrompt now ((k, s) ∷ slots) =
    let rest = on_tick-IsPrompt now slots in
    elim (Bool-cases (is_kept now (tick_slot now k s).0)) [
      | inl e ↦ rw e ((tick_slot-IsPrompt now k s, rest))
      | inr e ↦ rw e rest
    ]

ticked : (now : ℕ) (c : Coalescer) → All (IsPrompt now) (on_raw (tick now) c).slots
unfolding on_raw
ticked now c = on_tick-IsPrompt now c.slots

-- Whatever came in at whatever times, behind a tick the bytes of an object and a direction that were
-- told of and those that wait to be told are together those that came in, but for a multiple of
-- 2^64; and bytes wait only where an event of less than 100 milliseconds ago holds them back.
pub coalesce-total :
    (k : Key) (es : List Raw) (now : ℕ)
    → ((told_bytes k (on_raw (tick now) (coalesce es no_slots)).out
            + pending_bytes k (on_raw (tick now) (coalesce es no_slots)).slots)
          % 2 ^ 64
        ≡ received_bytes k es % 2 ^ 64)
      × All (IsPrompt now) (on_raw (tick now) (coalesce es no_slots)).slots
unfolding no_slots
coalesce-total k es now =
    let c = coalesce es no_slots in
    (omega (arith, coalesce_from k es no_slots, on_raw-total k (tick now) c), ticked now c)
