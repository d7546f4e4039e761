-- ===== src/Control/Events.antt =====
-- src/control/events.rs: `coalesce`, which sums the bytes of each object and direction and tells of
-- them now and then. A time is in milliseconds; the clock is past its first 100 of them when the task
-- starts, so that `now - ACTIVITY_INTERVAL` is written as it is.
pub mod Totals
use Prim.Native.String.{String}
use kiss_tnc_bridge.Prelude.{
  ℕ, ◌+◌, ◌-◌, ◌%◌, ◌^◌, Bool, true, false, ◌&&◌, ◌||◌, List, [], ◌∷◌, ◌++◌, ltb, leb,
  if◌then◌else◌,
}
use kiss_tnc_bridge.Prelude.Decide.{String-discrete, equal}
use kiss_tnc_bridge.Bridge.State.{Dir}

-- `ACTIVITY_INTERVAL`
abbrev pub activity_interval : ℕ
activity_interval = 100

abbrev pub Key : Type 0
Key = String × Dir

unfoldable pub Key-discrete : Discrete Key
unfolding String-discrete
Key-discrete = hlevel (String-discrete)

unfoldable pub same_key : Key → Key → Bool
unfolding equal Key-discrete
same_key a b = equal Key-discrete a b

pub record Slot : Type 0 where
  pub last : ℕ
  pub pending : ℕ

-- `Event::Activity`, with the time of its sending.
pub record Activity : Type 0 where
  pub key : Key
  pub bytes : ℕ
  pub at : ℕ

-- The slots, a hash map as a list of its entries, and what was sent, the last first.
pub record Coalescer : Type 0 where
  pub slots : List (Key × Slot)
  pub out : List Activity

pub data Raw : Type 0 where
  got : ℕ → Key → ℕ → Raw
  tick : ℕ → Raw

unfoldable pub is_due : ℕ → Slot → Bool
is_due now s = leb activity_interval (now - s.last)

-- `slot.pending += bytes`, which wraps in a release build.
unfoldable pub add_bytes : ℕ → Slot → Slot
add_bytes bytes s = record s { pending = (s.pending + bytes) % 2 ^ 64 }

-- What follows for a slot that holds something new: its slot, and what is sent.
unfoldable pub emit_due : ℕ → Key → Slot → Slot × List Activity
unfolding is_due
emit_due now k s =
    if is_due now s
    then (record { last = now; pending = 0 }, record { key = k; bytes = s.pending; at = now } ∷ [])
    else (s, [])

-- `slots.entry(…).or_insert(…)`, with the slot changed and what is sent.
unfoldable pub on_entry : ℕ → Key → ℕ → List (Key × Slot) → List (Key × Slot) × List Activity
unfolding emit_due add_bytes
on_entry now k bytes [] =
    let fresh : Slot = record { last = now - activity_interval; pending = 0 } in
    let sent = emit_due now k (add_bytes bytes fresh) in ((k, sent.0) ∷ [], sent.1)
on_entry now k bytes ((j, s) ∷ slots) =
    let sent = emit_due now k (add_bytes bytes s) in
    let rest = on_entry now k bytes slots in
    if same_key j k then ((j, sent.0) ∷ slots, sent.1) else ((j, s) ∷ rest.0, rest.1)

-- One slot at a tick.
unfoldable pub tick_slot : ℕ → Key → Slot → Slot × List Activity
unfolding emit_due
tick_slot now k s = if ltb 0 s.pending then emit_due now k s else (s, [])

unfoldable pub is_kept : ℕ → Slot → Bool
is_kept now s = ltb 0 s.pending || ltb (now - s.last) 60000

-- The loop over the slots at a tick, and `retain`.
unfoldable pub on_tick : ℕ → List (Key × Slot) → List (Key × Slot) × List Activity
unfolding tick_slot is_kept
on_tick now [] = ([], [])
on_tick now ((k, s) ∷ slots) =
    let sent = tick_slot now k s in
    let rest = on_tick now slots in
    (if is_kept now sent.0 then (k, sent.0) ∷ rest.0 else rest.0, rest.1 ++ sent.1)

unfoldable pub on_raw : Raw → Coalescer → Coalescer
unfolding on_entry on_tick
on_raw (got now k bytes) c =
    let r = on_entry now k bytes c.slots in record { slots = r.0; out = r.1 ++ c.out }
on_raw (tick now) c = let r = on_tick now c.slots in record { slots = r.0; out = r.1 ++ c.out }

-- `coalesce`, from its start.
unfoldable pub coalesce : List Raw → Coalescer → Coalescer
unfolding on_raw
coalesce [] c = c
coalesce (e ∷ es) c = coalesce es (on_raw e c)

unfoldable pub no_slots : Coalescer
no_slots = record { slots = []; out = [] }
