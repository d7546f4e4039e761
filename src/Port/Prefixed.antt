-- ===== src/Port/Prefixed.antt =====
-- src/port/tnc_init.rs: `Prefixed`, a link with bytes to hand out before its own.
pub mod Handed
use kiss_tnc_bridge.Prelude.{
  ℕ, zero, suc, ◌+◌, ◌-◌, min, List, [], ◌∷◌, ◌++◌, Option, none, some, ltb, ◌==◌, if◌then◌else◌,
  length, take, drop,
}
use kiss_tnc_bridge.Prelude.Text.{Bytes}
use kiss_tnc_bridge.Kiss.Frame.{fend}
use kiss_tnc_bridge.Kiss.Stream.{read_size}

pub record Prefixed : Type 0 where
  pub prefix : Bytes
  pub pos : ℕ

unfoldable pub delimited : List Bytes → Bytes
delimited [] = []
delimited (f ∷ fs) = fend ∷ (f ++ (fend ∷ delimited fs))

-- `Prefixed::new`
unfoldable pub new_prefixed : List Bytes → Prefixed
unfolding delimited
new_prefixed frames = record { prefix = delimited frames; pos = 0 }

-- `poll_read` into a buffer with so much room: what is read, or `none` where it is left to the link.
unfoldable pub poll_read : ℕ → Prefixed → Option (Bytes × Prefixed)
poll_read remaining p =
    if ltb p.pos (length p.prefix)
    then (let n = min (length p.prefix - p.pos) remaining in
        let end_pos = p.pos + n in
        some (
          take n (drop p.pos p.prefix),
          if end_pos == length p.prefix
              then record { prefix = []; pos = 0 }
              else record p { pos = end_pos },
        ))
    else none

-- What a KISS reader reads until the link's own bytes come; the first argument bounds the reads.
unfoldable pub read_prefix : ℕ → Prefixed → List Bytes
unfolding poll_read
read_prefix zero p = []
read_prefix (suc n) p = elim (poll_read read_size p) [
  | none ↦ []
  | some (bytes, p') ↦ bytes ∷ read_prefix n p'
]
