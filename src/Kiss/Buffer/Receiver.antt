-- ===== src/Kiss/Buffer/Receiver.antt =====
-- A receiver that takes one byte at a time: the reference for the reassembly buffer.
use kiss_tnc_bridge.Prelude.{
  ℕ, Bool, true, ◌&&◌, List, [], ◌∷◌, ◌++◌, ◌≡◌, refl, ◌==◌, if◌then◌else◌, is_nil, not, sym, ap,
  ◌∙◌,
}
use mathlib.Core.List.{append_assoc}
use kiss_tnc_bridge.Prelude.Text.{Bytes}
use kiss_tnc_bridge.Kiss.Frame.{fend}

-- `inside` says that a FEND has been seen; `part` is what came behind the last one, or since the
-- start.
pub record Receiver : Type 0 where
  pub inside : Bool
  pub part : Bytes

abbrev pub next : Receiver → ℕ → Receiver
next s b =
    if b == fend then record { inside = true; part = [] } else record s { part = s.part ++ b ∷ [] }

abbrev pub emitted : Receiver → ℕ → List Bytes
emitted s b = if b == fend && s.inside && not (is_nil s.part) then s.part ∷ [] else []

-- The frames of a run of bytes, and the state behind it.
abbrev pub frames_of : Receiver → Bytes → List Bytes
frames_of s [] = []
frames_of s (b ∷ bs) = emitted s b ++ frames_of (next s b) bs

abbrev pub state_of : Receiver → Bytes → Receiver
state_of s [] = s
state_of s (b ∷ bs) = state_of (next s b) bs

pub frames_of-append :
    (s : Receiver) (xs ys : Bytes)
    → frames_of s (xs ++ ys) ≡ frames_of s xs ++ frames_of (state_of s xs) ys
frames_of-append s [] ys = refl
frames_of-append s (b ∷ xs) ys =
    ap (◌++◌ (emitted s b)) (frames_of-append (next s b) xs ys)
    ∙ sym (append_assoc (emitted s b) (frames_of (next s b) xs) _)

pub state_of-append :
    (s : Receiver) (xs ys : Bytes) → state_of s (xs ++ ys) ≡ state_of (state_of s xs) ys
state_of-append s [] ys = refl
state_of-append s (b ∷ xs) ys = state_of-append (next s b) xs ys
