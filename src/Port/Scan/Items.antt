-- ===== src/Port/Scan/Items.antt =====
-- src/port/tnc_init.rs: `push` on any sequence of frames and replies.
use Prim.Native.String.{String}
use mathlib.Core.List.{append-nil, append_assoc}
use kiss_tnc_bridge.Prelude.{
  ℕ, ◌≤◌, ◌<◌, false, List, [], ◌∷◌, ◌++◌, map, ltb, ◌==◌, ◌≡◌, ◌≢◌, refl, ap, ◌∙◌, arith,
}
use kiss_tnc_bridge.Prelude.Text.{Bytes}
use kiss_tnc_bridge.Config.Text.{trim}
use kiss_tnc_bridge.Kiss.Frame.{fend}
use kiss_tnc_bridge.Port.Scan.{Scan, in_text, in_frame, after_frame, push_byte, push_bytes}
use kiss_tnc_bridge.Port.Scan.Apart.{
  Item, frame_item, shared_item, line_item, wire_of, frames_of, lines_of, IsLine, Fits, between,
  lined, push_bytes-append, push_bytes_opened, push_byte_opens, push_bytes_shared, push_bytes-lined,
  push_byte_ends,
}

-- Where the items leave the scanner.
abbrev pub scan_after : Scan → List Item → Scan
scan_after s [] = s
scan_after s (frame_item f ∷ is) = scan_after after_frame is
scan_after s (shared_item f ∷ is) = scan_after after_frame is
scan_after s (line_item t ∷ is) = scan_after in_text is

module _ (lossy : Bytes → String) where
  -- The texts as replies.
  abbrev pub replies_of : List Bytes → List String
  replies_of ts = map (λ t. trim (lossy t)) ts

  -- A character that is not low begins a line, also behind a frame.
  push_byte_begins :
      (b : ℕ) (sc : Scan) (rs : List String) (fs : List Bytes)
      → sc ≢ in_frame
      → (0x20 ≤ b) × (b < fend)
      → push_byte lossy b (between sc rs fs) ≡ push_byte lossy b (lined [] rs fs)
  unfolding push_byte
  push_byte_begins b in_text rs fs n h = refl
  push_byte_begins b in_frame rs fs n h = absurd (n refl)
  push_byte_begins b after_frame rs fs n h =
      let plain : (b == fend) ≡ false = ground (arith, h) in
      let high : ltb b 0x20 ≡ false = ground (arith, h) in rw (plain, high) refl

  push_bytes_begins :
      (t rest : Bytes) (sc : Scan) (rs : List String) (fs : List Bytes)
      → sc ≢ in_frame
      → IsLine t
      → push_bytes lossy (between sc rs fs) (t ++ rest)
        ≡ push_bytes lossy (lined [] rs fs) (t ++ rest)
  unfolding push_bytes
  push_bytes_begins [] rest sc rs fs n h = absurd (omega (arith, h))
  push_bytes_begins (b ∷ t) rest sc rs fs n h =
      ap (λ r. push_bytes lossy r (t ++ rest)) (push_byte_begins b sc rs fs n h.2.0)

  push_bytes_line :
      (t rest : Bytes) (sc : Scan) (rs : List String) (fs : List Bytes)
      → sc ≢ in_frame
      → IsLine t
      → push_bytes lossy (between sc rs fs) (t ++ (13 ∷ rest))
        ≡ push_bytes lossy (between in_text (rs ++ trim (lossy t) ∷ []) fs) rest
  unfolding push_bytes
  push_bytes_line t rest sc rs fs n h =
      push_bytes_begins t (13 ∷ rest) sc rs fs n h
      ∙ push_bytes-append lossy (lined [] rs fs) t (13 ∷ rest)
      ∙ ap (λ r. push_bytes lossy r (13 ∷ rest))
          (push_bytes-lined lossy t [] rs fs (omega (arith, h.1)) h.2)
      ∙ ap (λ r. push_bytes lossy r rest) (push_byte_ends lossy t rs fs h.0)

  -- Of frames and lines in any order, the frames come out as frames and the lines as replies, each
  -- in their order, if they fit.
  pub push_bytes-wire_of :
      (is : List Item) (sc : Scan) (rs : List String) (fs : List Bytes)
      → sc ≢ in_frame
      → Fits sc is
      → push_bytes lossy (between sc rs fs) (wire_of is)
        ≡ between (scan_after sc is) (rs ++ replies_of (lines_of is)) (fs ++ frames_of is)
  unfolding push_bytes
  push_bytes-wire_of [] sc rs fs n h = rw (append-nil rs, append-nil fs) refl
  push_bytes-wire_of (frame_item f ∷ is) sc rs fs n h =
      ap (λ r. push_bytes lossy r (f ++ (fend ∷ wire_of is))) (push_byte_opens lossy sc rs fs n)
      ∙ push_bytes_opened lossy f (wire_of is) rs fs h.0
      ∙ push_bytes-wire_of is after_frame rs (fs ++ f ∷ []) (λ e. cc (e)) h.1
      ∙ ap (λ q. between (scan_after after_frame is) (rs ++ replies_of (lines_of is)) q)
          (append_assoc fs (f ∷ []) (frames_of is))
  push_bytes-wire_of (shared_item f ∷ is) sc rs fs n h =
      ap (λ s. push_bytes lossy (between s rs fs) (f ++ (fend ∷ wire_of is))) h.0
      ∙ push_bytes_shared lossy f (wire_of is) rs fs h.2 h.1
      ∙ push_bytes_opened lossy f (wire_of is) rs fs h.1
      ∙ push_bytes-wire_of is after_frame rs (fs ++ f ∷ []) (λ e. cc (e)) h.3
      ∙ ap (λ q. between (scan_after after_frame is) (rs ++ replies_of (lines_of is)) q)
          (append_assoc fs (f ∷ []) (frames_of is))
  push_bytes-wire_of (line_item t ∷ is) sc rs fs n h =
      push_bytes_line t (wire_of is) sc rs fs n h.0
      ∙ push_bytes-wire_of is in_text (rs ++ trim (lossy t) ∷ []) fs (λ e. cc (e)) h.1
      ∙ ap (λ q. between (scan_after in_text is) q (fs ++ frames_of is))
          (append_assoc rs (trim (lossy t) ∷ []) (replies_of (lines_of is)))
