-- ===== src/Port/Scan/Apart.antt =====
-- src/port/tnc_init.rs: what `push` makes of frames and replies.
use Prim.Native.String.{String}
use mathlib.Core.List.{append-nil, append_assoc}
use kiss_tnc_bridge.Prelude.{
  ℕ, ◌+◌, ◌≤◌, ◌<◌, true, false, ◌||◌, List, [], ◌∷◌, ◌++◌, ltb, ◌==◌, length, All, length-append,
  ◌≡◌, ◌≢◌, refl, sym, ap, ◌∙◌, arith,
}
use kiss_tnc_bridge.Prelude.Text.{Bytes}
use kiss_tnc_bridge.Config.Text.{trim}
use kiss_tnc_bridge.Kiss.Frame.{fend}
use kiss_tnc_bridge.Port.Scan.{
  Scan, in_text, in_frame, after_frame, Scanner, max_line, max_init_frame, end_line, push_text,
  push_other, push_byte, push_bytes,
}

-- What a radio sends: a frame, which may share its first delimiter with the end of the frame before
-- it, or a line of text.
pub data Item : Type 0 where
  frame_item shared_item line_item : Bytes → Item

abbrev pub wire_of : List Item → Bytes
wire_of [] = []
wire_of (frame_item f ∷ is) = fend ∷ (f ++ (fend ∷ wire_of is))
wire_of (shared_item f ∷ is) = f ++ (fend ∷ wire_of is)
wire_of (line_item t ∷ is) = t ++ (13 ∷ wire_of is)

abbrev pub frames_of : List Item → List Bytes
frames_of [] = []
frames_of (frame_item f ∷ is) = f ∷ frames_of is
frames_of (shared_item f ∷ is) = f ∷ frames_of is
frames_of (line_item t ∷ is) = frames_of is

abbrev pub lines_of : List Item → List Bytes
lines_of [] = []
lines_of (frame_item f ∷ is) = lines_of is
lines_of (shared_item f ∷ is) = lines_of is
lines_of (line_item t ∷ is) = t ∷ lines_of is

-- A frame that fits: not empty, with no delimiter, and not too long.
abbrev pub IsHeard : Bytes → Type 0
IsHeard f = (1 ≤ length f) × (length f ≤ max_init_frame) × All (λ b. b ≢ fend) f

-- A line that fits: not empty, of characters that are no control characters, and not too long.
abbrev pub IsLine : Bytes → Type 0
IsLine t = (1 ≤ length t) × (length t ≤ max_line) × All (λ b. (0x20 ≤ b) × (b < fend)) t

-- It begins as a frame does of one of the first two KISS channels.
abbrev pub StartsLow : Bytes → Type 0
StartsLow [] = ⊥
StartsLow (b ∷ bs) = b < 0x20

-- The items fit; one that shares a delimiter follows a frame.
abbrev pub Fits : Scan → List Item → Type 0
Fits s [] = Unit
Fits s (frame_item f ∷ is) = IsHeard f × Fits after_frame is
Fits s (shared_item f ∷ is) = (s ≡ after_frame) × IsHeard f × StartsLow f × Fits after_frame is
Fits s (line_item t ∷ is) = IsLine t × Fits in_text is

-- Between two items, in a frame, and in a line.
abbrev pub between : Scan → List String → List Bytes → Scanner
between sc rs fs = record { line = []; partial = []; scan = sc; replies = rs; frames = fs }

abbrev pub framed : Bytes → List String → List Bytes → Scanner
framed p rs fs = record { line = []; partial = p; scan = in_frame; replies = rs; frames = fs }

abbrev pub lined : Bytes → List String → List Bytes → Scanner
lined l rs fs = record { line = l; partial = []; scan = in_text; replies = rs; frames = fs }

pub not_fend : (b : ℕ) → b ≢ fend → (b == fend) ≡ false
not_fend b n = ground (arith, n)

module _ (lossy : Bytes → String) where
  pub push_bytes-append :
      (r : Scanner) (xs ys : Bytes)
      → push_bytes lossy r (xs ++ ys) ≡ push_bytes lossy (push_bytes lossy r xs) ys
  unfolding push_bytes
  push_bytes-append r [] ys = refl
  push_bytes-append r (x ∷ xs) ys = push_bytes-append (push_byte lossy x r) xs ys

  push_byte-framed :
      (b : ℕ) (p : Bytes) (rs : List String) (fs : List Bytes)
      → b ≢ fend
      → length p < max_init_frame
      → push_byte lossy b (framed p rs fs) ≡ framed (p ++ b ∷ []) rs fs
  unfolding push_byte
  push_byte-framed b p rs fs n h =
      let room : ltb (length p) max_init_frame ≡ true = ground (arith, h) in
      rw (not_fend b n, room) refl

  -- The bytes of a frame go behind what is there of it.
  push_bytes-framed :
      (f p : Bytes) (rs : List String) (fs : List Bytes)
      → length p + length f ≤ max_init_frame
      → All (λ b. b ≢ fend) f
      → push_bytes lossy (framed p rs fs) f ≡ framed (p ++ f) rs fs
  unfolding push_bytes
  push_bytes-framed [] p rs fs h k = rw (append-nil p) refl
  push_bytes-framed (b ∷ f) p rs fs h k =
      ap (λ r. push_bytes lossy r f) (push_byte-framed b p rs fs k.0 (omega (arith, h)))
      ∙ push_bytes-framed f (p ++ b ∷ []) rs fs (omega (arith, h, length-append p (b ∷ []))) k.1
      ∙ ap (λ q. framed q rs fs) (append_assoc p (b ∷ []) f)

  push_byte-closed :
      (f : Bytes) (rs : List String) (fs : List Bytes)
      → 1 ≤ length f
      → push_byte lossy fend (framed f rs fs) ≡ between after_frame rs (fs ++ f ∷ [])
  unfolding push_byte
  push_byte-closed [] rs fs h = absurd (omega (arith, h))
  push_byte-closed (b ∷ f) rs fs h = refl

  -- A frame behind its first delimiter, and what follows it.
  pub push_bytes_opened :
      (f rest : Bytes) (rs : List String) (fs : List Bytes)
      → IsHeard f
      → push_bytes lossy (framed [] rs fs) (f ++ (fend ∷ rest))
        ≡ push_bytes lossy (between after_frame rs (fs ++ f ∷ [])) rest
  unfolding push_bytes
  push_bytes_opened f rest rs fs h =
      push_bytes-append (framed [] rs fs) f (fend ∷ rest)
      ∙ ap (λ r. push_bytes lossy r (fend ∷ rest))
          (push_bytes-framed f [] rs fs (omega (arith, h.1)) h.2)
      ∙ ap (λ r. push_bytes lossy r rest) (push_byte-closed f rs fs h.0)

  pub push_byte_opens :
      (sc : Scan) (rs : List String) (fs : List Bytes)
      → sc ≢ in_frame
      → push_byte lossy fend (between sc rs fs) ≡ framed [] rs fs
  unfolding push_byte
  push_byte_opens in_text rs fs h = refl
  push_byte_opens after_frame rs fs h = refl
  push_byte_opens in_frame rs fs h = absurd (h refl)

  -- A frame that begins with the delimiter that ended the one before.
  pub push_bytes_shared :
      (f : Bytes) (rest : Bytes) (rs : List String) (fs : List Bytes)
      → StartsLow f
      → IsHeard f
      → push_bytes lossy (between after_frame rs fs) (f ++ (fend ∷ rest))
        ≡ push_bytes lossy (framed [] rs fs) (f ++ (fend ∷ rest))
  unfolding push_bytes
  push_bytes_shared [] rest rs fs l h = absurd l
  push_bytes_shared (b ∷ f) rest rs fs l h =
      let low : ltb b 0x20 ≡ true = ground (arith, l) in
      let same : push_byte lossy b (between after_frame rs fs) ≡ framed (b ∷ []) rs fs =
        rw (push_byte, not_fend b h.2.0, low) refl in
      ap (λ r. push_bytes lossy r (f ++ (fend ∷ rest)))
        (same ∙ sym (push_byte-framed b [] rs fs h.2.0 (omega arith)))

  pub push_byte-lined :
      (b : ℕ) (l : Bytes) (rs : List String) (fs : List Bytes)
      → (0x20 ≤ b) × (b < fend)
      → length l < max_line
      → push_byte lossy b (lined l rs fs) ≡ lined (l ++ b ∷ []) rs fs
  unfolding push_byte
  push_byte-lined b l rs fs h k =
      let plain : (b == fend) ≡ false = ground (arith, h) in
      let open_line : (b == 13 || b == 10) ≡ false = ground (arith, h) in
      let room : ltb (length l) max_line ≡ true = ground (arith, k) in
      rw (plain, open_line, room) refl

  pub push_bytes-lined :
      (t l : Bytes) (rs : List String) (fs : List Bytes)
      → length l + length t ≤ max_line
      → All (λ b. (0x20 ≤ b) × (b < fend)) t
      → push_bytes lossy (lined l rs fs) t ≡ lined (l ++ t) rs fs
  unfolding push_bytes
  push_bytes-lined [] l rs fs h k = rw (append-nil l) refl
  push_bytes-lined (b ∷ t) l rs fs h k =
      ap (λ r. push_bytes lossy r t) (push_byte-lined b l rs fs k.0 (omega (arith, h)))
      ∙ push_bytes-lined t (l ++ b ∷ []) rs fs (omega (arith, h, length-append l (b ∷ []))) k.1
      ∙ ap (λ q. lined q rs fs) (append_assoc l (b ∷ []) t)

  pub push_byte_ends :
      (t : Bytes) (rs : List String) (fs : List Bytes)
      → 1 ≤ length t
      → push_byte lossy 13 (lined t rs fs) ≡ between in_text (rs ++ trim (lossy t) ∷ []) fs
  unfolding push_byte push_other push_text end_line
  push_byte_ends [] rs fs h = absurd (omega (arith, h))
  push_byte_ends (b ∷ t) rs fs h = refl
