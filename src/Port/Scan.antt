-- ===== src/Port/Scan.antt =====
-- src/port/tnc_init.rs: `Radio::push`, which tells KISS frames and replies to commands apart.
pub mod Apart
pub mod Items
use Prim.Native.String.{String}
use kiss_tnc_bridge.Prelude.{
  ℕ, Bool, true, false, ◌||◌, List, [], ◌∷◌, ◌++◌, ltb, ◌==◌, if◌then◌else◌, is_nil, length,
}
use kiss_tnc_bridge.Prelude.Text.{Bytes}
use kiss_tnc_bridge.Config.Text.{trim}
use kiss_tnc_bridge.Kiss.Frame.{fend}

abbrev pub max_line : ℕ
max_line = 128

abbrev pub max_init_frame : ℕ
max_init_frame = 8192

pub data Scan : Type 0 where
  in_text in_frame after_frame : Scan

-- The part of `Radio` that `push` works on.
pub record Scanner : Type 0 where
  pub line : Bytes
  pub partial : Bytes
  pub scan : Scan
  pub replies : List String
  pub frames : List Bytes

unfoldable pub new_scanner : Scanner
new_scanner = record { line = []; partial = []; scan = in_text; replies = []; frames = [] }

-- `lossy` stands for `String::from_utf8_lossy`.
module _ (lossy : Bytes → String) where
  unfoldable pub end_line : Scanner → Scanner
  unfolding trim
  end_line r =
      if is_nil r.line
      then record r { scan = in_text }
      else record r { scan = in_text; line = []; replies = r.replies ++ trim (lossy r.line) ∷ [] }

  -- The last two arms of the `match`: outside a frame.
  unfoldable pub push_text : ℕ → Scanner → Scanner
  unfolding end_line
  push_text b r = if b == 13 || b == 10 then end_line r else record r {
    scan = in_text;
    line = if ltb (length r.line) max_line then r.line ++ b ∷ [] else [];
  }

  unfoldable pub push_in_frame : ℕ → Scanner → Scanner
  push_in_frame b r =
      if ltb (length r.partial) max_init_frame
      then record r { partial = r.partial ++ b ∷ [] }
      else record r { partial = []; scan = in_text }

  unfoldable pub push_fend : Scan → Scanner → Scanner
  push_fend in_frame r =
      if is_nil r.partial
      then record r { partial = []; scan = in_frame }
      else record r { frames = r.frames ++ r.partial ∷ []; partial = []; scan = after_frame }
  push_fend in_text r = record r { partial = []; scan = in_frame }
  push_fend after_frame r = record r { partial = []; scan = in_frame }

  unfoldable pub push_other : Scan → ℕ → Scanner → Scanner
  unfolding push_text push_in_frame
  push_other in_text b r = push_text b r
  push_other in_frame b r = push_in_frame b r
  push_other after_frame b r =
      if ltb b 0x20
      then record r { partial = r.partial ++ b ∷ []; scan = in_frame }
      else push_text b r

  unfoldable pub push_byte : ℕ → Scanner → Scanner
  unfolding push_fend push_other
  push_byte b r = if b == fend then push_fend r.scan r else push_other r.scan b r

  unfoldable pub push_bytes : Scanner → Bytes → Scanner
  unfolding push_byte
  push_bytes r [] = r
  push_bytes r (b ∷ bs) = push_bytes (push_byte b r) bs
