-- ===== src/Kiss/Frame.antt =====
-- src/kiss/frame.rs: KISS frames, byte stuffing and unstuffing. A byte is a number; the theorems
-- that need it say that it is below 256.
pub mod Stuffing
pub mod Bounds
pub mod RoundTrip
use kiss_tnc_bridge.Prelude.{ℕ, ◌+◌, Bool, true, false, List, [], ◌∷◌, ◌++◌, ◌==◌, if◌then◌else◌}
use kiss_tnc_bridge.Prelude.Results.{Result, ok, err, ◌>>=◌}
use kiss_tnc_bridge.Prelude.Text.{Bytes}

abbrev pub fend : ℕ
fend = 0xC0

abbrev pub fesc : ℕ
fesc = 0xDB

abbrev pub tfend : ℕ
tfend = 0xDC

abbrev pub tfesc : ℕ
tfesc = 0xDD

pub record KissFrame : Type 0 where
  pub command : ℕ
  pub payload : Bytes

-- `Error::KissFrame` with its message.
pub data FrameError : Type 0 where
  empty_frame truncated_escape : FrameError
  invalid_escape : ℕ → FrameError

-- The `match raw[i]` of `decode`: the byte that an escaped byte stands for.
unescape : ℕ → Result FrameError ℕ
unescape c = if c == tfend then ok fend else if c == tfesc then ok fesc else err (invalid_escape c)

-- The `while` loop of `decode` over `raw[i..]`; `out` is the vector `data`.
pub unstuff : Bytes → Bytes → Result FrameError Bytes
unstuff out [] = ok out
unstuff out (b ∷ []) = if b == fesc then err truncated_escape else ok (out ++ b ∷ [])
unstuff out (b ∷ c ∷ rest) = elim (b == fesc) [
  | true ↦ unescape c >>= λ d. unstuff (out ++ d ∷ []) rest
  | false ↦ unstuff (out ++ b ∷ []) (c ∷ rest)
]

-- `KissFrame::decode` on the bytes between the delimiters.
unfoldable pub decode : Bytes → Result FrameError KissFrame
unfolding unstuff unescape
decode [] = err empty_frame
decode (command ∷ rest) =
    unstuff [] rest >>= λ out. ok (record { command = command; payload = out })

-- `KissFrame::stuff_byte`: `out` with the stuffed byte behind it.
pub stuff_byte : ℕ → Bytes → Bytes
stuff_byte b out =
    if b == fend
    then out ++ fesc ∷ tfend ∷ []
    else if b == fesc
    then out ++ fesc ∷ tfesc ∷ []
    else out ++ b ∷ []

-- The `for` loop of `encode`.
pub stuff_all : Bytes → Bytes → Bytes
stuff_all [] out = out
stuff_all (b ∷ bs) out = stuff_all bs (stuff_byte b out)

-- `KissFrame::encode`
unfoldable pub encode : KissFrame → Bytes
unfolding stuff_byte stuff_all
encode f = stuff_all f.payload (stuff_byte f.command (fend ∷ [])) ++ fend ∷ []
