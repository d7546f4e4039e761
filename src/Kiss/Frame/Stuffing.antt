-- ===== src/Kiss/Frame/Stuffing.antt =====
-- Stuffing without the accumulators of the loops, and what stuffed bytes hold.
use kiss_tnc_bridge.Prelude.{
  ℕ, [], ◌∷◌, ◌++◌, ◌≡◌, ◌≢◌, refl, sym, ap, ◌∙◌, ◌==◌, arith, if◌then◌else◌, All, All-append,
}
use mathlib.Core.List.{append-nil, append_assoc}
use kiss_tnc_bridge.Prelude.Text.{Bytes}
use kiss_tnc_bridge.Kiss.Frame.{
  fend, fesc, tfend, tfesc, ok, unescape, unstuff, stuff_byte, stuff_all, KissFrame, encode,
}

-- The bytes that one byte becomes.
abbrev pub stuffed_byte : ℕ → Bytes
stuffed_byte b =
    if b == fend then fesc ∷ tfend ∷ [] else if b == fesc then fesc ∷ tfesc ∷ [] else b ∷ []

abbrev pub stuffed : Bytes → Bytes
stuffed [] = []
stuffed (b ∷ bs) = stuffed_byte b ++ stuffed bs

pub stuff_byte-stuffed : (b : ℕ) (out : Bytes) → stuff_byte b out ≡ out ++ stuffed_byte b
unfolding stuff_byte
stuff_byte-stuffed b out = ground arith

pub stuff_all-stuffed : (bs out : Bytes) → stuff_all bs out ≡ out ++ stuffed bs
unfolding stuff_all
stuff_all-stuffed [] out = sym (append-nil out)
stuff_all-stuffed (b ∷ bs) out =
    stuff_all-stuffed bs (stuff_byte b out)
    ∙ rw (stuff_byte-stuffed b out) (append_assoc out (stuffed_byte b) (stuffed bs))

-- The bytes that `encode` puts between the two delimiters.
abbrev pub interior : KissFrame → Bytes
interior f = stuffed_byte f.command ++ stuffed f.payload

pub encode-interior : (f : KissFrame) → encode f ≡ fend ∷ (interior f ++ fend ∷ [])
unfolding encode
encode-interior f =
    rw (stuff_byte-stuffed f.command (fend ∷ []))
      (rw (stuff_all-stuffed f.payload (fend ∷ stuffed_byte f.command)) refl)

abbrev pub NoFend : Bytes → Type 0
NoFend = All (λ b. b ≢ fend)

stuffed_byte-NoFend : (b : ℕ) → NoFend (stuffed_byte b)
stuffed_byte-NoFend b = ground arith

pub stuffed-NoFend : (bs : Bytes) → NoFend (stuffed bs)
stuffed-NoFend [] = tt
stuffed-NoFend (b ∷ bs) =
    All-append _ (stuffed_byte b) (stuffed bs) (stuffed_byte-NoFend b) (stuffed-NoFend bs)

pub interior-NoFend : (f : KissFrame) → NoFend (interior f)
interior-NoFend f =
    All-append _ (stuffed_byte f.command) (stuffed f.payload) (stuffed_byte-NoFend f.command)
      (stuffed-NoFend f.payload)

-- Unstuffing takes one stuffed byte off the front.
pub unstuff-stuffed_byte :
    (b : ℕ) (out rest : Bytes) → unstuff out (stuffed_byte b ++ rest) ≡ unstuff (out ++ b ∷ []) rest
unfolding unstuff unescape
unstuff-stuffed_byte b out [] = ground arith
unstuff-stuffed_byte b out (c ∷ rest) = ground arith

pub unstuff-stuffed : (bs out : Bytes) → unstuff out (stuffed bs) ≡ ok (out ++ bs)
unfolding unstuff
unstuff-stuffed [] out = rw append-nil
unstuff-stuffed (b ∷ bs) out =
    unstuff-stuffed_byte b out (stuffed bs)
    ∙ unstuff-stuffed bs (out ++ b ∷ [])
    ∙ ap ok (append_assoc out (b ∷ []) bs)
