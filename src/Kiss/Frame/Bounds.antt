-- ===== src/Kiss/Frame/Bounds.antt =====
-- src/kiss/frame.rs: the bytes that `decode` puts out.
use kiss_tnc_bridge.Prelude.{
  ℕ, ◌<◌, [], ◌∷◌, ◌++◌, ◌==◌, ◌≡◌, arith, All, All-append, Bool-cases, inl, inr,
}
use kiss_tnc_bridge.Prelude.Text.{Bytes}
use kiss_tnc_bridge.Prelude.Results.{ok, bind-eq-ok}
use kiss_tnc_bridge.Kiss.Frame.{fesc, KissFrame, unescape, unstuff, decode}

abbrev pub AreBytes : Bytes → Type 0
AreBytes = All (λ b. b < 256)

unescape_bound : (c d : ℕ) → unescape c ≡ ok d → d < 256
unfolding unescape
unescape_bound c d e = ground (arith, e)

unstuff-AreBytes :
    (rest out r : Bytes) → AreBytes out → AreBytes rest → unstuff out rest ≡ ok r → AreBytes r
unfolding unstuff
unstuff-AreBytes [] out r h k e = let p : out ≡ r = ground (arith, e) in rw (← p) h
unstuff-AreBytes (b ∷ []) out r h k e =
    let p : out ++ b ∷ [] ≡ r = ground (arith, e) in
    rw (← p) (All-append _ out (b ∷ []) h (k.0, tt))
unstuff-AreBytes (b ∷ c ∷ rest) out r h k e = elim (Bool-cases (b == fesc)) [
  | inl t ↦
      let (d, u, f) = bind-eq-ok (unescape c) _ (rw (t, unstuff) at e) in
      unstuff-AreBytes rest (out ++ d ∷ []) r
        (All-append _ out (d ∷ []) h (unescape_bound c d u, tt)) k.1.1 f
  | inr t ↦
      unstuff-AreBytes (c ∷ rest) (out ++ b ∷ []) r (All-append _ out (b ∷ []) h (k.0, tt)) k.1
        (rw (t, unstuff) at e)
]

-- A frame that is decoded from bytes is made of bytes.
pub decode-AreBytes :
    (raw : Bytes) (f : KissFrame)
    → AreBytes raw
    → decode raw ≡ ok f
    → (f.command < 256) × AreBytes f.payload
unfolding decode
decode-AreBytes [] f h e = cc (e)
decode-AreBytes (c ∷ rest) f h e =
    let (out, u, g) = bind-eq-ok (unstuff [] rest) _ e in
    let p : out ≡ f.payload = ground (arith, g) in
    (ground (arith, g, h.0), rw (← p) (unstuff-AreBytes rest [] out tt h.1 u))
