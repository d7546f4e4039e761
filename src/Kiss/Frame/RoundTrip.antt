-- ===== src/Kiss/Frame/RoundTrip.antt =====
-- src/kiss/frame.rs: `decode` and `encode` are inverse to each other, up to the command byte.
use mathlib.Core.Path.{subst, ap₂}
use mathlib.Core.List.{append-nil, append_assoc}
use kiss_tnc_bridge.Prelude.{
  ℕ, true, false, [], ◌∷◌, ◌++◌, ◌≡◌, ◌≢◌, ◌↔◌, inl, inr, refl, sym, ap, ◌∙◌, ◌==◌, arith,
  Bool-cases, length, ==_iff,
}
use kiss_tnc_bridge.Prelude.Text.{Bytes}
use kiss_tnc_bridge.Prelude.Results.{bind-eq-ok, Result, ok, err}
use kiss_tnc_bridge.Kiss.Frame.{
  fend, fesc, tfend, tfesc, FrameError, unescape, unstuff, decode, encode, KissFrame,
}
use kiss_tnc_bridge.Kiss.Frame.Stuffing.{
  NoFend, stuffed, stuffed_byte, interior, encode-interior, interior-NoFend, unstuff-stuffed,
}

decode_cons :
    (c : ℕ) (bs : Bytes) → decode (c ∷ stuffed bs) ≡ ok (record { command = c; payload = bs })
unfolding decode
decode_cons c bs = rw (unstuff-stuffed bs [])

module _ (f : KissFrame) where
  decode-interior_plain :
      (f.command == fend) ≡ false → (f.command == fesc) ≡ false → decode (interior f) ≡ ok f
  decode-interior_plain p q = rw (p, q) (decode_cons f.command f.payload)

  -- A command byte that `encode` stuffs comes back as the escape byte.
  decode-interior-fend :
      f.command ≡ fend
      → decode (interior f) ≡ ok (record { command = fesc; payload = tfend ∷ f.payload })
  decode-interior-fend e = rw ((==_iff f.command fend).1 e) (decode_cons fesc (tfend ∷ f.payload))

  decode-interior-fesc :
      f.command ≡ fesc
      → decode (interior f) ≡ ok (record { command = fesc; payload = tfesc ∷ f.payload })
  decode-interior-fesc e =
      subst
        (λ c.
          decode (stuffed_byte c ++ stuffed f.payload)
          ≡ ok (record { command = fesc; payload = tfesc ∷ f.payload }))
        (sym e) (decode_cons fesc (tfesc ∷ f.payload))

payload_of : Result FrameError KissFrame → ℕ
payload_of (ok f) = length f.payload
payload_of (err e) = 0

-- What `encode` writes is one delimiter, an interior with no delimiter, and one delimiter; and
-- `decode` of the interior gives the frame back exactly when its command byte is neither FEND nor
-- FESC.
pub decode-encode :
    (f : KissFrame)
    → (inner : Bytes) × (encode f ≡ fend ∷ (inner ++ fend ∷ []))
      × NoFend inner
      × ((decode inner ≡ ok f) ↔ ((f.command ≢ fend) × (f.command ≢ fesc)))
unfolding payload_of
decode-encode f = (interior f, encode-interior f, interior-NoFend f, (only_if, if_plain))
  where
    only_if : decode (interior f) ≡ ok f → (f.command ≢ fend) × (f.command ≢ fesc)
    only_if e = (
      (λ c. omega (arith, ap payload_of (sym (decode-interior-fend f c) ∙ e))),
      (λ c. omega (arith, ap payload_of (sym (decode-interior-fesc f c) ∙ e))),
    )

    if_plain : (f.command ≢ fend) × (f.command ≢ fesc) → decode (interior f) ≡ ok f
    if_plain (p, q) = decode-interior_plain f (ground arith) (ground arith)

unstuff_plain :
    (b c : ℕ) (out rest : Bytes)
    → (b == fesc) ≡ false
    → unstuff out (b ∷ c ∷ rest) ≡ unstuff (out ++ b ∷ []) (c ∷ rest)
unfolding unstuff
unstuff_plain b c out rest h = ground arith

unstuff_escaped :
    (b c : ℕ) (out rest : Bytes) {r : Bytes}
    → (b == fesc) ≡ true
    → unstuff out (b ∷ c ∷ rest) ≡ ok r
    → (d : ℕ) × (b ∷ c ∷ [] ≡ stuffed_byte d) × (unstuff (out ++ d ∷ []) rest ≡ ok r)
unfolding unstuff unescape
unstuff_escaped b c out rest h e = elim (Bool-cases (c == tfend)) [
  | inl p ↦ (fend, ground arith, ground arith)
  | inr p ↦ (fesc, ground arith, ground arith)
]

unstuff_inverse :
    (out raw : Bytes) {r : Bytes}
    → NoFend raw
    → unstuff out raw ≡ ok r
    → (p : Bytes) × (r ≡ out ++ p) × (raw ≡ stuffed p)
unfolding unstuff unescape
unstuff_inverse out [] n e = ([], ground (arith, append-nil out), refl)
unstuff_inverse out (b ∷ []) n e = (b ∷ [], ground arith, ground arith)
unstuff_inverse out (b ∷ c ∷ rest) n e = elim (Bool-cases (b == fesc)) [
  | inl esc ↦
      let (d, s, later) = unstuff_escaped b c out rest esc e in
      let (p, h, k) = unstuff_inverse (out ++ d ∷ []) rest n.1.1 later in
      (d ∷ p, h ∙ append_assoc out (d ∷ []) p, ap₂ ◌++◌ s k)
  | inr plain ↦
      let (p, h, k) =
        unstuff_inverse (out ++ b ∷ []) (c ∷ rest) n.1
          (sym (unstuff_plain b c out rest plain) ∙ e) in
      (b ∷ p, h ∙ append_assoc out (b ∷ []) p, ap₂ ◌++◌ (plain_byte n.0 plain) k)
]
  where
    plain_byte : b ≢ fend → (b == fesc) ≡ false → b ∷ [] ≡ stuffed_byte b
    plain_byte p q = ground arith

-- `decode` is injective on what can stand between two delimiters: bytes with no FEND that decode to
-- `f` are the command byte of `f` and the stuffing of its payload.
pub decode-eq-ok :
    (raw : Bytes) {f : KissFrame}
    → NoFend raw
    → decode raw ≡ ok f
    → raw ≡ f.command ∷ stuffed f.payload
unfolding decode
decode-eq-ok [] n e = cc
decode-eq-ok (c ∷ rest) {f} n e =
    let (out, u, g) = bind-eq-ok (unstuff [] rest) _ e in
    let (p, h, k) = unstuff_inverse [] rest n.1 u in ground arith
