-- ===== src/Config/Macs.antt =====
-- src/config/resolve.rs: the addresses of adapters, as text and back.
use Prim.Native.Char.{Char, char, code}
use Prim.Native.String.{String, len, ◌++◌ as append}
use Prim.Native.String.append as Append
use kiss_tnc_bridge.Prelude.{
  ℕ, zero, suc, ◌<◌, Bool, true, false, not, ◌&&◌, ◌==◌, ==_iff, List, [], ◌∷◌, ◌≡◌, refl, ap, ◌∙◌,
  arith, Option, none, some, Bool-cases, inl, inr,
}
use kiss_tnc_bridge.Prelude.Results.{ok}
use kiss_tnc_bridge.Config.Addresses.{Mac}
use kiss_tnc_bridge.Config.Text.{has_char, split, show_byte, parse_unsigned}
use kiss_tnc_bridge.Config.Values.{parse_octet, mac_of, parse_mac, show_mac}

abbrev all_below : ℕ → (ℕ → Bool) → Bool
all_below zero p = true
all_below (suc n) p = p n && all_below n p

all_below_lem : (n : ℕ) (p : ℕ → Bool) → all_below n p ≡ true → (m : ℕ) → m < n → p m ≡ true
all_below_lem zero p e m h = absurd (omega arith)
all_below_lem (suc n) p e m h = elim (Bool-cases (m == n)) [
  | inl f ↦ (λ i. p ((==_iff m n).0 f i)) ∙ ground (arith, e)
  | inr f ↦ all_below_lem n p (ground (arith, e)) m (ground (arith, f))
]

abbrev is_value : ℕ → Option ℕ → Bool
is_value n none = false
is_value n (some m) = m == n

-- Two digits, none of them a colon, that are read as the byte.
abbrev reads_back : ℕ → Bool
reads_back n =
    is_value n (parse_unsigned 16 256 (show_byte n))
    && len (show_byte n) == 2
    && not (has_char 58 (show_byte n))

each_reads_back : all_below 256 reads_back ≡ true
unfolding parse_unsigned show_byte has_char
each_reads_back = refl

abbrev colon : Char
colon = char 58 tt

append-nil : (t : String) → append "" t ≡ t
append-nil t = λ i. Append.nil t i

append-cons : (c : Char) (s t : String) → append (String.◌∷◌ c s) t ≡ String.◌∷◌ c (append s t)
append-cons c s t = λ i. Append.cons c s t i

append-one : (c : Char) (t : String) → append (String.◌∷◌ c "") t ≡ String.◌∷◌ c t
append-one c t = append-cons c "" t ∙ ap (String.◌∷◌ c) (append-nil t)

-- A character that does not separate goes in front of the first part.
split-cons :
    (c : Char) (s t : String) (parts : List String)
    → (code c == 58) ≡ false
    → split 58 s ≡ t ∷ parts
    → split 58 (String.◌∷◌ c s) ≡ String.◌∷◌ c t ∷ parts
unfolding split
split-cons c s t parts e h = rw (e, h, append-one c t) refl

split-colon :
    (s rest : String)
    → has_char 58 s ≡ false
    → split 58 (append s (append ":" rest)) ≡ s ∷ split 58 rest
unfolding split has_char
split-colon String.[] rest e = ap (split 58) (append-nil (append ":" rest) ∙ append-one colon rest)
split-colon (String.◌∷◌ c s) rest e =
    ap (split 58) (append-cons c s (append ":" rest))
    ∙ split-cons c (append s (append ":" rest)) s (split 58 rest) (ground (arith, e))
        (split-colon s rest (ground (arith, e)))

split_whole : (s : String) → has_char 58 s ≡ false → split 58 s ≡ s ∷ []
unfolding split has_char
split_whole String.[] e = refl
split_whole (String.◌∷◌ c s) e =
    split-cons c s s [] (ground (arith, e)) (split_whole s (ground (arith, e)))

no_colon : (n : ℕ) → n < 256 → has_char 58 (show_byte n) ≡ false
no_colon n h = let r = all_below_lem 256 reads_back each_reads_back n h in ground (arith, r)

is_value_lem : (n : ℕ) (o : Option ℕ) → is_value n o ≡ true → o ≡ some n
is_value_lem n none e = absurd (cc (e))
is_value_lem n (some m) e = ap some ((==_iff m n).0 e)

parse_octet-show_byte : (s : String) (n : ℕ) → n < 256 → parse_octet s (show_byte n) ≡ ok n
unfolding parse_octet
parse_octet-show_byte s n h =
    let r = all_below_lem 256 reads_back each_reads_back n h in
    let v = is_value_lem n (parse_unsigned 16 256 (show_byte n)) (ground (arith, r)) in
    let l : (len (show_byte n) == 2) ≡ true = ground (arith, r) in rw (l, v) refl

-- The octets are bytes.
abbrev pub IsOctets : ℕ × ℕ × ℕ × ℕ × ℕ × ℕ → Type 0
IsOctets (a, b, c, d, e, f) = (a < 256) × (b < 256) × (c < 256) × (d < 256) × (e < 256) × (f < 256)

split-show_mac :
    (a b c d e f : ℕ)
    → IsOctets (a, b, c, d, e, f)
    → split 58 (show_mac (record { octets = (a, b, c, d, e, f) }))
      ≡ show_byte a ∷ show_byte b ∷ show_byte c ∷ show_byte d ∷ show_byte e ∷ show_byte f ∷ []
unfolding show_mac
split-show_mac a b c d e f (ha, hb, hc, hd, he, hf) =
    split-colon (show_byte a) _ (no_colon a ha)
    ∙ ap (λ r. show_byte a ∷ r) (split-colon (show_byte b) _ (no_colon b hb))
    ∙ ap (λ r. show_byte a ∷ show_byte b ∷ r) (split-colon (show_byte c) _ (no_colon c hc))
    ∙ ap (λ r. show_byte a ∷ show_byte b ∷ show_byte c ∷ r)
        (split-colon (show_byte d) _ (no_colon d hd))
    ∙ ap (λ r. show_byte a ∷ show_byte b ∷ show_byte c ∷ show_byte d ∷ r)
        (split-colon (show_byte e) _ (no_colon e he))
    ∙ ap (λ r. show_byte a ∷ show_byte b ∷ show_byte c ∷ show_byte d ∷ show_byte e ∷ r)
        (split_whole (show_byte f) (no_colon f hf))

mac_of_bytes :
    (s : String) (a b c d e f : ℕ)
    → IsOctets (a, b, c, d, e, f)
    → mac_of s
        (show_byte a ∷ show_byte b ∷ show_byte c ∷ show_byte d ∷ show_byte e ∷ show_byte f ∷ [])
      ≡ ok (record { octets = (a, b, c, d, e, f) })
unfolding mac_of
mac_of_bytes s a b c d e f (ha, hb, hc, hd, he, hf) =
    rw
      (
        parse_octet-show_byte s a ha,
        parse_octet-show_byte s b hb,
        parse_octet-show_byte s c hc,
        parse_octet-show_byte s d hd,
        parse_octet-show_byte s e he,
        parse_octet-show_byte s f hf,
      )
      refl

-- An address whose octets are bytes is shown as a text that is parsed to the same address.
pub parse_mac-show_mac : (m : Mac) → IsOctets m.octets → parse_mac (show_mac m) ≡ ok m
unfolding parse_mac
parse_mac-show_mac m h =
    let (a, b, c, d, e, f) = m.octets in
    ap (mac_of (show_mac m)) (split-show_mac a b c d e f h)
    ∙ mac_of_bytes (show_mac m) a b c d e f h
