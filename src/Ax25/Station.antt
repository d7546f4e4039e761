-- ===== src/Ax25/Station.antt =====
-- src/ax25.rs: what `address` reads in a field as AX.25 lays it out, seven bytes for each station: its callsign shifted by one bit and padded with spaces, and a byte with its SSID,
-- whether it has repeated the frame, two bits for other uses and whether it is the last.
use mathlib.Core.List.{append-nil, append_assoc}
use kiss_tnc_bridge.Prelude.{
  ℕ, zero, suc, ◌+◌, ◌*◌, ◌/◌, ◌%◌, ◌≤◌, ◌<◌, Bool, true, false, ◌||◌, List, [], ◌∷◌, ◌++◌, some,
  ◌≡◌, ◌⊎◌, inl, inr, refl, sym, ap, ◌∙◌, arith, ltb, ◌==◌, if◌then◌else◌, length, take, drop, All,
  Bool-cases, ◌-◌,
}
use kiss_tnc_bridge.Prelude.Text.{Bytes}
use kiss_tnc_bridge.Ax25.{Address, is_call_char, call_from, ssid_suffix, address_of, address}
use kiss_tnc_bridge.Ax25.Decode.{decimal, digits}
use kiss_tnc_bridge.Ax25.Limit.{joined}

pub record Station : Type 0 where
  pub call : Bytes
  pub ssid : ℕ
  pub repeated : Bool
  pub spare : ℕ

-- A capital letter or a digit.
abbrev pub IsCallChar : ℕ → Type 0
IsCallChar c = ((65 ≤ c) × (c ≤ 90)) ⊎ ((48 ≤ c) × (c ≤ 57))

pub record IsStation (s : Station) : Type 0 where
  pub named : 1 ≤ length s.call
  pub short : length s.call ≤ 6
  pub chars : All IsCallChar s.call
  pub ssid_fits : s.ssid < 16
  pub spare_fits : s.spare < 4

-- Characters shifted by a bit, and spaces up to a length.
abbrev pub padded : ℕ → Bytes → Bytes
padded zero cs = []
padded (suc n) [] = 64 ∷ padded n []
padded (suc n) (c ∷ cs) = (2 * c) ∷ padded n cs

abbrev pub bit : Bool → ℕ
bit true = 1
bit false = 0

abbrev pub field_of : Bool → Station → Bytes
field_of last s =
    padded 6 s.call ++ (128 * bit s.repeated + 32 * s.spare + 2 * s.ssid + bit last) ∷ []

-- The last station is marked as the last.
abbrev pub fields_of : List Station → List Bytes
fields_of [] = []
fields_of (s ∷ []) = field_of true s ∷ []
fields_of (s ∷ t ∷ more) = field_of false s ∷ fields_of (t ∷ more)

abbrev pub wire : List Station → Bytes → Bytes
wire stations rest = joined (fields_of stations) rest

-- The callsign, with a dash and the SSID unless that is 0.
abbrev pub text_of : Station → Bytes
text_of s = s.call ++ (if s.ssid == 0 then [] else 45 ∷ decimal s.ssid)

-- With a star if it has repeated the frame.
abbrev pub shown : Station → Bytes
shown s = text_of s ++ (if s.repeated then 42 ∷ [] else [])

-- UI frames, with and without the poll bit, and I frames.
abbrev pub has_info : ℕ → Bool
has_info control = control == 0x03 || control == 0x13 || control % 2 == 0

call_char : (c : ℕ) → IsCallChar c → is_call_char c ≡ true
unfolding is_call_char
call_char c (inl h) = ground arith
call_char c (inr h) = ground arith

call_from-padded :
    (n : ℕ) (acc cs : Bytes)
    → length cs ≤ n
    → All IsCallChar cs
    → call_from acc (padded n cs) ≡ some (acc ++ cs)
unfolding call_from
call_from-padded zero acc [] l h = ap some (sym (append-nil acc))
call_from-padded zero acc (c ∷ cs) l h = absurd (omega arith)
call_from-padded (suc n) acc [] l h = call_from-padded n acc [] (omega arith) h
call_from-padded (suc n) acc (c ∷ cs) l (k, h) =
    let half : 2 * c / 2 ≡ c = omega arith in
    let no_space : (c == 32) ≡ false = ground (arith, k) in
    rw (call_from, half, no_space, call_char c k)
      (call_from-padded n (acc ++ c ∷ []) cs (omega arith) h
        ∙ ap some (append_assoc acc (c ∷ []) cs))

take-padded : (n : ℕ) (cs rest : Bytes) → take n (padded n cs ++ rest) ≡ padded n cs
take-padded zero cs rest = refl
take-padded (suc n) [] rest = ap (λ l. 64 ∷ l) (take-padded n [] rest)
take-padded (suc n) (c ∷ cs) rest = ap (λ l. (2 * c) ∷ l) (take-padded n cs rest)

drop-padded : (n : ℕ) (cs rest : Bytes) → drop n (padded n cs ++ rest) ≡ rest
drop-padded zero cs rest = refl
drop-padded (suc n) [] rest = drop-padded n [] rest
drop-padded (suc n) (c ∷ cs) rest = drop-padded n cs rest

length-padded : (n : ℕ) (cs rest : Bytes) → length (padded n cs ++ rest) ≡ n + length rest
length-padded zero cs rest = omega arith
length-padded (suc n) [] rest = omega (arith, length-padded n [] rest)
length-padded (suc n) (c ∷ cs) rest = omega (arith, length-padded n cs rest)

digits_small : (f n : ℕ) → n < 10 → digits (suc f) n ≡ (48 + n) ∷ []
unfolding digits
digits_small f n h =
    let small : ltb n 10 ≡ true = ground arith in
    let same : n % 10 ≡ n = omega arith in rw (digits, small, same) refl

digits_teen : (f n : ℕ) → 10 ≤ n → n < 20 → digits (suc (suc f)) n ≡ 49 ∷ (48 + n % 10) ∷ []
unfolding digits
digits_teen f n l h =
    let big : ltb n 10 ≡ false = ground arith in
    let one : n / 10 ≡ 1 = omega arith in rw (digits, big, one) refl

decimal_small : (n : ℕ) → n < 10 → decimal n ≡ (48 + n) ∷ []
unfolding decimal
decimal_small n h = let e : n + 1 ≡ suc n = omega arith in rw (decimal, e) (digits_small n n h)

decimal_teen : (n : ℕ) → 10 ≤ n → n < 20 → decimal n ≡ 49 ∷ (48 + n % 10) ∷ []
unfolding decimal
decimal_teen n l h =
    let e : n + 1 ≡ suc (suc (n - 1)) = omega arith in rw (decimal, e) (digits_teen (n - 1) n l h)

ssid_suffix-decimal : (n : ℕ) → n < 16 → ssid_suffix n ≡ (if n == 0 then [] else 45 ∷ decimal n)
unfolding ssid_suffix
ssid_suffix-decimal n h = elim (Bool-cases (ltb n 10)) [
  | inl low ↦ rw (decimal_small n (ground (arith, low)), ssid_suffix, low) refl
  | inr high ↦
      let ten : 10 ≤ n = ground (arith, high) in
      rw (decimal_teen n ten (omega arith), ssid_suffix, high) refl
]

-- The address that is read in a station's field.
abbrev pub address_in : Bool → Station → Address
address_in last s = record { call = text_of s; is_last = last; repeated = s.repeated }

address_of-field :
    (last repeated : Bool) (call : Bytes) (ssid spare : ℕ)
    → 1 ≤ length call
    → ssid < 16
    → spare < 4
    → address_of call (128 * bit repeated + 32 * spare + 2 * ssid + bit last)
      ≡ some (record {
        call = call ++ (if ssid == 0 then [] else 45 ∷ decimal ssid);
        is_last = last;
        repeated = repeated;
      })
unfolding address_of
address_of-field last repeated [] ssid spare l h k = absurd (omega arith)
address_of-field last repeated (c ∷ cs) ssid spare l h k =
    let b = 128 * bit repeated + 32 * spare + 2 * ssid + bit last in
    let number : b / 2 % 16 ≡ ssid = ground arith in
    let ends : (b % 2 == 1) ≡ last = ground arith in
    let again : (b / 128 % 2 == 1) ≡ repeated = ground arith in
    rw (number, ends, again, ssid_suffix-decimal ssid h) refl

pub address-field_of :
    (last : Bool) (s : Station) → IsStation s → address (field_of last s) ≡ some (address_in last s)
unfolding address
address-field_of last s h =
    let b = 128 * bit s.repeated + 32 * s.spare + 2 * s.ssid + bit last in
    let front : take 6 (field_of last s) ≡ padded 6 s.call = take-padded 6 s.call (b ∷ []) in
    let back : drop 6 (field_of last s) ≡ b ∷ [] = drop-padded 6 s.call (b ∷ []) in
    rw (address, front, call_from-padded 6 [] s.call h.short h.chars, back)
      (address_of-field last s.repeated s.call s.ssid s.spare h.named h.ssid_fits h.spare_fits)

pub field-length : (last : Bool) (s : Station) → length (field_of last s) ≡ 7
field-length last s =
    length-padded 6 s.call ((128 * bit s.repeated + 32 * s.spare + 2 * s.ssid + bit last) ∷ [])
