-- ===== src/Ax25/Printable.antt =====
-- src/ax25.rs: the characters of a header.
use mathlib.Core.Option.{some-injective}
use kiss_tnc_bridge.Prelude.{
  ℕ, zero, suc, ◌+◌, ◌/◌, ◌%◌, ◌≤◌, ◌<◌, true, List, [], ◌∷◌, ◌++◌, Option, none, some, ltb, ◌==◌,
  length, take, drop, All, All-append, ◌≡◌, refl, ap, ◌∙◌, arith, Bool-cases, inl, inr,
}
use kiss_tnc_bridge.Prelude.Text.{Bytes}
use kiss_tnc_bridge.Ax25.{
  Address, Header, is_call_char, call_from, ssid_suffix, address_of, address, next_address,
  addresses, rounds, path_of, header_of, parse, printable,
}

-- A character that is shown as itself.
abbrev pub IsPrintable : ℕ → Type 0
IsPrintable c = (0x20 ≤ c) × (c ≤ 0x7E)

abbrev pub AllPrintable : Bytes → Type 0
AllPrintable = All IsPrintable

pub and_then : (xs ys : Bytes) → AllPrintable xs → AllPrintable ys → AllPrintable (xs ++ ys)
and_then xs ys h k = All-append IsPrintable xs ys h k

pub printable-AllPrintable : (b : Bytes) → AllPrintable (printable b)
unfolding printable
printable-AllPrintable [] = tt
printable-AllPrintable (c ∷ cs) = (ground arith, printable-AllPrintable cs)

call_char-IsPrintable : (c : ℕ) → is_call_char c ≡ true → IsPrintable c
unfolding is_call_char
call_char-IsPrintable c h = ground (arith, h)

call_from-AllPrintable :
    (bs call r : Bytes) → AllPrintable call → call_from call bs ≡ some r → AllPrintable r
unfolding call_from
call_from-AllPrintable [] call r h e = rw (← (some-injective call r e)) h
call_from-AllPrintable (b ∷ bs) call r h e = elim (Bool-cases (b / 2 == 32)) [
  | inl s ↦ call_from-AllPrintable bs call r h (rw s at e)
  | inr s ↦ elim (Bool-cases (is_call_char (b / 2))) [
    | inl c ↦
        call_from-AllPrintable bs (call ++ (b / 2) ∷ []) r
          (and_then call ((b / 2) ∷ []) h (call_char-IsPrintable (b / 2) c, tt))
          (ground (arith, s, c, e))
    | inr c ↦ absurd (ground (arith, s, c, e))
  ]
]

ssid_suffix-AllPrintable : (n : ℕ) → n < 16 → AllPrintable (ssid_suffix n)
unfolding ssid_suffix
ssid_suffix-AllPrintable n h = ground (arith, h)

address_of-AllPrintable :
    (call : Bytes) (b : ℕ) (a : Address)
    → AllPrintable call
    → address_of call b ≡ some a
    → AllPrintable a.call
unfolding address_of
address_of-AllPrintable [] b a h e = cc (e)
address_of-AllPrintable (c ∷ cs) b a h e =
    let same : (c ∷ cs) ++ ssid_suffix (b / 2 % 16) ≡ a.call = ground (arith, e) in
    rw (← same) (
      and_then (c ∷ cs) (ssid_suffix (b / 2 % 16)) h
        (ssid_suffix-AllPrintable (b / 2 % 16) (omega arith)))

-- An answer of a chain of options has an answer of its first link.
then-eq-some :
    {A B : Type 0} (o : Option A) (f : A → Option B) (b : B)
    → elim o [ none ↦ none | some a ↦ f a ] ≡ some b
    → (a : A) × (o ≡ some a) × (f a ≡ some b)
then-eq-some none f b e = cc
then-eq-some (some a) f b e = (a, refl, e)

last_byte-AllPrintable :
    (call bs : Bytes) (a : Address)
    → AllPrintable call
    → elim bs [ [] ↦ none | b ∷ more ↦ address_of call b ] ≡ some a
    → AllPrintable a.call
last_byte-AllPrintable call [] a h e = cc (e)
last_byte-AllPrintable call (b ∷ more) a h e = address_of-AllPrintable call b a h e

address-AllPrintable : (field : Bytes) (a : Address) → address field ≡ some a → AllPrintable a.call
unfolding address
address-AllPrintable field a e =
    let (call, c, f) = then-eq-some (call_from [] (take 6 field)) _ a e in
    last_byte-AllPrintable call (drop 6 field) a
      (call_from-AllPrintable (take 6 field) [] call tt c) f

next_address-AllPrintable :
    (rest : Bytes) (a : Address) (behind : Bytes)
    → next_address rest ≡ some (a, behind)
    → AllPrintable a.call
unfolding next_address
next_address-AllPrintable rest a behind e = elim (Bool-cases (ltb (length rest) 7)) [
  | inl t ↦ cc (rw t at e)
  | inr t ↦
      let (b, c, f) = then-eq-some (address (take 7 rest)) _ (a, behind) (rw t at e) in
      address-AllPrintable (take 7 rest) a (c ∙ ground (arith, f))
]

abbrev CallsPrintable : List Address → Type 0
CallsPrintable = All (λ a. AllPrintable a.call)

addresses-CallsPrintable :
    (n : ℕ) (sofar : List Address) (rest : Bytes) (r : List Address × Bytes)
    → CallsPrintable sofar
    → addresses n sofar rest ≡ some r
    → CallsPrintable r.0
unfolding addresses
addresses-CallsPrintable zero sofar rest r h e = cc (e)
addresses-CallsPrintable (suc n) sofar rest r h e =
    let ((a, behind), c, f) = then-eq-some (next_address rest) _ r e in
    let more : CallsPrintable (sofar ++ a ∷ []) =
      All-append _ sofar (a ∷ []) h (next_address-AllPrintable rest a behind c, tt) in
    elim (Bool-cases a.is_last) [
      | inl t ↦ rw (← ap (λ x. x.0) (some-injective _ _ (rw t at f))) more
      | inr t ↦ elim (Bool-cases (ltb 10 (length sofar + 1))) [
        | inl u ↦ cc (rw (t, u) at f)
        | inr u ↦ addresses-CallsPrintable n (sofar ++ a ∷ []) behind r more (rw (t, u) at f)
      ]
    ]

path_of-AllPrintable : (ads : List Address) → CallsPrintable ads → All AllPrintable (path_of ads)
unfolding path_of
path_of-AllPrintable [] h = tt
path_of-AllPrintable (a ∷ ads) h = (
  elim (Bool-cases a.repeated) [
    | inl t ↦ rw t (and_then a.call (42 ∷ []) h.0 (omega arith))
    | inr t ↦ rw t h.0
  ],
  path_of-AllPrintable ads h.1,
)

pub record Shown (h : Header) : Type 0 where
  pub source : AllPrintable h.source
  pub destination : AllPrintable h.destination
  pub path : All AllPrintable h.path

header_of-Shown :
    (ads : List Address) (rest : Bytes) (r : Header × Bytes)
    → CallsPrintable ads
    → header_of ads rest ≡ some r
    → Shown r.0
unfolding header_of
header_of-Shown [] rest r h e = cc (e)
header_of-Shown (a ∷ []) rest r h e = cc (e)
header_of-Shown (a ∷ b ∷ ads) [] r h e = cc (e)
header_of-Shown (a ∷ b ∷ ads) (c ∷ rest) r h e =
    rw (← ap (λ x. x.0) (some-injective _ _ e))
      (record { source = h.1.0; destination = h.0; path = path_of-AllPrintable ads h.1.1 })

pub parse-Shown : (content : Bytes) (r : Header × Bytes) → parse content ≡ some r → Shown r.0
unfolding parse
parse-Shown content r e =
    let ((ads, rest), c, f) = then-eq-some (addresses rounds [] content) _ r e in
    header_of-Shown ads rest r (addresses-CallsPrintable rounds [] content (ads, rest) tt c) f
