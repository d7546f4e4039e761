-- ===== src/Ax25/Limit.antt =====
-- src/ax25.rs: how many addresses `parse` takes.
use mathlib.Core.List.{append_assoc}
use kiss_tnc_bridge.Prelude.{
  ℕ, zero, suc, ◌+◌, ◌≤◌, Bool, true, false, List, [], ◌∷◌, ◌++◌, ◌≡◌, refl, sym, ap, ◌∙◌, Option,
  none, some, arith, ltb, leb, length, Bool-cases, inl, inr, length-append, if◌then◌else◌,
}
use kiss_tnc_bridge.Prelude.Text.{Bytes}
use kiss_tnc_bridge.Ax25.{Address, address, next_address, addresses, header_of, parse}

-- Fields of seven bytes that are those addresses.
abbrev pub Fields : List Address → List Bytes → Type 0
Fields [] [] = Unit {0}
Fields (a ∷ more) (f ∷ fs) = (length f ≡ 7) × (address f ≡ some a) × Fields more fs
Fields _ _ = ⊥

-- The last one is marked as the last, and no other.
abbrev pub Ended : List Address → Type 0
Ended [] = ⊥
Ended (a ∷ []) = a.is_last ≡ true
Ended (a ∷ b ∷ more) = (a.is_last ≡ false) × Ended (b ∷ more)

abbrev pub joined : List Bytes → Bytes → Bytes
joined [] rest = rest
joined (f ∷ fs) rest = f ++ joined fs rest

next_address-append :
    (f rest : Bytes) (a : Address)
    → length f ≡ 7
    → address f ≡ some a
    → next_address (f ++ rest) ≡ some (a, rest)
unfolding next_address
next_address-append (p ∷ q ∷ r ∷ s ∷ t ∷ u ∷ v ∷ []) rest a e h =
    let long : ltb (suc (suc (suc (suc (suc (suc (suc (length rest)))))))) 7 ≡ false =
      ground arith in
    rw (long, h) refl
next_address-append [] rest a e h = absurd (omega (arith, e))
next_address-append (p ∷ []) rest a e h = absurd (omega (arith, e))
next_address-append (p ∷ q ∷ []) rest a e h = absurd (omega (arith, e))
next_address-append (p ∷ q ∷ r ∷ []) rest a e h = absurd (omega (arith, e))
next_address-append (p ∷ q ∷ r ∷ s ∷ []) rest a e h = absurd (omega (arith, e))
next_address-append (p ∷ q ∷ r ∷ s ∷ t ∷ []) rest a e h = absurd (omega (arith, e))
next_address-append (p ∷ q ∷ r ∷ s ∷ t ∷ u ∷ []) rest a e h = absurd (omega (arith, e))
next_address-append (p ∷ q ∷ r ∷ s ∷ t ∷ u ∷ v ∷ w ∷ f) rest a e h = absurd (omega (arith, e))

-- One round of the loop, by what the address says and how many there are.
round_last :
    (n : ℕ) (acc : List Address) (a : Address) (rest behind : Bytes)
    → next_address rest ≡ some (a, behind)
    → a.is_last ≡ true
    → addresses (suc n) acc rest ≡ some (acc ++ a ∷ [], behind)
unfolding addresses
round_last n acc a rest behind h k =
    rw (h, addresses)
      (λ i.
        if k i
        then some (acc ++ a ∷ [], behind)
        else if ltb 10 (length acc + 1)
        then none
        else addresses n (acc ++ a ∷ []) behind)

round_more :
    (n : ℕ) (acc : List Address) (a : Address) (rest behind : Bytes)
    → next_address rest ≡ some (a, behind)
    → a.is_last ≡ false
    → addresses (suc n) acc rest
      ≡ (if ltb 10 (length acc + 1) then none else addresses n (acc ++ a ∷ []) behind)
unfolding addresses
round_more n acc a rest behind h k =
    rw (h, addresses)
      (λ i.
        if k i
        then some (acc ++ a ∷ [], behind)
        else if ltb 10 (length acc + 1)
        then none
        else addresses n (acc ++ a ∷ []) behind)

addresses-joined :
    (ads : List Address) (fs : List Bytes) (n : ℕ) (acc : List Address) (rest : Bytes)
    → Fields ads fs
    → Ended ads
    → length acc + n ≡ 11
    → length acc ≤ 10
    → addresses n acc (joined fs rest)
      ≡ (if leb (length acc + length ads) 11 then some (acc ++ ads, rest) else none)
addresses-joined [] fs n acc rest h k e b = absurd k
addresses-joined (a ∷ ads) [] n acc rest h k e b = absurd h
addresses-joined (a ∷ ads) (f ∷ fs) zero acc rest h k e b = absurd (omega arith)
addresses-joined (a ∷ []) (f ∷ []) (suc n) acc rest (l, h, t) k e b =
    let fits : leb (length acc + 1) 11 ≡ true = ground arith in
    round_last n acc a (f ++ rest) rest (next_address-append f rest a l h) k ∙ λ i.
    if sym fits i then some (acc ++ a ∷ [], rest) else none
addresses-joined (a ∷ []) (f ∷ g ∷ fs) (suc n) acc rest h k e b = absurd h.2
addresses-joined (a ∷ c ∷ ads) (f ∷ fs) (suc n) acc rest (l, h, t) (k, m) e b =
    let behind = joined fs rest in
    let once = round_more n acc a (f ++ behind) behind (next_address-append f behind a l h) k in
    let result : Bool → Option (List Address × Bytes) =
      λ x. if x then some (acc ++ a ∷ c ∷ ads, rest) else none in
    once ∙ elim (Bool-cases (ltb 10 (length acc + 1))) [
      | inl full ↦
          let over : leb (length acc + suc (suc (length ads))) 11 ≡ false = ground arith in
          rw full (ap result (sym over))
      | inr near ↦
          let count = length-append acc (a ∷ []) in
          let same : length (acc ++ a ∷ []) + suc (length ads)
              ≡ length acc + suc (suc (length ads)) =
            omega (arith, count) in
          rw near (
            addresses-joined (c ∷ ads) fs n (acc ++ a ∷ []) rest t m (omega (arith, count))
              (ground (arith, count))
            ∙ λ i.
                if leb (same i) 11
                then some (append_assoc acc (a ∷ []) (c ∷ ads) i, rest)
                else none)
    ]

-- `parse` of address fields, the last of them marked as such, and what follows takes up to eleven
-- addresses, and gives their header and the information field; more than eleven are refused.
pub parse-joined :
    (ads : List Address) (fs : List Bytes) (rest : Bytes)
    → Fields ads fs
    → Ended ads
    → parse (joined fs rest) ≡ (if leb (length ads) 11 then header_of ads rest else none)
unfolding parse
parse-joined ads fs rest h k =
    let counted : 0 + length ads ≡ length ads = omega arith in
    let whole : addresses 11 [] (joined fs rest)
        ≡ (if leb (length ads) 11 then some (ads, rest) else none) =
      addresses-joined ads fs 11 [] rest h k refl (omega arith) ∙ λ i.
      if leb (counted i) 11 then some (ads, rest) else none in
    elim (Bool-cases (leb (length ads) 11)) [
      | inl e ↦ rw (whole, parse, e) refl
      | inr e ↦ rw (whole, parse, e) refl
    ]
