-- ===== src/Ax25/Rounds.antt =====
-- src/ax25.rs: the loop of `parse` ends by itself.
use kiss_tnc_bridge.Prelude.{
  ℕ, zero, suc, ◌+◌, ◌≤◌, List, [], ◌∷◌, ◌++◌, ◌≡◌, refl, none, some, arith, ltb, length,
  Bool-cases, Option-cases, inl, inr, length-append, if◌then◌else◌,
}
use kiss_tnc_bridge.Prelude.Text.{Bytes}
use kiss_tnc_bridge.Ax25.{Address, next_address, addresses, rounds}

next_rounds :
    (n m : ℕ) (acc : List Address) (rest behind : Bytes) (a : Address)
    → next_address rest ≡ some (a, behind)
    → addresses n (acc ++ a ∷ []) behind ≡ addresses m (acc ++ a ∷ []) behind
    → addresses (suc n) acc rest ≡ addresses (suc m) acc rest
unfolding addresses
next_rounds n m acc rest behind a h e =
    rw (h, addresses)
      (λ i.
        if a.is_last
        then some (acc ++ a ∷ [], behind)
        else if ltb 10 (length acc + 1)
        then none
        else e i)

addresses_enough :
    (n m : ℕ) (acc : List Address) (rest : Bytes)
    → length acc + n ≡ 11
    → length acc ≤ 10
    → n ≤ m
    → addresses n acc rest ≡ addresses m acc rest
unfolding addresses
addresses_enough zero m acc rest e b l = absurd (omega arith)
addresses_enough (suc n) zero acc rest e b l = absurd (omega arith)
addresses_enough (suc n) (suc m) acc rest e b l = elim (Option-cases (next_address rest)) [
  | inl h ↦ rw (h, addresses) refl
  | inr ((a, behind), h) ↦
      let count = length-append acc (a ∷ []) in
      elim (Bool-cases (ltb 10 (length acc + 1))) [
        | inl full ↦ rw (h, addresses, full) refl
        | inr near ↦ next_rounds n m acc rest behind a h (
            addresses_enough n m (acc ++ a ∷ []) behind (omega (arith, count))
              (ground (arith, count)) (omega arith))
      ]
]

-- The loop over the addresses of any bytes leaves by itself in its eleventh round at the latest: a
-- greater bound on the rounds makes no difference.
pub addresses-rounds :
    (n : ℕ) (content : Bytes) → rounds ≤ n → addresses rounds [] content ≡ addresses n [] content
addresses-rounds n content l = addresses_enough 11 n [] content refl (omega arith) l
