-- ===== src/Announce/Service/Apart.antt =====
-- src/announce.rs: the services that are announced do not overlap, and no other would fit.
use Prim.Native.String.{String}
use kiss_tnc_bridge.Prelude.{
  true, false, List, [], ◌∷◌, ◌++◌, ◌≡◌, refl, All, All-append, Pairwise, any_of, Bool-cases, inl,
  inr, arith,
}
use kiss_tnc_bridge.Prelude.Decide.{equal_self}
use kiss_tnc_bridge.Announce.Service.{
  Service, overlaps, distinct_from, distinct, Iface-discrete, Proto-discrete,
}

-- No two overlap, in their order.
abbrev pub Apart : List Service → Type 0
Apart = Pairwise (λ s t. overlaps s t ≡ false)

-- A service overlaps one of `out`.
abbrev pub Covered : List Service → Service → Type 0
Covered out s = any_of (λ t. overlaps t s) out ≡ true

Apart-append :
    (out : List Service) (s : Service)
    → Apart out
    → any_of (λ t. overlaps t s) out ≡ false
    → Apart (out ++ s ∷ [])
Apart-append [] s a e = (tt, tt)
Apart-append (t ∷ out) s a e =
    let first : overlaps t s ≡ false = ground (arith, e) in
    let others : any_of (λ u. overlaps u s) out ≡ false = ground (arith, e) in
    (
      All-append (λ u. overlaps t u ≡ false) out (s ∷ []) a.0 (first, tt),
      Apart-append out s a.1 others,
    )

Covered-append : (out more : List Service) (s : Service) → Covered out s → Covered (out ++ more) s
Covered-append [] more s c = cc c
Covered-append (t ∷ out) more s c = elim (Bool-cases (overlaps t s)) [
  | inl e ↦ rw e refl
  | inr e ↦ rw e (Covered-append out more s (rw e at c))
]

Covered-last : (out : List Service) (s : Service) → Covered (out ++ s ∷ []) s
unfolding overlaps
Covered-last [] s = rw (equal_self Iface-discrete s.iface, equal_self Proto-discrete s.proto) refl
Covered-last (t ∷ out) s = elim (Bool-cases (overlaps t s)) [
  | inl e ↦ rw e refl
  | inr e ↦ rw e (Covered-last out s)
]

-- What the loop keeps stays.
distinct_from-Covered :
    (out : List Service) (services : List (String × Service)) (s : Service)
    → Covered out s
    → Covered (distinct_from out services) s
unfolding distinct_from
distinct_from-Covered out [] s c = c
distinct_from-Covered out ((port, t) ∷ services) s c =
    elim (Bool-cases (any_of (λ u. overlaps u t) out)) [
      | inl e ↦ rw e (distinct_from-Covered out services s c)
      | inr e ↦
          rw e (distinct_from-Covered (out ++ t ∷ []) services s (Covered-append out (t ∷ []) s c))
    ]

module _ (P : Service → Type 0) where
  record Chosen (services : List (String × Service)) (out : List Service) : Type 0 where
    pub apart : Apart out
    pub all : All (λ e. Covered out e.1) services
    pub own : All P out

  distinct_from-Chosen :
      (out : List Service) (services : List (String × Service))
      → Apart out
      → All P out
      → All (λ e. P e.1) services
      → Chosen services (distinct_from out services)
  unfolding distinct_from
  distinct_from-Chosen out [] a o p = record { apart = a; all = tt; own = o }
  distinct_from-Chosen out ((port, s) ∷ services) a o p =
      elim (Bool-cases (any_of (λ t. overlaps t s) out)) [
        | inl e ↦
            let rest = distinct_from-Chosen out services a o p.1 in
            let there = distinct_from-Covered out services s e in
            rw e (record { apart = rest.apart; all = (there, rest.all); own = rest.own })
        | inr e ↦
            let kept = out ++ s ∷ [] in
            let rest =
              distinct_from-Chosen kept services (Apart-append out s a e)
                (All-append P out (s ∷ []) o (p.0, tt)) p.1 in
            let there = distinct_from-Covered kept services s (Covered-last out s) in
            rw e (record { apart = rest.apart; all = (there, rest.all); own = rest.own })
      ]

  -- Of the services of a bridge, those that are announced do not overlap, each one that is not
  -- announced overlaps one that is, and no others are announced: what holds of all services holds of
  -- them.
  pub distinct-Apart :
      (services : List (String × Service))
      → All (λ e. P e.1) services
      → Apart (distinct services)
        × All (λ e. Covered (distinct services) e.1) services
        × All P (distinct services)
  unfolding distinct
  distinct-Apart services p =
      let r = distinct_from-Chosen [] services tt tt p in (r.apart, r.all, r.own)
