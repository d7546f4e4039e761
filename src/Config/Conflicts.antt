-- ===== src/Config/Conflicts.antt =====
-- src/config/resolve.rs: `conflicts_with` of two listeners.
use kiss_tnc_bridge.Prelude.{true, ◌&&◌, ◌==◌, ◌≡◌, refl, sym, ◌∙◌, arith, Bool-cases, inl, inr}
use kiss_tnc_bridge.Prelude.Decide.{equal, equal_self, equal-eq-true, equal_of_eq, String-discrete}
use kiss_tnc_bridge.Config.Addresses.{
  Listen, addr, interface, IpAddr-discrete, listen_port, is_unspecified, same_place, conflicts_with,
}

equal_comm : {A : Type 0} (d : Discrete A) (a b : A) → equal d a b ≡ equal d b a
equal_comm d a b = elim (Bool-cases (equal d a b)) [
  | inl e ↦ e ∙ sym (equal_of_eq d (sym (equal-eq-true d a b e)))
  | inr e ↦ elim (Bool-cases (equal d b a)) [
    | inl f ↦ absurd (cc (e, equal_of_eq d (sym (equal-eq-true d b a f))))
    | inr f ↦ e ∙ sym f
  ]
]

same_place_comm : (a b : Listen) → same_place a b ≡ same_place b a
unfolding same_place
same_place_comm (addr a) (addr b) = ground (arith, equal_comm IpAddr-discrete a.ip b.ip)
same_place_comm (interface a p) (interface b q) = equal_comm String-discrete a b
same_place_comm (interface a p) (addr b) = refl
same_place_comm (addr a) (interface b q) = refl

same_place_self : (a : Listen) → same_place a a ≡ true
unfolding same_place
same_place_self (addr a) = rw (equal_self IpAddr-discrete a.ip) refl
same_place_self (interface a p) = equal_self String-discrete a

same_place_unspecified : (a b : Listen) → is_unspecified a ≡ true → same_place a b ≡ true
unfolding same_place is_unspecified
same_place_unspecified (addr a) (addr b) e = ground (arith, e)
same_place_unspecified (addr a) (interface b q) e = e
same_place_unspecified (interface a p) b e = cc (e)

-- Conflicts go both ways, a listener conflicts with itself, and one on all addresses conflicts with
-- every listener of its port.
pub conflicts_with_comm :
    (a b : Listen)
    → (conflicts_with a b ≡ conflicts_with b a)
      × (conflicts_with a a ≡ true)
      × ((is_unspecified a && listen_port a == listen_port b)
          ≡ (is_unspecified a && conflicts_with a b))
unfolding conflicts_with
conflicts_with_comm a b = (
  ground (arith, same_place_comm a b),
  ground (arith, same_place_self a),
  ground (arith, same_place_unspecified a b),
)
