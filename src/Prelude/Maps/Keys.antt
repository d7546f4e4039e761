-- ===== src/Prelude/Maps/Keys.antt =====
-- Maps whose entries have different keys.
use Prim.Native.String.{String, compare}
use Prim.Native.Nat.{Ordering}
use text.Mathlib.Text.{◌==◌ as str_eq}
use text.Mathlib.TextEquality.{eq_iff}
use kiss_tnc_bridge.Prelude.{
  true, false, List, [], ◌∷◌, some, All, Pairwise, ◌≡◌, ◌≢◌, refl, sym, Bool-cases, inl, inr,
}
use kiss_tnc_bridge.Prelude.Maps.{put, get}

pub str_eq_self : (s : String) → str_eq s s ≡ true
str_eq_self s = (eq_iff s s).1 refl

pub str_eq_ne : (s t : String) → s ≢ t → str_eq s t ≡ false
str_eq_ne s t n = elim (Bool-cases (str_eq s t)) [
  | inl e ↦ absurd (n ((eq_iff s t).0 e))
  | inr e ↦ e
]

module _ {A : Type 0} where
  -- No two entries have the same key.
  abbrev pub KeysApart : List (String × A) → Type 0
  KeysApart = Pairwise (λ d e. d.0 ≢ e.0)

  found_behind :
      (k : String) (a : A) (m l : List (String × A))
      → All (λ e. k ≢ e.0) l
      → All (λ e. get e.0 m ≡ some e.1) l
      → All (λ e. get e.0 ((k, a) ∷ m) ≡ some e.1) l
  unfolding get
  found_behind k a m [] n h = tt
  found_behind k a m (e ∷ l) n h = (rw (str_eq_ne k e.0 n.0) h.0, found_behind k a m l n.1 h.1)

  -- Each entry is the one that is found under its key.
  pub found_in : (m : List (String × A)) → KeysApart m → All (λ e. get e.0 m ≡ some e.1) m
  unfolding get
  found_in [] n = tt
  found_in ((k, a) ∷ m) n = (rw (str_eq_self k) refl, found_behind k a m m n.0 (found_in m n.1))

  pub put-All :
      (P : String × A → Type 0) (k : String) (a : A) (m : List (String × A))
      → P (k, a)
      → All P m
      → All P (put k a m)
  unfolding put
  put-All P k a [] p h = (p, tt)
  put-All P k a ((j, b) ∷ m) p h =
      elim (compare k j)
        as (λ o. All P (elim o [
          | Ordering.lt ↦ (k, a) ∷ (j, b) ∷ m
          | Ordering.eq ↦ (k, a) ∷ m
          | Ordering.gt ↦ (j, b) ∷ put k a m
        ])) [
          | Ordering.lt ↦ (p, h)
          | Ordering.eq ↦ (p, h.1)
          | Ordering.gt ↦ (h.0, put-All P k a m p h.1)
        ]

  pub put-KeysApart :
      (k : String) (a : A) (m : List (String × A))
      → All (λ e. k ≢ e.0) m
      → KeysApart m
      → KeysApart (put k a m)
  unfolding put
  put-KeysApart k a [] n d = (tt, tt)
  put-KeysApart k a ((j, b) ∷ m) n d =
      elim (compare k j)
        as (λ o. KeysApart (elim o [
          | Ordering.lt ↦ (k, a) ∷ (j, b) ∷ m
          | Ordering.eq ↦ (k, a) ∷ m
          | Ordering.gt ↦ (j, b) ∷ put k a m
        ])) [
          | Ordering.lt ↦ (n, d)
          | Ordering.eq ↦ (n.1, d.1)
          | Ordering.gt ↦
              (put-All (λ e. j ≢ e.0) k a m (λ p. n.0 (sym p)) d.0, put-KeysApart k a m n.1 d.1)
        ]
