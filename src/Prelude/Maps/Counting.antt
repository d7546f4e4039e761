-- ===== src/Prelude/Maps/Counting.antt =====
-- A sum over the entries of a map, and how a change of the map changes it.
use Prim.Native.Nat.{Ordering}
use Prim.Native.String.{String, compare}
use text.Mathlib.Text.{◌==◌ as str_eq}
use text.Mathlib.TextEquality.{eq_iff}
use kiss_tnc_bridge.Prelude.{
  ℕ, ◌+◌, true, List, [], ◌∷◌, ◌≡◌, refl, ap, sym, none, some, arith, Bool-cases, inl, inr, ◌⊎◌,
}
use kiss_tnc_bridge.Prelude.Maps.{put, get, remove_key, change_key}

-- Texts that compare as equal are equal.
compare-str_eq : (s t : String) → compare s t ≡ Ordering.eq → str_eq t s ≡ true
compare-str_eq s t e = (eq_iff t s).1 (sym ((eq_iff s t).0 (rw e refl)))

Ordering-cases : (o : Ordering) → (o ≡ Ordering.eq) ⊎ ((o ≡ Ordering.lt) ⊎ (o ≡ Ordering.gt))
Ordering-cases Ordering.lt = inr (inl refl)
Ordering-cases Ordering.eq = inl refl
Ordering-cases Ordering.gt = inr (inr refl)

-- What is found under a key that was changed.
pub get-change_key :
    {A : Type 0} (k : String) (f : A → A) (m : List (String × A)) {a : A}
    → get k m ≡ some a
    → get k (change_key k f m) ≡ some (f a)
unfolding get change_key
get-change_key k f [] e = cc e
get-change_key k f ((j, b) ∷ m) {a = a} e = elim (Bool-cases (str_eq j k)) [
  | inl h ↦ let same : some b ≡ some a = rw h at e in let p : b ≡ a = cc same in rw (h, h, p) refl
  | inr h ↦ rw (h, h) (get-change_key k f m (rw h at e))
]

pub change_key-eq-none :
    {A : Type 0} (k : String) (f : A → A) (m : List (String × A))
    → get k m ≡ none
    → change_key k f m ≡ m
unfolding get change_key
change_key-eq-none k f [] e = refl
change_key-eq-none k f ((j, b) ∷ m) e = elim (Bool-cases (str_eq j k)) [
  | inl h ↦ let no : some b ≡ none = rw h at e in cc no
  | inr h ↦ rw h (ap (λ l. (j, b) ∷ l) (change_key-eq-none k f m (rw h at e)))
]

module _ {A : Type 0} (weight : A → ℕ) where
  abbrev pub total : List (String × A) → ℕ
  total [] = 0
  total (e ∷ m) = weight e.1 + total m

  pub total-change_key :
      (k : String) (f : A → A) (m : List (String × A)) (a : A)
      → get k m ≡ some a
      → total (change_key k f m) + weight a ≡ total m + weight (f a)
  unfolding get change_key
  total-change_key k f [] a e = cc e
  total-change_key k f ((j, b) ∷ m) a e = elim (Bool-cases (str_eq j k)) [
    | inl h ↦
        let same : some b ≡ some a = rw h at e in let p : b ≡ a = cc same in rw (h, p) (omega arith)
    | inr h ↦ rw h (omega (arith, total-change_key k f m a (rw h at e)))
  ]

  pub total-remove_key :
      (k : String) (m : List (String × A)) (a : A)
      → get k m ≡ some a
      → total (remove_key k m) + weight a ≡ total m
  unfolding get remove_key
  total-remove_key k [] a e = cc e
  total-remove_key k ((j, b) ∷ m) a e = elim (Bool-cases (str_eq j k)) [
    | inl h ↦
        let same : some b ≡ some a = rw h at e in let p : b ≡ a = cc same in rw (h, p) (omega arith)
    | inr h ↦ rw h (omega (arith, total-remove_key k m a (rw h at e)))
  ]

  pub total-put :
      (k : String) (a : A) (m : List (String × A))
      → get k m ≡ none
      → total (put k a m) ≡ weight a + total m
  unfolding get put
  total-put k a [] e = omega arith
  total-put k a ((j, b) ∷ m) e = elim (Bool-cases (str_eq j k)) [
    | inl h ↦ let no : some b ≡ none = rw h at e in cc no
    | inr h ↦ elim (Ordering-cases (compare k j)) [
      | inl c ↦ cc (h, compare-str_eq k j c)
      | inr (inl c) ↦ rw (total, c) refl
      | inr (inr c) ↦ rw (total, c) (omega (arith, total-put k a m (rw h at e)))
    ]
  ]
