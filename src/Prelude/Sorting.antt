-- ===== src/Prelude/Sorting.antt =====
-- A sort that keeps the order of equal keys: `sort_by` and `sort_by_key` of the standard library.
use mathlib.Core.Path.{◌≡◌, refl}
use mathlib.Core.Bool.{Bool}
use mathlib.Core.List.{List, [], ◌∷◌, Perm}
use mathlib.Core.List.Perm as Perm
use mathlib.Core.Logic.{inl, inr}
use Prim.Native.Nat.{ℕ, suc, ◌≤◌}
use native.Mathlib.Omega.{arith}
use kiss_tnc_bridge.Prelude.Tests.{leb, if◌then◌else◌, Bool-cases}
use kiss_tnc_bridge.Prelude.Lists.{All, length}

-- `sort_by_key`, which keeps the order of equal keys.
module _ {A : Type 0} (before : A → A → Bool) where
  unfoldable pub insert_sorted : A → List A → List A
  insert_sorted x [] = x ∷ []
  insert_sorted x (y ∷ ys) = if before x y then x ∷ y ∷ ys else y ∷ insert_sorted x ys

  unfoldable pub sort_by : List A → List A
  unfolding insert_sorted
  sort_by [] = []
  sort_by (x ∷ xs) = insert_sorted x (sort_by xs)

module _ {A : Type 0} (key : A → ℕ) where
  abbrev pub by_key : A → A → Bool
  by_key s t = leb (key s) (key t)

  abbrev pub NotAbove : A → A → Type 0
  NotAbove s t = key s ≤ key t

  abbrev pub Sorted : List A → Type 0
  Sorted [] = Unit {0}
  Sorted (s ∷ ss) = All (NotAbove s) ss × Sorted ss

  insert_sorted-perm : (s : A) (ss : List A) → Perm (insert_sorted by_key s ss) (s ∷ ss)
  unfolding insert_sorted
  insert_sorted-perm s [] = Perm.refl (s ∷ [])
  insert_sorted-perm s (t ∷ ss) = elim (Bool-cases (by_key s t)) [
    | inl e ↦ rw e (Perm.refl (s ∷ t ∷ ss))
    | inr e ↦ rw e (Perm.trans (Perm.cons t (insert_sorted-perm s ss)) (Perm.swap s t ss))
  ]

  pub sort_by-perm : (ss : List A) → Perm (sort_by by_key ss) ss
  unfolding sort_by
  sort_by-perm [] = Perm.refl []
  sort_by-perm (s ∷ ss) =
      Perm.trans (insert_sorted-perm s (sort_by by_key ss)) (Perm.cons s (sort_by-perm ss))

  NotAbove-All : (s t : A) (ss : List A) → NotAbove s t → All (NotAbove t) ss → All (NotAbove s) ss
  NotAbove-All s t [] h k = tt
  NotAbove-All s t (u ∷ ss) h k = (omega (arith, h, k.0), NotAbove-All s t ss h k.1)

  insert_sorted-All :
      (r s : A) (ss : List A)
      → NotAbove r s
      → All (NotAbove r) ss
      → All (NotAbove r) (insert_sorted by_key s ss)
  unfolding insert_sorted
  insert_sorted-All r s [] h k = (h, tt)
  insert_sorted-All r s (t ∷ ss) h k = elim (Bool-cases (by_key s t)) [
    | inl e ↦ rw e (h, k)
    | inr e ↦ rw e (k.0, insert_sorted-All r s ss h k.1)
  ]

  insert_sorted-Sorted : (s : A) (ss : List A) → Sorted ss → Sorted (insert_sorted by_key s ss)
  unfolding insert_sorted
  insert_sorted-Sorted s [] h = (tt, tt)
  insert_sorted-Sorted s (t ∷ ss) h = elim (Bool-cases (by_key s t)) [
    | inl e ↦
        let first : NotAbove s t = ground arith in rw e ((first, NotAbove-All s t ss first h.0), h)
    | inr e ↦
        let last : NotAbove t s = ground arith in
        rw e (insert_sorted-All t s ss last h.0, insert_sorted-Sorted s ss h.1)
  ]

  pub sort_by-Sorted : (ss : List A) → Sorted (sort_by by_key ss)
  unfolding sort_by
  sort_by-Sorted [] = tt
  sort_by-Sorted (s ∷ ss) = insert_sorted-Sorted s (sort_by by_key ss) (sort_by-Sorted ss)

  length-insert_sorted :
      (s : A) (ss : List A) → length (insert_sorted by_key s ss) ≡ suc (length ss)
  unfolding insert_sorted
  length-insert_sorted s [] = refl
  length-insert_sorted s (t ∷ ss) = elim (Bool-cases (by_key s t)) [
    | inl e ↦ rw e refl
    | inr e ↦ rw e (omega (arith, length-insert_sorted s ss))
  ]

  pub length-sort_by : (ss : List A) → length (sort_by by_key ss) ≡ length ss
  unfolding sort_by
  length-sort_by [] = refl
  length-sort_by (s ∷ ss) =
      omega (arith, length-insert_sorted s (sort_by by_key ss), length-sort_by ss)
