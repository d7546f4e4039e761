-- ===== src/Prelude/Maps.antt =====
-- Maps with texts as keys, as lists of entries: `BTreeMap` of the standard library, in the order of
-- the keys.
pub mod Counting
pub mod Keys
use Prim.Native.String.{String, compare}
use Prim.Native.Nat.{Ordering}
use text.Mathlib.Text.{◌==◌ as str_eq}
use kiss_tnc_bridge.Prelude.{List, [], ◌∷◌, Option, none, some, if◌then◌else◌}

module _ {A : Type 0} where
  -- `BTreeMap::insert`
  unfoldable pub put : String → A → List (String × A) → List (String × A)
  put k a [] = (k, a) ∷ []
  put k a ((j, b) ∷ m) = elim (compare k j) [
    | Ordering.lt ↦ (k, a) ∷ (j, b) ∷ m
    | Ordering.eq ↦ (k, a) ∷ m
    | Ordering.gt ↦ (j, b) ∷ put k a m
  ]

  unfoldable pub get : String → List (String × A) → Option A
  get k [] = none
  get k ((j, b) ∷ m) = if str_eq j k then some b else get k m

  -- `BTreeMap::remove`
  unfoldable pub remove_key : String → List (String × A) → List (String × A)
  remove_key k [] = []
  remove_key k ((j, b) ∷ m) = if str_eq j k then m else (j, b) ∷ remove_key k m

  -- `get_mut`, with the change that follows.
  unfoldable pub change_key : String → (A → A) → List (String × A) → List (String × A)
  change_key k f [] = []
  change_key k f ((j, b) ∷ m) = if str_eq j k then (j, f b) ∷ m else (j, b) ∷ change_key k f m
