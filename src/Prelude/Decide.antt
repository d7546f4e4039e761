-- ===== src/Prelude/Decide.antt =====
-- Derived equality tests, as decisions.
use Prim.Native.String.{String}
use text.Mathlib.Text.{◌==◌ as str_eq}
use text.Mathlib.TextEquality.{eq_iff}
use mathlib.Core.Path.{◌≡◌, refl, sym, ◌∙◌}
use mathlib.Core.Bool.{Bool, true, false}
use mathlib.Core.Option.{Option}
use mathlib.Core.List.{List}

decided : (s t : String) (b : Bool) → str_eq s t ≡ b → Dec (s ≡ t)
decided s t true e = yes ((eq_iff s t).0 e)
decided s t false e = no (λ p. cc (e, (eq_iff s t).1 p))

unfoldable pub String-discrete : Discrete String
unfolding decided
String-discrete s t = decided s t (str_eq s t) refl

unfoldable pub Option-discrete : {A : Type 0} → Discrete A → Discrete (Option A)
Option-discrete d = hlevel d

unfoldable pub List-discrete : {A : Type 0} → Discrete A → Discrete (List A)
List-discrete d = hlevel d

module _ {ℓ} {A : Type ℓ} (d : Discrete A) where
  -- `a == b`, for a derived `PartialEq`.
  unfoldable pub equal : A → A → Bool
  equal a b = elim (d a b) [ yes p ↦ true | no p ↦ false ]

  pub equal_self : (a : A) → equal a a ≡ true
  unfolding equal
  equal_self a = elim (d a a) as (λ x. elim x [ yes p ↦ true | no p ↦ false ] ≡ true) [
    | yes p ↦ refl
    | no p ↦ absurd (p refl)
  ]

  pub equal-eq-true : (a b : A) → equal a b ≡ true → a ≡ b
  unfolding equal
  equal-eq-true a b = elim (d a b) as (λ x. elim x [ yes p ↦ true | no p ↦ false ] ≡ true → a ≡ b) [
    | yes p ↦ λ e. p
    | no p ↦ λ e. cc (e)
  ]

  pub equal_of_eq : {a b : A} → a ≡ b → equal a b ≡ true
  equal_of_eq {a} p = (λ i. equal a (sym p i)) ∙ equal_self a
