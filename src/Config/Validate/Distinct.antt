-- ===== src/Config/Validate/Distinct.antt =====
-- src/config/validate.rs: no duplicate is reported exactly if there is none.
use Prim.Native.String.{String, ◌++◌ as append}
use kiss_tnc_bridge.Prelude.{
  Bool, true, false, not, ◌&&◌, List, [], ◌∷◌, ◌++◌, map, Option, none, some, is_some, is_nil, ◌≡◌,
  ◌≢◌, ◌↔◌, refl, sym, ap, ◌∙◌, arith, Bool-cases, inl, inr, Option-cases, All, All-map, Pairwise,
}
use kiss_tnc_bridge.Prelude.Decide.{String-discrete, equal, equal-eq-true, equal_of_eq}
use kiss_tnc_bridge.Config.Problem.{problem_if}
use kiss_tnc_bridge.Config.Addresses.{Mac, Mac-discrete}
use kiss_tnc_bridge.Config.Model.{Adapter, Tnc}
use kiss_tnc_bridge.Config.Problem.{Message, spp_taken, ble_taken, path_taken, duplicate_tnc_id}
use kiss_tnc_bridge.Config.Validate.Duplicates.{
  Reach, Reach-discrete, was_seen, seen_as, taken, taken_if, with_key, adapter_errors, tnc_errors,
  spp_key, ble_key, path_key,
}

pub is_nil-append : {A : Type 0} (xs ys : List A) → is_nil (xs ++ ys) ≡ is_nil xs && is_nil ys
is_nil-append [] ys = refl
is_nil-append (x ∷ xs) ys = refl

pub is_nil-problem_if :
    (found : Bool) (object : String) (m : Message) → is_nil (problem_if found object m) ≡ not found
unfolding problem_if
is_nil-problem_if true object m = refl
is_nil-problem_if false object m = refl

-- The keys that are there.
abbrev pub present : {K : Type 0} → List (Option K) → List K
present [] = []
present (none ∷ ks) = present ks
present (some k ∷ ks) = k ∷ present ks

abbrev pub Nodup : {K : Type 0} → List K → Type 0
Nodup = Pairwise (λ a b. a ≢ b)

module _ {K : Type 0} (d : Discrete K) where
  -- Each key is neither among those seen nor behind itself.
  abbrev pub apart : List K → List K → Bool
  apart seen [] = true
  apart seen (k ∷ ks) = not (was_seen d k seen) && apart (k ∷ seen) ks

  is_some-seen_as :
      (k : K) (seen : List (K × String))
      → is_some (seen_as d k seen) ≡ was_seen d k (map (λ e. e.0) seen)
  unfolding seen_as was_seen
  is_some-seen_as k [] = refl
  is_some-seen_as k ((j, id) ∷ seen) = ground (arith, is_some-seen_as k seen)

  pub is_nil-taken :
      (k : K) (seen : List (K × String)) (object : String) (m : String → Message)
      → is_nil (taken d k seen object m) ≡ not (was_seen d k (map (λ e. e.0) seen))
  unfolding taken
  is_nil-taken k seen object m = elim (Option-cases (seen_as d k seen)) [
    | inl e ↦ rw (e, taken) (ap not (sym (ap is_some e) ∙ is_some-seen_as k seen))
    | inr (id, e) ↦ rw (e, taken) (ap not (sym (ap is_some e) ∙ is_some-seen_as k seen))
  ]

  unseen-cons :
      (j k : K) (seen : List K)
      → was_seen d k (j ∷ seen) ≡ false
      → (j ≢ k) × (was_seen d k seen ≡ false)
  unfolding was_seen
  unseen-cons j k seen e = (λ p. absurd (ground (arith, e, equal_of_eq d p)), ground (arith, e))

  cons-unseen :
      (j k : K) (seen : List K)
      → j ≢ k
      → was_seen d k seen ≡ false
      → was_seen d k (j ∷ seen) ≡ false
  unfolding was_seen
  cons-unseen j k seen n e = elim (Bool-cases (equal d j k)) [
    | inl f ↦ absurd (n (equal-eq-true d j k f))
    | inr f ↦ rw f e
  ]

  unseen_behind :
      (j : K) (seen ks : List K)
      → All (λ k. j ≢ k) ks
      → All (λ k. was_seen d k seen ≡ false) ks
      → All (λ k. was_seen d k (j ∷ seen) ≡ false) ks
  unseen_behind j seen [] n u = tt
  unseen_behind j seen (k ∷ ks) n u =
      (cons-unseen j k seen n.0 u.0, unseen_behind j seen ks n.1 u.1)

  apart-unseen : (seen ks : List K) → apart seen ks ≡ true → All (λ k. was_seen d k seen ≡ false) ks
  apart-unseen seen [] e = tt
  apart-unseen seen (k ∷ ks) e = (
    ground (arith, e),
    All-map _ _ (λ x u. (unseen-cons k x seen u).1) ks
        (apart-unseen (k ∷ seen) ks (ground (arith, e))),
  )

  apart-Nodup : (seen ks : List K) → apart seen ks ≡ true → Nodup ks
  apart-Nodup seen [] e = tt
  apart-Nodup seen (k ∷ ks) e =
      let later : apart (k ∷ seen) ks ≡ true = ground (arith, e) in
      (
        All-map _ _ (λ x u. (unseen-cons k x seen u).0) ks (apart-unseen (k ∷ seen) ks later),
        apart-Nodup (k ∷ seen) ks later,
      )

  Nodup-apart :
      (seen ks : List K) → All (λ k. was_seen d k seen ≡ false) ks → Nodup ks → apart seen ks ≡ true
  Nodup-apart seen [] u n = refl
  Nodup-apart seen (k ∷ ks) u n =
      rw u.0 (Nodup-apart (k ∷ seen) ks (unseen_behind k seen ks n.0 u.1) n.1)

  none_seen : (ks : List K) → All (λ k. was_seen d k [] ≡ false) ks
  unfolding was_seen
  none_seen [] = tt
  none_seen (k ∷ ks) = (refl, none_seen ks)

  pub apart-iff-Nodup : (ks : List K) → (apart [] ks ≡ true) ↔ Nodup ks
  apart-iff-Nodup ks = (apart-Nodup [] ks, Nodup-apart [] ks (none_seen ks))

pub adapter_errors-apart :
    (ids : List String) (macs : List (Mac × String)) (rest : List Adapter)
    → is_nil (adapter_errors ids macs rest) ≡ (
        apart String-discrete ids (map (λ a. a.id) rest)
        && apart Mac-discrete (map (λ e. e.0) macs) (map (λ a. a.mac) rest))
unfolding adapter_errors
adapter_errors-apart ids macs [] = refl
adapter_errors-apart ids macs (a ∷ rest) = grind (
  arith,
  is_nil-append,
  is_nil-problem_if,
  is_nil-taken,
  adapter_errors-apart (a.id ∷ ids) ((a.mac, a.id) ∷ macs) rest,
)

module _ {K : Type 0} (d : Discrete K) (k : Option K) (seen : List (K × String)) where
  taken_if-apart :
      (ks : List (Option K)) (id object : String) (m : K → String → Message)
      → (is_nil (taken_if d k seen object m)
          && apart d (map (λ e. e.0) (with_key k id seen)) (present ks))
        ≡ apart d (map (λ e. e.0) seen) (present (k ∷ ks))
  unfolding taken_if with_key
  taken_if-apart ks id object m =
      elim k
        as (λ k.
          (is_nil (taken_if d k seen object m)
            && apart d (map (λ e. e.0) (with_key k id seen)) (present ks))
          ≡ apart d (map (λ e. e.0) seen) (present (k ∷ ks))) [
            | none ↦ refl
            | some j ↦ rw (is_nil-taken d j seen object (m j)) refl
          ]

pub is_nil-append5 :
    {A : Type 0} (a b c d e : List A)
    → is_nil (a ++ b ++ c ++ d ++ e) ≡ (is_nil a && is_nil b && is_nil c && is_nil d && is_nil e)
is_nil-append5 a b c d e = grind (arith, is_nil-append)

-- Four keys of one definition, in front of those of the rest.
and_each :
    (n s b p rest n0 s0 b0 p0 i s1 b1 p1 : Bool)
    → n ≡ n0
    → (s && s1) ≡ s0
    → (b && b1) ≡ b0
    → (p && p1) ≡ p0
    → rest ≡ (i && s1 && b1 && p1)
    → (n && s && b && p && rest) ≡ ((n0 && i) && s0 && b0 && p0)
and_each n s b p rest n0 s0 b0 p0 i s1 b1 p1 e f g h r = ground arith

pub tnc_errors-apart :
    (ids : List String) (spps bles : List (Reach × String)) (paths : List (String × String))
    (ts : List Tnc)
    → is_nil (tnc_errors ids spps bles paths ts) ≡ (
        apart String-discrete ids (map (λ t. t.id) ts)
        && apart Reach-discrete (map (λ e. e.0) spps) (present (map spp_key ts))
        && apart Reach-discrete (map (λ e. e.0) bles) (present (map ble_key ts))
        && apart String-discrete (map (λ e. e.0) paths) (present (map path_key ts)))
unfolding tnc_errors
tnc_errors-apart ids spps bles paths [] = refl
tnc_errors-apart ids spps bles paths (t ∷ ts) =
    let object = append "tnc " t.id in
    is_nil-append5 (problem_if (was_seen String-discrete t.id ids) object duplicate_tnc_id) _ _ _ _
    ∙ and_each _ _ _ _ _ _ _ _ _ _ _ _ _
        (is_nil-problem_if (was_seen String-discrete t.id ids) object duplicate_tnc_id)
        (taken_if-apart Reach-discrete (spp_key t) spps (map spp_key ts) t.id object
          (λ k. spp_taken k.0 k.1))
        (taken_if-apart Reach-discrete (ble_key t) bles (map ble_key ts) t.id object
          (λ k. ble_taken k.0 k.1))
        (taken_if-apart String-discrete (path_key t) paths (map path_key ts) t.id object path_taken)
        (tnc_errors-apart (t.id ∷ ids) (with_key (spp_key t) t.id spps)
          (with_key (ble_key t) t.id bles) (with_key (path_key t) t.id paths) ts)
