-- ===== src/Announce/Announcer/Given.antt =====
-- src/announce.rs: what the announcer finds when the supervisor has given bridges other names.
use Prim.Native.String.{String}
use text.Mathlib.Text.{◌==◌ as str_eq}
use text.Mathlib.TextEquality.{eq_iff}
use kiss_tnc_bridge.Prelude.{
  false, List, [], ◌∷◌, ◌≡◌, refl, ◌∙◌, some, if◌then◌else◌, Bool-cases, inl, inr,
}
use kiss_tnc_bridge.Prelude.Maps.{get, change_key}
use kiss_tnc_bridge.Prelude.Maps.Counting.{get-change_key}
use kiss_tnc_bridge.Announce.Backend.{
  BridgeAnn, Announcer, Backend, with_bridge, given_name, given_names,
}

-- The name that a bridge has behind such changes.
abbrev pub name_after : String → List (String × String) → String → String
name_after id [] name = name
name_after id ((j, new) ∷ more) name = name_after id more (if str_eq j id then new else name)

-- What is found under another key.
get-change_key_other :
    {A : Type 0} (k j : String) (f : A → A) (m : List (String × A))
    → str_eq j k ≡ false
    → get k (change_key j f m) ≡ get k m
unfolding get change_key
get-change_key_other k j f [] h = refl
get-change_key_other k j f ((i, b) ∷ m) h = elim (Bool-cases (str_eq i j)) [
  | inl e ↦ let same : i ≡ j = (eq_iff i j).0 e in rw (e, same, h) refl
  | inr e ↦ rw e (rw (get-change_key_other k j f m h) refl)
]

module _ (backend : Backend) where
  given_name-get :
      (id j name : String) (a : Announcer) (b : BridgeAnn)
      → get id a.bridges ≡ some b
      → get id (given_name backend j name a).bridges
        ≡ some (record b { name = if str_eq j id then name else b.name })
  unfolding given_name with_bridge
  given_name-get id j name a b e =
      let f : BridgeAnn → BridgeAnn = λ b'. record b' { name = name } in
      elim (Bool-cases (str_eq j id)) [
        | inl h ↦
            let same : j ≡ id = (eq_iff j id).0 h in
            rw (h, given_name, same) (get-change_key id f a.bridges e)
        | inr h ↦ rw (h, given_name) (get-change_key_other id j f a.bridges h ∙ e)
      ]

  -- A bridge is still there, and only its name has changed.
  pub given_names-get :
      (id : String) (names : List (String × String)) (a : Announcer) (b : BridgeAnn)
      → get id a.bridges ≡ some b
      → get id (given_names backend names a).bridges
        ≡ some (record b { name = name_after id names b.name })
  unfolding given_names
  given_names-get id [] a b e = e
  given_names-get id ((j, name) ∷ more) a b e =
      given_names-get id more (given_name backend j name a)
        (record b { name = if str_eq j id then name else b.name }) (given_name-get id j name a b e)

  given_name-calls :
      (j name : String) (a : Announcer) → (given_name backend j name a).calls ≡ a.calls
  unfolding given_name with_bridge
  given_name-calls j name a = refl

  pub given_names-calls :
      (names : List (String × String)) (a : Announcer)
      → (given_names backend names a).calls ≡ a.calls
  unfolding given_names given_name with_bridge
  given_names-calls [] a = refl
  given_names-calls ((j, name) ∷ more) a = given_names-calls more (given_name backend j name a)

  pub given_names-available :
      (names : List (String × String)) (a : Announcer)
      → (given_names backend names a).available ≡ a.available
  unfolding given_names given_name with_bridge
  given_names-available [] a = refl
  given_names-available ((j, name) ∷ more) a =
      given_names-available more (given_name backend j name a)
