-- ===== src/Announce/Announcer/Kept.antt =====
-- src/announce.rs: every handler of the announcer keeps account of the groups.
use Prim.Native.String.{String}
use kiss_tnc_bridge.Prelude.{
  ℕ, zero, suc, false, List, [], ◌∷◌, ◌≡◌, refl, Option, none, some, is_some, arith, Bool-cases,
  Option-cases, ◌⊎◌, inl, inr, All,
}
use kiss_tnc_bridge.Prelude.Results.{Result, ok, err}
use kiss_tnc_bridge.Prelude.Maps.{put, get, remove_key}
use kiss_tnc_bridge.Prelude.Maps.Counting.{
  total-remove_key, total-put, get-change_key, change_key-eq-none,
}
use kiss_tnc_bridge.Config.State.{set_adjusted_public_name, clear_adjusted_public_name, update}
use kiss_tnc_bridge.Announce.Names.{next_name}
use kiss_tnc_bridge.Prelude.Decide.{equal, Option-discrete}
use kiss_tnc_bridge.Announce.Service.{Service, Service-discrete, distinct}
use kiss_tnc_bridge.Announce.Service.Apart.{Apart, distinct-Apart}
use kiss_tnc_bridge.Announce.Backend.{
  PublishError, collision, unavailable, other, publish, BridgeAnn, Announcer, Backend, put_group,
  with_bridge, given_name, given_names, log,
}
use kiss_tnc_bridge.Announce.Announcer.{
  adjust_name, answered, sync_round, sync_rounds, sync, rename, on_bridge, on_forget, on_up,
  on_down, sync_all,
}
use kiss_tnc_bridge.Announce.Announcer.Given.{name_after, given_names-get}
use kiss_tnc_bridge.Announce.Announcer.Groups.{
  one_if, answer_group, Kept, Open, Kept-Open, Open-Kept, with_bridge-Open, withdraw_taken-Kept,
  log-Open, with_bridge-Kept,
}

pub List-cases {ℓ} :
    {A : Type ℓ} (xs : List A) → (xs ≡ []) ⊎ ((y : A) × (ys : List A) × (xs ≡ y ∷ ys))
List-cases [] = inl refl
List-cases (y ∷ ys) = inr (y, ys, refl)

pub units {ℓ} : {A : Type ℓ} (xs : List A) → All {ℓ, 0} (λ x. Unit) xs
units [] = tt
units (x ∷ xs) = (tt, units xs)

module _ (g : String) (backend : Backend) where
  given_name-Open :
      (spare : Option String) (id name : String) (a : Announcer)
      → Open g spare a
      → Open g spare (given_name backend id name a)
  unfolding given_name with_bridge
  given_name-Open spare id name a o =
      let f : BridgeAnn → BridgeAnn = λ b. record b { name = name } in
      let cleared = update (backend.can_write a.calls) (clear_adjusted_public_name id) a.store in
      let written : Announcer = record a { store = cleared } in
      let w : Open g spare written = record { balance = o.balance; fit = o.fit } in
      elim (Option-cases (get id a.bridges)) [
        | inl e ↦ rw (change_key-eq-none id f a.bridges e) w
        | inr (b, e) ↦ with_bridge-Open g id f written b spare spare e refl w
      ]

  -- Other names that the supervisor gives make no difference to the account.
  given_names-Open :
      (spare : Option String) (names : List (String × String)) (a : Announcer)
      → Open g spare a
      → Open g spare (given_names backend names a)
  unfolding given_names
  given_names-Open spare [] a o = o
  given_names-Open spare ((id, name) ∷ more) a o =
      given_names-Open spare more (given_name backend id name a) (given_name-Open spare id name a o)

  pub given_name-Kept :
      (id name : String) (a : Announcer) → Kept g a → Kept g (given_name backend id name a)
  given_name-Kept id name a k =
      Kept-Open g (given_name backend id name a) (given_name-Open none id name a (Open-Kept g a k))

  pub adjust_name-Kept :
      (id : String) (a : Announcer) → Kept g a → Kept g (adjust_name backend id a).0
  unfolding adjust_name
  adjust_name-Kept id a k = elim (Option-cases (get id a.bridges)) [
    | inl e ↦ rw (adjust_name, e) k
    | inr (b, e) ↦
        let next = next_name b.name in
        let store =
          update (backend.can_write a.calls) (set_adjusted_public_name id b.configured next)
            a.store in
        let written : Kept g (record a { store = store }) = record {
          balance = k.balance;
          fit = k.fit;
        } in
        rw (adjust_name, e)
          (with_bridge-Kept g id (λ b. record b { name = next }) (record a { store = store }) b e
            refl written)
  ]

  pub answered-Kept :
      (id : String) (r : Result PublishError String) (a : Announcer) (b : BridgeAnn)
      → get id a.bridges ≡ some b
      → b.group ≡ none
      → Open g (answer_group r) a
      → Kept g (answered backend id r a).0
  unfolding answered put_group
  answered-Kept id (ok h) a b e n o =
      let f = put_group (some h) in
      Kept-Open g (with_bridge id f a)
        (with_bridge-Open g id f a b (some h) none e (rw n (omega arith)) o)
  answered-Kept id (err collision) a b e n o = adjust_name-Kept id a (Kept-Open g a o)
  answered-Kept id (err (unavailable why)) a b e n o =
      Kept-Open g (record a { available = false }) (record { balance = o.balance; fit = o.fit })
  answered-Kept id (err (other why)) a b e n o = Kept-Open g a o

  pub sync_round-Kept :
      (id : String) (b : BridgeAnn) (a : Announcer)
      → get id a.bridges ≡ some b
      → Kept g a
      → Kept g (sync_round backend id b a).0
  unfolding sync_round put_group with_bridge log
  sync_round-Kept id b a e k =
      let f = put_group none in
      let taken = with_bridge id f a in
      let o : Open g b.group taken =
        with_bridge-Open g id f a b none b.group e (omega arith) (Open-Kept g a k) in
      elim (List-cases (distinct b.services)) [
        | inl h ↦ rw (sync_round, h) (withdraw_taken-Kept g b.group taken o)
        | inr (s, more, h) ↦
            let all = s ∷ more in
            let answer = backend.answer a.calls b.group b.name all in
            let apart : Apart all =
              rw h at (distinct-Apart (λ s. Unit) b.services (units b.services)).0 in
            let asked = log-Open g b.group b.name all answer taken (λ p. cc p) apart o in
            let told = log (publish b.group b.name all answer) taken in
            let names = backend.meanwhile told.calls in
            let found =
              given_names-get backend id names told (f b) (get-change_key id f a.bridges e) in
            rw (sync_round, h)
              (answered-Kept id answer (given_names backend names told)
                (record (f b) { name = name_after id names b.name }) found refl
                (given_names-Open (answer_group answer) names told asked))
      ]

  pub sync_rounds-Kept :
      (n : ℕ) (id : String) (a : Announcer) → Kept g a → Kept g (sync_rounds backend n id a)
  unfolding sync_rounds
  sync_rounds-Kept zero id a k = k
  sync_rounds-Kept (suc n) id a k = elim (Option-cases (get id a.bridges)) [
    | inl e ↦ rw (sync_rounds, e) k
    | inr (b, e) ↦
        let r = sync_round backend id b a in
        let there = sync_round-Kept id b a e k in
        elim (Bool-cases r.1) [
          | inl h ↦ rw (sync_rounds, e, h) (sync_rounds-Kept n id r.0 there)
          | inr h ↦ rw (sync_rounds, e, h) there
        ]
  ]

  pub sync-Kept : (id : String) (a : Announcer) → Kept g a → Kept g (sync backend id a)
  unfolding sync
  sync-Kept id a k = elim (Bool-cases a.available) [
    | inl e ↦ simp e (sync_rounds-Kept 20 id a k)
    | inr e ↦ simp e k
  ]

  pub rename-Kept : (id : String) (a : Announcer) → Kept g a → Kept g (rename backend id a)
  unfolding rename
  rename-Kept id a k =
      let r = adjust_name backend id a in
      let there = adjust_name-Kept id a k in
      elim (Bool-cases r.1) [ inl e ↦ rw e (sync-Kept id r.0 there) | inr e ↦ rw e there ]

  pub on_bridge-Kept :
      (id configured name : String) (a : Announcer)
      → Kept g a
      → Kept g (on_bridge backend id configured name a)
  unfolding on_bridge
  on_bridge-Kept id configured name a k = elim (Option-cases (get id a.bridges)) [
    | inl e ↦
        let fresh : BridgeAnn = record {
          configured = configured;
          name = name;
          services = [];
          group = none;
        } in
        rw (on_bridge, e)
          (record {
            balance =
                omega (arith, k.balance, total-put (λ b. one_if b.group g) id fresh a.bridges e);
            fit = k.fit;
          })
    | inr (b, e) ↦
        let f : BridgeAnn → BridgeAnn = λ b. record b { configured = configured; name = name } in
        rw (on_bridge, e) (sync-Kept id (with_bridge id f a) (with_bridge-Kept g id f a b e refl k))
  ]

  pub on_forget-Kept : (id : String) (a : Announcer) → Kept g a → Kept g (on_forget backend id a)
  unfolding on_forget
  on_forget-Kept id a k = elim (Option-cases (get id a.bridges)) [
    | inl e ↦ rw (on_forget, e) k
    | inr (b, e) ↦
        let left : Announcer = record a { bridges = remove_key id a.bridges } in
        let o : Open g b.group left = record {
          balance =
              omega (arith, k.balance, total-remove_key (λ b. one_if b.group g) id a.bridges b e);
          fit = k.fit;
        } in
        rw (on_forget, e) (withdraw_taken-Kept g b.group left o)
  ]

  pub on_up-Kept :
      (id port : String) (service : Service) (a : Announcer)
      → Kept g a
      → Kept g (on_up backend id port service a)
  unfolding on_up
  on_up-Kept id port service a k = elim (Option-cases (get id a.bridges)) [
    | inl e ↦ rw (on_up, e) k
    | inr (b, e) ↦
        let f : BridgeAnn → BridgeAnn = λ b. record b { services = put port service b.services } in
        let same = equal (Option-discrete Service-discrete) (get port b.services) (some service) in
        let there = with_bridge-Kept g id f a b e refl k in
        elim (Bool-cases same) [
          | inl h ↦ rw (on_up, e, h) there
          | inr h ↦ rw (on_up, e, h) (sync-Kept id (with_bridge id f a) there)
        ]
  ]

  pub on_down-Kept :
      (id port : String) (a : Announcer) → Kept g a → Kept g (on_down backend id port a)
  unfolding on_down
  on_down-Kept id port a k = elim (Option-cases (get id a.bridges)) [
    | inl e ↦ rw (on_down, e) k
    | inr (b, e) ↦
        let f : BridgeAnn → BridgeAnn = λ b. record b { services = remove_key port b.services } in
        let there = with_bridge-Kept g id f a b e refl k in
        elim (Bool-cases (is_some (get port b.services))) [
          | inl h ↦ rw (on_down, e, h) (sync-Kept id (with_bridge id f a) there)
          | inr h ↦ rw (on_down, e, h) there
        ]
  ]

  pub sync_all-Kept :
      (ids : List String) (a : Announcer) → Kept g a → Kept g (sync_all backend ids a)
  unfolding sync_all
  sync_all-Kept [] a k = k
  sync_all-Kept (id ∷ ids) a k = sync_all-Kept ids (sync backend id a) (sync-Kept id a k)
