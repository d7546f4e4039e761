-- ===== src/Announce/Announcer/Groups.antt =====
-- src/announce.rs: no group is lost, and none is announced that should not be.
use Prim.Native.String.{String}
use kiss_tnc_bridge.Prelude.{
  ℕ, ◌+◌, List, [], ◌∷◌, ◌≡◌, ◌≢◌, refl, ap, Option, none, some, arith, if◌then◌else◌, All,
  Option-cases, inl, inr,
}
use kiss_tnc_bridge.Prelude.Results.{Result, ok, err}
use kiss_tnc_bridge.Prelude.Maps.{get}
use kiss_tnc_bridge.Prelude.Maps.Counting.{total, total-change_key}
use kiss_tnc_bridge.Announce.Service.{Service}
use kiss_tnc_bridge.Announce.Service.Apart.{Apart}
use kiss_tnc_bridge.Announce.Backend.{
  PublishError, Call, publish, withdraw, BridgeAnn, Announcer, put_group, with_bridge, log,
  withdraw_taken, groups_of, without_groups, withdraw_all, withdraw_groups,
}
use text.Mathlib.Text.{◌==◌ as str_eq}

-- How often a group was got from the backend and given back to it, for a withdrawal or for another
-- announcement in its place.
abbrev pub one_if : Option String → String → ℕ
one_if none g = 0
one_if (some h) g = if str_eq h g then 1 else 0

abbrev pub answer_group : Result PublishError String → Option String
answer_group (ok h) = some h
answer_group (err e) = none

abbrev pub got : String → Call → ℕ
got g (publish old name services r) = one_if (answer_group r) g
got g (withdraw h) = 0

abbrev pub given_back : String → Call → ℕ
given_back g (publish old name services r) = one_if old g
given_back g (withdraw h) = one_if (some h) g

abbrev pub times : (Call → ℕ) → List Call → ℕ
times f [] = 0
times f (c ∷ cs) = f c + times f cs

-- How many bridges hold it.
abbrev pub held : String → List (String × BridgeAnn) → ℕ
held g = total (λ b. one_if b.group g)

-- An announcement has services, and no two of them overlap.
abbrev pub IsFit : Call → Type 0
IsFit (publish old name services r) = (services ≢ []) × Apart services
IsFit (withdraw g) = Unit

module _ (g : String) where
  -- Each group that was got is held by a bridge or was given back, once.
  pub record Kept (a : Announcer) : Type 0 where
    pub balance : times (got g) a.calls ≡ times (given_back g) a.calls + held g a.bridges
    pub fit : All IsFit a.calls

  -- The same, where `spare` is in hand.
  pub record Open (spare : Option String) (a : Announcer) : Type 0 where
    pub balance :
        times (got g) a.calls ≡ times (given_back g) a.calls + held g a.bridges + one_if spare g
    pub fit : All IsFit a.calls

  pub Kept-Open : (a : Announcer) → Open none a → Kept a
  Kept-Open a o = record { balance = omega (arith, o.balance); fit = o.fit }

  pub Open-Kept : (a : Announcer) → Kept a → Open none a
  Open-Kept a o = record { balance = omega (arith, o.balance); fit = o.fit }

  -- The group of a bridge is taken, or changed with the one in hand.
  pub with_bridge-Open :
      (id : String) (f : BridgeAnn → BridgeAnn) (a : Announcer) (b : BridgeAnn)
      (old new : Option String)
      → get id a.bridges ≡ some b
      → one_if b.group g + one_if old g ≡ one_if (f b).group g + one_if new g
      → Open old a
      → Open new (with_bridge id f a)
  unfolding with_bridge
  with_bridge-Open id f a b old new e h o = record {
    balance =
        omega (arith, h, o.balance, total-change_key (λ b. one_if b.group g) id f a.bridges b e);
    fit = o.fit;
  }

  pub withdraw_taken-Kept :
      (spare : Option String) (a : Announcer) → Open spare a → Kept (withdraw_taken spare a)
  unfolding withdraw_taken log
  withdraw_taken-Kept none a o = Kept-Open a o
  withdraw_taken-Kept (some h) a o = record {
    balance = omega (arith, o.balance);
    fit = (tt, o.fit);
  }

  pub log-Open :
      (old : Option String) (name : String) (services : List Service)
      (r : Result PublishError String) (a : Announcer)
      → services ≢ []
      → Apart services
      → Open old a
      → Open (answer_group r) (log (publish old name services r) a)
  unfolding log
  log-Open old name services r a n p o = record {
    balance = omega (arith, o.balance);
    fit = ((n, p), o.fit);
  }

  -- Changes that leave the group of a bridge as it is.
  pub with_bridge-Kept :
      (id : String) (f : BridgeAnn → BridgeAnn) (a : Announcer) (b : BridgeAnn)
      → get id a.bridges ≡ some b
      → b.group ≡ (f b).group
      → Kept a
      → Kept (with_bridge id f a)
  with_bridge-Kept id f a b e h k =
      Kept-Open (with_bridge id f a)
        (with_bridge-Open id f a b none none e (ap (λ o. one_if o g + 0) h) (Open-Kept a k))

  -- The withdrawal of groups that are taken off the bridges.
  abbrev count : List String → ℕ
  count [] = 0
  count (h ∷ hs) = one_if (some h) g + count hs

  count-groups_of : (m : List (String × BridgeAnn)) → count (groups_of m) ≡ held g m
  unfolding groups_of
  count-groups_of [] = refl
  count-groups_of ((id, b) ∷ m) = elim (Option-cases b.group) [
    | inl e ↦ rw (groups_of, e) (omega (arith, count-groups_of m))
    | inr (h, e) ↦ rw (groups_of, e) (omega (arith, count-groups_of m))
  ]

  held-without_groups : (m : List (String × BridgeAnn)) → held g (without_groups m) ≡ 0
  unfolding without_groups put_group
  held-without_groups [] = refl
  held-without_groups ((id, b) ∷ m) = omega (arith, held-without_groups m)

  withdraw_all-Kept :
      (hs : List String) (a : Announcer)
      → times (got g) a.calls ≡ times (given_back g) a.calls + held g a.bridges + count hs
      → All IsFit a.calls
      → Kept (withdraw_all hs a)
  unfolding withdraw_all log
  withdraw_all-Kept [] a e f = record { balance = omega (arith, e); fit = f }
  withdraw_all-Kept (h ∷ hs) a e f =
      withdraw_all-Kept hs (log (withdraw h) a) (omega (arith, e)) (tt, f)

  pub withdraw_groups-Kept : (a : Announcer) → Kept a → Kept (withdraw_groups a)
  unfolding withdraw_groups
  withdraw_groups-Kept a k =
      withdraw_all-Kept (groups_of a.bridges) (record a { bridges = without_groups a.bridges })
        (omega (arith, k.balance, count-groups_of a.bridges, held-without_groups a.bridges)) k.fit

  bridges-withdraw_all :
      (hs : List String) (a : Announcer) → (withdraw_all hs a).bridges ≡ a.bridges
  unfolding withdraw_all log
  bridges-withdraw_all [] a = refl
  bridges-withdraw_all (h ∷ hs) a = bridges-withdraw_all hs (log (withdraw h) a)

  -- Behind it no bridge has a group.
  pub held-withdraw_groups : (a : Announcer) → held g (withdraw_groups a).bridges ≡ 0
  unfolding withdraw_groups
  held-withdraw_groups a =
      rw
        (bridges-withdraw_all (groups_of a.bridges)
          (record a { bridges = without_groups a.bridges }))
        (held-without_groups a.bridges)
