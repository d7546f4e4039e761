-- ===== src/Announce/Announcer/Synced.antt =====
-- src/announce.rs: what `sync` asks of the backend, and what it leaves behind.
use Prim.Native.String.{String}
use kiss_tnc_bridge.Prelude.{
  ℕ, zero, suc, ◌+◌, ◌<◌, Bool, true, false, List, [], ◌∷◌, ◌≡◌, ◌≢◌, refl, ◌∙◌, Option, none, some,
  ◌⊎◌, inl, inr, arith,
}
use kiss_tnc_bridge.Prelude.Results.{Result, ok, err}
use kiss_tnc_bridge.Prelude.Maps.{get}
use kiss_tnc_bridge.Prelude.Maps.Counting.{get-change_key}
use kiss_tnc_bridge.Announce.Names.{next_name}
use kiss_tnc_bridge.Announce.Service.{Service, distinct}
use kiss_tnc_bridge.Announce.Backend.{
  PublishError, collision, unavailable, other, Call, publish, withdraw, BridgeAnn, Announcer,
  Backend, put_group, with_bridge, given_names, log, withdraw_taken,
}
use kiss_tnc_bridge.Announce.Announcer.{adjust_name, answered, sync_round, sync_rounds, sync}
use kiss_tnc_bridge.Announce.Announcer.Given.{
  name_after, given_names-get, given_names-calls, given_names-available,
}
use kiss_tnc_bridge.Announce.Announcer.Groups.{answer_group}
use kiss_tnc_bridge.Announce.Announcer.Kept.{List-cases}

-- The calls with a group given back, if there is one.
abbrev pub given_up : Option String → List Call → List Call
given_up none calls = calls
given_up (some g) calls = withdraw g ∷ calls

-- Avahi is there as long as it does not answer that it is not.
abbrev pub leaves_available : Result PublishError String → Bool
leaves_available (err (unavailable why)) = false
leaves_available _ = true

module _ (backend : Backend) (id : String) where
  -- The bridge, with the group and the name that are given, and what the announcer knows besides.
  pub record Left (b : BridgeAnn) (g : Option String) (name : String) (calls : List Call)
      (there : Bool) (z : Announcer) : Type 0 where
    pub found : get id z.bridges ≡ some (record b { group = g; name = name })
    pub asked : z.calls ≡ calls
    pub available : z.available ≡ there

  -- The name that the bridge has when the answer to the last of the calls has come.
  abbrev pub name_then : List Call → String → String
  name_then calls name = name_after id (backend.meanwhile calls) name

  -- `Tries b before n g name calls`: behind the calls before there were `n` announcements of the
  -- bridge's services, each under a name that was taken, and these are all the calls since; the next
  -- one is to be made in the group `g` and under `name`. The first is made in the group and under the
  -- name that the bridge has; each later one in a new group, and under the name that follows the one
  -- that the bridge has when the answer comes.
  pub data Tries (b : BridgeAnn) (before : List Call)
      : ℕ → Option String → String → List Call → Type 0 where
    untried : Tries b before zero b.group b.name before
    taken :
        {n : ℕ} {g : Option String} {name : String} {calls : List Call}
        → Tries b before n g name calls
        → (asked : List Call) → asked ≡ publish g name (distinct b.services) (err collision) ∷ calls
        → Tries b before (suc n) none (next_name (name_then asked name)) asked

  -- After at most 19 names that were taken, an answer that is no collision ends it. The bridge has the
  -- group of the answer, and the name that it was announced with unless it was given another meanwhile.
  pub record Answered (b : BridgeAnn) (before : List Call) (z : Announcer) : Type 0 where
    pub n : ℕ
    pub g : Option String
    pub name : String
    pub calls : List Call
    pub answer : Result PublishError String
    pub few : n < 20
    pub tries : Tries b before n g name calls
    pub ends : answer ≢ err collision
    pub left :
        let asked = publish g name (distinct b.services) answer ∷ calls in
        Left b (answer_group answer) (name_then asked name) asked (leaves_available answer) z

  -- All of 20 names were taken; the bridge has no group, and the name that would be tried next.
  pub record GivenUp (b : BridgeAnn) (before : List Call) (z : Announcer) : Type 0 where
    pub name : String
    pub calls : List Call
    pub tries : Tries b before 20 none name calls
    pub left : Left b none name calls true z

  -- Nothing to announce: a group that there was is given back, and nothing else is asked.
  abbrev pub Silent : BridgeAnn → List Call → Announcer → Type 0
  Silent b before z =
      (distinct b.services ≡ []) × Left b none b.name (given_up b.group before) true z

  abbrev pub Synced : BridgeAnn → List Call → Announcer → Type 0
  Synced b before z =
      Silent b before z ⊎ ((distinct b.services ≢ []) × (Answered b before z ⊎ GivenUp b before z))

  -- After a round: it was the last, or another name is tried.
  abbrev AfterRound :
      BridgeAnn → Result PublishError String → String → List Call → Announcer × Bool → Type 0
  AfterRound b r name asked y =
      ((y.1 ≡ false)
        × (r ≢ err collision)
        × Left b (answer_group r) name asked (leaves_available r) y.0)
      ⊎ ((y.1 ≡ true) × (r ≡ err collision) × Left b none (next_name name) asked true y.0)

  adjust_name-Left :
      (b : BridgeAnn) (name : String) (asked : List Call) (x : Announcer)
      → Left b none name asked true x
      → AfterRound b (err collision) name asked (adjust_name backend id x)
  unfolding adjust_name with_bridge
  adjust_name-Left b name asked x l =
      let f : BridgeAnn → BridgeAnn = λ b'. record b' { name = next_name name } in
      rw (adjust_name, l.found)
        (inr (
          refl,
          refl,
          record {
            found = get-change_key id f x.bridges l.found;
            asked = l.asked;
            available = l.available;
          },
        ))

  answered-Left :
      (b : BridgeAnn) (r : Result PublishError String) (name : String) (asked : List Call)
      (x : Announcer)
      → Left b none name asked true x
      → AfterRound b r name asked (answered backend id r x)
  unfolding answered with_bridge put_group
  answered-Left b (ok h) name asked x l =
      let grouped : Left b (some h) name asked true (with_bridge id (put_group (some h)) x) =
        record {
          found = get-change_key id (put_group (some h)) x.bridges l.found;
          asked = l.asked;
          available = l.available;
        } in
      inl (refl, λ e. cc e, grouped)
  answered-Left b (err collision) name asked x l = adjust_name-Left b name asked x l
  answered-Left b (err (unavailable why)) name asked x l =
      inl (refl, λ e. cc e, record { found = l.found; asked = l.asked; available = refl })
  answered-Left b (err (other why)) name asked x l = inl (refl, λ e. cc e, l)

  -- The answer is awaited.
  awaited-Left :
      (b : BridgeAnn) (g : Option String) (name : String) (calls : List Call) (z : Announcer)
      (services : List Service) (r : Result PublishError String)
      → Left b g name calls true z
      → let asked = publish g name services r ∷ calls in
        let told = log (publish g name services r) (with_bridge id (put_group none) z) in
        Left b none
          (name_then asked name)
          asked
          true
          (given_names backend (backend.meanwhile told.calls) told)
  unfolding log with_bridge put_group
  awaited-Left b g name calls z services r l =
      let told = log (publish g name services r) (with_bridge id (put_group none) z) in
      let names = backend.meanwhile told.calls in
      let same : told.calls ≡ publish g name services r ∷ calls =
        λ i. publish g name services r ∷ l.asked i in
      let quiet = get-change_key id (put_group none) z.bridges l.found in
      record {
        found =
            given_names-get backend id names told (record b { group = none; name = name }) quiet
            ∙ λ i. some (record b { group = none; name = name_then (same i) name });
        asked = given_names-calls backend names told ∙ same;
        available = given_names-available backend names told ∙ l.available;
      }

  sync_round-Left :
      (b : BridgeAnn) (g : Option String) (name : String) (calls : List Call) (z : Announcer)
      → Left b g name calls true z
      → distinct b.services ≢ []
      → (r : Result PublishError String) × (let asked =
            publish g name (distinct b.services) r ∷ calls in
          AfterRound b r
            (name_then asked name)
            asked
            (sync_round backend id (record b { group = g; name = name }) z))
  unfolding sync_round
  sync_round-Left b g name calls z l some_services = elim (List-cases (distinct b.services)) [
    | inl h ↦ absurd (some_services h)
    | inr (s, more, h) ↦
        let r = backend.answer z.calls g name (s ∷ more) in
        let asked = publish g name (s ∷ more) r ∷ calls in
        let told = log (publish g name (s ∷ more) r) (with_bridge id (put_group none) z) in
        let there = given_names backend (backend.meanwhile told.calls) told in
        (
          r,
          rw (sync_round, h)
              (answered-Left b r (name_then asked name) asked there
                (awaited-Left b g name calls z (s ∷ more) r l)),
        )
  ]

  -- The rounds that are left, behind so many names that were taken.
  sync_rounds-Synced :
      (m n : ℕ) (b : BridgeAnn) (before : List Call) (g : Option String) (name : String)
      (calls : List Call) (z : Announcer)
      → n + m ≡ 20
      → distinct b.services ≢ []
      → (0 < n → g ≡ none)
      → Tries b before n g name calls
      → Left b g name calls true z
      → Answered b before (sync_rounds backend m id z)
        ⊎ GivenUp b before (sync_rounds backend m id z)
  unfolding sync_rounds
  sync_rounds-Synced zero n b before g name calls z e some_services quiet t l =
      let all : n ≡ 20 = omega arith in
      let none_left : g ≡ none = quiet (omega arith) in
      inr (record {
        name = name;
        calls = calls;
        tries = rw (all, none_left) at t;
        left = rw none_left at l;
      })
  sync_rounds-Synced (suc m) n b before g name calls z e some_services quiet t l =
      let b' : BridgeAnn = record b { group = g; name = name } in
      let (r, after) = sync_round-Left b g name calls z l some_services in
      let asked = publish g name (distinct b.services) r ∷ calls in
      elim after [
        | inl (stop, ends, left) ↦
            rw (sync_rounds, l.found, stop)
              (inl (record {
                n = n;
                g = g;
                name = name;
                calls = calls;
                answer = r;
                few = omega (arith, e);
                tries = t;
                ends = ends;
                left = left;
              }))
        | inr (more, was, left) ↦
            let same : asked ≡ publish g name (distinct b.services) (err collision) ∷ calls =
              λ i. publish g name (distinct b.services) (was i) ∷ calls in
            rw (sync_rounds, l.found, more)
              (sync_rounds-Synced m (suc n) b before none (next_name (name_then asked name)) asked
                (sync_round backend id b' z).0 (omega (arith, e)) some_services (λ p. refl)
                (taken t asked same) left)
      ]

  calls-withdraw_taken :
      (g : Option String) (a : Announcer)
      → ((withdraw_taken g a).bridges ≡ a.bridges)
        × ((withdraw_taken g a).calls ≡ given_up g a.calls)
        × ((withdraw_taken g a).available ≡ a.available)
  unfolding withdraw_taken log
  calls-withdraw_taken none a = (refl, refl, refl)
  calls-withdraw_taken (some g) a = (refl, refl, refl)

  quiet_round :
      (b : BridgeAnn) (z : Announcer)
      → distinct b.services ≡ []
      → sync_round backend id b z
        ≡ (withdraw_taken b.group (with_bridge id (put_group none) z), false)
  unfolding sync_round
  quiet_round b z h = rw (sync_round, h) refl

  -- With nothing to announce the first round is the last.
  sync_rounds-Silent :
      (m : ℕ) (b : BridgeAnn) (z : Announcer)
      → distinct b.services ≡ []
      → get id z.bridges ≡ some b
      → z.available ≡ true
      → Left b none b.name (given_up b.group z.calls) true (sync_rounds backend (suc m) id z)
  unfolding sync_rounds with_bridge put_group
  sync_rounds-Silent m b z h e v =
      let taken = with_bridge id (put_group none) z in
      let (bridges, calls, there) = calls-withdraw_taken b.group taken in
      let quiet = get-change_key id (put_group none) z.bridges e in
      let round = quiet_round b z h in
      rw (sync_rounds, e, round)
        (rw round (record { found = rw bridges quiet; asked = calls; available = there ∙ v }))

  -- When Avahi is there and a bridge is known, sync leaves the bridge's services as they are. If
  -- there is nothing to announce, it gives back the group that there was, and asks nothing else.
  -- Otherwise it announces the services that do not overlap: first under the bridge's name and in
  -- its group, and after each collision in a new group, under the name that follows the one that
  -- the bridge has when the answer comes, whatever names the supervisor gave meanwhile. It stops at
  -- the first answer that is no collision, with the group of that answer or none, or after 20
  -- collisions with none; and Avahi counts as gone exactly if that answer says so.
  pub sync-Synced :
      (a : Announcer) (b : BridgeAnn)
      → a.available ≡ true
      → get id a.bridges ≡ some b
      → Synced b a.calls (sync backend id a)
  unfolding sync
  sync-Synced a b v e =
      let here : Left b b.group b.name a.calls true a = record {
        found = e;
        asked = refl;
        available = v;
      } in
      elim (List-cases (distinct b.services)) [
        | inl h ↦ simp v (inl (h, sync_rounds-Silent 19 b a h e v))
        | inr (s, more, h) ↦
            let some_services : distinct b.services ≢ [] = λ p. cc (p, h) in
            simp v (
              inr (
                some_services,
                sync_rounds-Synced 20 0 b a.calls b.group b.name a.calls a refl some_services
                    (λ p. absurd (omega (arith, p))) untried here,
              ))
      ]
