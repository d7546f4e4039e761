-- ===== src/Announce/Announcer.antt =====
-- src/announce.rs: the operations of `Announcer`, on any backend.
pub mod Given
pub mod Groups
pub mod Kept
pub mod Runs
pub mod Synced
use Prim.Native.String.{String}
use text.Mathlib.Text.{◌==◌ as str_eq}
use kiss_tnc_bridge.Prelude.{
  ℕ, zero, suc, Bool, true, false, List, [], ◌∷◌, Option, none, some, is_some, if◌then◌else◌,
  find_first,
}
use kiss_tnc_bridge.Prelude.Results.{Result, ok, err}
use kiss_tnc_bridge.Prelude.Decide.{Option-discrete, String-discrete, equal}
use kiss_tnc_bridge.Prelude.Maps.{put, get, remove_key, change_key}
use kiss_tnc_bridge.Config.State.{State, set_adjusted_public_name, update}
use kiss_tnc_bridge.Announce.Names.{next_name}
use kiss_tnc_bridge.Announce.Service.{Service, Service-discrete, distinct}
use kiss_tnc_bridge.Announce.Backend.{
  Cmd, Event, PublishError, Call, BridgeAnn, Announcer, Backend, Input, put_group, with_bridge, log,
  given_name, given_names, withdraw_taken, groups_of, without_groups, withdraw_all, withdraw_groups,
  is_group, bridge_for, quiet_ids, bridge, forget, up, down, established, collided, failed,
  server_up, server_down, collision, unavailable, other, publish, withdraw, cmd, event, renamed,
}

module _ (backend : Backend) where
  unfoldable pub adjust_name : String → Announcer → Announcer × Bool
  unfolding get with_bridge next_name set_adjusted_public_name update
  adjust_name id a = elim (get id a.bridges) [
    | none ↦ (a, false)
    | some b ↦
        let next = next_name b.name in
        let store =
          update (backend.can_write a.calls) (set_adjusted_public_name id b.configured next)
            a.store in
        (with_bridge id (λ b. record b { name = next }) (record a { store = store }), true)
  ]

  -- What follows the answer of `publish`, and whether another round does.
  unfoldable pub answered : String → Result PublishError String → Announcer → Announcer × Bool
  unfolding with_bridge put_group adjust_name
  answered id (ok g) a = (with_bridge id (put_group (some g)) a, false)
  answered id (err collision) a = adjust_name id a
  answered id (err (unavailable why)) a = (record a { available = false }, false)
  answered id (err (other why)) a = (a, false)

  -- One round of `sync`, for a bridge that is there. While `publish` is awaited, the supervisor may give
  -- bridges other names.
  unfoldable pub sync_round : String → BridgeAnn → Announcer → Announcer × Bool
  unfolding distinct withdraw_taken with_bridge put_group log given_names answered
  sync_round id b a =
      let services = distinct b.services in
      let taken = with_bridge id (put_group none) a in
      elim services [
        | [] ↦ (withdraw_taken b.group taken, false)
        | s ∷ more ↦
            let answer = backend.answer a.calls b.group b.name (s ∷ more) in
            let asked = log (publish b.group b.name (s ∷ more) answer) taken in
            answered id answer (given_names backend (backend.meanwhile asked.calls) asked)
      ]

  unfoldable pub sync_rounds : ℕ → String → Announcer → Announcer
  unfolding get sync_round
  sync_rounds zero id a = a
  sync_rounds (suc n) id a = elim (get id a.bridges) [
    | none ↦ a
    | some b ↦ let r = sync_round id b a in elim r.1 [ true ↦ sync_rounds n id r.0 | false ↦ r.0 ]
  ]

  unfoldable pub sync : String → Announcer → Announcer
  unfolding sync_rounds
  sync id a = if a.available then sync_rounds 20 id a else a

  unfoldable pub rename : String → Announcer → Announcer
  unfolding adjust_name sync
  rename id a = let r = adjust_name id a in if r.1 then sync id r.0 else r.0

  unfoldable pub on_bridge : String → String → String → Announcer → Announcer
  unfolding get put with_bridge sync
  on_bridge id configured name a = elim (get id a.bridges) [
    | some b ↦ sync id (with_bridge id (λ b. record b { configured = configured; name = name }) a)
    | none ↦ record a {
      bridges =
          put id (record { configured = configured; name = name; services = []; group = none })
            a.bridges;
    }
  ]

  unfoldable pub on_forget : String → Announcer → Announcer
  unfolding get remove_key withdraw_taken
  on_forget id a = elim (get id a.bridges) [
    | none ↦ a
    | some b ↦ withdraw_taken b.group (record a { bridges = remove_key id a.bridges })
  ]

  unfoldable pub on_up : String → String → Service → Announcer → Announcer
  unfolding get put with_bridge sync equal Service-discrete Option-discrete
  on_up id port service a = elim (get id a.bridges) [
    | none ↦ a
    | some b ↦
        let there = with_bridge id (λ b. record b { services = put port service b.services }) a in
        if equal (Option-discrete Service-discrete) (get port b.services) (some service)
        then there
        else sync id there
  ]

  unfoldable pub on_down : String → String → Announcer → Announcer
  unfolding get remove_key with_bridge sync
  on_down id port a = elim (get id a.bridges) [
    | none ↦ a
    | some b ↦
        let gone = with_bridge id (λ b. record b { services = remove_key port b.services }) a in
        if is_some (get port b.services) then sync id gone else gone
  ]

  unfoldable pub on_cmd : Cmd → Announcer → Announcer
  unfolding on_bridge on_forget on_up on_down
  on_cmd (bridge id configured name) = on_bridge id configured name
  on_cmd (forget id) = on_forget id
  on_cmd (up id port service) = on_up id port service
  on_cmd (down id port) = on_down id port

  unfoldable pub sync_all : List String → Announcer → Announcer
  unfolding sync
  sync_all [] a = a
  sync_all (id ∷ ids) a = sync_all ids (sync id a)

  unfoldable pub on_event : Event → Announcer → Announcer
  unfolding bridge_for rename sync_all quiet_ids withdraw_groups
  on_event (established g) a = a
  on_event (collided g) a = elim (bridge_for g a) [ none ↦ a | some e ↦ rename e.0 a ]
  on_event (failed g why) a = a
  on_event server_up a = sync_all (quiet_ids a.bridges) (record a { available = true })
  on_event server_down a = record (withdraw_groups a) { available = false }

  unfoldable pub on_input : Input → Announcer → Announcer
  unfolding on_cmd on_event given_name
  on_input (cmd c) a = on_cmd c a
  on_input (event e) a = on_event e a
  on_input (renamed id name) a = given_name backend id name a

  -- The loop of `run`.
  unfoldable pub serve : List Input → Announcer → Announcer
  unfolding on_input
  serve [] a = a
  serve (x ∷ xs) a = serve xs (on_input x a)

  unfoldable pub run : List Input → Announcer → Announcer
  unfolding serve withdraw_groups
  run xs a = withdraw_groups (serve xs a)

-- `Announcer::new`
unfoldable pub new_announcer : State → Bool → Announcer
new_announcer store available = record {
  bridges = [];
  store = store;
  available = available;
  calls = [];
}
