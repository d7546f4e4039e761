-- ===== src/Announce/Backend.antt =====
-- src/announce.rs: the state of `Announcer`, its commands, events and calls, and the bridges' groups.
-- The backend's answers, and whether the state file can be written, depend on the calls so far. The
-- name of a bridge is what its watch channel holds; the supervisor (src/supervisor.rs) has the channel
-- and the state file too, and gives bridges other names between two inputs and while an announcement
-- is awaited. Where the announcer does not wait, it is not interrupted.
use Prim.Native.String.{String}
use kiss_tnc_bridge.Prelude.{
  Bool, List, [], ◌∷◌, Option, none, some, is_some, if◌then◌else◌, find_first,
}
use kiss_tnc_bridge.Prelude.Results.{Result}
use kiss_tnc_bridge.Prelude.Decide.{Option-discrete, String-discrete, equal}
use kiss_tnc_bridge.Prelude.Maps.{change_key}
use kiss_tnc_bridge.Config.State.{State, clear_adjusted_public_name, update}
use kiss_tnc_bridge.Announce.Service.{Service}

-- `Cmd`
pub data Cmd : Type 0 where
  bridge : String → String → String → Cmd
  forget : String → Cmd
  up : String → String → Service → Cmd
  down : String → String → Cmd

-- `Event`
pub data Event : Type 0 where
  established collided : String → Event
  failed : String → String → Event
  server_up server_down : Event

pub data PublishError : Type 0 where
  collision : PublishError
  unavailable other : String → PublishError

-- A call of the backend, with its answer.
pub data Call : Type 0 where
  publish : Option String → String → List Service → Result PublishError String → Call
  withdraw : String → Call

pub record BridgeAnn : Type 0 where
  pub configured : String
  pub name : String
  pub services : List (String × Service)
  pub group : Option String

-- `Announcer`, with the calls of its backend so far, the last first.
pub record Announcer : Type 0 where
  pub bridges : List (String × BridgeAnn)
  pub store : State
  pub available : Bool
  pub calls : List Call

-- The backend's answers; the bridges that the supervisor gives another name while the last of the
-- calls is awaited, with these names; and whether the state file can be written.
pub record Backend : Type 0 where
  pub answer : List Call → Option String → String → List Service → Result PublishError String
  pub meanwhile : List Call → List (String × String)
  pub can_write : List Call → State → Bool

-- What `run` waits for: a command, an event, or that the supervisor gives a bridge another name.
pub data Input : Type 0 where
  cmd : Cmd → Input
  event : Event → Input
  renamed : String → String → Input

unfoldable pub put_group : Option String → BridgeAnn → BridgeAnn
put_group g b = record b { group = g }

unfoldable pub with_bridge : String → (BridgeAnn → BridgeAnn) → Announcer → Announcer
unfolding change_key
with_bridge id f a = record a { bridges = change_key id f a.bridges }

module _ (backend : Backend) where
  -- The supervisor's `public_name_changed` and `retry_public_name`: the adjustment is dropped and the
  -- channel holds another name. The announcer's own command comes behind it.
  unfoldable pub given_name : String → String → Announcer → Announcer
  unfolding with_bridge clear_adjusted_public_name update
  given_name id name a =
      with_bridge id (λ b. record b { name = name })
        (record a {
          store = update (backend.can_write a.calls) (clear_adjusted_public_name id) a.store;
        })

  unfoldable pub given_names : List (String × String) → Announcer → Announcer
  unfolding given_name
  given_names [] a = a
  given_names ((id, name) ∷ more) a = given_names more (given_name id name a)

unfoldable pub log : Call → Announcer → Announcer
log c a = record a { calls = c ∷ a.calls }

-- `if let Some(g) = …take() { withdraw(g) }`, the group being taken off already.
unfoldable pub withdraw_taken : Option String → Announcer → Announcer
unfolding log
withdraw_taken none a = a
withdraw_taken (some g) a = log (withdraw g) a

-- All groups, taken off the bridges, and the bridges without them.
unfoldable pub groups_of : List (String × BridgeAnn) → List String
groups_of [] = []
groups_of ((id, b) ∷ m) = let rest = groups_of m in elim b.group [ none ↦ rest | some g ↦ g ∷ rest ]

unfoldable pub without_groups : List (String × BridgeAnn) → List (String × BridgeAnn)
unfolding put_group
without_groups [] = []
without_groups ((id, b) ∷ m) = (id, put_group none b) ∷ without_groups m

unfoldable pub withdraw_all : List String → Announcer → Announcer
unfolding log
withdraw_all [] a = a
withdraw_all (g ∷ gs) a = withdraw_all gs (log (withdraw g) a)

unfoldable pub withdraw_groups : Announcer → Announcer
unfolding groups_of without_groups withdraw_all
withdraw_groups a =
    withdraw_all (groups_of a.bridges) (record a { bridges = without_groups a.bridges })

unfoldable pub is_group : String → BridgeAnn → Bool
unfolding equal Option-discrete String-discrete
is_group g b = equal (Option-discrete String-discrete) b.group (some g)

unfoldable pub bridge_for : String → Announcer → Option (String × BridgeAnn)
unfolding is_group
bridge_for g a = find_first (λ e. is_group g e.1) a.bridges

-- The bridges that are not announced.
unfoldable pub quiet_ids : List (String × BridgeAnn) → List String
quiet_ids [] = []
quiet_ids ((id, b) ∷ m) = let rest = quiet_ids m in if is_some b.group then rest else id ∷ rest
