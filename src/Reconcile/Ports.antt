-- ===== src/Reconcile/Ports.antt =====
-- src/reconcile.rs: the comparison of one port, `compare_port`. `N` stands for networks and their
-- tests, and `peer` addresses are parsed by it.
use Prim.Native.String.{String}
use text.Mathlib.Text.{◌==◌ as str_eq}
use kiss_tnc_bridge.Prelude.{
  ℕ, Bool, true, false, not, ◌||◌, List, [], ◌∷◌, ◌++◌, Option, none, some, leb, if◌then◌else◌,
  length, drop, keep_if,
}
use kiss_tnc_bridge.Prelude.Decide.{equal}
use kiss_tnc_bridge.Prelude.Sorting.{sort_by}
use kiss_tnc_bridge.Config.Addresses.{Mac, AdapterSel, Mac-discrete, AdapterSel-discrete}
use kiss_tnc_bridge.Config.Networks.{Networks, allowed}
use kiss_tnc_bridge.Bridge.State.{SessionId, session_eq}

pub record SessionView : Type 0 where
  pub id : SessionId
  pub seq : ℕ

pub record BridgeView : Type 0 where
  pub tnc_active : Bool
  pub sessions : List SessionView

-- `bridges.get`, and the lookup of the adapters present.
pub record Runtime : Type 0 where
  pub bridge : String → Option BridgeView
  pub adapter_mac : Option (AdapterSel → Option Mac)

unfoldable pub same_mac : Option Mac → Option Mac → Bool
same_mac (some x) (some y) = equal Mac-discrete x y
same_mac _ _ = false

module _ (rt : Runtime) where
  unfoldable pub same_adapter : AdapterSel → AdapterSel → Bool
  unfolding same_mac
  same_adapter a b =
      equal AdapterSel-discrete a b
      || elim rt.adapter_mac [ some f ↦ same_mac (f a) (f b) | none ↦ false ]

  unfoldable pub sessions_of : String → String → List SessionView
  sessions_of bridge port = elim (rt.bridge bridge) [
    | some b ↦ keep_if (λ s. str_eq s.id.port port) b.sessions
    | none ↦ []
  ]

  unfoldable pub tnc_active : String → Bool
  tnc_active bridge = elim (rt.bridge bridge) [ some b ↦ b.tnc_active | none ↦ false ]

-- `.map(|s| s.id.clone())`
unfoldable pub ids : List SessionView → List SessionId
ids [] = []
ids (s ∷ ss) = s.id ∷ ids ss

unfoldable pub newest_beyond : List SessionView → ℕ → List SessionId → List SessionId
unfolding sort_by ids
newest_beyond sessions max out =
    if leb (length sessions) max
    then out
    else out ++ ids (drop max (sort_by (λ s t. leb s.seq t.seq) sessions))

-- `dedup`: all but the first of equal neighbours go.
unfoldable pub dedup_behind : SessionId → List SessionId → List SessionId
dedup_behind s [] = []
dedup_behind s (t ∷ ts) = let rest = dedup_behind t ts in if session_eq s t then rest else t ∷ rest

unfoldable pub dedup : List SessionId → List SessionId
unfolding dedup_behind
dedup [] = []
dedup (s ∷ ss) = s ∷ dedup_behind s ss

-- The variables of `compare_port`.
pub record Noted : Type 0 where
  pub changes : List String
  pub restart : Bool
  pub kick : List SessionId

unfoldable pub nothing : Noted
nothing = record { changes = []; restart = false; kick = [] }

-- `if differs { note(name) }`, and the same with `restart = true`.
unfoldable pub note_if : Bool → String → Noted → Noted
note_if differs name n = if differs then record n { changes = n.changes ++ name ∷ [] } else n

unfoldable pub restart_if : Bool → String → Noted → Noted
restart_if differs name n =
    if differs then record n { changes = n.changes ++ name ∷ []; restart = true } else n

-- `.parse` of a peer's address, and what goes of it.
module _ (n : Networks) where
  unfoldable pub is_barred : List n.Net → SessionView → Bool
  is_barred allow s = elim (n.parse_ip s.id.peer) [
    | some ip ↦ not (allowed n allow ip)
    | none ↦ false
  ]
