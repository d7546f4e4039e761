-- ===== src/Bridge/Snapshot.antt =====
-- src/bridge/mod.rs: `Snapshot`, the reply of a bridge that is asked for its status.
use mathlib.Core.List.{Perm}
use kiss_tnc_bridge.Prelude.{ℕ, Bool, List, Option, map, leb}
use kiss_tnc_bridge.Prelude.Sorting.{sort_by, Sorted, sort_by-perm, sort_by-Sorted}
use kiss_tnc_bridge.Bridge.State.{Run, Session, SessionId, TncState}

pub record SessionInfo : Type 0 where
  pub id : SessionId
  pub seq : ℕ
  pub since : ℕ

pub record Snapshot : Type 0 where
  pub tnc : TncState
  pub tnc_since : ℕ
  pub held : Option Bool
  pub sessions : List SessionInfo

unfoldable pub session_info : {S : Type 0} → SessionId × Session S → SessionInfo
session_info e = record { id = e.0; seq = e.1.seq; since = e.1.since }

module _ {S W : Type 0} where
  -- `BridgeCmd::Snapshot`: what is sent.
  unfoldable pub snapshot_of : Run S W → Snapshot
  unfolding sort_by session_info
  snapshot_of r = record {
    tnc = r.state;
    tnc_since = r.state_since;
    held = r.held;
    sessions = sort_by (λ s t. leb s.seq t.seq) (map session_info r.sessions);
  }

  -- A snapshot names each session as often as the bridge has it, with its number and its start, and
  -- the older sessions first.
  pub snapshot_of-sessions :
      (r : Run S W)
      → Perm (snapshot_of r).sessions (map session_info r.sessions)
        × Sorted (λ s. s.seq) (snapshot_of r).sessions
  unfolding snapshot_of
  snapshot_of-sessions r =
      let infos = map session_info r.sessions in
      (sort_by-perm (λ s. s.seq) infos, sort_by-Sorted (λ s. s.seq) infos)
