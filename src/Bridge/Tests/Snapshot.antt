-- ===== src/Bridge/Tests/Snapshot.antt =====
-- The snapshot of a bridge with two sessions, of which the newer one comes first in the map.
use kiss_tnc_bridge.Prelude.{ℕ, true, false, [], ◌∷◌, none, some, ◌≡◌, refl}
use kiss_tnc_bridge.Prelude.Text.{Bytes}
use kiss_tnc_bridge.Bridge.State.{Run, Session, SessionId, WriterMsg}
use kiss_tnc_bridge.Bridge.Run.{initial}
use kiss_tnc_bridge.Bridge.Snapshot.{snapshot_of}
use kiss_tnc_bridge.Bridge.Tests.Setup.{Queue, settings}

abbrev session : ℕ → Session (Queue Bytes)
session seq = record {
  sender = record { items = []; room = 4 };
  kicked = false;
  seq = seq;
  since = 10;
}

abbrev newer_id : SessionId
newer_id = record { port = "tcp"; peer = "10.0.0.1:4711" }

abbrev older_id : SessionId
older_id = record { port = "tcp"; peer = "10.0.0.2:4712" }

abbrev shared : Run (Queue Bytes) (Queue WriterMsg)
shared = record (initial "spp" settings none 0) {
  sessions = (newer_id, session 7) ∷ (older_id, session 3) ∷ [];
  held = some true;
}

older_first :
    (snapshot_of shared).sessions
    ≡ record { id = older_id; seq = 3; since = 10 }
      ∷ record { id = newer_id; seq = 7; since = 10 }
      ∷ []
unfolding snapshot_of initial
older_first = refl
