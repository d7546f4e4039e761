-- ===== src/Bridge/Channel.antt =====
-- The bounded queues between tasks (`mpsc` of tokio), as far as the bridge uses the sending half.
-- The crate is not part of the repository: its operations are fields, and its documented behaviour
-- the laws.
use kiss_tnc_bridge.Prelude.{ℕ, suc, ◌<◌, Bool, true, List, [], ◌∷◌, ◌++◌, ◌≡◌, Option, some}

pub record Channel (A : Type 0) : Type 1 where
  -- A sender, with the state of its queue.
  pub Sender : Type 0
  pub channel : ℕ → Sender
  pub try_send : Sender → A → Option Sender
  -- The messages sent and not yet received, the free places, and whether the receiver is there.
  pub queued : Sender → List A
  pub capacity : Sender → ℕ
  pub is_open : Sender → Bool
  pub channel-queued : (n : ℕ) → queued (channel n) ≡ []
  pub channel-capacity : (n : ℕ) → capacity (channel n) ≡ n
  pub channel-is_open : (n : ℕ) → is_open (channel n) ≡ true
  -- A message that is taken goes behind the others and uses a place.
  pub try_send-queued :
      (s s' : Sender) (a : A) → try_send s a ≡ some s' → queued s' ≡ queued s ++ a ∷ []
  pub try_send-capacity :
      (s s' : Sender) (a : A) → try_send s a ≡ some s' → suc (capacity s') ≡ capacity s
  pub try_send-is_open : (s s' : Sender) (a : A) → try_send s a ≡ some s' → is_open s' ≡ is_open s
  -- It is taken if there is room and the receiver is there.
  pub try_send_room :
      (s : Sender) (a : A)
      → is_open s ≡ true
      → 0 < capacity s
      → (s' : Sender) × (try_send s a ≡ some s')
