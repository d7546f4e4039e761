-- ===== src/Bridge/Tests/Setup.antt =====
-- A bounded queue for the channels of the bridge's tests, and settings.
use kiss_tnc_bridge.Prelude.{
  ℕ, zero, suc, ◌<◌, true, List, [], ◌∷◌, ◌++◌, ◌≡◌, refl, Option, none, some, arith,
}
use kiss_tnc_bridge.Prelude.Text.{Bytes}
use kiss_tnc_bridge.Config.Settings.{drop_params, on_demand}
use kiss_tnc_bridge.Bridge.Channel.{Channel}
use kiss_tnc_bridge.Bridge.State.{TncSettings, WriterMsg}

-- A bounded queue whose receiver stays.
pub record Queue (A : Type 0) : Type 0 where
  pub items : List A
  pub room : ℕ

abbrev pub put : {A : Type 0} → List A → ℕ → A → Option (Queue A)
put items zero a = none
put items (suc n) a = some (record { items = items ++ a ∷ []; room = n })

abbrev pub put_in : {A : Type 0} → Queue A → A → Option (Queue A)
put_in q a = put q.items q.room a

module _ {A : Type 0} where
  pub put-items :
      (xs : List A) (n : ℕ) (q : Queue A) (a : A) → put xs n a ≡ some q → q.items ≡ xs ++ a ∷ []
  put-items xs zero q a e = cc
  put-items xs (suc n) q a e = ground arith

  pub put-room : (xs : List A) (n : ℕ) (q : Queue A) (a : A) → put xs n a ≡ some q → suc q.room ≡ n
  put-room xs zero q a e = cc
  put-room xs (suc n) q a e = ground arith

  pub put_room : (xs : List A) (n : ℕ) (a : A) → 0 < n → (q : Queue A) × (put xs n a ≡ some q)
  put_room xs zero a h = absurd (omega arith)
  put_room xs (suc n) a h = (record { items = xs ++ a ∷ []; room = n }, refl)

abbrev pub queue : (A : Type 0) → Channel A
queue A = record {
  Sender = Queue A;
  channel = λ n. record { items = []; room = n };
  try_send = put_in;
  queued = λ q. q.items;
  capacity = λ q. q.room;
  is_open = λ q. true;
  channel-queued = λ n. refl;
  channel-capacity = λ n. refl;
  channel-is_open = λ n. refl;
  try_send-queued = λ s s' a e. put-items s.items s.room s' a e;
  try_send-capacity = λ s s' a e. put-room s.items s.room s' a e;
  try_send-is_open = λ s s' a e. refl;
  try_send_room = λ s a o h. put_room s.items s.room a h;
}

abbrev pub to_app : Channel Bytes
to_app = queue Bytes

abbrev pub to_link : Channel WriterMsg
to_link = queue WriterMsg

abbrev pub settings : TncSettings
settings = record {
  port_id = "d75";
  connect = on_demand;
  idle_timeout = 60000;
  app_params = drop_params;
  exit_kiss_on_disconnect = true;
}
