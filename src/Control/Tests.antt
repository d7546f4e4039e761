-- ===== src/Control/Tests.antt =====
-- The activity of one session, coalesced.
mod Times
use kiss_tnc_bridge.Prelude.{◌+◌, ◌%◌, ◌^◌, List, [], ◌∷◌, ◌≡◌, refl, All}
use kiss_tnc_bridge.Bridge.State.{tx, rx}
use kiss_tnc_bridge.Control.Events.{Key, Raw, got, tick, coalesce, on_raw, no_slots, same_key}
use kiss_tnc_bridge.Control.Events.Totals.{
  told_bytes, pending_bytes, received_bytes, IsPrompt, coalesce-total,
}

abbrev sent : Key
sent = ("tcp/10.0.0.1:4711", tx)

abbrev heard : Key
heard = ("d75", rx)

-- The second and third count within 100 ms of the first are told of together, at a tick.
abbrev counts : List Raw
counts = got 1000 sent 10 ∷ got 1040 sent 5 ∷ got 1050 heard 7 ∷ got 1060 sent 3 ∷ tick 1080 ∷ []

told :
    (on_raw (tick 1180) (coalesce counts no_slots)).out
    ≡ record { key = sent; bytes = 8; at = 1180 }
      ∷ record { key = heard; bytes = 7; at = 1050 }
      ∷ record { key = sent; bytes = 10; at = 1000 }
      ∷ []
unfolding on_raw coalesce no_slots same_key
told = refl

coalesce-total_example :
    ((told_bytes sent (on_raw (tick 1080) (coalesce counts no_slots)).out
          + pending_bytes sent (on_raw (tick 1080) (coalesce counts no_slots)).slots)
        % 2 ^ 64
      ≡ received_bytes sent counts % 2 ^ 64)
    × All (IsPrompt 1080) (on_raw (tick 1080) (coalesce counts no_slots)).slots
coalesce-total_example = coalesce-total sent counts 1080
