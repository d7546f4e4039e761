-- ===== src/Bridge/Backoff.antt =====
-- src/bridge/mod.rs: the pauses between attempts to connect.
use Prim.Native.String.{String}
use native.Mathlib.Nat.{pow-le-pow_right}
use native.Mathlib.Decide.{dec_lt}
use kiss_tnc_bridge.Prelude.{ℕ, ◌+◌, ◌-◌, ◌*◌, ◌%◌, ◌^◌, ◌≤◌, ◌<◌, min, true, ◌≡◌, refl, ap, arith}
use kiss_tnc_bridge.Bridge.Channel.{Channel}
use kiss_tnc_bridge.Bridge.State.{
  Run, idle_link, backoff_link, WriterMsg, inc32, other_error, unpaired_error, device_absent,
}
use kiss_tnc_bridge.Bridge.Link.{
  backoff_delay, backoff_min, backoff_max, start_backoff, start_wait, wants_link,
}
use kiss_tnc_bridge.Bridge.Tnc.{on_link_failed}

-- Sixteen doublings pass the greatest pause already.
capped :
    (n : ℕ) → min (backoff_min * 2 ^ min n 16) backoff_max ≡ min (backoff_min * 2 ^ n) backoff_max
capped n = elim (dec_lt 16 n) [
  | yes far ↦
      let cut : min n 16 ≡ 16 = omega arith in
      let large : 65536 ≤ 2 ^ n =
        pow-le-pow_right {n = 2} (omega arith) {i = 16} {j = n} (omega arith) in
      rw cut (omega (arith, large))
  | no near ↦ let same : min n 16 ≡ n = omega arith in rw same
]

backoff_delay-min :
    (n : ℕ) → n + 1 < 2 ^ 32 → backoff_delay (n + 1) ≡ min (backoff_min * 2 ^ n) backoff_max
unfolding backoff_delay
backoff_delay-min n h =
    let unwrapped : (n + 1 + 2 ^ 32 - 1) % 2 ^ 32 ≡ n = omega arith in rw unwrapped (capped n)

-- After a failed connect that is worth retrying, with someone waiting for the link, the bridge
-- counts one attempt more and waits: one second, doubled for each attempt before, and 30 seconds at
-- most. A device that is absent and a TNC that is not paired are asked for again at a fixed pace,
-- and count no attempts.
pub on_link_failed-delay :
    {S : Type 0} (w : Channel WriterMsg) (now : ℕ) (why : String) (r : Run S w.Sender)
    → wants_link r ≡ true
    → r.attempt + 1 < 2 ^ 32
    → ((on_link_failed w now (other_error why) r).link
        ≡ backoff_link (min (backoff_min * 2 ^ r.attempt) backoff_max))
      × ((on_link_failed w now (other_error why) r).attempt ≡ r.attempt + 1)
      × ((on_link_failed w now (unpaired_error why) r).link ≡ backoff_link 5000)
      × ((on_link_failed w now (device_absent why) r).link ≡ backoff_link 2000)
      × ((on_link_failed w now (unpaired_error why) r).attempt ≡ 0)
      × ((on_link_failed w now (device_absent why) r).attempt ≡ 0)
unfolding on_link_failed start_backoff start_wait
on_link_failed-delay w now why r wanted h =
    let wanted' : wants_link (record r { link = idle_link }) ≡ true = unfold wants_link in wanted in
    let counted : inc32 r.attempt ≡ r.attempt + 1 = unfold inc32 in omega arith in
    rw wanted'
      (rw counted (ap backoff_link (backoff_delay-min r.attempt h), refl, refl, refl, refl, refl))
