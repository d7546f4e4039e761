-- ===== src/Bridge/Going/Attempts.antt =====
-- src/bridge/mod.rs: attempts to bring the link up, where they succeed.
use Prim.Native.String.{String}
use kiss_tnc_bridge.Prelude.{
  ℕ, suc, ◌≤◌, ◌&&◌, not, if◌then◌else◌, Bool, true, false, List, ◌≡◌, refl, ◌∙◌, Option, arith,
}
use kiss_tnc_bridge.Prelude.Text.{Bytes}
use kiss_tnc_bridge.Bridge.Channel.{Channel}
use kiss_tnc_bridge.Bridge.State.{
  Run, TncSettings, TncLink, idle_link, connecting_link, connected_link, backoff_link, is_idle,
  WriterMsg, Hub, LinkEvent, link_up, backoff_over,
}
use kiss_tnc_bridge.Bridge.Link.{wants_link, close, start_connect, set_state}
use kiss_tnc_bridge.Bridge.Tnc.{on_link, on_link_up, on_backoff_over, link_ready, send_pending}
use kiss_tnc_bridge.Bridge.Run.{Awaits, begin, initial}
use kiss_tnc_bridge.Bridge.Going.Reachable.{Heedful, wanted-Heedful, send_pending-kept}

-- Events of the link alone, as many as the number says, each of them one that the link awaits.
pub data Attempts {S : Type 0} (w : Channel WriterMsg) (r : Run S w.Sender)
    : ℕ → Run S w.Sender → Type 0 where
  no_attempt : Attempts w r 0 r
  attempt :
      {n : ℕ} {s : Run S w.Sender} (now : ℕ) (e : LinkEvent)
      → Attempts w r n s
      → Awaits s.link e
      → Attempts w r (suc n) (on_link w now e s)

connecting-Awaits :
    (exit_kiss : List Bytes) (l : TncLink) → l ≡ connecting_link → Awaits l (link_up exit_kiss)
connecting-Awaits exit_kiss l e = rw e tt

backoff-Awaits : (delay : ℕ) (l : TncLink) → l ≡ backoff_link delay → Awaits l backoff_over
backoff-Awaits delay l e = rw e tt

module _ {S : Type 0} (w : Channel WriterMsg) (now : ℕ) where
  unless_wanted :
      (u : Run S w.Sender) (none_waits : Bool)
      → wants_link u ≡ true
      → u.link ≡ connected_link
      → (if not (wants_link u) && none_waits then close w now u else u).link ≡ connected_link
  unless_wanted u none_waits e l = rw e l

  link_ready-wants_link :
      (exit_kiss : List Bytes) (r : Run S w.Sender)
      → wants_link (link_ready w now exit_kiss r) ≡ wants_link r
  unfolding set_state wants_link link_ready
  link_ready-wants_link exit_kiss r = refl

  -- A link that comes up while it is wanted stays up.
  on_link_up-wanted :
      (exit_kiss : List Bytes) (r : Run S w.Sender)
      → wants_link r ≡ true
      → (on_link_up w now exit_kiss r).link ≡ connected_link
  unfolding on_link_up set_state
  on_link_up-wanted exit_kiss r e =
      let (l, k) = send_pending-kept w now r.pending (link_ready w now exit_kiss r) refl in
      unless_wanted (send_pending w now r.pending (link_ready w now exit_kiss r)) _
        (k ∙ link_ready-wants_link exit_kiss r ∙ e) l

  on_backoff_over-wanted :
      (r : Run S w.Sender)
      → wants_link r ≡ true
      → ((on_backoff_over w now r).link ≡ connecting_link)
        × (wants_link (on_backoff_over w now r) ≡ true)
  unfolding on_backoff_over start_connect set_state wants_link
  on_backoff_over-wanted r e = ground arith

  up_within :
      (exit_kiss : List Bytes) (l : TncLink) (r : Run S w.Sender)
      → r.link ≡ l
      → is_idle l ≡ false
      → wants_link r ≡ true
      → (n : ℕ) × (s : Run S w.Sender) × (n ≤ 2) × Attempts w r n s × (s.link ≡ connected_link)
  unfolding on_link is_idle
  up_within exit_kiss connected_link r l i e = (0, r, omega arith, no_attempt, l)
  up_within exit_kiss connecting_link r l i e = (
    1,
    on_link_up w now exit_kiss r,
    omega arith,
    attempt now (link_up exit_kiss) no_attempt (connecting-Awaits exit_kiss r.link l),
    on_link_up-wanted exit_kiss r e,
  )
  up_within exit_kiss (backoff_link d) r l i e =
      let (l', e') = on_backoff_over-wanted r e in
      (
        2,
        on_link_up w now exit_kiss (on_backoff_over w now r),
        omega arith,
        attempt now (link_up exit_kiss)
            (attempt now backoff_over no_attempt (backoff-Awaits d r.link l))
            (connecting-Awaits exit_kiss _ l'),
        on_link_up-wanted exit_kiss _ e',
      )
  up_within exit_kiss idle_link r l i e = absurd (cc)

-- From every state that is reached while the settings change only on a link that is not held up,
-- if the link is wanted then at most two events that the link awaits, the end of its wait and an
-- attempt that succeeds, lead to a connected link. The attempt brings any teardown `exit_kiss`.
pub Attempts-Heedful :
    (a : Channel Bytes) (w : Channel WriterMsg) (start : ℕ) (connector : String)
    (settings : TncSettings) (hub : Option Hub) {r : Run a.Sender w.Sender}
    → Heedful a w (begin start (initial connector settings hub start)) r
    → wants_link r ≡ true
    → (now : ℕ) (exit_kiss : List Bytes)
    → (n : ℕ) × (s : Run a.Sender w.Sender) × (n ≤ 2) × Attempts w r n s × (s.link ≡ connected_link)
Attempts-Heedful a w start connector settings hub {r} reach wanted now exit_kiss =
    up_within w now exit_kiss r.link r refl
      (wanted-Heedful a w start connector settings hub reach wanted) wanted
