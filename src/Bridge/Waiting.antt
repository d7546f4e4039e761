-- ===== src/Bridge/Waiting.antt =====
-- src/bridge/mod.rs: the frames that waited for the link, when it comes up.
use mathlib.Core.List.{append-nil, append_assoc}
use kiss_tnc_bridge.Prelude.{
  ℕ, suc, ◌+◌, ◌^◌, ◌≤◌, ◌<◌, Bool, true, List, [], ◌∷◌, ◌++◌, ◌≡◌, refl, sym, ap, ◌∙◌, some, ltb,
  if◌then◌else◌, length, arith, Bool-cases, inl, inr,
}
use kiss_tnc_bridge.Prelude.Text.{Bytes}
use kiss_tnc_bridge.Bridge.Channel.{Channel}
use kiss_tnc_bridge.Bridge.State.{
  Run, Pending, connected_link, WriterMsg, frame_msg, inc64, frame_seen, tnc_activity, tx,
}
use kiss_tnc_bridge.Bridge.Link.{tell_activity, tell_frames, wants_link, set_state, writer_queue}
use kiss_tnc_bridge.Bridge.Apps.{uplink, count_dropped}
use kiss_tnc_bridge.Bridge.Tnc.{send_pending, link_ready, on_link_up}
use kiss_tnc_bridge.Bridge.Run.Invariant.{Inv}
use kiss_tnc_bridge.Bridge.Accounts.{inc64-suc}

-- A waiting frame is stale once it is older than five seconds.
abbrev pub is_stale : ℕ → Pending → Bool
is_stale now p = ltb (p.at + 5000) now

-- The writer's messages for the frames that are not stale, oldest first, and how many are.
abbrev pub fresh_messages : ℕ → List Pending → List WriterMsg
fresh_messages now [] = []
fresh_messages now (p ∷ ps) =
    if is_stale now p then fresh_messages now ps else frame_msg p.content ∷ fresh_messages now ps

abbrev pub stale_count : ℕ → List Pending → ℕ
stale_count now [] = 0
stale_count now (p ∷ ps) = (if is_stale now p then 1 else 0) + stale_count now ps

module _ {S : Type 0} (w : Channel WriterMsg) where
  -- A connected run whose writer takes `n` more messages.
  record Sends (n : ℕ) (r : Run S w.Sender) (s : w.Sender) : Type 0 where
    link_up : r.link ≡ connected_link
    sender : r.writer_tx ≡ some s
    opened : w.is_open s ≡ true
    room : n ≤ w.capacity s

  -- What the loop leaves of `r`, with its writer at `s`.
  record Sent (r up : Run S w.Sender) (s : w.Sender) (messages : List WriterMsg) (stale : ℕ)
      : Type 0 where
    final : w.Sender
    sender : up.writer_tx ≡ some final
    queue : w.queued final ≡ w.queued s ++ messages
    pending : up.pending ≡ r.pending
    link_up : up.link ≡ r.link
    wanted : wants_link up ≡ wants_link r
    dropped : up.counters.dropped ≡ r.counters.dropped + stale

  stale_Sends :
      (n : ℕ) (r : Run S w.Sender) (s : w.Sender) → Sends (suc n) r s → Sends n (count_dropped r) s
  unfolding count_dropped
  stale_Sends n r s e = record {
    link_up = e.link_up;
    sender = e.sender;
    opened = e.opened;
    room = omega (arith, e.room);
  }

  uplink_taken :
      (now : ℕ) (p : Pending) (r : Run S w.Sender) (s s' : w.Sender)
      → r.link ≡ connected_link
      → r.writer_tx ≡ some s
      → w.try_send s (frame_msg p.content) ≡ some s'
      → uplink w now p.content p.from r ≡ record r {
        writer_tx = some s';
        counters = record (r.counters) { frames_up = inc64 r.counters.frames_up };
        hub =
            tell_activity
              (tnc_activity tx (length p.content))
              (tell_frames (frame_seen tx p.from p.content) r.hub);
      }
  unfolding uplink
  uplink_taken now p r s s' l e t = ground arith

  -- One frame more is sent.
  uplink-Sends :
      (n now : ℕ) (p : Pending) (r : Run S w.Sender) (s : w.Sender)
      → Sends (suc n) r s
      → (s' : w.Sender) × (w.try_send s (frame_msg p.content) ≡ some s')
        × Sends n (uplink w now p.content p.from r) s'
  uplink-Sends n now p r s e =
      let (s', taken) = w.try_send_room s (frame_msg p.content) e.opened (omega (arith, e.room)) in
      (
        s',
        taken,
        rw (uplink_taken now p r s s' e.link_up e.sender taken) (record {
          link_up = e.link_up;
          sender = refl;
          opened = w.try_send-is_open s s' (frame_msg p.content) taken ∙ e.opened;
          room = omega (arith, e.room, w.try_send-capacity s s' (frame_msg p.content) taken);
        }),
      )

  -- One round of the loop, and the rounds behind it.
  record Round (r next : Run S w.Sender) (s s' : w.Sender) (messages : List WriterMsg) (stale : ℕ)
      : Type 0 where
    queue : w.queued s' ≡ w.queued s ++ messages
    pending : next.pending ≡ r.pending
    link_up : next.link ≡ r.link
    wanted : wants_link next ≡ wants_link r
    dropped : next.counters.dropped ≡ r.counters.dropped + stale

  Round-Sent :
      (r next up : Run S w.Sender) (s s' : w.Sender) (ms ns : List WriterMsg) (m n : ℕ)
      → Round r next s s' ms m
      → Sent next up s' ns n
      → Sent r up s (ms ++ ns) (m + n)
  Round-Sent r next up s s' ms ns m n a b = record {
    final = b.final;
    sender = b.sender;
    queue =
        b.queue ∙ ap (λ (q : List WriterMsg). q ++ ns) a.queue ∙ append_assoc (w.queued s) ms ns;
    pending = b.pending ∙ a.pending;
    link_up = b.link_up ∙ a.link_up;
    wanted = b.wanted ∙ a.wanted;
    dropped = omega (arith, a.dropped, b.dropped);
  }

  stale_Round :
      (r : Run S w.Sender) (s : w.Sender)
      → r.counters.dropped + 1 < 2 ^ 64
      → Round r (count_dropped r) s s [] 1
  unfolding count_dropped wants_link
  stale_Round r s h = record {
    queue = sym (append-nil (w.queued s));
    pending = refl;
    link_up = refl;
    wanted = refl;
    dropped = inc64-suc r.counters.dropped h;
  }

  fresh_Round :
      (now : ℕ) (p : Pending) (r : Run S w.Sender) (s s' : w.Sender)
      → r.link ≡ connected_link
      → r.writer_tx ≡ some s
      → w.try_send s (frame_msg p.content) ≡ some s'
      → Round r (uplink w now p.content p.from r) s s' (frame_msg p.content ∷ []) 0
  unfolding wants_link
  fresh_Round now p r s s' l e t = rw (uplink_taken now p r s s' l e t) (record {
    queue = w.try_send-queued s s' (frame_msg p.content) t;
    pending = refl;
    link_up = refl;
    wanted = refl;
    dropped = omega arith;
  })

  send_pending-Sent :
      (now : ℕ) (ps : List Pending) (r : Run S w.Sender) (s : w.Sender)
      → Sends (length ps) r s
      → r.counters.dropped + length ps < 2 ^ 64
      → Sent r (send_pending w now ps r) s (fresh_messages now ps) (stale_count now ps)
  unfolding send_pending
  send_pending-Sent now [] r s e h = record {
    final = s;
    sender = e.sender;
    queue = sym (append-nil (w.queued s));
    pending = refl;
    link_up = refl;
    wanted = refl;
    dropped = omega arith;
  }
  send_pending-Sent now (p ∷ ps) r s e h = elim (Bool-cases (is_stale now p)) [
    | inl old ↦
        let round = stale_Round r s (omega (arith, h)) in
        rw old (
          Round-Sent r _ _ s s [] (fresh_messages now ps) 1 (stale_count now ps) round (
            send_pending-Sent now ps (count_dropped r) s (stale_Sends (length ps) r s e)
              (omega (arith, h, round.dropped))))
    | inr new ↦
        let (s', taken, sends) = uplink-Sends (length ps) now p r s e in
        let round = fresh_Round now p r s s' e.link_up e.sender taken in
        rw new (
          Round-Sent r _ _ s s' (frame_msg p.content ∷ []) (fresh_messages now ps) 0
            (stale_count now ps) round
            (send_pending-Sent now ps (uplink w now p.content p.from r) s' sends
              (omega (arith, h, round.dropped))))
  ]

  ready_Sends :
      (now : ℕ) (exit_kiss : List Bytes) (r : Run S w.Sender)
      → Inv r
      → Sends (length r.pending) (link_ready w now exit_kiss r) (w.channel writer_queue)
  unfolding link_ready set_state
  ready_Sends now exit_kiss r v = record {
    link_up = refl;
    sender = refl;
    opened = w.channel-is_open writer_queue;
    room = omega (arith, v.pending_fits, w.channel-capacity writer_queue);
  }

  -- When the link comes up and someone wants it, the frames that waited no longer than five seconds
  -- are handed to the writer in the order in which they came, and nothing else; each of the others
  -- is counted as dropped; none waits any more.
  pub on_link_up-fresh :
      (now : ℕ) (exit_kiss : List Bytes) (r : Run S w.Sender)
      → Inv r
      → wants_link r ≡ true
      → r.counters.dropped + 32 < 2 ^ 64
      → let up = on_link_up w now exit_kiss r in
        (s : w.Sender) × (up.writer_tx ≡ some s)
        × (w.queued s ≡ fresh_messages now r.pending)
        × (up.link ≡ connected_link)
        × (up.pending ≡ [])
        × (up.counters.dropped ≡ r.counters.dropped + stale_count now r.pending)
  unfolding on_link_up link_ready set_state
  on_link_up-fresh now exit_kiss r v wanted h =
      let sent =
        send_pending-Sent now r.pending (link_ready w now exit_kiss r) (w.channel writer_queue)
          (ready_Sends now exit_kiss r v) (omega (arith, v.pending_fits, h)) in
      let stays : wants_link (send_pending w now r.pending (link_ready w now exit_kiss r)) ≡ true =
        sent.wanted ∙ (unfold wants_link in wanted) in
      rw stays (
        sent.final,
        sent.sender,
        sent.queue ∙ rw (w.channel-queued writer_queue) refl,
        sent.link_up,
        sent.pending,
        sent.dropped,
      )
