-- ===== src/Port/Server/Admission.antt =====
-- src/port/tcp_server.rs: the counter of sessions and the limit on them.
use kiss_tnc_bridge.Prelude.{
  ℕ, suc, ◌^◌, ◌≤◌, ◌<◌, true, false, not, Option, none, some, if◌then◌else◌, ◌≡◌, refl, arith,
  Bool-cases, inl, inr,
}
use kiss_tnc_bridge.Config.Addresses.{IpAddr}
use kiss_tnc_bridge.Config.Networks.{Networks, allowed}
use kiss_tnc_bridge.Port.Server.{
  Server, TcpLive, BindResult, bound, no_interface, other_error, on_bind, on_shutdown, refuse,
  session_ended, on_accept, is_full, fetch_add, fetch_sub, System, ServerStep, bind_step,
  retry_step, shutdown_step, accept_step, end_step, reload_step, ServerReach, here, then_step,
  started_at,
}

-- A limit that is set, and at most `most`.
unfoldable pub IsWithin : ℕ → Option ℕ → Type 0
IsWithin most none = ⊥
IsWithin most (some max) = max ≤ most

unfoldable pub IsLimit : {N : Type 0} → ℕ → TcpLive N → Type 0
unfolding IsWithin
IsLimit most live = IsWithin most live.max_clients

module _ (n : Networks) (most : ℕ) (small : most < 2 ^ 64) where
  record Counted (s : Server n.Net) : Type 0 where
    pub right : s.sessions ≡ s.tasks
    pub bounded : s.tasks ≤ most
    pub limit : IsLimit most s.live

  below_limit : (t : ℕ) (l : Option ℕ) → IsWithin most l → is_full l t ≡ false → t < most
  unfolding IsWithin is_full
  below_limit t none h f = absurd h
  below_limit t (some max) h f = ground (arith, h, f)

  refuse-Counted :
      (now : ℕ) (ip : IpAddr) (s : Server n.Net) → Counted s → Counted (refuse now ip s)
  unfolding refuse
  refuse-Counted now ip s h = record { right = h.right; bounded = h.bounded; limit = h.limit }

  on_accept-Counted :
      (now : ℕ) (ip : IpAddr) (s : Server n.Net) → Counted s → Counted (on_accept n now ip s)
  unfolding on_accept fetch_add IsLimit
  on_accept-Counted now ip s h =
      elim (allowed n s.live.allow ip)
        as (λ a. Counted (
          if not a
          then refuse now ip s
          else if is_full s.live.max_clients s.sessions
          then refuse now ip s
          else record s { sessions = fetch_add s.sessions; tasks = suc s.tasks })) [
            | false ↦ refuse-Counted now ip s h
            | true ↦ elim (Bool-cases (is_full s.live.max_clients s.sessions)) [
              | inl e ↦ rw e (refuse-Counted now ip s h)
              | inr e ↦
                  let free = below_limit s.sessions s.live.max_clients h.limit e in
                  rw e (record {
                    right = omega (arith, h.right, free, small);
                    bounded = omega (arith, h.right, free);
                    limit = h.limit;
                  })
            ]
          ]

  session_ended-Counted : (s : Server n.Net) → 1 ≤ s.tasks → Counted s → Counted (session_ended s)
  unfolding session_ended fetch_sub
  session_ended-Counted s p h = record {
    right = omega (arith, h.right, h.bounded, p, small);
    bounded = omega (arith, h.bounded);
    limit = h.limit;
  }

  on_bind-Counted : (r : BindResult) (s : Server n.Net) → Counted s → Counted (on_bind r s)
  unfolding on_bind
  on_bind-Counted (bound (some local)) s h = record {
    right = h.right;
    bounded = h.bounded;
    limit = h.limit;
  }
  on_bind-Counted (bound none) s h = record {
    right = h.right;
    bounded = h.bounded;
    limit = h.limit;
  }
  on_bind-Counted (no_interface name) s h = record {
    right = h.right;
    bounded = h.bounded;
    limit = h.limit;
  }
  on_bind-Counted (other_error e) s h = record {
    right = h.right;
    bounded = h.bounded;
    limit = h.limit;
  }

  ServerStep-Counted :
      (s t : System n) → ServerStep n (IsLimit most) s t → Counted s.server → Counted t.server
  unfolding on_shutdown
  ServerStep-Counted s t (bind_step r p) h = on_bind-Counted r s.server h
  ServerStep-Counted s t (retry_step p) h = record {
    right = h.right;
    bounded = h.bounded;
    limit = h.limit;
  }
  ServerStep-Counted s t (shutdown_step p) h = record {
    right = h.right;
    bounded = h.bounded;
    limit = h.limit;
  }
  ServerStep-Counted s t (accept_step now ip q p) h = on_accept-Counted now ip s.server h
  ServerStep-Counted s t (end_step p) h = session_ended-Counted s.server p h
  ServerStep-Counted s t (reload_step live p) h = record {
    right = h.right;
    bounded = h.bounded;
    limit = p;
  }

  Counted-from :
      (now : ℕ) (live : TcpLive n.Net)
      → IsLimit most live
      → (t : System n) → ServerReach n (IsLimit most) (started_at n now live) t
      → Counted t.server
  unfolding started_at
  Counted-from now live l t here = record { right = refl; bounded = omega arith; limit = l }
  Counted-from now live l t (then_step {t = u} r s) =
      ServerStep-Counted u t s (Counted-from now live l u r)

  -- In every state that a TCP server can get into while each of its settings has a limit, and the
  -- limit is at most a number below 2^64, the counter of sessions is the number of the sessions'
  -- tasks that have not counted themselves off yet, and these are at most that number.
  pub ServerReach-Counted :
      (now : ℕ) (live : TcpLive n.Net)
      → IsLimit most live
      → (t : System n) → ServerReach n (IsLimit most) (started_at n now live) t
      → (t.server.sessions ≡ t.server.tasks) × (t.server.tasks ≤ most)
  ServerReach-Counted now live l t r = let h = Counted-from now live l t r in (h.right, h.bounded)
