-- ===== src/Port/Server/Refusals.antt =====
-- src/port/tcp_server.rs: the warnings of refused connections.
use kiss_tnc_bridge.Prelude.{
  ℕ, suc, ◌+◌, ◌-◌, ◌≤◌, ◌<◌, Bool, true, false, none, some, not, ◌||◌, List, [], ◌∷◌, any_of,
  keep_if, All, Pairwise, if◌then◌else◌, ◌≡◌, ◌≢◌, refl, ap, sym, ◌∙◌, ◌⊎◌, inl, inr, ltb, arith,
  Bool-cases,
}
use kiss_tnc_bridge.Prelude.Decide.{equal, equal_of_eq, equal-eq-true}
use kiss_tnc_bridge.Config.Addresses.{IpAddr, IpAddr-discrete}
use kiss_tnc_bridge.Config.Networks.{Networks, allowed}
use kiss_tnc_bridge.Port.Server.{
  Server, TcpLive, BindResult, bound, no_interface, other_error, on_bind, on_shutdown, refuse,
  session_ended, on_accept, is_full, fetch_add, is_recent, is_from, should_log, quiet, System,
  ServerStep, bind_step, retry_step, shutdown_step, accept_step, end_step, reload_step, ServerReach,
  here, then_step, started_at,
}

-- The entry `e` is one of the list.
abbrev pub In : IpAddr × ℕ → List (IpAddr × ℕ) → Type 0
In e [] = ⊥
In e (x ∷ xs) = (e ≡ x) ⊎ In e xs

-- Of two warnings of one address, the later one first, the later is a minute behind the earlier.
abbrev pub Spaced : List (IpAddr × ℕ) → Type 0
Spaced = Pairwise (λ later earlier. later.0 ≡ earlier.0 → earlier.1 + quiet ≤ later.1)

-- A warning of the address that is less than a minute old.
abbrev pub Covered : ℕ → IpAddr → List (IpAddr × ℕ) → Type 0
Covered now ip warnings = (at : ℕ) × In (ip, at) warnings × (now < at + quiet)

kept_or_past :
    (now : ℕ) (e : IpAddr × ℕ) (last : List (IpAddr × ℕ))
    → In e last
    → In e (keep_if (is_recent now) last) ⊎ (e.1 + quiet ≤ now)
unfolding is_recent
kept_or_past now e [] h = absurd h
kept_or_past now e (x ∷ last) (inl p) = elim (Bool-cases (ltb (now - x.1) quiet)) [
  | inl r ↦ rw r (inl (inl p))
  | inr r ↦ rw r (inr (ground (arith, p, r)))
]
kept_or_past now e (x ∷ last) (inr q) = elim (Bool-cases (ltb (now - x.1) quiet)) [
  | inl r ↦ rw r (elim (kept_or_past now e last q) [ inl a ↦ inl (inr a) | inr b ↦ inr b ])
  | inr r ↦ rw r (kept_or_past now e last q)
]

-- What is in the map after the old entries have gone was in it before, and is recent.
recent_of_kept :
    (now : ℕ) (e : IpAddr × ℕ) (last : List (IpAddr × ℕ))
    → In e (keep_if (is_recent now) last)
    → In e last × (now < e.1 + quiet)
unfolding is_recent
recent_of_kept now e [] = λ h. absurd h
recent_of_kept now e (x ∷ last) = elim (Bool-cases (ltb (now - x.1) quiet)) [
  | inl r ↦ rw r (λ h. elim h [
    | inl p ↦ (inl p, ground (arith, p, r))
    | inr q ↦ let i = recent_of_kept now e last q in (inr i.0, i.1)
  ])
  | inr r ↦ rw r (λ q. let i = recent_of_kept now e last q in (inr i.0, i.1))
]

or_right : (a b : Bool) → a ≡ false → a || b ≡ true → b ≡ true
or_right a b n h = ground (arith, n, h)

neither : (a b : Bool) → a || b ≡ false → (a ≡ false) × (b ≡ false)
neither a b h = ground (arith, h)

not_from :
    (ip : IpAddr) (e : IpAddr × ℕ) (last : List (IpAddr × ℕ))
    → any_of (is_from ip) last ≡ false
    → In e last
    → e.0 ≢ ip
unfolding is_from
not_from ip e [] f h q = absurd h
not_from ip e (x ∷ last) f (inl p) q =
    let no_match = (neither (is_from ip x) (any_of (is_from ip) last) f).0 in
    let match_here = equal_of_eq IpAddr-discrete (sym (ap (λ y. y.0) p) ∙ q) in
    cc (no_match, match_here)
not_from ip e (x ∷ last) f (inr i) q = not_from ip e last (neither _ _ f).1 i q

from_of_any :
    (ip : IpAddr) (last : List (IpAddr × ℕ))
    → any_of (is_from ip) last ≡ true
    → (at : ℕ) × In (ip, at) last
unfolding is_from
from_of_any ip [] f = cc (f)
from_of_any ip (x ∷ last) f = elim (Bool-cases (equal IpAddr-discrete x.0 ip)) [
  | inl p ↦ (x.1, inl (λ i. (sym (equal-eq-true IpAddr-discrete x.0 ip p) i, x.1)))
  | inr p ↦ let i = from_of_any ip last (or_right _ _ p f) in (i.0, inr i.1)
]

-- The log and the map of the last warnings agree.
record Logged (now : ℕ) (last warnings : List (IpAddr × ℕ)) : Type 0 where
  pub spaced : Spaced warnings
  pub known : (e : IpAddr × ℕ) → In e warnings → In e last ⊎ (e.1 + quiet ≤ now)
  pub backed : (e : IpAddr × ℕ) → In e last → In e warnings

later-Logged :
    {now next : ℕ} {last warnings : List (IpAddr × ℕ)}
    → now ≤ next
    → Logged now last warnings
    → Logged next last warnings
later-Logged le l = record {
  spaced = l.spaced;
  known = λ e i. elim (l.known e i) [ inl a ↦ inl a | inr b ↦ inr (omega (arith, le, b)) ];
  backed = l.backed;
}

kept-Logged :
    {now : ℕ} {last warnings : List (IpAddr × ℕ)}
    → Logged now last warnings
    → Logged now (keep_if (is_recent now) last) warnings
kept-Logged {now} {last} l = record {
  spaced = l.spaced;
  known = λ e i. elim (l.known e i) [ inl a ↦ kept_or_past now e last a | inr b ↦ inr b ];
  backed = λ e i. l.backed e (recent_of_kept now e last i).0;
}

-- A new warning stands apart from each earlier one of its address.
spaced_from :
    (now : ℕ) (ip : IpAddr) (kept ws : List (IpAddr × ℕ))
    → any_of (is_from ip) kept ≡ false
    → ((e : IpAddr × ℕ) → In e ws → In e kept ⊎ (e.1 + quiet ≤ now))
    → All (λ e. ip ≡ e.0 → e.1 + quiet ≤ now) ws
spaced_from now ip kept [] f h = tt
spaced_from now ip kept (w ∷ ws) f h = (
  λ p. elim (h w (inl refl)) [ inl i ↦ absurd (not_from ip w kept f i (sym p)) | inr b ↦ b ],
  spaced_from now ip kept ws f (λ e i. h e (inr i)),
)

warned-Logged :
    (now : ℕ) (ip : IpAddr) (kept warnings : List (IpAddr × ℕ))
    → any_of (is_from ip) kept ≡ false
    → Logged now kept warnings
    → Logged now ((ip, now) ∷ kept) ((ip, now) ∷ warnings)
warned-Logged now ip kept warnings f l = record {
  spaced = (spaced_from now ip kept warnings f l.known, l.spaced);
  known = λ e i. elim i [
    | inl p ↦ inl (inl p)
    | inr i ↦ elim (l.known e i) [ inl a ↦ inl (inr a) | inr b ↦ inr b ]
  ];
  backed = λ e i. elim i [ inl p ↦ inl p | inr i ↦ inr (l.backed e i) ];
}

module _ (n : Networks) where
  -- The log of a server whose last connection came at `clock`.
  abbrev LogOf : ℕ → Server n.Net → Type 0
  LogOf clock s = Logged clock s.rejections s.warnings

  refuse-LogOf :
      (now : ℕ) (ip : IpAddr) (s : Server n.Net)
      → LogOf now s
      → LogOf now (refuse now ip s) × Covered now ip (refuse now ip s).warnings
  unfolding refuse should_log
  refuse-LogOf now ip s l =
      let kept = keep_if (is_recent now) s.rejections in
      let k = kept-Logged l in
      elim (Bool-cases (any_of (is_from ip) kept)) [
        | inl e ↦
            let old = from_of_any ip kept e in
            rw e (
              k,
              (
                old.0,
                k.backed (ip, old.0) old.1,
                (recent_of_kept now (ip, old.0) s.rejections old.1).1,
              ),
            )
        | inr e ↦ rw e (warned-Logged now ip kept s.warnings e k, (now, inl refl, omega arith))
      ]

  on_accept-LogOf :
      (now : ℕ) (ip : IpAddr) (s : Server n.Net) → LogOf now s → LogOf now (on_accept n now ip s)
  unfolding on_accept
  on_accept-LogOf now ip s l =
      elim (allowed n s.live.allow ip)
        as (λ a. LogOf now (
          if not a
          then refuse now ip s
          else if is_full s.live.max_clients s.sessions
          then refuse now ip s
          else record s { sessions = fetch_add s.sessions; tasks = suc s.tasks })) [
            | false ↦ (refuse-LogOf now ip s l).0
            | true ↦ elim (Bool-cases (is_full s.live.max_clients s.sessions)) [
              | inl e ↦ rw e ((refuse-LogOf now ip s l).0)
              | inr e ↦ rw e l
            ]
          ]

  on_bind-LogOf :
      (clock : ℕ) (r : BindResult) (s : Server n.Net) → LogOf clock s → LogOf clock (on_bind r s)
  unfolding on_bind
  on_bind-LogOf clock (bound (some local)) s l = l
  on_bind-LogOf clock (bound none) s l = l
  on_bind-LogOf clock (no_interface name) s l = l
  on_bind-LogOf clock (other_error e) s l = l

  module _ (P : TcpLive n.Net → Type 0) where
    ServerStep-LogOf :
        (s t : System n) → ServerStep n P s t → LogOf s.clock s.server → LogOf t.clock t.server
    unfolding on_shutdown session_ended
    ServerStep-LogOf s t (bind_step r p) l = on_bind-LogOf s.clock r s.server l
    ServerStep-LogOf s t (retry_step p) l = l
    ServerStep-LogOf s t (shutdown_step p) l = l
    ServerStep-LogOf s t (accept_step now ip q p) l =
        on_accept-LogOf now ip s.server (later-Logged q l)
    ServerStep-LogOf s t (end_step p) l = l
    ServerStep-LogOf s t (reload_step live p) l = l

    ServerReach-LogOf :
        (now : ℕ) (live : TcpLive n.Net) (t : System n)
        → ServerReach n P (started_at n now live) t
        → LogOf t.clock t.server
    unfolding started_at
    ServerReach-LogOf now live t here = record {
      spaced = tt;
      known = λ e i. absurd i;
      backed = λ e i. absurd i;
    }
    ServerReach-LogOf now live t (then_step {t = u} r s) =
        ServerStep-LogOf u t s (ServerReach-LogOf now live u r)

    -- In every state that a server can get into, two warnings of one address in the log are a
    -- minute apart at least; and when a connection is refused then, at a time not before the last
    -- connection, the log has a warning of its address that is less than a minute old.
    pub ServerReach-Spaced :
        (began : ℕ) (live : TcpLive n.Net) (t : System n)
        → ServerReach n P (started_at n began live) t
        → (now : ℕ) (ip : IpAddr) → t.clock ≤ now
        → Spaced t.server.warnings × Covered now ip (refuse now ip t.server).warnings
    ServerReach-Spaced began live t r now ip le =
        let l = ServerReach-LogOf began live t r in
        (l.spaced, (refuse-LogOf now ip t.server (later-Logged le l)).1)
