-- ===== src/Reconcile/Newest.antt =====
-- src/reconcile.rs: whom a lower `max_clients` disconnects.
use mathlib.Core.List.{Perm, append-nil}
use mathlib.Core.List.Perm as Perm
use kiss_tnc_bridge.Prelude.{
  ℕ, zero, suc, min, List, [], ◌∷◌, ◌++◌, ◌≡◌, refl, sym, arith, leb, length, take, drop, All,
  Bool-cases, inl, inr,
}
use kiss_tnc_bridge.Prelude.Sorting.{
  sort_by, by_key, NotAbove, Sorted, sort_by-perm, sort_by-Sorted, length-sort_by,
}
use kiss_tnc_bridge.Bridge.State.{SessionId}
use kiss_tnc_bridge.Reconcile.Ports.{SessionView, ids, newest_beyond}

abbrev pub NotNewer : SessionView → SessionView → Type 0
NotNewer = NotAbove (λ s. s.seq)

take-drop : (n : ℕ) (ss : List SessionView) → take n ss ++ drop n ss ≡ ss
take-drop zero ss = refl
take-drop (suc n) [] = refl
take-drop (suc n) (s ∷ ss) = rw (take-drop n ss) refl

length-take : (n : ℕ) (ss : List SessionView) → length (take n ss) ≡ min n (length ss)
length-take zero ss = omega arith
length-take (suc n) [] = omega arith
length-take (suc n) (s ∷ ss) = omega (arith, length-take n ss)

All-drop : (P : SessionView → Type 0) (n : ℕ) (ss : List SessionView) → All P ss → All P (drop n ss)
All-drop P zero ss h = h
All-drop P (suc n) [] h = h
All-drop P (suc n) (s ∷ ss) h = All-drop P n ss h.1

-- Each of the first is no newer than each of the second.
abbrev pub NoneNewer : List SessionView → List SessionView → Type 0
NoneNewer ss ts = All (λ s. All (NotNewer s) ts) ss

NoneNewer-split :
    (n : ℕ) (ss : List SessionView) → Sorted (λ s. s.seq) ss → NoneNewer (take n ss) (drop n ss)
NoneNewer-split zero ss h = tt
NoneNewer-split (suc n) [] h = tt
NoneNewer-split (suc n) (s ∷ ss) h = (All-drop (NotNewer s) n ss h.0, NoneNewer-split n ss h.1)

NoneNewer-nil : (ss : List SessionView) → NoneNewer ss []
NoneNewer-nil [] = tt
NoneNewer-nil (s ∷ ss) = (tt, NoneNewer-nil ss)

-- The sessions are split in those that stay and those that go: as many stay as may, none that
-- stays is newer than one that goes, and just those that go are added to the list of
-- sessions to disconnect.
pub newest_beyond-split :
    (sessions : List SessionView) (max : ℕ) (out : List SessionId)
    → (stay : List SessionView) × (go : List SessionView) × Perm (stay ++ go) sessions
      × (length stay ≡ min max (length sessions))
      × NoneNewer stay go
      × (newest_beyond sessions max out ≡ out ++ ids go)
unfolding newest_beyond
newest_beyond-split sessions max out = elim (Bool-cases (leb (length sessions) max)) [
  | inl e ↦ (
    sessions,
    [],
    rw (append-nil sessions) (Perm.refl sessions),
    ground arith,
    NoneNewer-nil sessions,
    rw e (sym (append-nil out)),
  )
  | inr e ↦
      let sorted = sort_by (by_key (λ s. s.seq)) sessions in
      (
        take max sorted,
        drop max sorted,
        rw (take-drop max sorted) (sort_by-perm (λ s. s.seq) sessions),
        omega (arith, length-take max sorted, length-sort_by (λ s. s.seq) sessions),
        NoneNewer-split max sorted (sort_by-Sorted (λ s. s.seq) sessions),
        rw e refl,
      )
]
