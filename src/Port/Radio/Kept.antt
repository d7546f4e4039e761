-- ===== src/Port/Radio/Kept.antt =====
-- src/port/tnc_init.rs: what commands read is scanned, and nothing of it is lost.
use Prim.Native.String.{String}
use mathlib.Core.List.{append-nil, append_assoc}
use kiss_tnc_bridge.Prelude.{
  ℕ, zero, suc, Bool, true, false, List, [], ◌∷◌, ◌++◌, Option, ◌==◌, if◌then◌else◌, ltb, ◌≡◌, refl,
  sym, ap, ◌∙◌, arith, Bool-cases, inl, inr,
}
use kiss_tnc_bridge.Prelude.Text.{Bytes}
use kiss_tnc_bridge.Prelude.Results.{Result-cases}
use kiss_tnc_bridge.Kiss.Frame.{fend}
use kiss_tnc_bridge.Port.Scan.{
  Scan, in_text, in_frame, after_frame, Scanner, push_fend, push_text, push_other, push_byte,
  push_bytes,
}
use kiss_tnc_bridge.Port.Scan.Apart.{push_bytes-append}
use kiss_tnc_bridge.Port.Radio.{
  Arrival, arrived, silence, failed_read, time_out, Radio, M, ◌>>=◌, ◌>>◌, return, throw, InitError,
  write_when, send_raw, clear_replies, reply_loop, reply, is_busy, command_rounds, command,
  command_bytes,
}

-- A scanner but for its replies.
abbrev pub bare : Scanner → Scanner
bare r = record r { replies = [] }

-- The bytes among what arrives.
abbrev pub heard : List Arrival → Bytes
heard [] = []
heard (arrived bs ∷ rest) = bs ++ heard rest
heard (silence ∷ rest) = heard rest
heard (failed_read ∷ rest) = heard rest
heard (time_out ∷ rest) = heard rest

heard-append : (xs ys : List Arrival) → heard (xs ++ ys) ≡ heard xs ++ heard ys
heard-append [] ys = refl
heard-append (arrived bs ∷ xs) ys =
    ap (λ t. bs ++ t) (heard-append xs ys) ∙ sym (append_assoc bs (heard xs) (heard ys))
heard-append (silence ∷ xs) ys = heard-append xs ys
heard-append (failed_read ∷ xs) ys = heard-append xs ys
heard-append (time_out ∷ xs) ys = heard-append xs ys

module _ (lossy : Bytes → String) where
  push_fend-bare :
      (s : Scan) (r : Scanner) → bare (push_fend lossy s r) ≡ bare (push_fend lossy s (bare r))
  unfolding push_fend
  push_fend-bare in_text r = refl
  push_fend-bare after_frame r = refl
  push_fend-bare in_frame r = ground arith

  push_text-bare :
      (b : ℕ) (r : Scanner) → bare (push_text lossy b r) ≡ bare (push_text lossy b (bare r))
  unfolding push_text
  push_text-bare b r = ground arith

  push_other-bare :
      (s : Scan) (b : ℕ) (r : Scanner)
      → bare (push_other lossy s b r) ≡ bare (push_other lossy s b (bare r))
  unfolding push_other
  push_other-bare in_text b r = push_text-bare b r
  push_other-bare in_frame b r = ground arith
  push_other-bare after_frame b r = elim (Bool-cases (ltb b 0x20)) [
    | inl e ↦ rw e refl
    | inr e ↦ rw e (push_text-bare b r)
  ]

  push_byte-bare :
      (b : ℕ) (r : Scanner) → bare (push_byte lossy b r) ≡ bare (push_byte lossy b (bare r))
  unfolding push_byte
  push_byte-bare b r = elim (Bool-cases (b == fend)) [
    | inl e ↦ rw e (push_fend-bare r.scan r)
    | inr e ↦ rw e (push_other-bare r.scan b r)
  ]

  -- Replies have no influence on the rest of the scanner.
  push_bytes-bare :
      (xs : Bytes) (r s : Scanner)
      → bare r ≡ bare s
      → bare (push_bytes lossy r xs) ≡ bare (push_bytes lossy s xs)
  unfolding push_bytes
  push_bytes-bare [] r s e = e
  push_bytes-bare (x ∷ xs) r s e =
      push_bytes-bare xs (push_byte lossy x r) (push_byte lossy x s)
        (push_byte-bare x r ∙ ap (λ t. bare (push_byte lossy x t)) e ∙ sym (push_byte-bare x s))

  nothing_scanned : (r : Scanner) → bare (push_bytes lossy r []) ≡ bare r
  unfolding push_bytes
  nothing_scanned r = refl

  -- From one state to another some arrivals were used, and all their bytes scanned.
  pub record Kept (r t : Radio) : Type 0 where
    pub used : List Arrival
    pub split : r.reads ≡ used ++ t.reads
    pub scanned : bare (push_bytes lossy r.scanner (heard used)) ≡ bare t.scanner

  -- A step that reads nothing and changes the replies at most.
  pub Kept-still : (r t : Radio) → r.reads ≡ t.reads → bare r.scanner ≡ bare t.scanner → Kept r t
  unfolding push_bytes
  Kept-still r t e s = record { used = []; split = e; scanned = s }

  pub Kept-trans : (r s t : Radio) → Kept r s → Kept s t → Kept r t
  Kept-trans r s t h k = record {
    used = h.used ++ k.used;
    split = h.split ∙ ap (λ x. h.used ++ x) k.split ∙ sym (append_assoc h.used k.used t.reads);
    scanned =
        ap (λ x. bare (push_bytes lossy r.scanner x)) (heard-append h.used k.used)
        ∙ ap bare (push_bytes-append lossy r.scanner (heard h.used) (heard k.used))
        ∙ push_bytes-bare (heard k.used) _ _ h.scanned
        ∙ k.scanned;
  }

  abbrev pub Keeps : {A : Type 0} → M A → Type 0
  Keeps m = (r : Radio) → Kept r (m r).1

  pub Keeps-bind :
      {A B : Type 0} (m : M A) (f : A → M B) → Keeps m → ((a : A) → Keeps (f a)) → Keeps (m >>= f)
  Keeps-bind m f h k r = elim (Result-cases (m r).0) [
    | inl (e, p) ↦ rw (p, ◌>>=◌) (h r)
    | inr (a, p) ↦ rw (p, ◌>>=◌) (Kept-trans r (m r).1 (f a (m r).1).1 (h r) (k a (m r).1))
  ]

  pub Keeps-return : {A : Type 0} (a : A) → Keeps (return a)
  Keeps-return a r = Kept-still r r refl refl

  pub Keeps-throw : (A : Type 0) (e : InitError) → Keeps (throw {A = A} e)
  Keeps-throw A e r = Kept-still r r refl refl

  write_when-Kept : (n : ℕ) (bytes : Bytes) (r : Radio) → Kept r (write_when n bytes r).1
  unfolding write_when
  write_when-Kept zero bytes r = Kept-still r r refl refl
  write_when-Kept (suc n) bytes r = Kept-still r _ refl refl

  pub Keeps-send_raw : (bytes : Bytes) → Keeps (send_raw bytes)
  unfolding send_raw
  Keeps-send_raw bytes r = write_when-Kept r.takes bytes r

  Keeps-clear_replies : Keeps clear_replies
  unfolding clear_replies
  Keeps-clear_replies r = Kept-still r _ refl refl

  -- One arrival without bytes is taken.
  Kept-silent :
      (r : Radio) (a : Arrival) (reads : List Arrival)
      → heard (a ∷ []) ≡ []
      → Kept (record r { reads = a ∷ reads }) (record r { reads = reads })
  Kept-silent r a reads h = record {
    used = a ∷ [];
    split = refl;
    scanned = ap (λ x. bare (push_bytes lossy r.scanner x)) h ∙ nothing_scanned r.scanner;
  }

  reply_loop-Kept :
      (reads : List Arrival) (rs : List String) (r : Radio)
      → Kept (record r { reads = reads }) (reply_loop lossy rs reads r).1
  unfolding reply_loop
  reply_loop-Kept reads (t ∷ ts) r = Kept-still _ _ refl refl
  reply_loop-Kept [] [] r = Kept-still _ _ refl refl
  reply_loop-Kept (silence ∷ reads) [] r = Kept-silent r silence reads refl
  reply_loop-Kept (failed_read ∷ reads) [] r = Kept-silent r failed_read reads refl
  reply_loop-Kept (time_out ∷ reads) [] r = Kept-silent r time_out reads refl
  reply_loop-Kept (arrived [] ∷ reads) [] r = Kept-silent r (arrived []) reads refl
  reply_loop-Kept (arrived (b ∷ bs) ∷ reads) [] r =
      let pushed = push_bytes lossy r.scanner (b ∷ bs) in
      let first : Kept (record r { reads = arrived (b ∷ bs) ∷ reads })
          (record r { scanner = pushed; reads = reads }) =
        record {
          used = arrived (b ∷ bs) ∷ [];
          split = refl;
          scanned = ap (λ x. bare (push_bytes lossy r.scanner x)) (append-nil (b ∷ bs));
        } in
      Kept-trans _ (record r { scanner = pushed; reads = reads }) _ first
        (reply_loop-Kept reads pushed.replies (record r { scanner = pushed }))

  Keeps-reply : Keeps (reply lossy)
  unfolding reply
  Keeps-reply r = reply_loop-Kept r.reads r.scanner.replies r

  Keeps-again :
      (cond : Bool) (m : M (Option String)) (answer : Option String)
      → Keeps m
      → Keeps (if cond then m else return answer)
  Keeps-again true m answer h = h
  Keeps-again false m answer h = Keeps-return answer

  -- What stands behind the sending of a command.
  sent-Keeps :
      (cmd : Bytes) (k : M (Option String)) → Keeps k → Keeps (clear_replies >> (send_raw cmd >> k))
  sent-Keeps cmd k h =
      Keeps-bind clear_replies (λ u. send_raw cmd >> k) Keeps-clear_replies
        (λ u. Keeps-bind (send_raw cmd) (λ v. k) (Keeps-send_raw cmd) (λ v. h))

  command_rounds-Keeps : (n : ℕ) (cmd : Bytes) → Keeps (command_rounds lossy n cmd)
  unfolding command_rounds
  command_rounds-Keeps zero cmd = sent-Keeps cmd (reply lossy) Keeps-reply
  command_rounds-Keeps (suc n) cmd =
      let again : Option String → M (Option String) =
        λ a. if is_busy lossy a then command_rounds lossy n cmd else return a in
      sent-Keeps cmd (reply lossy >>= again) (
        Keeps-bind (reply lossy) again Keeps-reply (λ a.
          Keeps-again (is_busy lossy a) (command_rounds lossy n cmd) a
            (command_rounds-Keeps n cmd)))

  pub Keeps-command : (cmd : String) → Keeps (command lossy cmd)
  unfolding command
  Keeps-command cmd = command_rounds-Keeps 3 (command_bytes cmd)
