-- ===== src/Port/Radio.antt =====
-- src/port/tnc_init.rs: `Radio`, commands to a TNC and its replies. What the link brings is a list of
-- arrivals; the link takes so many writes, and the one behind them ends init. The time that init may
-- take runs out while it waits for the link, for an arrival or for a write.
pub mod Kept
use Prim.Native.Char.{code}
use Prim.Native.String.{String, ◌++◌ as append}
use text.Mathlib.Text.{◌==◌ as str_eq}
use kiss_tnc_bridge.Prelude.{
  ℕ, zero, suc, Bool, true, false, not, ◌&&◌, List, [], ◌∷◌, ◌++◌, Option, none, some, ◌==◌,
  if◌then◌else◌, is_some,
}
use kiss_tnc_bridge.Prelude.Text.{Bytes, codes}
use kiss_tnc_bridge.Prelude.Results.{Result, ok, err}
use kiss_tnc_bridge.Config.Text.{trim, parse_unsigned, show_number}
use kiss_tnc_bridge.Kiss.Frame.{fend}
use kiss_tnc_bridge.Port.Scan.{Scanner, new_scanner, push_bytes}

-- What a read gives: bytes, none of them at the end of the stream; nothing until the deadline for
-- the reply; an I/O error; or nothing until init's own time is over.
pub data Arrival : Type 0 where
  arrived : Bytes → Arrival
  silence failed_read time_out : Arrival

pub data InitError : Type 0 where
  link_closed io timed_out no_answer other_interface : InitError
  not_accepted : ℕ → Option String → InitError

-- `Radio`; `sent` is what was written, `takes` the writes that the link still takes, and
-- `write_error` what ends init at the next.
pub record Radio : Type 0 where
  pub scanner : Scanner
  pub reads : List Arrival
  pub sent : List Bytes
  pub takes : ℕ
  pub write_error : InitError

abbrev pub M : Type 0 → Type 0
M A = Radio → Result InitError A × Radio

infixl 5 ◌>>=◌ ◌>>◌
abbrev pub ◌>>=◌ : {A B : Type 0} → M A → (A → M B) → M B
◌>>=◌ m f r = elim (m r).0 [ ok a ↦ f a (m r).1 | err e ↦ (err e, (m r).1) ]

abbrev pub ◌>>◌ : {B : Type 0} → M (Unit {0}) → M B → M B
m >> k = m >>= λ _. k

abbrev pub return : {A : Type 0} → A → M A
return a r = (ok a, r)

abbrev pub throw : {A : Type 0} → InitError → M A
throw e r = (err e, r)

unfoldable pub write_when : ℕ → Bytes → M (Unit {0})
write_when zero bytes r = (err r.write_error, r)
write_when (suc n) bytes r = (ok tt, record r { sent = r.sent ++ bytes ∷ []; takes = n })

unfoldable pub send_raw : Bytes → M (Unit {0})
unfolding write_when
send_raw bytes r = write_when r.takes bytes r

abbrev pub kiss_return : Bytes
kiss_return = fend ∷ 0xFF ∷ fend ∷ []

-- `replies.clear()`
unfoldable pub clear_replies : M (Unit {0})
clear_replies r = (ok tt, record r { scanner = record r.scanner { replies = [] } })

unfoldable pub command_bytes : String → Bytes
command_bytes cmd = codes (append cmd "\r")

module _ (lossy : Bytes → String) where
  -- The loop of `reply`, with the replies there are and the arrivals to come.
  unfoldable pub reply_loop : List String → List Arrival → M (Option String)
  unfolding push_bytes
  reply_loop (t ∷ ts) reads r =
      (ok (some t), record r { scanner = record r.scanner { replies = ts }; reads = reads })
  reply_loop [] [] r = (ok none, record r { reads = [] })
  reply_loop [] (silence ∷ reads) r = (ok none, record r { reads = reads })
  reply_loop [] (failed_read ∷ reads) r = (err io, record r { reads = reads })
  reply_loop [] (time_out ∷ reads) r = (err timed_out, record r { reads = reads })
  reply_loop [] (arrived [] ∷ reads) r = (err link_closed, record r { reads = reads })
  reply_loop [] (arrived (b ∷ bs) ∷ reads) r =
      let pushed = push_bytes lossy r.scanner (b ∷ bs) in
      reply_loop pushed.replies reads (record r { scanner = pushed })

  unfoldable pub reply : M (Option String)
  unfolding reply_loop
  reply r = reply_loop r.scanner.replies r.reads r

  abbrev pub is_busy : Option String → Bool
  is_busy none = false
  is_busy (some t) = str_eq t "?"

  -- The rounds of `command_within`, so many of them with another one behind it.
  unfoldable pub command_rounds : ℕ → Bytes → M (Option String)
  unfolding clear_replies send_raw reply
  command_rounds zero cmd = do clear_replies; send_raw cmd; reply
  command_rounds (suc n) cmd =
      let again = command_rounds n cmd in
      do
        clear_replies
        send_raw cmd
        answer ← reply
        if is_busy answer then again else return answer

  abbrev pub busy_retries : ℕ
  busy_retries = 3

  unfoldable pub command : String → M (Option String)
  unfolding command_rounds command_bytes
  command cmd = command_rounds busy_retries (command_bytes cmd)
