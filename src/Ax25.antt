-- ===== src/Ax25.antt =====
-- src/ax25.rs: the addresses of an AX.25 frame, for display. Text is the list of its codes, which
-- are ASCII here.
pub mod Limit
pub mod Station
pub mod Wire
pub mod Rounds
pub mod Decode
pub mod Printable
pub mod Summary
mod Tests
use kiss_tnc_bridge.Prelude.{
  ℕ, zero, suc, ◌+◌, ◌/◌, ◌%◌, Bool, true, false, ◌&&◌, ◌||◌, List, [], ◌∷◌, ◌++◌, Option, none,
  some, leb, ltb, ◌==◌, if◌then◌else◌, length, take, drop, is_nil,
}
use kiss_tnc_bridge.Prelude.Text.{Bytes}

-- What `address` returns.
pub record Address : Type 0 where
  pub call : Bytes
  pub is_last : Bool
  pub repeated : Bool

pub record Header : Type 0 where
  pub source : Bytes
  pub destination : Bytes
  pub path : List Bytes

-- `is_ascii_uppercase` or `is_ascii_digit`
unfoldable pub is_call_char : ℕ → Bool
is_call_char c = leb 65 c && leb c 90 || leb 48 c && leb c 57

-- The loop of `address` over the first six bytes.
unfoldable pub call_from : Bytes → Bytes → Option Bytes
unfolding is_call_char
call_from call [] = some call
call_from call (b ∷ bs) =
    let c = b / 2 in
    if c == 32
    then call_from call bs
    else if is_call_char c
    then call_from (call ++ c ∷ []) bs
    else none

-- `format!("-{ssid}")`, with nothing for 0.
unfoldable pub ssid_suffix : ℕ → Bytes
ssid_suffix n =
    if n == 0 then [] else if ltb n 10 then 45 ∷ (48 + n) ∷ [] else 45 ∷ 49 ∷ (48 + n % 10) ∷ []

unfoldable pub address_of : Bytes → ℕ → Option Address
unfolding ssid_suffix
address_of call b =
    if is_nil call
    then none
    else some (record {
      call = call ++ ssid_suffix (b / 2 % 16);
      is_last = b % 2 == 1;
      repeated = b / 128 % 2 == 1;
    })

-- `address` on a field of seven bytes.
unfoldable pub address : Bytes → Option Address
unfolding address_of call_from
address field = elim (call_from [] (take 6 field)) [
  | none ↦ none
  | some call ↦ elim (drop 6 field) [ [] ↦ none | b ∷ more ↦ address_of call b ]
]

-- `data.get(i..i + 7)?` and `address(field)?` on `data[i..]`, with what is behind the field.
unfoldable pub next_address : Bytes → Option (Address × Bytes)
next_address rest =
    if ltb (length rest) 7
    then none
    else elim (address (take 7 rest)) [ none ↦ none | some a ↦ some (a, drop 7 rest) ]

-- The loop of `parse` on `data[i..]`, with `addrs` so far; the rest of the data comes with the
-- result. The first argument bounds the rounds.
unfoldable pub addresses : ℕ → List Address → Bytes → Option (List Address × Bytes)
addresses zero addrs rest = none
addresses (suc n) addrs rest = elim (next_address rest) [
  | none ↦ none
  | some (a, behind) ↦
      let more = addresses n (addrs ++ a ∷ []) behind in
      if a.is_last
      then some (addrs ++ a ∷ [], behind)
      else if ltb 10 (length addrs + 1)
      then none
      else more
]

abbrev pub rounds : ℕ
rounds = 11

-- The path, `*` on those that have repeated the frame.
unfoldable pub path_of : List Address → List Bytes
path_of [] = []
path_of (a ∷ more) = (if a.repeated then a.call ++ 42 ∷ [] else a.call) ∷ path_of more

-- The information field: that of UI and I frames.
unfoldable pub info_of : ℕ → Bytes → Bytes
info_of control behind =
    if control % 16 == 3 && control / 32 % 8 == 0 || control % 2 == 0 then drop 1 behind else []

-- `parse` behind its loop.
unfoldable pub header_of : List Address → Bytes → Option (Header × Bytes)
unfolding path_of info_of
header_of (destination ∷ source ∷ path) (control ∷ behind) = some (
  record { source = source.call; destination = destination.call; path = path_of path },
  info_of control behind,
)
header_of _ _ = none

unfoldable pub parse : Bytes → Option (Header × Bytes)
parse content = elim (addresses rounds [] content) [
  | none ↦ none
  | some (addrs, rest) ↦ header_of addrs rest
]

-- `printable`
unfoldable pub printable : Bytes → Bytes
printable [] = []
printable (c ∷ cs) = (if leb 0x20 c && leb c 0x7E then c else 46) ∷ printable cs
