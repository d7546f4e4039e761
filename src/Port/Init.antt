-- ===== src/Port/Init.antt =====
-- src/port/tnc_init.rs: `init`, which puts a TNC into KISS mode.
pub mod Heard
use Prim.Native.Char.{code}
use Prim.Native.String.{String, ◌++◌ as append}
use mathlib.Core.Option as Option
use kiss_tnc_bridge.Prelude.{
  ℕ, Bool, true, false, List, [], ◌∷◌, Option, none, some, ◌==◌, if◌then◌else◌, is_some,
}
use kiss_tnc_bridge.Prelude.Text.{Bytes}
use kiss_tnc_bridge.Prelude.Results.{ok, err}
use kiss_tnc_bridge.Config.Text.{trim, parse_unsigned, show_number}
use kiss_tnc_bridge.Config.Model.{TncModel, generic, th_d7x, td_h9}
use kiss_tnc_bridge.Port.Radio.{
  M, ◌>>=◌, ◌>>◌, return, throw, Radio, InitError, no_answer, other_interface, not_accepted,
  send_raw, kiss_return, command_bytes, command,
}

pub record InitOutcome : Type 0 where
  pub radio : Option String
  pub frames : List Bytes
  pub exit_kiss : List Bytes

unfoldable pub strip_prefix : String → String → Option String
strip_prefix String.[] s = some s
strip_prefix (String.◌∷◌ c p) String.[] = none
strip_prefix (String.◌∷◌ c p) (String.◌∷◌ d s) =
    let rest = strip_prefix p s in if code c == code d then rest else none

unfoldable pub starts_with : String → String → Bool
unfolding strip_prefix
starts_with p s = is_some (strip_prefix p s)

-- `split_once(',')`
unfoldable pub split_comma : String → Option (String × String)
split_comma String.[] = none
split_comma (String.◌∷◌ c s) =
    if code c == 44 then some ("", s) else Option.map (λ p. (String.◌∷◌ c p.0, p.1)) (split_comma s)

abbrev pub pair_of : Option ℕ → Option ℕ → Option (ℕ × ℕ)
pair_of (some m) (some b) = some (m, b)
pair_of _ _ = none

unfoldable pub parse_tn : String → Option (ℕ × ℕ)
unfolding strip_prefix split_comma parse_unsigned trim
parse_tn reply = elim (strip_prefix "TN " reply) [
  | none ↦ none
  | some rest ↦ elim (split_comma rest) [
    | none ↦ none
    | some (mode, band) ↦
        pair_of (parse_unsigned 10 256 (trim mode)) (parse_unsigned 10 256 (trim band))
  ]
]

-- `TN 2,{band}` and its kin.
unfoldable pub tn_command : ℕ → ℕ → String
unfolding show_number
tn_command mode band = append "TN " (append (show_number mode) (append "," (show_number band)))

unfoldable pub exit_kiss_of : Option ℕ → ℕ → List Bytes
unfolding tn_command command_bytes
exit_kiss_of none band = kiss_return ∷ []
exit_kiss_of (some mode) band =
    if mode == 1 then kiss_return ∷ command_bytes (tn_command mode band) ∷ [] else kiss_return ∷ []

-- `strip_prefix("ID ").unwrap_or(&s).trim()`
unfoldable pub radio_name : String → String
unfolding strip_prefix trim
radio_name s = elim (strip_prefix "ID " s) [ some rest ↦ trim rest | none ↦ trim s ]

unfoldable pub band_of : Option (ℕ × ℕ) → ℕ
band_of none = 0
band_of (some p) = p.1

unfoldable pub mode_of : Option (ℕ × ℕ) → Option ℕ
mode_of none = none
mode_of (some p) = some p.0

-- `tn.as_deref().and_then(parse_tn)`
unfoldable pub then_parse : Option String → Option (ℕ × ℕ)
unfolding parse_tn
then_parse none = none
then_parse (some tn) = parse_tn tn

-- An answer that begins with `TN` accepts the mode.
unfoldable pub is_accepted : Option String → Bool
unfolding starts_with
is_accepted none = false
is_accepted (some answer) = starts_with "TN" answer

unfoldable pub outcome_of : Option String → Option ℕ → ℕ → M InitOutcome
unfolding radio_name exit_kiss_of
outcome_of id mode band r =
    return
      (record {
        radio = Option.map radio_name id;
        frames = r.scanner.frames;
        exit_kiss = exit_kiss_of mode band;
      })
      r

-- The mode that the probe saw wins.
abbrev pub mode_before : Bool → Option ℕ → Option ℕ
mode_before was_kiss mode = if was_kiss then some 2 else mode

unfoldable pub accept : ℕ → Option String → M (Unit {0})
unfolding is_accepted
accept band answer = if is_accepted answer then return tt else throw (not_accepted band answer)

-- What is made of the probe in KISS mode.
unfoldable pub conclude : Option String → Option ℕ → ℕ → Option String → M InitOutcome
unfolding outcome_of
conclude id mode band check =
    if is_some check then throw other_interface else outcome_of id mode band

module _ (lossy : Bytes → String) where
  -- Out of KISS mode, and the probe again.
  unfoldable pub leave_kiss : M Bool
  unfolding command send_raw
  leave_kiss = do
    send_raw kiss_return
    answer ← command lossy "BT"
    if is_some answer then return true else throw no_answer

  -- `was_kiss`
  unfoldable pub probe : M Bool
  unfolding command leave_kiss
  probe = do answer ← command lossy "BT"; if is_some answer then return false else leave_kiss

  unfoldable pub enter_kiss : Option String → Option ℕ → ℕ → M InitOutcome
  unfolding command tn_command accept conclude
  enter_kiss id mode band = do
    answer ← command lossy (tn_command 2 band)
    accept band answer
    check ← command lossy "BT"
    conclude id mode band check

  unfoldable pub identify : Bool → M InitOutcome
  unfolding command then_parse mode_of band_of enter_kiss
  identify was_kiss = do
    id ← command lossy "ID"
    tn ← command lossy "TN"
    enter_kiss id (mode_before was_kiss (mode_of (then_parse tn))) (band_of (then_parse tn))

  unfoldable pub init_th_d7x : M InitOutcome
  unfolding probe identify
  init_th_d7x = do was_kiss ← probe; identify was_kiss

  unfoldable pub init : TncModel → M InitOutcome
  unfolding init_th_d7x
  init generic = return (record { radio = none; frames = []; exit_kiss = kiss_return ∷ [] })
  init td_h9 = return (record { radio = none; frames = []; exit_kiss = kiss_return ∷ [] })
  init th_d7x = init_th_d7x
