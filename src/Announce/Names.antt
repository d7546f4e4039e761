-- ===== src/Announce/Names.antt =====
-- src/announce.rs: `next_name` and `effective_public_name`.
use Prim.Native.String.{String, ◌++◌ as append}
use Prim.Native.Char.{code}
use kiss_tnc_bridge.Prelude.{
  ℕ, ◌+◌, ◌%◌, ◌^◌, Bool, ◌&&◌, ◌==◌, Option, none, some, is_some, if◌then◌else◌,
}
use kiss_tnc_bridge.Prelude.Maps.{get}
use kiss_tnc_bridge.Config.Text.{parse_unsigned, show_number, is_empty}
use kiss_tnc_bridge.Config.State.{State, adjusted_public_name, clear_adjusted_public_name, update}

-- `strip_suffix(')')`
unfoldable pub strip_paren : String → Option String
unfolding is_empty
strip_paren String.[] = none
strip_paren (String.◌∷◌ c s) =
    let rest = strip_paren s in
    if is_empty s
    then if code c == 41 then some "" else none
    else elim rest [ none ↦ none | some stem ↦ some (String.◌∷◌ c stem) ]

-- What follows ` (` at the start of a text.
unfoldable pub behind_open : String → Option String
behind_open String.[] = none
behind_open (String.◌∷◌ c String.[]) = none
behind_open (String.◌∷◌ c (String.◌∷◌ d s)) = if code c == 32 && code d == 40 then some s else none

-- `rsplit_once(" (")`
unfoldable pub rsplit_open : String → Option (String × String)
unfolding behind_open
rsplit_open String.[] = none
rsplit_open (String.◌∷◌ c s) = elim (rsplit_open s) [
  | some (a, b) ↦ some (String.◌∷◌ c a, b)
  | none ↦ elim (behind_open (String.◌∷◌ c s)) [ none ↦ none | some b ↦ some ("", b) ]
]

-- The name's base and number, where it has one.
unfoldable pub numbered : String → Option (String × ℕ)
unfolding strip_paren rsplit_open parse_unsigned
numbered name = elim (strip_paren name) [
  | none ↦ none
  | some stem ↦ elim (rsplit_open stem) [
    | none ↦ none
    | some (base, n) ↦ elim (parse_unsigned 10 (2 ^ 32) n) [ none ↦ none | some k ↦ some (base, k) ]
  ]
]

-- `n + 1` wraps in a release build.
unfoldable pub next_name : String → String
unfolding numbered show_number
next_name name = elim (numbered name) [
  | none ↦ append name " (2)"
  | some (base, n) ↦ append base (append " (" (append (show_number ((n + 1) % 2 ^ 32)) ")"))
]

-- The name, and the state behind it.
unfoldable pub effective_public_name : (State → Bool) → State → String → String → String × State
unfolding adjusted_public_name get update
effective_public_name can_write s bridge configured =
    elim (adjusted_public_name s bridge configured) [
      | some adjusted ↦ (adjusted, s)
      | none ↦ (
        configured,
        elim (get bridge s) [
          | none ↦ s
          | some b ↦
              if is_some b.public_name
              then update can_write (clear_adjusted_public_name bridge) s
              else s
        ],
      )
    ]
