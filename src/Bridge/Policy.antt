-- ===== src/Bridge/Policy.antt =====
-- src/bridge/policy.rs: what an app may send to the shared TNC. `cmd & 0x0F` is `cmd % 16`.
use kiss_tnc_bridge.Prelude.{
  ℕ, ◌%◌, ◌≤◌, ◌||◌, [], ◌∷◌, ◌≡◌, ◌≢◌, ◌⊎◌, ◌↔◌, inl, inr, refl, ◌==◌, if◌then◌else◌, arith,
}
use kiss_tnc_bridge.Prelude.Text.{Bytes}
use kiss_tnc_bridge.Config.Settings.{AppParams, pass_params, drop_params}

pub data Why : Type 0 where
  empty kiss_return parameter unknown : Why

pub data Verdict : Type 0 where
  pass : Verdict
  refuse : Why → Verdict

abbrev pub cmd_return : ℕ
cmd_return = 0xFF

-- The `match cmd & 0x0F`.
filter_nibble : ℕ → AppParams → Verdict
filter_nibble n params =
    if n == 0
    then pass
    else if n == 1 || n == 2 || n == 3 || n == 4 || n == 5 || n == 6
    then elim params [ pass_params ↦ pass | drop_params ↦ refuse parameter ]
    else refuse unknown

unfoldable pub filter_app_frame : Bytes → AppParams → Verdict
unfolding filter_nibble
filter_app_frame [] params = refuse empty
filter_app_frame (cmd ∷ rest) params =
    if cmd == cmd_return then refuse kiss_return else filter_nibble (cmd % 16) params

passes :
    (n : ℕ) (params : AppParams)
    → filter_nibble n params ≡ pass
    → (n ≡ 0) ⊎ ((params ≡ pass_params) × (1 ≤ n) × (n ≤ 6))
unfolding filter_nibble
passes n pass_params h = ground arith
passes n drop_params h = ground arith

-- Exactly what passes: a first byte whose low nibble is the data command, or, where the settings
-- let parameters through, one of the six parameter commands; on any KISS channel. So neither an
-- empty frame nor KISS "return" passes under any setting.
pub filter_app_frame_iff :
    (raw : Bytes) (params : AppParams)
    → (filter_app_frame raw params ≡ pass) ↔ (
        (cmd : ℕ) × (rest : Bytes) × (raw ≡ cmd ∷ rest)
        × (cmd ≢ cmd_return)
        × ((cmd % 16 ≡ 0) ⊎ ((params ≡ pass_params) × (1 ≤ cmd % 16) × (cmd % 16 ≤ 6))))
unfolding filter_app_frame
filter_app_frame_iff [] params = (λ h. cc, λ (c, r, e, n, k). absurd (ground (arith, e)))
filter_app_frame_iff (cmd ∷ rest) params = (
  (λ h. (cmd, rest, refl, ground arith, passes (cmd % 16) params (ground arith))),
  (λ (c, r, e, n, k). elim k [
    | inl data_frame ↦ ground (arith, e)
    | inr (p, lo, hi) ↦ ground (arith, e)
  ]),
)

-- Dropping parameters refuses more, and never lets anything else through.
pub filter_mono :
    (raw : Bytes) (params : AppParams)
    → filter_app_frame raw params ≡ pass
    → filter_app_frame raw pass_params ≡ pass
unfolding filter_app_frame
filter_mono [] params h = cc
filter_mono (cmd ∷ rest) pass_params h = h
filter_mono (cmd ∷ rest) drop_params h = ground arith
