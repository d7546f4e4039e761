-- ===== src/Config/Validate/Structure.antt =====
-- src/config/validate.rs: what is reported of the structure of bridges.
use Prim.Native.String.{String, ◌++◌ as append}
use kiss_tnc_bridge.Prelude.{
  ℕ, zero, suc, Bool, not, ◌&&◌, ◌||◌, ◌==◌, List, [], ◌∷◌, map, is_nil, length, all_of, ◌≡◌, refl,
  ◌∙◌, arith,
}
use kiss_tnc_bridge.Prelude.Decide.{String-discrete}
use kiss_tnc_bridge.Config.Problem.{problem_if}
use kiss_tnc_bridge.Config.Model.{Bridge, Port}
use kiss_tnc_bridge.Config.Ports.{missing_tnc, incomplete, tnc_ports, app_ports}
use kiss_tnc_bridge.Config.Problem.{duplicate_bridge_id, name_taken}
use kiss_tnc_bridge.Config.Validate.Duplicates.{
  was_seen, bridge_errors, port_id_errors, structure_errors,
}
use kiss_tnc_bridge.Config.Validate.Distinct.{
  is_nil-append, is_nil-append5, is_nil-problem_if, is_nil-taken, apart,
}

is_nil-missing_tnc : (n : ℕ) → is_nil (missing_tnc n) ≡ (n == 1)
unfolding missing_tnc
is_nil-missing_tnc zero = refl
is_nil-missing_tnc (suc zero) = refl
is_nil-missing_tnc (suc (suc n)) = ground arith

is_nil-length : {A : Type 0} (xs : List A) → (length xs == 0) ≡ is_nil xs
is_nil-length [] = refl
is_nil-length (x ∷ xs) = ground arith

-- An enabled bridge must be complete.
abbrev pub is_complete : {N : Type 0} → Bridge N → Bool
is_complete b = not b.enabled || is_nil (incomplete b)

is_nil-port_id_errors :
    {N : Type 0} (object : String) (seen : List String) (ps : List (Port N))
    → is_nil (port_id_errors object seen ps) ≡ apart String-discrete seen (map (λ p. p.id) ps)
unfolding port_id_errors
is_nil-port_id_errors object seen [] = refl
is_nil-port_id_errors object seen (p ∷ ps) =
    grind (arith, is_nil-append, is_nil-problem_if, is_nil-port_id_errors object (p.id ∷ seen) ps)

is_nil-structure_errors :
    {N : Type 0} (object : String) (b : Bridge N)
    → is_nil (structure_errors object b) ≡ is_complete b
unfolding structure_errors incomplete
is_nil-structure_errors object b = grind (
  arith,
  is_nil-append,
  is_nil-problem_if,
  is_nil-missing_tnc (length (tnc_ports b)),
  is_nil-length (app_ports b),
)

-- Two keys and two tests of one definition, in front of those of the rest.
and_both :
    (n s b p rest n0 s0 b0 p0 i s1 t1 : Bool)
    → n ≡ n0
    → s ≡ s0
    → b ≡ b0
    → p ≡ p0
    → rest ≡ (i && s1 && t1)
    → (n && s && b && p && rest) ≡ ((n0 && i) && (s0 && s1) && ((b0 && p0) && t1))
and_both n s b p rest n0 s0 b0 p0 i s1 t1 e f g h r = ground arith

-- Port ids that are unique within the bridge, and a bridge that is complete if it must be.
abbrev pub is_sound : {N : Type 0} → Bridge N → Bool
is_sound b = apart String-discrete [] (map (λ p. p.id) b.ports) && is_complete b

pub bridge_errors-apart :
    {N : Type 0} (ids : List String) (names : List (String × String)) (bs : List (Bridge N))
    → is_nil (bridge_errors ids names bs) ≡ (
        apart String-discrete ids (map (λ b. b.id) bs)
        && apart String-discrete (map (λ e. e.0) names) (map (λ b. b.name) bs)
        && all_of is_sound bs)
unfolding bridge_errors
bridge_errors-apart ids names [] = refl
bridge_errors-apart ids names (b ∷ bs) =
    let object = append "bridge " b.id in
    is_nil-append5 (problem_if (was_seen String-discrete b.id ids) object duplicate_bridge_id) _ _ _
      _
    ∙ and_both _ _ _ _ _ _ _ _ _ _ _ _
        (is_nil-problem_if (was_seen String-discrete b.id ids) object duplicate_bridge_id)
        (is_nil-taken String-discrete b.name names object (name_taken b.name))
        (is_nil-port_id_errors object [] b.ports) (is_nil-structure_errors object b)
        (bridge_errors-apart (b.id ∷ ids) ((b.name, b.id) ∷ names) bs)
