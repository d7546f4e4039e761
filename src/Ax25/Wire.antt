-- ===== src/Ax25/Wire.antt =====
-- src/ax25.rs: what `parse` makes of a frame that is laid out as AX.25 says.
use mathlib.Core.List.{map, append-nil}
use kiss_tnc_bridge.Prelude.{
  ℕ, ◌<◌, Bool, true, false, List, [], ◌∷◌, ◌++◌, Option, none, some, ◌≡◌, refl, sym, ◌∙◌, arith,
  leb, if◌then◌else◌, length, drop, All,
}
use kiss_tnc_bridge.Prelude.Text.{Bytes}
use kiss_tnc_bridge.Ax25.{Address, Header, path_of, info_of, header_of, parse}
use kiss_tnc_bridge.Ax25.Limit.{Fields, Ended, parse-joined}
use kiss_tnc_bridge.Ax25.Station.{
  Station, IsStation, fields_of, wire, text_of, shown, has_info, address_in, address-field_of,
  field-length,
}

info-has_info :
    (control : ℕ) (behind : Bytes)
    → control < 256
    → info_of control behind ≡ (if has_info control then drop 1 behind else [])
unfolding info_of
info-has_info control behind h = ground arith

abbrev addresses_in : List Station → List Address
addresses_in [] = []
addresses_in (s ∷ []) = address_in true s ∷ []
addresses_in (s ∷ t ∷ more) = address_in false s ∷ addresses_in (t ∷ more)

Fields-fields_of :
    (stations : List Station)
    → All IsStation stations
    → Fields (addresses_in stations) (fields_of stations)
Fields-fields_of [] h = tt
Fields-fields_of (s ∷ []) (h, k) = (field-length true s, address-field_of true s h, tt)
Fields-fields_of (s ∷ t ∷ more) (h, k) =
    (field-length false s, address-field_of false s h, Fields-fields_of (t ∷ more) k)

Ended-addresses_in : (s : Station) (more : List Station) → Ended (addresses_in (s ∷ more))
Ended-addresses_in s [] = refl
Ended-addresses_in s (t ∷ []) = (refl, refl)
Ended-addresses_in s (t ∷ u ∷ more) = (refl, Ended-addresses_in t (u ∷ more))

length-addresses_in : (stations : List Station) → length (addresses_in stations) ≡ length stations
length-addresses_in [] = refl
length-addresses_in (s ∷ []) = refl
length-addresses_in (s ∷ t ∷ more) = omega (arith, length-addresses_in (t ∷ more))

star :
    (repeated : Bool) (t : Bytes)
    → (if repeated then t ++ 42 ∷ [] else t) ≡ t ++ (if repeated then 42 ∷ [] else [])
star true t = refl
star false t = sym (append-nil t)

path_of-shown : (path : List Station) → path_of (addresses_in path) ≡ map shown path
unfolding path_of
path_of-shown [] = refl
path_of-shown (s ∷ []) = λ i. star s.repeated (text_of s) i ∷ []
path_of-shown (s ∷ t ∷ more) = λ i. star s.repeated (text_of s) i ∷ path_of-shown (t ∷ more) i

-- What is shown of a frame of these stations.
abbrev pub heading : Station → Station → List Station → Header
heading destination source path = record {
  source = text_of source;
  destination = text_of destination;
  path = map shown path;
}

header_of-heading :
    (d s : Station) (path : List Station) (control : ℕ) (behind : Bytes)
    → control < 256
    → header_of (addresses_in (d ∷ s ∷ path)) (control ∷ behind)
      ≡ some (heading d s path, if has_info control then drop 1 behind else [])
unfolding header_of
header_of-heading d s [] control behind c =
    λ i. some (heading d s [], info-has_info control behind c i)
header_of-heading d s (t ∷ more) control behind c = λ i. some (
  record { source = text_of s; destination = text_of d; path = path_of-shown (t ∷ more) i },
  info-has_info control behind c i,
)

header_of-no_control :
    (d s : Station) (path : List Station) → header_of (addresses_in (d ∷ s ∷ path)) [] ≡ none
unfolding header_of
header_of-no_control d s [] = refl
header_of-no_control d s (t ∷ more) = refl

header_of-alone : (d : Station) (rest : Bytes) → header_of (addresses_in (d ∷ [])) rest ≡ none
unfolding header_of
header_of-alone d rest = refl

-- The limit of the loop, for a destination, a source and a path.
parse-stations :
    (d s : Station) (path : List Station) (rest : Bytes)
    → All IsStation (d ∷ s ∷ path)
    → parse (wire (d ∷ s ∷ path) rest)
      ≡ (if leb (length path) 9 then header_of (addresses_in (d ∷ s ∷ path)) rest else none)
parse-stations d s path rest h =
    let stations : List Station = d ∷ s ∷ path in
    let count = length-addresses_in stations in
    let same : leb (length (addresses_in stations)) 11 ≡ leb (length path) 9 =
      ground (arith, count) in
    parse-joined (addresses_in stations) (fields_of stations) rest (Fields-fields_of stations h)
      (Ended-addresses_in d (s ∷ path))
    ∙ λ i. if same i then header_of (addresses_in stations) rest else none

same_branches : (b : Bool) → ◌≡◌ {A = Option (Header × Bytes)} (if b then none else none) none
same_branches true = refl
same_branches false = refl

-- `parse` of a frame as AX.25 lays it out, with a destination, a source and a path of stations,
-- whose callsigns have one to six capital letters or digits and whose SSIDs are below 16, and a
-- control byte, gives the texts of these stations, those of the path with a star where they have
-- repeated the frame, and the information field of UI and I frames, behind the protocol's byte, if
-- at most nine stations are in the path, one more than the comment in the source allows; with more
-- of them there is no result. There is none either of one station alone, nor without a control
-- byte.
pub parse-wire :
    (destination source : Station) (path : List Station) (control : ℕ) (behind : Bytes)
    → IsStation destination
    → IsStation source
    → All IsStation path
    → control < 256
    → (parse (wire (destination ∷ source ∷ path) (control ∷ behind)) ≡ (
        if leb (length path) 9
        then some (heading destination source path, if has_info control then drop 1 behind else [])
        else none))
      × (parse (wire (destination ∷ source ∷ path) []) ≡ none)
      × (parse (wire (destination ∷ []) (control ∷ behind)) ≡ none)
parse-wire d s path control behind hd hs hp c = (
  parse-stations d s path (control ∷ behind) (hd, (hs, hp))
      ∙ (λ i. if leb (length path) 9 then header_of-heading d s path control behind c i else none),
  parse-stations d s path [] (hd, (hs, hp))
      ∙ ((λ i. if leb (length path) 9 then header_of-no_control d s path i else none)
          ∙ same_branches (leb (length path) 9)),
  parse-joined (addresses_in (d ∷ [])) (fields_of (d ∷ [])) (control ∷ behind)
        (Fields-fields_of (d ∷ []) (hd, tt)) (Ended-addresses_in d [])
      ∙ header_of-alone d (control ∷ behind),
)
