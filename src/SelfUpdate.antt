-- ===== src/SelfUpdate.antt =====
-- internal/selfupdate/version.go: versions, printed, parsed and compared.
pub mod Order
pub mod Command
pub mod Machine
pub mod Release
pub mod Install
pub mod Swap
use dbctl.Base.{
  ℕ, zero, suc, Option, none, some, List, [], ◌∷◌, ◌++◌, if◌then◌else◌, ltb, ◌==◌, Bool, true,
  false, Text, codes, is_empty, trim_prefix, Error, errorf, Result, ok, err, then_result,
}
use dbctl.Base.Decimal.{ℤ, pos, negsuc, format_uint, parse_uint, is_digit}

pub record Version : Type 0 where
  pub major : ℕ
  pub minor : ℕ
  pub patch : ℕ

unfoldable pub compare_segment : ℕ → ℕ → ℤ
compare_segment v o = if ltb v o then negsuc 0 else if ltb o v then pos 1 else pos 0

abbrev or_else : ℤ → ℤ → ℤ
or_else (pos zero) d = d
or_else (pos (suc n)) d = pos (suc n)
or_else (negsuc n) d = negsuc n

-- `Compare`: the first segment that differs decides.
unfoldable pub compare : Version → Version → ℤ
unfolding compare_segment
compare v o =
    or_else (compare_segment v.major o.major) (
      or_else (compare_segment v.minor o.minor) (or_else (compare_segment v.patch o.patch) (pos 0)))

abbrev is_negative : ℤ → Bool
is_negative (pos n) = false
is_negative (negsuc n) = true

unfoldable pub greater : Version → Version → Bool
unfolding compare
greater v target = is_negative (compare v target)

unfoldable pub to_text : Version → Text
unfolding format_uint
to_text v =
    b'v' ∷ (format_uint v.major ++ (b'.' ∷ (format_uint v.minor ++ (b'.' ∷ format_uint v.patch))))

-- The groups of `versionRegex`. A group that matched nothing is empty.
pub record Groups : Type 0 where
  pub major : Text
  pub minor : Text
  pub patch : Text

abbrev put : ℕ → Text × Text → Text × Text
put c (taken, rest) = (c ∷ taken, rest)

-- `[0-9]+`, which takes all digits that it can: what may follow it is no digit.
unfoldable pub take_digits : Text → Text × Text
take_digits [] = ([], [])
take_digits (c ∷ s) = let more = take_digits s in if is_digit c then put c more else ([], c ∷ s)

abbrev strip_v : Text → Text
strip_v [] = []
strip_v (c ∷ s) = if c == b'v' then s else c ∷ s

abbrev or_nothing : Text → Text × Text → Text × Text
or_nothing s ([], rest) = ([], s)
or_nothing s (d ∷ taken, rest) = (b'.' ∷ d ∷ taken, rest)

-- `(\.[0-9]+)?`
unfoldable pub take_segment : Text → Text × Text
unfolding take_digits
take_segment [] = ([], [])
take_segment (c ∷ s) = if c == b'.' then or_nothing (c ∷ s) (take_digits s) else ([], c ∷ s)

-- `versionRegex.FindStringSubmatch`: `^v?([0-9]+)(\.[0-9]+)?(\.[0-9]+)?$`
unfoldable pub find_groups : Text → Option Groups
unfolding take_segment
find_groups v =
    let first = take_digits (strip_v v) in
    let second = take_segment first.1 in
    let third = take_segment second.1 in
    if is_empty first.0
    then none
    else if is_empty third.1
    then some (record { major = first.0; minor = second.0; patch = third.0 })
    else none

abbrev segment_error : Result ℕ → Result ℕ
segment_error (ok n) = ok n
segment_error (err e) = err (errorf "error parsing version segment: %s" [])

unfoldable pub optional_segment : Text → Result ℕ
unfolding parse_uint trim_prefix
optional_segment s =
    if is_empty s then ok 0 else segment_error (parse_uint 64 (trim_prefix s (b'.' ∷ [])))

unfoldable pub parse_version : Text → Result Version
unfolding parse_uint optional_segment find_groups
parse_version v = elim (find_groups v) [
  | none ↦ err (errorf "ErrInvalidSemver" [])
  | some m ↦ then_result (segment_error (parse_uint 64 m.major)) λ major.
      then_result (optional_segment m.minor) λ minor.
        then_result (optional_segment m.patch)
          λ patch. ok (record { major = major; minor = minor; patch = patch })
]
