-- ===== src/SelfUpdate/Order.antt =====
-- The order of versions, and reading back a printed one.
use dbctl.Base.{
  ℕ, ◌<◌, ◌^◌, ◌≡◌, ◌≢◌, refl, ◌∙◌, ap, sym, some, [], ◌∷◌, ◌++◌, Text, Bool, true, false, arith,
  ok, is_empty, ◌⊎◌, All, ltb, ◌==◌, ◌&&◌, ◌||◌, trim_prefix-append, append-nil,
}
use dbctl.Base.Decimal.{
  pos, negsuc, format_uint, parse_uint-format_uint, is_digit, format_uint-are_digits,
  format_uint-ne-nil,
}
use dbctl.SelfUpdate.{
  Version, compare, compare_segment, greater, to_text, parse_version, optional_segment, find_groups,
  take_digits, take_segment, or_nothing,
}

-- The lexicographic order of the segments.
abbrev pub is_before : Version → Version → Bool
is_before v o =
    ltb v.major o.major
    || (v.major == o.major && (ltb v.minor o.minor || (v.minor == o.minor && ltb v.patch o.patch)))

-- `Compare` is the lexicographic order: negative before, positive behind, 0 for equal versions only.
pub compare_lem :
    (v o : Version)
    → ((is_before v o ≡ true) × (compare v o ≡ negsuc 0))
      ⊎ (((is_before o v ≡ true) × (compare v o ≡ pos 1)) ⊎ ((v ≡ o) × (compare v o ≡ pos 0)))
unfolding compare compare_segment
compare_lem v o = ground arith

-- `Greater` holds exactly when its receiver is the older version of the two.
pub greater_lem : (v target : Version) → greater v target ≡ is_before v target
unfolding greater compare_segment
greater_lem v target = ground arith

optional_segment-format_uint : (n : ℕ) → n < 2 ^ 64 → optional_segment (b'.' ∷ format_uint n) ≡ ok n
unfolding optional_segment
optional_segment-format_uint n h =
    ground (arith, parse_uint-format_uint 64 n h, trim_prefix-append (b'.' ∷ []) (format_uint n))

abbrev starts_digit : Text → Bool
starts_digit [] = false
starts_digit (c ∷ s) = is_digit c

take_digits-append :
    (d s : Text)
    → All (λ c. is_digit c ≡ true) d
    → starts_digit s ≡ false
    → take_digits (d ++ s) ≡ (d, s)
unfolding take_digits
take_digits-append [] [] h k = refl
take_digits-append [] (c ∷ s) h k = ground (arith, k)
take_digits-append (x ∷ d) s (hx, h) k = ground (arith, hx, take_digits-append d s h k)

abbrev AreDigits : Text → Type 0
AreDigits = All (λ c. is_digit c ≡ true)

or_nothing-cons : (t d s : Text) → is_empty d ≡ false → or_nothing t (d, s) ≡ (b'.' ∷ d, s)
or_nothing-cons t [] s h = ground (arith, h)
or_nothing-cons t (c ∷ d) s h = refl

take_segment-append :
    (d s : Text)
    → AreDigits d
    → is_empty d ≡ false
    → starts_digit s ≡ false
    → take_segment (b'.' ∷ (d ++ s)) ≡ (b'.' ∷ d, s)
unfolding take_segment
take_segment-append d s h full k =
    ap (or_nothing (b'.' ∷ (d ++ s))) (take_digits-append d s h k)
    ∙ or_nothing-cons (b'.' ∷ (d ++ s)) d s full

find_groups-append :
    (x y z : Text)
    → AreDigits x
    → AreDigits y
    → AreDigits z
    → is_empty x ≡ false
    → is_empty y ≡ false
    → is_empty z ≡ false
    → find_groups (b'v' ∷ (x ++ (b'.' ∷ (y ++ (b'.' ∷ z)))))
      ≡ some (record { major = x; minor = b'.' ∷ y; patch = b'.' ∷ z })
unfolding find_groups
find_groups-append x y z dx dy dz fx fy fz =
    let e1 = take_digits-append x (b'.' ∷ (y ++ (b'.' ∷ z))) dx refl in
    let e2 = take_segment-append y (b'.' ∷ z) dy fy refl in
    let e3 =
      ap (λ t. take_segment (b'.' ∷ t)) (sym (append-nil z))
      ∙ take_segment-append z [] dz fz refl in
    ground (arith, e1, e2, e3, fx, fy, fz)

format_uint-full : (n : ℕ) → is_empty (format_uint n) ≡ false
format_uint-full n = full (format_uint n) (format_uint-ne-nil n)
  where
    full : (s : Text) → s ≢ [] → is_empty s ≡ false
    full [] h = absurd (h refl)
    full (c ∷ s) h = refl

find_groups-to_text :
    (v : Version)
    → find_groups (to_text v)
      ≡ some (record {
        major = format_uint v.major;
        minor = b'.' ∷ format_uint v.minor;
        patch = b'.' ∷ format_uint v.patch;
      })
unfolding to_text
find_groups-to_text v =
    find_groups-append (format_uint v.major) (format_uint v.minor) (format_uint v.patch)
      (format_uint-are_digits v.major) (format_uint-are_digits v.minor)
      (format_uint-are_digits v.patch) (format_uint-full v.major) (format_uint-full v.minor)
      (format_uint-full v.patch)

-- A version of 64 bit segments is read back from its print.
pub parse_version-to_text :
    (v : Version)
    → v.major < 2 ^ 64
    → v.minor < 2 ^ 64
    → v.patch < 2 ^ 64
    → parse_version (to_text v) ≡ ok v
unfolding parse_version
parse_version-to_text v h1 h2 h3 = ground (
  arith,
  find_groups-to_text v,
  parse_uint-format_uint 64 v.major h1,
  optional_segment-format_uint v.minor h2,
  optional_segment-format_uint v.patch h3,
)
