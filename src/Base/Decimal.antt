-- ===== src/Base/Decimal.antt =====
-- Decimal numbers: `strconv.FormatUint`, `strconv.ParseUint` and `strconv.Atoi`.
use dbctl.Base.Tests.{ltb, leb, ◌==◌, if◌then◌else◌}
use dbctl.Base.Lists.{All}
use dbctl.Base.Strings.{Text, codes}
use dbctl.Base.Outcome.{Result, ok, err, errorf}
use Prim.Native.Nat.{ℕ, zero, suc, ◌+◌, ◌-◌, ◌*◌, ◌/◌, ◌%◌, ◌^◌, ◌<◌}
use mathlib.Core.Path.{◌≡◌, refl, ap}
use mathlib.Core.Logic.{◌≢◌}
use mathlib.Core.Bool.{Bool, true, ◌&&◌}
use mathlib.Core.List.{[], ◌∷◌}
use mathlib.Core.Option.{Option, none, some}
use native.Mathlib.Omega.{arith}

abbrev pub is_digit : ℕ → Bool
is_digit c = leb b'0' c && leb c b'9'

-- The digits of `n` in front of `out`. The first argument bounds the number of digits.
unfoldable pub digits : ℕ → ℕ → Text → Text
digits zero n out = out
digits (suc f) n out =
    let more = digits f (n / 10) ((b'0' + n % 10) ∷ out) in if n == 0 then out else more

-- `strconv.FormatUint(n, 10)`, and `%d` of a number that is not negative.
unfoldable pub format_uint : ℕ → Text
unfolding digits
format_uint n = if n == 0 then b'0' ∷ [] else digits (suc n) n []

-- The number that digits spell behind `n`, if it stays below `2 ^ bits`.
unfoldable pub scan : ℕ → Text → ℕ → Option ℕ
scan bits [] n = some n
scan bits (c ∷ s) n =
    let rest = scan bits s (n * 10 + (c - b'0')) in
    if is_digit c && ltb (n * 10 + (c - b'0')) (2 ^ bits) then rest else none

abbrev to_result : Text → Option ℕ → Result ℕ
to_result s none =
    err (errorf "strconv.ParseUint: parsing %q: invalid syntax or out of range" (s ∷ []))
to_result s (some n) = ok n

-- `strconv.ParseUint(s, 10, bits)`
unfoldable pub parse_uint : ℕ → Text → Result ℕ
unfolding scan
parse_uint bits [] = to_result [] none
parse_uint bits (c ∷ s) = to_result (c ∷ s) (scan bits (c ∷ s) 0)

-- `negsuc n` is -(n + 1).
pub data ℤ : Type 0 where
  pos : ℕ → ℤ
  negsuc : ℕ → ℤ

abbrev negate : ℕ → ℤ
negate zero = pos 0
negate (suc n) = negsuc n

abbrev signed : Text → Option ℕ → Result ℤ
signed s none = err (errorf "strconv.Atoi: parsing %q: invalid syntax or out of range" (s ∷ []))
signed s (some n) = ok (pos n)

abbrev signed_neg : Text → Option ℕ → Result ℤ
signed_neg s none = err (errorf "strconv.Atoi: parsing %q: invalid syntax or out of range" (s ∷ []))
signed_neg s (some n) =
    if leb n (2 ^ 63)
    then ok (negate n)
    else err (errorf "strconv.Atoi: parsing %q: invalid syntax or out of range" (s ∷ []))

abbrev digits_of : ℕ → Text → Option ℕ
digits_of bits [] = none
digits_of bits (c ∷ s) = scan bits (c ∷ s) 0

-- `strconv.Atoi(s)`, where `int` has 64 bits: an optional sign and digits.
unfoldable pub atoi : Text → Result ℤ
unfolding scan
atoi [] = signed [] none
atoi (c ∷ s) =
    if c == b'-'
    then signed_neg (c ∷ s) (digits_of 64 s)
    else if c == b'+'
    then signed (c ∷ s) (digits_of 63 s)
    else signed (c ∷ s) (scan 63 (c ∷ s) 0)

scan_last :
    (bits n : ℕ) (out : Text)
    → n < 2 ^ bits
    → scan bits ((b'0' + n % 10) ∷ out) (n / 10) ≡ scan bits out n
unfolding scan
scan_last bits n out h = ground arith

-- Reading the digits of `n` in front of `out` is reading `out` behind `n`.
scan-digits :
    (f bits n : ℕ) (out : Text)
    → n < f
    → n < 2 ^ bits
    → scan bits (digits f n out) 0 ≡ scan bits out n
unfolding digits
scan-digits zero bits n out h fits = elim h [ ]
scan-digits (suc f) bits n out h fits =
    ground (arith, scan_last bits n out fits, scan-digits f bits (n / 10) ((b'0' + n % 10) ∷ out))

abbrev IsCons : Text → Type 0
IsCons [] = ⊥
IsCons (c ∷ s) = Unit

digits-IsCons : (f n c : ℕ) (s : Text) → IsCons (digits f n (c ∷ s))
unfolding digits
digits-IsCons zero n c s = tt
digits-IsCons (suc f) n c s = ground (arith, digits-IsCons f (n / 10) (b'0' + n % 10) (c ∷ s))

format_uint-IsCons : (n : ℕ) → IsCons (format_uint n)
unfolding format_uint
format_uint-IsCons n = ground (arith, digits-IsCons n (n / 10) (b'0' + n % 10) [])

scan-format_uint : (bits n : ℕ) → n < 2 ^ bits → scan bits (format_uint n) 0 ≡ some n
unfolding format_uint scan
scan-format_uint bits n h = ground (arith, scan-digits (suc n) bits n [] (omega arith) h)

parse_uint_of_cons :
    (bits : ℕ) (s : Text) → IsCons s → parse_uint bits s ≡ to_result s (scan bits s 0)
unfolding parse_uint
parse_uint_of_cons bits [] h = absurd h
parse_uint_of_cons bits (c ∷ s) h = refl

-- A number that fits is read back from its decimal print.
pub parse_uint-format_uint : (bits n : ℕ) → n < 2 ^ bits → parse_uint bits (format_uint n) ≡ ok n
parse_uint-format_uint bits n h =
    rw (parse_uint_of_cons bits _ (format_uint-IsCons n), scan-format_uint bits n h)

lt_pow : (n : ℕ) → n < 2 ^ n
lt_pow zero = omega arith
lt_pow (suc n) = omega (arith, lt_pow n)

-- Different numbers have different prints.
pub format_uint-injective : (m n : ℕ) → format_uint m ≡ format_uint n → m ≡ n
format_uint-injective m n e =
    let left = parse_uint-format_uint (m + n) m (omega (arith, lt_pow (m + n))) in
    let right = parse_uint-format_uint (m + n) n (omega (arith, lt_pow (m + n))) in
    cc (left, right, ap (parse_uint (m + n)) e)

pub format_uint-ne-nil : (n : ℕ) → format_uint n ≢ []
format_uint-ne-nil n e = subst_cons (format_uint n) (format_uint-IsCons n) e
  where
    subst_cons : (s : Text) → IsCons s → s ≡ [] → ⊥
    subst_cons [] h _ = h
    subst_cons (c ∷ s) h q = cc

-- Every code point of the print is a digit.
digits-are_digits :
    (f n : ℕ) (out : Text)
    → All (λ c. is_digit c ≡ true) out
    → All (λ c. is_digit c ≡ true) (digits f n out)
unfolding digits
digits-are_digits zero n out h = h
digits-are_digits (suc f) n out h =
    ground (arith, digits-are_digits f (n / 10) ((b'0' + n % 10) ∷ out))

pub format_uint-are_digits : (n : ℕ) → All (λ c. is_digit c ≡ true) (format_uint n)
unfolding format_uint
format_uint-are_digits n = ground (arith, digits-are_digits (suc n) n [] tt)

atoi_of_digits :
    (s : Text) → IsCons s → All (λ c. is_digit c ≡ true) s → atoi s ≡ signed s (scan 63 s 0)
unfolding atoi
atoi_of_digits [] h a = absurd h
atoi_of_digits (c ∷ s) h (d, a) = ground (arith, d)

pub atoi-format_uint : (n : ℕ) → n < 2 ^ 63 → atoi (format_uint n) ≡ ok (pos n)
atoi-format_uint n h =
    rw
      (
        atoi_of_digits (format_uint n) (format_uint-IsCons n) (format_uint-are_digits n),
        scan-format_uint 63 n h,
      )
      refl

print_test : format_uint 16379 ≡ codes "16379"
unfolding format_uint
print_test = refl

atoi_test : (atoi (codes "-12") ≡ ok (negsuc 11)) × (atoi (codes "+3") ≡ ok (pos 3))
unfolding atoi
atoi_test = (refl, refl)
