-- ===== src/Base/Strings.antt =====
-- Go strings as lists of code points, and the functions of the package `strings` in use.
use Prim.Native.Nat.{ℕ, zero, suc, ◌+◌, ◌-◌}
use Prim.Native.Char.{code}
use Prim.Native.String.{String}
use mathlib.Core.Path.{◌≡◌, refl, ap, ap₂}
use mathlib.Core.Logic.{ite, ◌↔◌}
use mathlib.Core.Bool.{Bool, true, false, ◌||◌, ◌&&◌}
use mathlib.Core.List.{List, [], ◌∷◌, ◌++◌, map, reverse}
use native.Mathlib.Decide.{ℕ_discrete}
use native.Mathlib.Omega.{arith}
use dbctl.Base.Tests.{leb, ◌==◌, if◌then◌else◌}
use dbctl.Base.Lists.{length, drop}

abbrev pub Text : Type 0
Text = List ℕ

-- A literal.
abbrev pub codes : String → Text
codes String.[] = []
codes (String.◌∷◌ c s) = code c ∷ codes s

abbrev head_or : ℕ → Text → ℕ
head_or d [] = d
head_or d (x ∷ xs) = x

abbrev tail_of : Text → Text
tail_of [] = []
tail_of (x ∷ xs) = xs

abbrev IsCons : Text → Type 0
IsCons [] = ⊥
IsCons (x ∷ xs) = Unit

discrete_cons : (x y : ℕ) (xs ys : Text) → Dec (x ≡ y) → Dec (xs ≡ ys) → Dec (x ∷ xs ≡ y ∷ ys)
discrete_cons x y xs ys (yes p) (yes q) = yes (ap₂ ◌∷◌ p q)
discrete_cons x y xs ys (yes p) (no n) = no λ e. n (ap tail_of e)
discrete_cons x y xs ys (no n) _ = no λ e. n (ap (head_or 0) e)

unfoldable pub text_discrete : Discrete Text
unfolding discrete_cons ℕ_discrete
text_discrete [] [] = yes refl
text_discrete [] (y ∷ ys) = no λ e. cc
text_discrete (x ∷ xs) [] = no λ e. cc
text_discrete (x ∷ xs) (y ∷ ys) = discrete_cons x y xs ys (ℕ_discrete x y) (text_discrete xs ys)

-- `a == b`. A split on it yields the equation or its negation.
abbrev pub text_eq : Text → Text → Bool
text_eq a b = ite (text_discrete a b) true false

pub text_eq_iff : (a b : Text) → (text_eq a b ≡ true) ↔ (a ≡ b)
text_eq_iff a b = ground arith

pub text_eq_refl : (a : Text) → text_eq a a ≡ true
text_eq_refl a = ground arith

-- `len(s) == 0`
abbrev pub is_empty : Text → Bool
is_empty [] = true
is_empty (x ∷ xs) = false

-- `strings.HasPrefix(s, prefix)`
unfoldable pub has_prefix : Text → Text → Bool
has_prefix s [] = true
has_prefix [] (p ∷ prefix) = false
has_prefix (c ∷ s) (p ∷ prefix) = c == p && has_prefix s prefix

-- `strings.HasSuffix(s, suffix)`
unfoldable pub has_suffix : Text → Text → Bool
unfolding has_prefix
has_suffix s suffix = has_prefix (reverse s) (reverse suffix)

-- `strings.TrimPrefix(s, prefix)`
unfoldable pub trim_prefix : Text → Text → Text
unfolding has_prefix
trim_prefix s prefix = if has_prefix s prefix then drop (length prefix) s else s

-- `strings.TrimSuffix(s, suffix)`
unfoldable pub trim_suffix : Text → Text → Text
unfolding has_suffix
trim_suffix s suffix = if has_suffix s suffix then reverse (drop (length suffix) (reverse s)) else s

-- `strings.Contains(s, sub)`
unfoldable pub contains : Text → Text → Bool
unfolding has_prefix
contains [] sub = has_prefix [] sub
contains (c ∷ s) sub = has_prefix (c ∷ s) sub || contains s sub

-- What a scan from the left replaces; the number counts the code points of a match still to skip.
replace_from : Text → Text → ℕ → Text → Text
unfolding has_prefix
replace_from old new skip [] = []
replace_from old new (suc skip) (c ∷ s) = replace_from old new skip s
replace_from old new zero (c ∷ s) =
    let hit = new ++ replace_from old new (length old - 1) s in
    let miss = c ∷ replace_from old new zero s in if has_prefix (c ∷ s) old then hit else miss

-- `strings.ReplaceAll(s, old, new)`, for a text `old` that is not empty.
unfoldable pub replace_all : Text → Text → Text → Text
unfolding replace_from
replace_all s old new = replace_from old new zero s

-- `unicode.ToLower` on ASCII. Code points beyond it are left alone.
unfoldable pub lower : ℕ → ℕ
lower c = if leb b'A' c && leb c b'Z' then c + 32 else c

-- `strings.ToLower(s)`
unfoldable pub to_lower : Text → Text
unfolding lower
to_lower s = map lower s

-- `unicode.IsSpace`
unfoldable pub is_space : ℕ → Bool
is_space c =
    (leb 9 c && leb c 13)
    || (c == 32
        || (c == 0x85
            || (c == 0xA0
                || (c == 0x1680
                    || ((leb 0x2000 c && leb c 0x200A)
                        || (c == 0x2028
                            || (c == 0x2029 || (c == 0x202F || (c == 0x205F || c == 0x3000)))))))))

unfoldable pub trim_left : Text → Text
unfolding is_space
trim_left [] = []
trim_left (c ∷ s) = if is_space c then trim_left s else c ∷ s

-- `strings.TrimSpace(s)`
unfoldable pub trim_space : Text → Text
unfolding trim_left
trim_space s = reverse (trim_left (reverse (trim_left s)))

-- `strings.Split(s, sep)` for a separator of one code point, and the part being read.
unfoldable pub split_from : ℕ → Text → Text → List Text
split_from sep part [] = part ∷ []
split_from sep part (c ∷ s) =
    let cut = part ∷ split_from sep [] s in
    let more = split_from sep (part ++ c ∷ []) s in if c == sep then cut else more

unfoldable pub split : Text → ℕ → List Text
unfolding split_from
split s sep = split_from sep [] s

pub has_prefix-append : (p s : Text) → has_prefix (p ++ s) p ≡ true
unfolding has_prefix
has_prefix-append [] s = refl
has_prefix-append (c ∷ p) s = ground (arith, has_prefix-append p s)

drop-append : (p s : Text) → drop (length p) (p ++ s) ≡ s
drop-append [] s = refl
drop-append (c ∷ p) s = drop-append p s

pub trim_prefix-append : (p s : Text) → trim_prefix (p ++ s) p ≡ s
unfolding trim_prefix
trim_prefix-append p s = rw (has_prefix-append p s) (drop-append p s)

-- Replacing a text of one code point goes from one to the next.
pub replace_all-one :
    (o c : ℕ) (new s : Text)
    → replace_all (c ∷ s) (o ∷ []) new
      ≡ (if c == o then new ++ replace_all s (o ∷ []) new else c ∷ replace_all s (o ∷ []) new)
unfolding replace_all replace_from has_prefix
replace_all-one o c new s = ground arith

replace_test :
    replace_all (codes "host.docker.internal:1") (codes "host.docker.internal") (codes "localhost")
    ≡ codes "localhost:1"
unfolding replace_all
replace_test = refl

text_eq_test : text_eq (codes "postgres") (codes "redis") ≡ false
unfolding text_discrete
text_eq_test = refl
