-- ===== src/Utils.antt =====
-- internal/utils/utils.go: the list tests and the choice of a port.
pub mod Ports
use dbctl.Base.{
  ◌≡◌, ap, ◌++◌, ◌/◌, some_of, ◌==◌, ltb, ◌-◌, try, raise, panic, ok, err, ℕ, zero, suc, ◌+◌, ◌%◌,
  ◌≤◌, Bool, true, false, ◌||◌, List, [], ◌∷◌, if◌then◌else◌, Text, text_eq, arith, Exec, pure,
  ◌>>=◌, Option, none, some,
}
use mathlib.Core.List.{Perm}
use dbctl.Base.Decimal.{format_uint}
use dbctl.Base.Sort.{sort}
use dbctl.Base.Sort.Canonical.{sort-eq_of_perm}

-- `OneOf`
unfoldable pub one_of : Text → List Text → Bool
one_of s [] = false
one_of s (l ∷ list) = if text_eq s l then true else one_of s list

-- `Contain`
unfoldable pub contain : List Text → Text → Text → Bool
contain [] target alias = false
contain (s ∷ src) target alias =
    if text_eq s target || text_eq s alias then true else contain src target alias

-- The signals by which a process is told to end, by their numbers on Linux.
abbrev pub default_exit_signals : List ℕ
default_exit_signals = 1 ∷ 2 ∷ 15 ∷ 3 ∷ []

-- `ContextWithOsSignal`: whether the context is done behind the signals that the process got.
unfoldable pub ends_context : List ℕ → List ℕ → Bool
ends_context [] received = some_of (λ s. some_of (λ d. d == s) default_exit_signals) received
ends_context (d ∷ listened) received = some_of (λ s. some_of (λ e. e == s) (d ∷ listened)) received

hex_digit : ℕ → ℕ
hex_digit n = if ltb n 10 then b'0' + n else b'a' + (n - 10)

-- `%x` of a text
unfoldable pub hex : Text → Text
unfolding hex_digit
hex [] = []
hex (c ∷ s) = hex_digit (c / 16) ∷ hex_digit (c % 16) ∷ hex s

abbrev join_hex : List Text → Text
join_hex [] = []
join_hex (t ∷ []) = hex t
join_hex (t ∷ u ∷ list) = hex t ++ (b' ' ∷ join_hex (u ∷ list))

-- `%x` of a list of texts
unfoldable pub print_hex : List Text → Text
unfolding hex
print_hex list = b'[' ∷ (join_hex list ++ (b']' ∷ []))

-- `GetListHash`, with SHA-256 as a hexadecimal text. The list of the caller is left sorted.
unfoldable pub get_list_hash : (Text → Text) → List Text → Text × List Text
unfolding sort print_hex
get_list_hash sha256 list = (sha256 (print_hex (sort list)), sort list)

-- The hash of a list does not depend on the order of its texts.
get_list_hash-perm :
    (sha256 : Text → Text) (xs ys : List Text)
    → Perm xs ys
    → get_list_hash sha256 xs ≡ get_list_hash sha256 ys
unfolding get_list_hash
get_list_hash-perm sha256 xs ys p = ap (λ l. (sha256 (print_hex l), l)) (sort-eq_of_perm xs ys p)

-- `GetRandomPort`: `rand.Intn(n)` gives some number below `n`, here the argument modulo `n`.
unfoldable pub get_random_port : ℕ → ℕ
get_random_port r = r % 64512 + 1024

-- `IsPortAvailable`: a listener that cannot be closed again is a panic.
unfoldable pub is_port_available :
    {W : Type 0} → (Text → Exec W ℕ) → (ℕ → Exec W Unit) → ℕ → Exec W Bool
unfolding format_uint
is_port_available listen close port = do
  opened ← try (listen (b':' ∷ format_uint port))
  elim opened [
    | err e ↦ pure false
    | ok listener ↦ do
      closed ← try (close listener)
      elim closed [ ok _ ↦ pure true | err e ↦ raise (panic "close failed") ]
  ]

module _ {W : Type 0} (rand : Exec W ℕ) (available : ℕ → Exec W Bool) where
  -- `GetAvailablePort`, on fuel: `0` stands for a loop that is still running.
  unfoldable pub get_available_port : ℕ → Exec W (Option ℕ)
  unfolding get_random_port
  get_available_port zero = pure none
  get_available_port (suc fuel) = do
    r ← rand
    free ← available (get_random_port r)
    elim free [ true ↦ pure (some (get_random_port r)) | false ↦ get_available_port fuel ]

-- The random port is a port that an unprivileged process may use.
pub get_random_port_bounds : (r : ℕ) → (1024 ≤ get_random_port r) × (get_random_port r ≤ 65535)
unfolding get_random_port
get_random_port_bounds r = omega arith
