-- ===== src/Logger.antt =====
-- internal/logger/logger.go: log lines, and the level below which they are dropped.
use dbctl.Base.{
  ◌≡◌, refl, Bool, true, false, ◌||◌, List, [], ◌∷◌, if◌then◌else◌, ltb, ◌==◌, Text, codes, arith,
  ◌++◌,
}
use dbctl.Base.Decimal.{ℤ, pos, negsuc}

-- `LogLevel`, an `int`
abbrev pub level_debug : ℤ
level_debug = pos 0

abbrev pub level_info : ℤ
level_info = pos 1

abbrev pub level_warn : ℤ
level_warn = pos 2

abbrev pub level_error : ℤ
level_error = pos 3

-- `(LogLevel).String`
unfoldable pub to_text : ℤ → Text
to_text (negsuc n) = []
to_text (pos n) =
    if n == 0
    then codes "DEBUG"
    else if n == 1
    then codes "INFO"
    else if n == 2
    then codes "WARN"
    else if n == 3
    then codes "ERROR"
    else []

abbrev pub exceeds : ℤ → ℤ → Bool
exceeds (pos m) (pos n) = ltb n m
exceeds (pos m) (negsuc n) = true
exceeds (negsuc m) (pos n) = false
exceeds (negsuc m) (negsuc n) = ltb m n

-- `provider` is `Println` of the provider; arguments are given as the texts that they print as.
pub record Logger (W : Type 0) : Type 0 where
  pub provider : List Text → W → W
  pub log_lvl : ℤ

module _ {W : Type 0} where
  abbrev pub new : (List Text → W → W) → ℤ → Logger W
  new provider log_lvl = record { provider = provider; log_lvl = log_lvl }

  unfoldable pub set_provider : (List Text → W → W) → Logger W → Logger W
  set_provider provider l = record l { provider = provider }

  unfoldable pub set_level : ℤ → Logger W → Logger W
  set_level lvl l =
      if exceeds level_debug lvl || exceeds lvl level_error then l else record l { log_lvl = lvl }

  abbrev pub println : Logger W → List Text → W → W
  println l v = l.provider v

  unfoldable pub print_with_level : Logger W → ℤ → List Text → W → W
  unfolding to_text
  print_with_level l lvl v = l.provider ((to_text lvl ++ (b':' ∷ [])) ∷ v)

  -- `Debug`, `Info`, `Warn` and `Error`, by their level
  unfoldable pub log : ℤ → Logger W → List Text → W → W
  unfolding print_with_level
  log lvl l v w = if exceeds l.log_lvl lvl then w else print_with_level l lvl v w

  abbrev pub info : Logger W → List Text → W → W
  info = log level_info

  abbrev pub debug : Logger W → List Text → W → W
  debug = log level_debug

  abbrev pub warn : Logger W → List Text → W → W
  warn = log level_warn

  abbrev pub error : Logger W → List Text → W → W
  error = log level_error

  abbrev pub set_levels : List ℤ → Logger W → Logger W
  set_levels [] l = l
  set_levels (lvl ∷ lvls) l = set_levels lvls (set_level lvl l)

  -- A logger whose level is one of the four keeps such a level, whatever levels it is given.
  set_levels-in_range :
      (lvls : List ℤ) (l : Logger W)
      → exceeds l.log_lvl level_error ≡ false
      → (exceeds (set_levels lvls l).log_lvl level_error ≡ false)
        × ((set_levels lvls l).provider ≡ l.provider)
  unfolding set_level
  set_levels-in_range [] l h = (h, refl)
  set_levels-in_range (lvl ∷ lvls) l h =
      let (low, same) = set_levels-in_range lvls (set_level lvl l) (ground (arith, h)) in
      (low, ground (arith, same))

  -- No sequence of levels, valid or not, silences the errors of a logger that starts at a valid level.
  pub error-is_printed :
      (lvls : List ℤ) (l : Logger W) (v : List Text) (w : W)
      → exceeds l.log_lvl level_error ≡ false
      → error (set_levels lvls l) v w ≡ l.provider (codes "ERROR:" ∷ v) w
  unfolding log print_with_level to_text
  error-is_printed lvls l v w h =
      let (low, same) = set_levels-in_range lvls l h in ground (arith, low, same)
