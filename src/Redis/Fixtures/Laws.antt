-- ===== src/Redis/Fixtures/Laws.antt =====
-- Fixture files run line by line, in order, and blank lines and comments do nothing.
use dbctl.Base.{
  ℕ, suc, ◌+◌, ◌≡◌, refl, ap, all_of, Bool, true, ◌||◌, List, [], ◌∷◌, ◌++◌, length, Text, is_empty,
  has_prefix, trim_space, arith, ◌>>◌, ok,
}
use dbctl.Redis.Server.{Server}
use dbctl.Redis.Fixtures.{apply_line, apply_lines}

module _ {W : Type 0} (redis : Server W) where
  -- Lines that follow others run after them, on the world that they leave and numbered from there; if
  -- one of the first fails, none of the later lines runs.
  pub apply_lines-append :
      (xs ys : List Text) (n : ℕ) (w : W)
      → apply_lines redis n (xs ++ ys) w
        ≡ (apply_lines redis n xs >> apply_lines redis (n + length xs) ys) w
  unfolding apply_lines
  apply_lines-append [] ys n w = ap (λ m. apply_lines redis m ys w) (omega arith)
  apply_lines-append (x ∷ xs) ys n w =
      let next : n + suc (length xs) ≡ (n + 1) + length xs = omega arith in
      rw next (ground (arith, apply_lines-append xs ys (n + 1) (apply_line redis n x w).1))

  abbrev pub is_comment : Text → Bool
  is_comment line = is_empty (trim_space line) || has_prefix (trim_space line) (b'#' ∷ [])

  -- A file of blank lines and comments sends no command.
  pub apply_lines_of_comments :
      (lines : List Text) (n : ℕ) (w : W)
      → all_of is_comment lines ≡ true
      → apply_lines redis n lines w ≡ (ok tt, w)
  unfolding apply_lines apply_line
  apply_lines_of_comments [] n w h = refl
  apply_lines_of_comments (x ∷ xs) n w h = ground (arith, apply_lines_of_comments xs (n + 1) w)
