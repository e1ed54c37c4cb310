-- ===== src/Table.antt =====
-- internal/table/table.go: a table of text in a frame.
pub mod Fits
pub mod Frame
use dbctl.Base.{
  ℕ, zero, suc, ◌+◌, ◌-◌, Bool, true, false, Option, none, some, List, [], ◌∷◌, ◌++◌, map,
  if◌then◌else◌, ltb, ◌==◌, length, replicate, Text, Result, ok, err, panic, then_result,
}

pub record Table : Type 0 where
  pub rows : List (List Text)
  pub widths : Option (List ℕ)

abbrev pub new : Table
new = record { rows = []; widths = none }

-- The bytes of a code point in UTF-8.
unfoldable pub rune_len : ℕ → ℕ
rune_len c = if ltb c 0x80 then 1 else if ltb c 0x800 then 2 else if ltb c 0x10000 then 3 else 4

-- `len(s)`
unfoldable pub len : Text → ℕ
unfolding rune_len
len [] = 0
len (c ∷ s) = rune_len c + len s

-- `make([]int, len(row))`
abbrev pub zeros : List Text → List ℕ
zeros row = replicate (length row) 0

unfoldable pub widen : List Text → List ℕ → List ℕ
unfolding len
widen (s ∷ row) (w ∷ widths) = (if ltb w (len s) then len s else w) ∷ widen row widths
widen row widths = widths

abbrev pub append_row : List Text → List ℕ → Table → Table
append_row row widths t = record { rows = t.rows ++ row ∷ []; widths = some (widen row widths) }

unfoldable pub add_row : List Text → Table → Result Table
unfolding widen
add_row row t = elim t.widths [
  | none ↦ ok (append_row row (zeros row) t)
  | some widths ↦
      if length widths == length row
      then ok (append_row row widths t)
      else err (panic "bad size: got %d, want %d")
]

-- `%-*s`: the width counts code points.
abbrev pub pad : ℕ → Text → Text
pad w s = s ++ replicate (w - length s) b' '

abbrev join : ℕ → List Text → Text
join m [] = []
join m (c ∷ []) = c
join m (c ∷ d ∷ cells) = c ++ (m ∷ join m (d ∷ cells))

-- `writeRow`, without the end of the line
unfoldable pub write_row : ℕ → ℕ → ℕ → List Text → Text
write_row l m r cells = l ∷ (join m cells ++ (r ∷ []))

abbrev rule : ℕ → Text
rule w = replicate (w + 2) 0x2500

-- The cells of a row. A row that has no cell for a width is an index out of range.
unfoldable pub cells : List Text → List ℕ → Result (List Text)
cells row [] = ok []
cells [] (w ∷ widths) = err (panic "index out of range")
cells (s ∷ row) (w ∷ widths) =
    then_result (cells row widths) (λ rest. ok ((b' ' ∷ (pad w s ++ (b' ' ∷ []))) ∷ rest))

abbrev row_line : List ℕ → List Text → Result Text
row_line widths row = then_result (cells row widths) (λ c. ok (write_row 0x2502 0x2502 0x2502 c))

abbrev row_lines : List ℕ → List (List Text) → Result (List Text)
row_lines widths [] = ok []
row_lines widths (row ∷ rows) =
    then_result (row_line widths row) λ l. then_result (row_lines widths rows) λ ls. ok (l ∷ ls)

-- The first row of a table; without columns none is looked at.
abbrev header_line : List ℕ → List (List Text) → Result Text
header_line [] rows = ok (write_row 0x2502 0x2502 0x2502 [])
header_line (w ∷ widths) [] = err (panic "index out of range")
header_line (w ∷ widths) (row ∷ rows) = row_line (w ∷ widths) row

abbrev behind_first : List (List Text) → List (List Text)
behind_first [] = []
behind_first (row ∷ rows) = rows

abbrev widths_of : Option (List ℕ) → List ℕ
widths_of none = []
widths_of (some widths) = widths

-- The lines that `Print` writes.
unfoldable pub print : Table → Result (List Text)
unfolding cells write_row
print t =
    let widths = widths_of t.widths in
    let rules = map rule widths in
    then_result (header_line widths t.rows) λ header.
      then_result (row_lines widths (behind_first t.rows)) λ body. ok (
        write_row 0x256D 0x252C 0x256E rules
        ∷ header
        ∷ write_row 0x251C 0x253C 0x2524 rules
        ∷ (body ++ write_row 0x2570 0x2534 0x256F rules ∷ []))
