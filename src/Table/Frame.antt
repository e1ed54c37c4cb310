-- ===== src/Table/Frame.antt =====
-- table.go: the frame closes: the lines of a table are equally long.
use dbctl.Base.{
  ℕ, suc, ◌+◌, ◌-◌, ◌≤◌, ◌≡◌, refl, ◌∙◌, sym, ap, Option, none, some, List, [], ◌∷◌, ◌++◌, map,
  length, length-append, length-replicate, replicate, All, All-append, Text, ok, arith,
}
use mathlib.Core.Path.{subst, ap₂}
use dbctl.Table.{Table, new, len, pad, join, write_row, cells, row_line, row_lines, print, rule}
use dbctl.Table.Fits.{Fits, IsTable, length-le-len, HasColumn, add_rows, add_rows-IsTable}

abbrev pub total : List ℕ → ℕ
total [] = 0
total (n ∷ l) = (n + 1) + total l

length-join :
    (m : ℕ) (c : Text) (cs : List Text) → length (join m (c ∷ cs)) + 1 ≡ total (map length (c ∷ cs))
length-join m c [] = omega arith
length-join m c (d ∷ cs) = omega (arith, length-append c (m ∷ join m (d ∷ cs)), length-join m d cs)

length-write_row :
    (l m r : ℕ) (c : Text) (cs : List Text)
    → length (write_row l m r (c ∷ cs)) ≡ 1 + total (map length (c ∷ cs))
unfolding write_row
length-write_row l m r c cs =
    omega (arith, length-append (join m (c ∷ cs)) (r ∷ []), length-join m c cs)

abbrev blank : ℕ
blank = b' '

abbrev dash : ℕ
dash = 0x2500

width_of_cell :
    (w : ℕ) (s : Text) → len s ≤ w → length (b' ' ∷ (pad w s ++ (b' ' ∷ []))) ≡ length (rule w)
width_of_cell w s le = omega (
  arith,
  le,
  length-le-len s,
  length-append (pad w s) (b' ' ∷ []),
  length-append s (replicate (w - length s) blank),
  length-replicate (w - length s) blank,
  length-replicate (w + 2) dash,
)

-- The cells of a row that fits are as wide as the rules.
cells-width :
    (widths : List ℕ) (row : List Text)
    → Fits widths row
    → (cs : List Text) × ((cells row widths ≡ ok cs)
        × (map length cs ≡ map length (map rule widths)))
unfolding cells
cells-width [] [] f = ([], (refl, refl))
cells-width (w ∷ widths) (s ∷ row) (le, f) =
    let (cs, (made, same)) = cells-width widths row f in
    (
      (b' ' ∷ (pad w s ++ (b' ' ∷ []))) ∷ cs,
      (ground (arith, made), ap₂ ◌∷◌ (width_of_cell w s le) same),
    )
cells-width [] (s ∷ row) f = absurd f
cells-width (w ∷ widths) [] f = absurd f

-- The width of a table with columns.
abbrev pub line_width : List ℕ → ℕ
line_width widths = 1 + total (map length (map rule widths))

written-width :
    (w : ℕ) (widths : List ℕ) (cs : List Text)
    → map length cs ≡ map length (map rule (w ∷ widths))
    → length (write_row 0x2502 0x2502 0x2502 cs) ≡ line_width (w ∷ widths)
written-width w widths [] same = absurd (ground (arith, same))
written-width w widths (c ∷ cs) same =
    length-write_row 0x2502 0x2502 0x2502 c cs ∙ ap (λ l. 1 + total l) same

row_line-width :
    (w : ℕ) (widths : List ℕ) (row : List Text)
    → Fits (w ∷ widths) row
    → (l : Text) × ((row_line (w ∷ widths) row ≡ ok l) × (length l ≡ line_width (w ∷ widths)))
unfolding write_row
row_line-width w widths row f =
    let (cs, (made, same)) = cells-width (w ∷ widths) row f in
    (write_row 0x2502 0x2502 0x2502 cs, (ground (arith, made), written-width w widths cs same))

abbrev HasWidth : ℕ → Text → Type 0
HasWidth n l = length l ≡ n

row_lines-width :
    (w : ℕ) (widths : List ℕ) (rows : List (List Text))
    → All (Fits (w ∷ widths)) rows
    → (ls : List Text) × ((row_lines (w ∷ widths) rows ≡ ok ls)
        × (length ls ≡ length rows)
        × All (HasWidth (line_width (w ∷ widths))) ls)
row_lines-width w widths [] a = ([], (refl, refl, tt))
row_lines-width w widths (row ∷ rows) (f, a) =
    let (l, (made, width)) = row_line-width w widths row f in
    let (ls, (others, count, equal)) = row_lines-width w widths rows a in
    (l ∷ ls, (ground (arith, made, others), ap suc count, (width, equal)))

rule-width :
    (l m r w : ℕ) (widths : List ℕ)
    → length (write_row l m r (map rule (w ∷ widths))) ≡ line_width (w ∷ widths)
rule-width l m r w widths = length-write_row l m r (rule w) (map rule widths)

framed :
    (row : List Text) (rows : List (List Text)) (w : ℕ) (widths : List ℕ)
    → All (Fits (w ∷ widths)) (row ∷ rows)
    → (ls : List Text) × ((print (record { rows = row ∷ rows; widths = some (w ∷ widths) }) ≡ ok ls)
        × (length ls ≡ length (row ∷ rows) + 3)
        × All (HasWidth (line_width (w ∷ widths))) ls)
unfolding print
framed row rows w widths (f, a) =
    let (header, (made, width)) = row_line-width w widths row f in
    let (body, (others, count, equal)) = row_lines-width w widths rows a in
    let rules = map rule (w ∷ widths) in
    let last = write_row 0x2570 0x2534 0x256F rules in
    (
      write_row 0x256D 0x252C 0x256E rules
          ∷ header
          ∷ write_row 0x251C 0x253C 0x2524 rules
          ∷ (body ++ last ∷ []),
      (
        ground (arith, made, others),
        omega (arith, count, length-append body (last ∷ [])),
        (
          rule-width 0x256D 0x252C 0x256E w widths,
          (
            width,
            (
              rule-width 0x251C 0x253C 0x2524 w widths,
              All-append (HasWidth (line_width (w ∷ widths))) body (last ∷ []) equal
                  (rule-width 0x2570 0x2534 0x256F w widths, tt),
            ),
          ),
        ),
      ),
    )

framed_table :
    (row : List Text) (rows : List (List Text)) (widths : Option (List ℕ))
    → IsTable (record { rows = row ∷ rows; widths = widths })
    → HasColumn widths
    → (n : ℕ) × (ls : List Text) × ((print (record { rows = row ∷ rows; widths = widths }) ≡ ok ls)
        × (length ls ≡ length (row ∷ rows) + 3)
        × All (HasWidth n) ls)
framed_table row rows none v c = absurd c
framed_table row rows (some []) v c = absurd c
framed_table row rows (some (w ∷ widths)) v c =
    let (ls, framed_ls) = framed row rows w widths v in (line_width (w ∷ widths), ls, framed_ls)

-- A table made of rows, the first of which has a column, is printed without a panic, and its lines,
-- one for each row and three for the frame, have the same number of code points.
pub print-is_framed :
    (s : Text) (row : List Text) (rows : List (List Text)) (t : Table)
    → add_rows ((s ∷ row) ∷ rows) new ≡ ok t
    → (n : ℕ) × (ls : List Text) × ((print t ≡ ok ls)
        × (length ls ≡ length ((s ∷ row) ∷ rows) + 3)
        × All (λ l. length l ≡ n) ls)
print-is_framed s row rows t h =
    let (v, c, e) = add_rows-IsTable s row rows t h in
    let same : t ≡ record { rows = (s ∷ row) ∷ rows; widths = t.widths } =
      ap (λ l. record { rows = l; widths = t.widths }) e in
    subst
      (λ u.
        (n : ℕ) × (ls : List Text) × ((print u ≡ ok ls)
          × (length ls ≡ length ((s ∷ row) ∷ rows) + 3)
          × All (HasWidth n) ls))
      (sym same) (framed_table (s ∷ row) rows t.widths (subst IsTable same v) c)
