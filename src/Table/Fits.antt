-- ===== src/Table/Fits.antt =====
-- table.go: the texts of a table fit its columns.
use dbctl.Base.{
  ℕ, suc, ◌≤◌, ◌≡◌, refl, ◌∙◌, sym, ap, Option, none, some, List, [], ◌∷◌, ◌++◌, ◌==◌, length,
  append_assoc, append-nil, length-replicate, All, All-append, Text, Result, ok, then_result, arith,
  Result-cases, inl, inr, Bool-cases,
}
use mathlib.Core.Path.{subst}
use dbctl.Table.{Table, new, add_row, append_row, widen, len, rune_len, zeros}

-- Each text of the row is at most as long as the width of its column.
abbrev pub Fits : List ℕ → List Text → Type 0
Fits [] [] = Unit
Fits (w ∷ widths) (s ∷ row) = (len s ≤ w) × Fits widths row
Fits [] (s ∷ row) = ⊥
Fits (w ∷ widths) [] = ⊥

-- The rows of a table fit its widths; before the first row there are none.
abbrev pub IsTable : Table → Type 0
IsTable t = elim t.widths [ none ↦ t.rows ≡ [] | some widths ↦ All (Fits widths) t.rows ]

pub length-le-len : (s : Text) → length s ≤ len s
unfolding len rune_len
length-le-len [] = omega arith
length-le-len (c ∷ s) = ground (arith, length-le-len s)

Fits-length : (widths : List ℕ) (row : List Text) → Fits widths row → length row ≡ length widths
Fits-length [] [] f = refl
Fits-length (w ∷ widths) (s ∷ row) (_, f) = ap suc (Fits-length widths row f)
Fits-length [] (s ∷ row) f = absurd f
Fits-length (w ∷ widths) [] f = absurd f

widen-Fits :
    (row : List Text) (widths : List ℕ) → length widths ≡ length row → Fits (widen row widths) row
unfolding widen
widen-Fits [] [] h = tt
widen-Fits (s ∷ row) (w ∷ widths) h = (ground arith, widen-Fits row widths (omega (arith, h)))
widen-Fits [] (w ∷ widths) h = absurd (omega (arith, h))
widen-Fits (s ∷ row) [] h = absurd (omega (arith, h))

-- A column only grows.
widen-keeps_Fits :
    (row other : List Text) (widths : List ℕ)
    → length widths ≡ length row
    → Fits widths other
    → Fits (widen row widths) other
unfolding widen
widen-keeps_Fits [] [] [] h f = tt
widen-keeps_Fits (s ∷ row) (x ∷ other) (w ∷ widths) h (le, f) =
    (ground (arith, le), widen-keeps_Fits row other widths (omega (arith, h)) f)
widen-keeps_Fits [] (x ∷ other) [] h f = absurd f
widen-keeps_Fits (s ∷ row) other [] h f = absurd (omega (arith, h))
widen-keeps_Fits [] other (w ∷ widths) h f = absurd (omega (arith, h))
widen-keeps_Fits (s ∷ row) [] (w ∷ widths) h f = absurd f

widen-All :
    (row : List Text) (rows : List (List Text)) (widths : List ℕ)
    → length widths ≡ length row
    → All (Fits widths) rows
    → All (Fits (widen row widths)) rows
widen-All row [] widths h a = tt
widen-All row (x ∷ rows) widths h (f, a) =
    (widen-keeps_Fits row x widths h f, widen-All row rows widths h a)

next_row-IsTable :
    (row : List Text) (rows : List (List Text)) (widths : Option (List ℕ)) (u : Table)
    → IsTable (record { rows = rows; widths = widths })
    → add_row row (record { rows = rows; widths = widths }) ≡ ok u
    → IsTable u
unfolding add_row
next_row-IsTable row rows none u v h =
    let e : append_row row (zeros row) (record { rows = rows; widths = none }) ≡ u =
      ground (arith, h) in
    subst IsTable e (
      subst (All (Fits (widen row (zeros row)))) (ap (λ l. l ++ row ∷ []) (sym v))
        (widen-Fits row (zeros row) (length-replicate (length row) 0), tt))
next_row-IsTable row rows (some widths) u v h = elim (Bool-cases (length widths == length row)) [
  | inl q ↦
      let e : append_row row widths (record { rows = rows; widths = some widths }) ≡ u =
        ground (arith, q, h) in
      subst IsTable e (
        All-append (Fits (widen row widths)) rows (row ∷ [])
          (widen-All row rows widths (ground (arith, q)) v)
          (widen-Fits row widths (ground (arith, q)), tt))
  | inr q ↦ absurd (ground (arith, q, h))
]

-- The texts of a table fit its columns, whatever rows are added.
pub add_row-IsTable : (row : List Text) (t u : Table) → IsTable t → add_row row t ≡ ok u → IsTable u
add_row-IsTable row t u v h = next_row-IsTable row t.rows t.widths u v h

-- Rows added one after the other, as `runList` does.
abbrev pub add_rows : List (List Text) → Table → Result Table
add_rows [] t = ok t
add_rows (row ∷ rows) t = then_result (add_row row t) (add_rows rows)

abbrev pub HasColumn : Option (List ℕ) → Type 0
HasColumn none = ⊥
HasColumn (some []) = ⊥
HasColumn (some (w ∷ widths)) = Unit {0}

next_row-HasColumn :
    (row : List Text) (rows : List (List Text)) (widths : Option (List ℕ)) (u : Table)
    → HasColumn widths
    → add_row row (record { rows = rows; widths = widths }) ≡ ok u
    → HasColumn u.widths × (u.rows ≡ rows ++ row ∷ [])
unfolding add_row widen
next_row-HasColumn row rows none u c h = absurd c
next_row-HasColumn row rows (some []) u c h = absurd c
next_row-HasColumn [] rows (some (w ∷ widths)) u c h = absurd (ground (arith, h))
next_row-HasColumn (s ∷ row) rows (some (w ∷ widths)) u c h =
    elim (Bool-cases (length widths == length row)) [
      | inl q ↦
          let e : append_row (s ∷ row) (w ∷ widths)
                (record { rows = rows; widths = some (w ∷ widths) })
              ≡ u =
            ground (arith, q, h) in
          (subst (λ t. HasColumn t.widths) e tt, sym (ap (λ t. t.rows) e))
      | inr q ↦ absurd (ground (arith, q, h))
    ]

more_rows :
    (rows : List (List Text)) (t u : Table)
    → IsTable t
    → HasColumn t.widths
    → add_rows rows t ≡ ok u
    → IsTable u × HasColumn u.widths × (u.rows ≡ t.rows ++ rows)
more_rows [] t u v c h =
    let e : t ≡ u = ground (arith, h) in
    (
      subst IsTable e v,
      subst (λ t. HasColumn t.widths) e c,
      sym (ap (λ t. t.rows) e) ∙ sym (append-nil t.rows),
    )
more_rows (row ∷ rows) t u v c h = elim (Result-cases (add_row row t)) [
  | inl (x, q) ↦
      let (d, e) = next_row-HasColumn row t.rows t.widths x c q in
      let (a, b, k) = more_rows rows x u (add_row-IsTable row t x v q) d (ground (arith, q, h)) in
      (a, b, k ∙ ap (λ l. l ++ rows) e ∙ append_assoc t.rows (row ∷ []) rows)
  | inr (x, q) ↦ absurd (ground (arith, q, h))
]

-- A table made of rows, the first of which has a column, holds these rows, and they fit.
pub add_rows-IsTable :
    (s : Text) (row : List Text) (rows : List (List Text)) (t : Table)
    → add_rows ((s ∷ row) ∷ rows) new ≡ ok t
    → IsTable t × HasColumn t.widths × (t.rows ≡ (s ∷ row) ∷ rows)
unfolding add_row widen
add_rows-IsTable s row rows t h =
    let first = append_row (s ∷ row) (zeros (s ∷ row)) new in
    more_rows rows first t (add_row-IsTable (s ∷ row) new first refl refl) tt h
