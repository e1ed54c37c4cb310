-- ===== src/Cmd/List.antt =====
-- cmd/list.go: the running instances, in a table.
use dbctl.Base.{
  ℕ, suc, ◌+◌, ◌≤◌, ◌≡◌, refl, ◌∙◌, ap, some, List, [], ◌∷◌, ◌++◌, if◌then◌else◌, ltb, length, take,
  Text, codes, All, Result, ok, err, panic, then_result, Exec, lift, ◌>>=◌, arith,
}
use mathlib.Core.Option.{get_or}
use mathlib.Core.Path.{fun_ext}
use dbctl.Base.Dict
use dbctl.Container.{Container, list, label_type, label_custom}
use dbctl.Container.Docker.{Engine}
use dbctl.Table.{Table, new, add_row, append_row, zeros, widen, print}
use dbctl.Table.Fits.{add_rows}
use dbctl.Table.Frame.{print-is_framed}

-- `c.ID[:12]` of an id, which is in ASCII
unfoldable pub short_id : Text → Result Text
short_id id =
    if ltb (length id) 12 then err (panic "slice bounds out of range") else ok (take 12 id)

unfoldable pub row_of : Container → Result (List Text)
unfolding short_id Dict.lookup Dict.get
row_of c = then_result (short_id c.id) λ id. ok (
    id ∷ c.name ∷ Dict.get label_type c.labels ∷ get_or (Dict.lookup label_custom c.labels) [] ∷ [])

unfoldable pub add_containers : List Container → Table → Result Table
unfolding row_of add_row
add_containers [] t = ok t
add_containers (c ∷ cs) t =
    then_result (row_of c) λ row. then_result (add_row row t) λ t. add_containers cs t

abbrev pub header : List Text
header = codes "ID" ∷ codes "Name" ∷ codes "Type" ∷ codes "Label" ∷ []

-- The lines that are printed.
unfoldable pub table_of : List Container → Result (List Text)
unfolding add_containers add_row print
table_of cs = then_result (add_row header new) λ t. then_result (add_containers cs t) λ t. print t

module _ {W : Type 0} (engine : Engine W) where
  unfoldable pub run_list : Exec W (List Text)
  unfolding table_of
  run_list = do containers ← list engine []; lift (table_of containers)

abbrev pub HasLongId : Container → Type 0
HasLongId c = 12 ≤ length c.id

row_of-columns :
    (c : Container) → HasLongId c → (row : List Text) × ((row_of c ≡ ok row) × (length row ≡ 4))
unfolding row_of short_id
row_of-columns c h = (
  take 12 c.id
      ∷ c.name
      ∷ Dict.get label_type c.labels
      ∷ get_or (Dict.lookup label_custom c.labels) []
      ∷ [],
  (ground (arith, h), refl),
)

abbrev IsFour : List Text → Type 0
IsFour row = length row ≡ 4

-- The rows that the containers give.
rows_of :
    (cs : List Container)
    → All HasLongId cs
    → (rows : List (List Text)) × ((length rows ≡ length cs)
        × All IsFour rows
        × ((t : Table) → add_containers cs t ≡ add_rows rows t))
unfolding add_containers
rows_of [] a = ([], (refl, tt, λ t. refl))
rows_of (c ∷ cs) (h, a) =
    let (row, (made, four)) = row_of-columns c h in
    let (rows, (count, fours, same)) = rows_of cs a in
    (
      row ∷ rows,
      (
        ap suc count,
        (four, fours),
        λ t.
            ap (λ r. then_result r (λ row. then_result (add_row row t) (add_containers cs))) made
            ∙ ap (then_result (add_row row t)) (fun_ext same),
      ),
    )

length-widen : (row : List Text) (widths : List ℕ) → length (widen row widths) ≡ length widths
unfolding widen
length-widen [] widths = refl
length-widen (s ∷ row) [] = refl
length-widen (s ∷ row) (w ∷ widths) = ap suc (length-widen row widths)

-- Rows of four texts are taken by a table of four columns.
four_rows :
    (rows : List (List Text)) (old : List (List Text)) (widths : List ℕ)
    → length widths ≡ 4
    → All IsFour rows
    → (u : Table) × (add_rows rows (record { rows = old; widths = some widths }) ≡ ok u)
unfolding add_row
four_rows [] old widths h a = (record { rows = old; widths = some widths }, refl)
four_rows (row ∷ rows) old widths h (four, a) =
    let (u, made) =
      four_rows rows (old ++ row ∷ []) (widen row widths) (length-widen row widths ∙ h) a in
    (u, ground (arith, h, four, made))

-- The list of containers with ids of at least twelve characters is printed without a panic: a line for
-- each container and four around them, all equally long.
pub run_list-prints :
    {W : Type 0} (engine : Engine W) (w : W) (cs : List Container)
    → (list engine [] w).0 ≡ ok cs
    → All HasLongId cs
    → (n : ℕ) × (ls : List Text) × (((run_list engine w).0 ≡ ok ls)
        × (length ls ≡ length cs + 4)
        × All (λ l. length l ≡ n) ls)
unfolding run_list table_of add_row
run_list-prints engine w cs h a =
    let (rows, (count, fours, same)) = rows_of cs a in
    let first = append_row header (zeros header) new in
    let (t, made) = four_rows rows first.rows (widen header (zeros header)) refl fours in
    let (n, ls, (printed, lines, equal)) = print-is_framed (codes "ID") _ rows t made in
    (n, ls, (ground (arith, h, same first, made, printed), omega (arith, lines, count), equal))
