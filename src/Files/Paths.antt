-- ===== src/Files/Paths.antt =====
-- `path` and `path/filepath` on names with the separator `/`.
use dbctl.Base.{
  Bool, true, false, ◌&&◌, ◌||◌, List, [], ◌∷◌, ◌++◌, if◌then◌else◌, ◌==◌, Text, text_eq, is_empty,
  split,
}
use mathlib.Core.List.{reverse}

abbrev pub dot_dot : Text
dot_dot = b'.' ∷ b'.' ∷ []

abbrev pub is_dot_dot : Text → Bool
is_dot_dot s = text_eq s dot_dot

-- One element of a path, on the elements that stand so far, the last one first: an empty element and
-- `.` are dropped, and `..` takes the last element away where there is one to take.
unfoldable pub clean_part : Bool → Text → List Text → List Text
clean_part rooted part [] =
    if is_empty part || text_eq part (b'.' ∷ [])
    then []
    else if is_dot_dot part && rooted
    then []
    else part ∷ []
clean_part rooted part (top ∷ stack) =
    if is_empty part || text_eq part (b'.' ∷ [])
    then top ∷ stack
    else if is_dot_dot part
    then (if is_dot_dot top then part ∷ top ∷ stack else stack)
    else part ∷ top ∷ stack

unfoldable pub clean_parts : Bool → List Text → List Text → List Text
unfolding clean_part
clean_parts rooted [] stack = reverse stack
clean_parts rooted (part ∷ parts) stack = clean_parts rooted parts (clean_part rooted part stack)

unfoldable pub join_parts : List Text → Text
join_parts [] = []
join_parts (p ∷ []) = p
join_parts (p ∷ q ∷ ps) = p ++ (b'/' ∷ join_parts (q ∷ ps))

abbrev pub print_path : Bool → List Text → Text
print_path true parts = b'/' ∷ join_parts parts
print_path false [] = b'.' ∷ []
print_path false (p ∷ parts) = join_parts (p ∷ parts)

-- `filepath.IsAbs`
abbrev pub is_abs : Text → Bool
is_abs [] = false
is_abs (c ∷ s) = c == b'/'

-- `filepath.Clean`
unfoldable pub clean : Text → Text
unfolding clean_parts join_parts split
clean path = print_path (is_abs path) (clean_parts (is_abs path) (split path b'/') [])

drop_last : Text → Text
drop_last [] = []
drop_last (c ∷ s) = let rest = drop_last s in if c == b'/' then s else rest

-- `filepath.Dir` of such a path
unfoldable pub dir_of : Text → Text
unfolding drop_last
dir_of path = reverse (drop_last (reverse path))

-- `path.Join` and `filepath.Join` of two names
unfoldable pub join : Text → Text → Text
unfolding clean
join a b =
    if is_empty a && is_empty b
    then []
    else if is_empty a
    then clean b
    else if is_empty b
    then clean a
    else clean (a ++ (b'/' ∷ b))
