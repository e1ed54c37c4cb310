-- ===== src/Redis/Fixtures/Split.antt =====
-- `splitCommand`, and the lines that it takes apart.
use dbctl.Base.{
  ℕ, ◌≡◌, ◌≢◌, refl, ◌∙◌, Bool, true, false, not, ◌||◌, List, [], ◌∷◌, ◌++◌, append_assoc,
  append-nil, if◌then◌else◌, ◌==◌, Text, codes, is_space, Result, ok, err, is_ok, errorf, arith,
  All,
}

abbrev is_quote : ℕ → Bool
is_quote r = r == 0x27 || r == 0x22

-- The loop over the runes: the arguments so far, the current one, the open quote or 0, and whether an
-- argument has been started.
unfoldable pub split_loop : Text → Text → List Text → Text → ℕ → Bool → Result (List Text)
unfolding is_space
split_loop line [] args current quote started =
    if not (quote == 0)
    then err (errorf "unbalanced %q in %q" ((quote ∷ []) ∷ line ∷ []))
    else if started
    then ok (args ++ current ∷ [])
    else ok args
split_loop line (r ∷ s) args current quote started =
    let closed = split_loop line s args current 0 started in
    let quoted = split_loop line s args (current ++ r ∷ []) quote started in
    let opened = split_loop line s args current r true in
    let pushed = split_loop line s (args ++ current ∷ []) [] quote false in
    let skipped = split_loop line s args current quote started in
    let written = split_loop line s args (current ++ r ∷ []) quote true in
    if not (quote == 0)
    then (if r == quote then closed else quoted)
    else if is_quote r
    then opened
    else if is_space r
    then (if started then pushed else skipped)
    else written

unfoldable pub split_command : Text → Result (List Text)
unfolding split_loop
split_command line = split_loop line line [] [] 0 false

-- The quote that is open behind a text, or 0.
pub open_quote : ℕ → Text → ℕ
open_quote q [] = q
open_quote q (r ∷ s) =
    open_quote (if not (q == 0) then (if r == q then 0 else q) else if is_quote r then r else 0) s

split_loop-fails :
    (line s : Text) (args : List Text) (current : Text) (quote : ℕ) (started : Bool)
    → is_ok (split_loop line s args current quote started) ≡ (open_quote quote s == 0)
unfolding split_loop open_quote
split_loop-fails line [] args current quote started = ground arith
split_loop-fails line (r ∷ s) args current quote started = ground (
  arith,
  split_loop-fails line s args current 0 started,
  split_loop-fails line s args (current ++ r ∷ []) quote started,
  split_loop-fails line s args current r true,
  split_loop-fails line s (args ++ current ∷ []) [] quote false,
  split_loop-fails line s args current quote started,
  split_loop-fails line s args (current ++ r ∷ []) quote true,
)

-- A line is refused exactly when it ends inside a quote.
pub split_command-fails : (line : Text) → is_ok (split_command line) ≡ (open_quote 0 line == 0)
unfolding split_command
split_command-fails line = split_loop-fails line line [] [] 0 false

abbrev pub Lacks : ℕ → Text → Type 0
Lacks q = All (λ c. c ≢ q)

-- A quoted argument: whatever it holds but its own quote is kept together.
abbrev pub quoted : ℕ → Text → Text
quoted q arg = q ∷ (arg ++ (q ∷ []))

-- The arguments, each in double quotes, with a space behind each.
abbrev pub render : List Text → Text
render [] = []
render (arg ∷ args) = quoted 0x22 arg ++ (0x20 ∷ render args)

inside :
    (line arg rest : Text) (args : List Text) (current : Text)
    → Lacks 0x22 arg
    → split_loop line (arg ++ rest) args current 0x22 true
      ≡ split_loop line rest args (current ++ arg) 0x22 true
unfolding split_loop
inside line [] rest args current h = rw append-nil
inside line (c ∷ arg) rest args current (hc, h) =
    ground
      (arith, inside line arg rest args (current ++ c ∷ []) h, append_assoc current (c ∷ []) arg)

one_quoted :
    (line arg rest : Text) (args : List Text)
    → Lacks 0x22 arg
    → split_loop line (quoted 0x22 arg ++ (0x20 ∷ rest)) args [] 0 false
      ≡ split_loop line rest (args ++ arg ∷ []) [] 0 false
unfolding split_loop
one_quoted line arg rest args h = ground (
  arith,
  inside line arg ((0x22 ∷ []) ++ (0x20 ∷ rest)) args [] h,
  append_assoc arg (0x22 ∷ []) (0x20 ∷ rest),
)

split_loop-render :
    (line : Text) (todo done : List Text)
    → All (Lacks 0x22) todo
    → split_loop line (render todo) done [] 0 false ≡ ok (done ++ todo)
split_loop-render line [] done h = unfold split_loop in rw append-nil
split_loop-render line (arg ∷ todo) done (h, hs) =
    one_quoted line arg (render todo) done h
    ∙ split_loop-render line todo (done ++ arg ∷ []) hs
    ∙ rw append_assoc

-- Arguments in double quotes are read back as they are, spaces, other quotes and empty ones included,
-- as long as none holds a double quote.
pub split_command-render :
    (args : List Text) → All (Lacks 0x22) args → split_command (render args) ≡ ok args
unfolding split_command
split_command-render args h = split_loop-render (render args) args [] h

split_test :
    split_command (codes "SET 'a b' \"c\"d  x")
    ≡ ok (codes "SET" ∷ codes "a b" ∷ codes "cd" ∷ codes "x" ∷ [])
unfolding split_command
split_test = refl
