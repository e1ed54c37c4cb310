-- ===== src/ApiServer/Upload/Safe.antt =====
-- server.go: an uploaded file stays inside the directory that it is written to.
use dbctl.Base.{
  ◌≡◌, ◌≢◌, refl, ◌∙◌, sym, ap, Bool, true, false, not, ◌&&◌, ◌||◌, List, [], ◌∷◌, ◌++◌,
  if◌then◌else◌, Text, text_eq, is_empty, has_prefix, split, arith, ok, err, errorf, all_of, inl,
  inr, ◌⊎◌, Bool-cases, split_from,
}
use mathlib.Core.Path.{subst}
use mathlib.Core.Bool.{true≢false}
use mathlib.Core.List.{reverse, reverse-cons}
use dbctl.Files.{no_slash, no_slash-append}
use dbctl.Net.Url
use dbctl.Files.Paths.{
  clean, clean_part, clean_parts, join_parts, print_path, is_abs, is_dot_dot, dot_dot,
}
use dbctl.ApiServer.Upload.{upload_path, or_raw}

-- A name of a file or a directory, and not one of the names `.` and `..` of directories that exist.
abbrev pub is_plain : Text → Bool
is_plain s = (not (is_empty s) && not (text_eq s (b'.' ∷ []))) && (no_slash s && not (is_dot_dot s))

-- An element that stands on the stack of `clean`.
abbrev is_element : Text → Bool
is_element s = (not (is_empty s) && not (text_eq s (b'.' ∷ []))) && no_slash s

-- The stack: plain elements, and below them elements `..` only.
abbrev is_stack : List Text → Bool
is_stack [] = true
is_stack (p ∷ l) =
    is_element p && (is_stack l && (if is_dot_dot p then all_of is_dot_dot l else true))

split-no_slash :
    (part s : Text) → no_slash part ≡ true → all_of no_slash (split_from b'/' part s) ≡ true
unfolding split_from
split-no_slash part [] h = ground arith
split-no_slash part (c ∷ s) h = ground (
  arith,
  h,
  split-no_slash [] s refl,
  split-no_slash (part ++ c ∷ []) s,
  no_slash-append part (c ∷ []) h,
)

clean_part-is_stack :
    (part : Text) (l : List Text)
    → no_slash part ≡ true
    → is_stack l ≡ true
    → is_stack (clean_part false part l) ≡ true
unfolding clean_part
clean_part-is_stack part [] h k = ground arith
clean_part-is_stack part (p ∷ l) h k = ground arith

-- What `clean_parts` ends with is the reverse of a stack.
clean_parts-is_stack :
    (parts l : List Text)
    → all_of no_slash parts ≡ true
    → is_stack l ≡ true
    → (m : List Text) × ((is_stack m ≡ true) × (clean_parts false parts l ≡ reverse m))
unfolding clean_parts
clean_parts-is_stack [] l h k = (l, (k, refl))
clean_parts-is_stack (part ∷ parts) l h k =
    clean_parts-is_stack parts (clean_part false part l) (ground arith)
      (ground (arith, clean_part-is_stack part l))

plain_element : (s : Text) → is_element s ≡ true → is_dot_dot s ≡ false → is_plain s ≡ true
plain_element s h k = ground arith

reverse-dots :
    (p : Text) (m : List Text)
    → all_of is_dot_dot (p ∷ m) ≡ true
    → (l : List Text) × (reverse (p ∷ m) ≡ dot_dot ∷ l)
reverse-dots p [] h = ([], ap (λ x. x ∷ []) (ground arith))
reverse-dots p (q ∷ m) h =
    let (l, e) = reverse-dots q m (ground arith) in
    (l ++ p ∷ [], reverse-cons p (q ∷ m) ∙ ap (λ x. x ++ p ∷ []) e)

-- A stack is plain, or the reverse of it starts with `..`.
stack_cases :
    (m : List Text)
    → is_stack m ≡ true
    → (all_of is_plain m ≡ true) ⊎ ((l : List Text) × (reverse m ≡ dot_dot ∷ l))
stack_cases [] h = inl refl
stack_cases (p ∷ m) h = elim (Bool-cases (is_dot_dot p)) [
  | inl e ↦ inr (reverse-dots p m (ground (arith, e, h)))
  | inr e ↦ elim (stack_cases m (ground arith)) [
    | inl k ↦ inl (ground (arith, plain_element p))
    | inr (l, k) ↦ inr (l ++ p ∷ [], reverse-cons p m ∙ ap (λ x. x ++ p ∷ []) k)
  ]
]

all_of-append :
    (l m : List Text)
    → all_of is_plain l ≡ true
    → all_of is_plain m ≡ true
    → all_of is_plain (l ++ m) ≡ true
all_of-append [] m h k = k
all_of-append (x ∷ l) m h k = ground (arith, all_of-append l m)

all_of-reverse : (m : List Text) → all_of is_plain m ≡ true → all_of is_plain (reverse m) ≡ true
all_of-reverse [] h = refl
all_of-reverse (p ∷ m) h =
    ap (all_of is_plain) (reverse-cons p m)
    ∙ all_of-append (reverse m) (p ∷ []) (all_of-reverse m (ground arith)) (ground arith)

starts_dot_dot : (l : List Text) → has_prefix (print_path false (dot_dot ∷ l)) dot_dot ≡ true
unfolding join_parts has_prefix
starts_dot_dot [] = refl
starts_dot_dot (p ∷ l) = refl

-- A path below the directory that it is joined to: a chain of plain names.
abbrev pub IsInside : Text → Type 0
IsInside name =
    (parts : List Text) × ((all_of is_plain parts ≡ true)
      × (parts ≢ [])
      × (name ≡ join_parts parts))

print_path-IsInside :
    (parts : List Text)
    → all_of is_plain parts ≡ true
    → text_eq (print_path false parts) (b'.' ∷ []) ≡ false
    → IsInside (print_path false parts)
print_path-IsInside [] h k = ground arith
print_path-IsInside (p ∷ l) h k = (p ∷ l, (h, (λ e. cc), refl))

-- The tests of `upload_path` leave only clean relative names.
relative-IsInside :
    (rooted : Bool) (parts : List Text)
    → all_of no_slash parts ≡ true
    → (let name = print_path rooted (clean_parts rooted parts []) in
        text_eq name (b'.' ∷ []) ≡ false
        → is_abs name ≡ false
        → has_prefix name dot_dot ≡ false
        → IsInside name)
relative-IsInside true parts n dot rel out = ground arith
relative-IsInside false parts n dot rel out =
    let (m, (stack, e)) = clean_parts-is_stack parts [] n refl in
    elim (stack_cases m stack) [
      | inl plain ↦
          subst (λ l. IsInside (print_path false l)) (sym e)
            (print_path-IsInside (reverse m) (all_of-reverse m plain)
              (subst (λ l. text_eq (print_path false l) (b'.' ∷ []) ≡ false) e dot))
      | inr (l, q) ↦ absurd (
          true≢false (
            sym (ap (λ k. has_prefix (print_path false k) dot_dot) (e ∙ q) ∙ starts_dot_dot l)
            ∙ out))
    ]

named :
    (filename n name : Text)
    → (if text_eq n (b'.' ∷ []) || (text_eq n (b'/' ∷ []) || is_empty n)
        then err (errorf "invalid file name %q" (filename ∷ []))
        else if is_abs n || has_prefix n dot_dot
        then err (errorf "file name %q is outside the upload directory" (filename ∷ []))
        else ok n)
      ≡ ok name
    → (name ≡ n)
      × (text_eq n (b'.' ∷ []) ≡ false)
      × (is_abs n ≡ false)
      × (has_prefix n dot_dot ≡ false)
named filename n name h = elim (Bool-cases (has_prefix n dot_dot)) [
  | inl q ↦ ground (arith, q)
  | inr q ↦ ground (arith, q)
]

clean_tests :
    (filename name : Text)
    → upload_path filename ≡ ok name
    → (name ≡ clean (or_raw filename (Url.unescape filename)))
      × (text_eq name (b'.' ∷ []) ≡ false)
      × (is_abs name ≡ false)
      × (has_prefix name dot_dot ≡ false)
unfolding upload_path
clean_tests filename name h =
    let n = clean (or_raw filename (Url.unescape filename)) in
    let (e, dot, rel, out) = named filename n name h in
    (
      e,
      ap (λ m. text_eq m (b'.' ∷ [])) e ∙ dot,
      ap is_abs e ∙ rel,
      ap (λ m. has_prefix m dot_dot) e ∙ out,
    )

-- The name under which an upload is written is a chain of plain names: none is empty, `.` or `..`,
-- and none holds a separator.
pub upload_path-IsInside : (filename name : Text) → upload_path filename ≡ ok name → IsInside name
unfolding clean split
upload_path-IsInside filename name h =
    let (e, dot, rel, out) = clean_tests filename name h in
    let path = or_raw filename (Url.unescape filename) in
    subst IsInside (sym e) (
      relative-IsInside (is_abs path) (split path b'/') (split-no_slash [] path refl)
        (ap (λ n. text_eq n (b'.' ∷ [])) (sym e) ∙ dot) (ap is_abs (sym e) ∙ rel)
        (ap (λ n. has_prefix n dot_dot) (sym e) ∙ out))
