-- ===== src/Client/Upload.antt =====
-- client.go and server.go: a file arrives under the path that it has below the directory it was found in.
use dbctl.Base.{
  ℕ, ◌/◌, ◌%◌, ◌<◌, ◌≡◌, ◌≢◌, refl, ◌∙◌, sym, ap, true, false, List, [], ◌∷◌, ◌++◌, if◌then◌else◌,
  ◌==◌, Text, text_eq, is_empty, has_prefix, split, split_from, arith, ok, err, errorf, all_of,
  append_assoc, append-nil, inl, inr, Bool-cases,
}
use mathlib.Core.List.{reverse, reverse-cons}
use dbctl.Files.{no_slash, no_slash-append, base, base-no_slash}
use dbctl.Net.Url
use dbctl.Net.Url.Escape.{all_bytes, unescape-escape}
use dbctl.Files.Paths.{clean, clean_part, clean_parts, join_parts, is_abs, dot_dot}
use dbctl.ApiServer.Upload.{upload_path}
use dbctl.ApiServer.Upload.Safe.{is_plain}
use dbctl.Client.Requests.{upload_name}

no_slash-hex_digit : (n : ℕ) → n < 16 → (Url.hex_digit n == b'/') ≡ false
unfolding Url.hex_digit
no_slash-hex_digit n h = ground arith

no_slash-escape_one : (c : ℕ) → c < 256 → no_slash (Url.escape_one Url.encode_segment c) ≡ true
unfolding Url.escape_one Url.should_escape Url.is_alnum
no_slash-escape_one c h = elim (Bool-cases (Url.should_escape Url.encode_segment c)) [
  | inl e ↦ ground (arith, e, no_slash-hex_digit (c / 16), no_slash-hex_digit (c % 16))
  | inr e ↦ ground (arith, e)
]

no_slash-escape :
    (s : Text) → all_bytes s ≡ true → no_slash (Url.escape Url.encode_segment s) ≡ true
unfolding Url.escape
no_slash-escape [] h = refl
no_slash-escape (c ∷ s) h =
    no_slash-append (Url.escape_one Url.encode_segment c) (Url.escape Url.encode_segment s)
      (no_slash-escape_one c (ground arith)) (no_slash-escape s (ground arith))

escape-ne-nil : (s : Text) → s ≢ [] → Url.escape Url.encode_segment s ≢ []
unfolding Url.escape Url.escape_one
escape-ne-nil [] n = absurd (n refl)
escape-ne-nil (c ∷ s) n = ground arith

-- Splitting a chain of names gives the names.
split_from-join_parts :
    (acc p : Text) (l : List Text)
    → no_slash p ≡ true
    → all_of is_plain l ≡ true
    → split_from b'/' acc (join_parts (p ∷ l)) ≡ (acc ++ p) ∷ l
unfolding split_from join_parts
split_from-join_parts acc [] [] h k = ap (λ x. x ∷ []) (sym (append-nil acc))
split_from-join_parts acc [] (q ∷ l) h k =
    ground (arith, append-nil acc, split_from-join_parts [] q l)
split_from-join_parts acc (c ∷ p) [] h k =
    ground (arith, split_from-join_parts (acc ++ c ∷ []) p [], append_assoc acc (c ∷ []) p)
split_from-join_parts acc (c ∷ p) (q ∷ l) h k =
    ground (arith, split_from-join_parts (acc ++ c ∷ []) p (q ∷ l), append_assoc acc (c ∷ []) p)

clean_part_plain : (p : Text) (l : List Text) → is_plain p ≡ true → clean_part false p l ≡ p ∷ l
unfolding clean_part
clean_part_plain p [] h = ground arith
clean_part_plain p (q ∷ l) h = ground arith

clean_parts_plain :
    (parts l : List Text)
    → all_of is_plain parts ≡ true
    → clean_parts false parts l ≡ reverse l ++ parts
unfolding clean_parts
clean_parts_plain [] l h = sym (append-nil (reverse l))
clean_parts_plain (p ∷ parts) l h =
    ap (clean_parts false parts) (clean_part_plain p l (ground arith))
    ∙ clean_parts_plain parts (p ∷ l) (ground arith)
    ∙ ap (λ x. x ++ parts) (reverse-cons p l)
    ∙ append_assoc (reverse l) (p ∷ []) parts

-- A chain of plain names is not absolute, and is neither empty nor the name of a directory.
join_parts-is_relative :
    (p : Text) (l : List Text)
    → is_plain p ≡ true
    → (is_abs (join_parts (p ∷ l)) ≡ false)
      × (is_empty (join_parts (p ∷ l)) ≡ false)
      × (text_eq (join_parts (p ∷ l)) (b'.' ∷ []) ≡ false)
      × (text_eq (join_parts (p ∷ l)) (b'/' ∷ []) ≡ false)
unfolding join_parts
join_parts-is_relative [] l h = ground arith
join_parts-is_relative (c ∷ []) [] h = ground arith
join_parts-is_relative (c ∷ d ∷ p) [] h = ground arith
join_parts-is_relative (c ∷ []) (q ∷ l) h = ground arith
join_parts-is_relative (c ∷ d ∷ p) (q ∷ l) h = ground arith

clean-join_parts :
    (p : Text) (l : List Text)
    → all_of is_plain (p ∷ l) ≡ true
    → clean (join_parts (p ∷ l)) ≡ join_parts (p ∷ l)
unfolding clean split
clean-join_parts p l h =
    let (relative, _, _, _) = join_parts-is_relative p l (ground arith) in
    ground (arith, relative, split_from-join_parts [] p l, clean_parts_plain (p ∷ l) [])

-- The name that the client escapes is a single element of a path, which the parsing of a form leaves
-- alone, and from it the server gets the path back, for a chain of plain names. Only if the path
-- starts with two dots, as `..data` does, it is refused, as one outside the upload directory.
pub upload_path-upload_name :
    (parts : List Text)
    → parts ≢ []
    → all_of is_plain parts ≡ true
    → all_bytes (join_parts parts) ≡ true
    → upload_path (base (upload_name (join_parts parts))) ≡ (
        if has_prefix (join_parts parts) dot_dot
        then err (
            errorf "file name %q is outside the upload directory"
              (base (upload_name (join_parts parts)) ∷ []))
        else ok (join_parts parts))
unfolding upload_path upload_name
upload_path-upload_name [] n plain bytes = absurd (n refl)
upload_path-upload_name (p ∷ l) n plain bytes =
    let rel = join_parts (p ∷ l) in
    let (relative, nonempty, not_dot, not_slash) = join_parts-is_relative p l (ground arith) in
    ground (
      arith,
      relative,
      nonempty,
      not_dot,
      not_slash,
      base-no_slash (Url.escape Url.encode_segment rel) (no_slash-escape rel bytes)
          (escape-ne-nil rel (ground (arith, nonempty))),
      unescape-escape Url.encode_segment rel refl bytes,
      clean-join_parts p l plain,
    )
