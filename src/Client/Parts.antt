-- ===== src/Client/Parts.antt =====
-- client.go: the parts of a form, as a list.
use dbctl.Base.{
  ◌≡◌, ◌∙◌, sym, ap, Bool, true, false, not, ◌&&◌, List, [], ◌∷◌, ◌++◌, map, Text, text_eq,
  text_eq_refl, arith, Elem, some_of, some_of-of_Elem, inl, inr,
}
use dbctl.Client.Http.{Part, file_part, field_part}
use dbctl.Client.Files.{UploadFile}
use dbctl.Client.Requests.{upload_name}

abbrev is_file : Part → Bool
is_file (file_part field_name filename content) = true
is_file (field_part name value) = false

-- The parts are the files, in their order, under the field and their escaped paths.
abbrev pub AreSent : Text → List UploadFile → List Part → Type 0
AreSent field_name [] [] = Unit {0}
AreSent field_name (f ∷ files) (p ∷ parts) =
    ((content : Text) × (p ≡ file_part field_name (upload_name f.rel) content))
    × AreSent field_name files parts
AreSent field_name [] (p ∷ parts) = ⊥
AreSent field_name (f ∷ files) [] = ⊥

-- The parts hold files only.
pub no_field :
    (field_name : Text) (files : List UploadFile) (parts : List Part)
    → AreSent field_name files parts
    → (name value : Text) (rest : List Part) → Elem (field_part name value) (parts ++ rest)
    → Elem (field_part name value) rest
no_field field_name [] [] s name value rest m = m
no_field field_name (f ∷ files) (p ∷ parts) ((content, e), s) name value rest (inl q) =
    absurd (ground (arith, ap is_file q, ap is_file e))
no_field field_name (f ∷ files) (p ∷ parts) (_, s) name value rest (inr m) =
    no_field field_name files parts s name value rest m
no_field field_name [] (p ∷ parts) s name value rest m = absurd s
no_field field_name (f ∷ files) [] s name value rest m = absurd s

pub Elem-append_right : {A : Type 0} (a : A) (l m : List A) → Elem a m → Elem a (l ++ m)
Elem-append_right a [] m e = e
Elem-append_right a (x ∷ l) m e = inr (Elem-append_right a l m e)

pub Elem-map : {A B : Type 0} (f : A → B) (a : A) (l : List A) → Elem a l → Elem (f a) (map f l)
Elem-map f a (x ∷ l) (inl e) = inl (ap f e)
Elem-map f a (x ∷ l) (inr m) = inr (Elem-map f a l m)
Elem-map f a [] m = absurd m

abbrev pub to_part : Text × Text → Part
to_part p = field_part p.0 p.1

abbrev name_of : Part → Text
name_of (file_part field_name filename content) = field_name
name_of (field_part name value) = name

abbrev value_of : Part → Text
value_of (file_part field_name filename content) = content
value_of (field_part name value) = value

pub Elem-of_part :
    (name value : Text) (l : List (Text × Text))
    → Elem (field_part name value) (map to_part l)
    → Elem (name, value) l
Elem-of_part name value (x ∷ l) (inl e) = inl (ap (λ p. (name_of p, value_of p)) e)
Elem-of_part name value (x ∷ l) (inr m) = inr (Elem-of_part name value l m)
Elem-of_part name value [] m = absurd m

abbrev pub distinct_names : List (Text × Text) → Bool
distinct_names [] = true
distinct_names (p ∷ l) = not (some_of (λ q. text_eq p.0 q.0) l) && distinct_names l

not_among :
    (name value : Text) (p : Text × Text) (l : List (Text × Text))
    → distinct_names (p ∷ l) ≡ true
    → name ≡ p.0
    → Elem (name, value) l
    → ⊥
not_among name value p l d e m = ground (
  arith,
  some_of-of_Elem (λ q. text_eq p.0 q.0) (name, value) l m (ground (arith, e, text_eq_refl name)),
  d,
)

-- A name that stands once has one value.
pub one_value :
    (name value other : Text) (l : List (Text × Text))
    → distinct_names l ≡ true
    → Elem (name, value) l
    → Elem (name, other) l
    → other ≡ value
one_value name value other [] d m k = absurd m
one_value name value other (p ∷ l) d (inl e) (inl q) = ap (λ x. x.1) q ∙ sym (ap (λ x. x.1) e)
one_value name value other (p ∷ l) d (inl e) (inr k) =
    absurd (not_among name other p l d (ap (λ x. x.0) e) k)
one_value name value other (p ∷ l) d (inr m) (inl q) =
    absurd (not_among name value p l d (ap (λ x. x.0) q) m)
one_value name value other (p ∷ l) d (inr m) (inr k) =
    one_value name value other l (ground (arith, d)) m k
