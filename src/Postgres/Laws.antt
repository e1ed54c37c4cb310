-- ===== src/Postgres/Laws.antt =====
-- config.go of the package pg: versions, migrations and the name of a template.
use dbctl.Base.{
  ◌≡◌, refl, ◌∙◌, ap, sym, true, some, List, [], ◌∷◌, ◌++◌, Text, codes, text_eq, text_discrete,
  trim_space, is_empty, take, arith, Result, ok, inl, inr, append_assoc, append-nil, map, ◌⊎◌,
  Bool-cases,
}
use dbctl.Base.Dict
use dbctl.Base.Dict.{Dict}
use mathlib.Core.Path.{subst}
use dbctl.Files.{Files}
use dbctl.Postgres.{
  Config, with_version, get_post_gis_image, default_version, supported_versions, fallback_image,
  get_versions, is_supported, template_name, hash_input, relative, or_image,
}

module _ {W : Type 0} (files : Files W) (sha256 : Text → Text) (rel : Text → Text → Result Text)
    (contents : Text → Text) where
  -- The name and the content of each file, one behind the other.
  abbrev pub joined : Text → List Text → Text
  joined root [] = []
  joined root (f ∷ fs) = relative files sha256 rel root f ++ (contents f ++ joined root fs)

  step :
      (root f : Text) (fs : List Text) (written : Text) (w : W)
      → ((f : Text) (v : W) → files.read_file f v ≡ (ok (contents f), v))
      → hash_input files sha256 rel root (f ∷ fs) written w
        ≡ hash_input files sha256 rel root fs
            (written ++ (relative files sha256 rel root f ++ contents f))
            w
  unfolding hash_input
  step root f fs written w read = ground (arith, read f w)

  hash_input-joined :
      (root : Text) (fs : List Text) (written : Text) (w : W)
      → ((f : Text) (v : W) → files.read_file f v ≡ (ok (contents f), v))
      → hash_input files sha256 rel root fs written w ≡ (ok (written ++ joined root fs), w)
  unfolding hash_input
  hash_input-joined root [] written w read = ap (λ x. (ok x, w)) (sym (append-nil written))
  hash_input-joined root (f ∷ fs) written w read =
      let item = relative files sha256 rel root f ++ contents f in
      step root f fs written w read
      ∙ hash_input-joined root fs (written ++ item) w read
      ∙ ap (λ x. (ok x, w))
          (append_assoc written item (joined root fs)
            ∙ ap (λ x. written ++ x)
                (append_assoc (relative files sha256 rel root f) (contents f) (joined root fs)))

  -- When reading a file gives its content and changes nothing, the name of a template is a digest of
  -- the names and the contents of the files one behind the other, with nothing between them.
  pub template_name-joined :
      (root abs_root : Text) (fs : List Text) (w : W)
      → ((f : Text) (v : W) → files.read_file f v ≡ (ok (contents f), v))
      → files.abs root w ≡ (ok abs_root, w)
      → template_name files sha256 rel root fs w
        ≡ (ok (codes "dbctl_tpl_" ++ take 32 (sha256 (joined abs_root fs))), w)
  unfolding template_name
  template_name-joined root abs_root fs w read abs =
      ground (arith, abs, hash_input-joined abs_root fs [] w read)

supported_image :
    (v : Text) (images : Dict Text)
    → is_supported v (map (λ kv. kv.0) images) ≡ true
    → (image : Text) × (Dict.lookup v images ≡ some image)
unfolding is_supported Dict.lookup
supported_image v [] h = ground arith
supported_image v ((k, image) ∷ images) h = elim (Bool-cases (text_eq v k)) [
  | inl e ↦ (image, ground (arith, e))
  | inr e ↦
      let (found, q) = supported_image v images (ground (arith, e, h)) in
      (found, ground (arith, e, q))
]

own_image :
    (v : Text)
    → ((image : Text) × (Dict.lookup v supported_versions ≡ some image))
    → Dict.lookup v supported_versions ≡ some (get_post_gis_image v)
unfolding get_post_gis_image
own_image v (image, q) = q ∙ ap (λ o. some (or_image fallback_image o)) (sym q)

default_image :
    Dict.lookup default_version supported_versions ≡ some (get_post_gis_image default_version)
unfolding get_post_gis_image Dict.lookup text_discrete
default_image = refl

chosen_version :
    (version : Text) (c d : Config)
    → with_version version c ≡ ok d
    → (d.version ≡ default_version)
      ⊎ ((d.version ≡ version) × (is_supported (trim_space version) get_versions ≡ true))
unfolding with_version
chosen_version version c d h = elim (Bool-cases (is_empty (trim_space version))) [
  | inl e ↦ inl (ground (arith, e, h))
  | inr e ↦ inr (ground (arith, e, h))
]

-- A version that is accepted, and that has no space around it, has an image of its own: the image that
-- stands for unknown versions is not taken for it.
with_version-image :
    (version : Text) (c d : Config)
    → with_version version c ≡ ok d
    → trim_space version ≡ version
    → Dict.lookup d.version supported_versions ≡ some (get_post_gis_image d.version)
unfolding get_versions
with_version-image version c d h trimmed = elim (chosen_version version c d h) [
  | inl e ↦
      subst (λ v. Dict.lookup v supported_versions ≡ some (get_post_gis_image v)) (sym e)
        default_image
  | inr (e, s) ↦ own_image d.version (
      supported_image d.version supported_versions
        (ap (λ v. is_supported v get_versions) (e ∙ sym trimmed) ∙ s))
]
