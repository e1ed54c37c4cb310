-- ===== src/Database/Selection.antt =====
-- The containers that the labels of a type, a user or dbctl select.
use dbctl.Base.{
  ◌≡◌, Bool, true, false, ◌&&◌, [], ◌∷◌, if◌then◌else◌, Text, text_eq, text_discrete, is_empty,
  arith, none, some,
}
use dbctl.Base.Dict
use dbctl.Net.Url
use dbctl.Container.{filter_args, label_managed_by, label_dbctl, label_type, label_custom}
use dbctl.Container.Docker.{Summary, selects}
use dbctl.Database.{instance_labels}

-- The container carries the label `key` with the value `v`.
abbrev pub labelled : Text → Text → Summary → Bool
labelled key v c = elim (Dict.lookup key c.labels) [ none ↦ false | some x ↦ text_eq x v ]

abbrev pub is_managed : Summary → Bool
is_managed = labelled label_managed_by label_dbctl

-- A container of dbctl that runs the given type, and carries the user's label if one is given.
abbrev pub is_instance : Text → Text → Summary → Bool
is_instance db_type label c =
    is_managed c
    && (labelled label_type db_type c
        && (if is_empty label then true else labelled label_custom label c))

abbrev pub carries : Text → Summary → Bool
carries label c = is_managed c && labelled label_custom label c

pub selects-instance :
    (db_type label : Text) (c : Summary)
    → selects (filter_args (instance_labels db_type label)) c ≡ is_instance db_type label c
unfolding filter_args instance_labels Url.cut text_discrete
selects-instance db_type [] c = ground arith
selects-instance db_type (x ∷ label) c = ground arith

pub selects-managed : (c : Summary) → selects (filter_args []) c ≡ is_managed c
unfolding filter_args Url.cut
selects-managed c = ground arith

pub selects-carries :
    (label : Text) (c : Summary)
    → selects (filter_args ((label_custom, label) ∷ [])) c ≡ carries label c
unfolding filter_args Url.cut
selects-carries label c = ground arith
