-- ===== src/Database/Find.antt =====
-- database.go: `FindInstance` against the containers of the engine.
use mathlib.Core.Path.{fun_ext}
use dbctl.Base.{
  ◌≡◌, refl, sym, ◌∙◌, ap, true, List, [], ◌∷◌, Text, arith, ok, err, Result-cases, Error, wraps,
  no_instance, ambiguous_instance, inl, inr, keep, is_ok,
}
use dbctl.Container.{Container, list}
use dbctl.Container.Docker.{Engine, Observed}
use dbctl.Container.Laws.{ids, summary_ids, list-selects}
use dbctl.Database.{Instance, instance_of, instance_labels, choose_instance, find_instance, port_of}
use dbctl.Database.Selection.{is_instance, selects-instance}

chosen_id :
    (db_type label : Text) (l : List Container) (i : Instance)
    → choose_instance db_type label l ≡ ok i
    → ids l ≡ i.id ∷ []
unfolding choose_instance instance_of
chosen_id db_type label [] i h = ground (arith, h)
chosen_id db_type label (c ∷ []) i h = elim (Result-cases (port_of c)) [
  | inl (p, q) ↦ ground (arith, h, q)
  | inr (e, q) ↦ ground (arith, h, q)
]
chosen_id db_type label (c ∷ d ∷ l) i h = ground (arith, h)

chosen_none :
    (db_type label : Text) (l : List Container)
    → ids l ≡ []
    → (e : Error) × ((choose_instance db_type label l ≡ err e) × (wraps no_instance e ≡ true))
unfolding choose_instance wraps
chosen_none db_type [] [] h = (_, (refl, refl))
chosen_none db_type (x ∷ label) [] h = (_, (refl, refl))
chosen_none db_type label (c ∷ l) h = ground (arith, h)

chosen_many :
    (db_type label i j : Text) (rest : List Text) (l : List Container)
    → ids l ≡ i ∷ j ∷ rest
    → (e : Error) × ((choose_instance db_type label l ≡ err e)
        × (wraps ambiguous_instance e ≡ true))
unfolding choose_instance wraps
chosen_many db_type label i j rest [] h = ground (arith, h)
chosen_many db_type label i j rest (c ∷ []) h = ground (arith, h)
chosen_many db_type label i j rest (c ∷ d ∷ l) h = (_, (refl, refl))

module _ {W : Type 0} (e : Engine W) (o : Observed e) (db_type label : Text) (w : W) where
  abbrev instances : List Text
  instances = summary_ids (keep (is_instance db_type label) (o.containers w))

  listed :
      (l : List Container) → (list e (instance_labels db_type label) w).0 ≡ ok l → ids l ≡ instances
  listed l q =
      list-selects e o (instance_labels db_type label) w l q
      ∙ ap (λ p. summary_ids (keep p (o.containers w))) (fun_ext (selects-instance db_type label))

  -- An instance that is found is the only one of its type, under the label if one is given.
  pub find_instance_unique :
      (i : Instance)
      → (find_instance e db_type label w).0 ≡ ok i
      → summary_ids (keep (is_instance db_type label) (o.containers w)) ≡ i.id ∷ []
  unfolding find_instance
  find_instance_unique i h = elim (Result-cases (list e (instance_labels db_type label) w).0) [
    | inl (l, q) ↦ sym (listed l q) ∙ chosen_id db_type label l i (ground (arith, q, h))
    | inr (x, q) ↦ ground (arith, q, h)
  ]

  -- When the engine lists its containers and none is an instance of the type, under the label if one
  -- is given, the error is `no_instance`.
  pub find_instance-none :
      is_ok (list e (instance_labels db_type label) w).0 ≡ true
      → summary_ids (keep (is_instance db_type label) (o.containers w)) ≡ []
      → (x : Error) × (((find_instance e db_type label w).0 ≡ err x) × (wraps no_instance x ≡ true))
  unfolding find_instance
  find_instance-none h none = elim (Result-cases (list e (instance_labels db_type label) w).0) [
    | inl (l, q) ↦
        let (x, (k, t)) = chosen_none db_type label l (listed l q ∙ none) in
        (x, (ground (arith, q, k), t))
    | inr (x, q) ↦ ground (arith, q, h)
  ]

  -- When the engine lists its containers and more than one is such an instance, the error is
  -- `ambiguous_instance`.
  find_instance-ambiguous :
      (i j : Text) (rest : List Text)
      → is_ok (list e (instance_labels db_type label) w).0 ≡ true
      → summary_ids (keep (is_instance db_type label) (o.containers w)) ≡ i ∷ j ∷ rest
      → (x : Error) × (((find_instance e db_type label w).0 ≡ err x)
          × (wraps ambiguous_instance x ≡ true))
  unfolding find_instance
  find_instance-ambiguous i j rest h many =
      elim (Result-cases (list e (instance_labels db_type label) w).0) [
        | inl (l, q) ↦
            let (x, (k, t)) = chosen_many db_type label i j rest l (listed l q ∙ many) in
            (x, (ground (arith, q, k), t))
        | inr (x, q) ↦ ground (arith, q, h)
      ]
