-- ===== src/Database/FindAll.antt =====
-- database.go: what `FindInstances` reports.
use dbctl.Base.{
  ◌≡◌, some, List, [], ◌∷◌, Text, text_eq, text_eq_iff, arith, ok, Result-cases, Bool-cases, inl,
  inr, ◌⊎◌, ap, sym, ◌∙◌,
}
use mathlib.Core.Path.{subst}
use dbctl.Base.Dict
use dbctl.Base.Dict.{Dict, lookup-insert}
use dbctl.Container.Docker.{Engine}
use dbctl.Database.{
  Instance, find_instance, find_all, find_instances, is_skipped, type_postgres, type_redis,
  type_mongodb,
}

module _ {W : Type 0} (e : Engine W) (label : Text) where
  -- It was there before, or `find_instance` found it for that type.
  abbrev Known : Dict Instance → Text → Instance → Type 0
  Known before t i =
      (Dict.lookup t before ≡ some i) ⊎ ((v : W) × ((find_instance e t label v).0 ≡ ok i))

  from_insert :
      (t u : Text) (i j : Instance) (before : Dict Instance) (w : W)
      → (find_instance e u label w).0 ≡ ok j
      → Known (Dict.insert u j before) t i
      → Known before t i
  from_insert t u i j before w q (inr k) = inr k
  from_insert t u i j before w q (inl k) = elim (Bool-cases (text_eq t u)) [
    | inl same ↦
        let at : j ≡ i = ground (arith, k, lookup-insert t u j before, same) in
        let (to, _) = text_eq_iff t u in
        inr (w, subst (λ x. (find_instance e x label w).0 ≡ ok i) (sym (to same)) (q ∙ ap ok at))
    | inr other ↦ inl (ground (arith, k, lookup-insert t u j before, other))
  ]

  find_all-Known :
      (types : List Text) (before out : Dict Instance) (w : W) (t : Text) (i : Instance)
      → (find_all e label types before w).0 ≡ ok out
      → Dict.lookup t out ≡ some i
      → Known before t i
  unfolding find_all
  find_all-Known [] before out w t i h k = inl (ground (arith, h, k))
  find_all-Known (u ∷ types) before out w t i h k =
      let v = (find_instance e u label w).1 in
      elim (Result-cases (find_instance e u label w).0) [
        | inl (j, q) ↦
            from_insert t u i j before w q
              (find_all-Known types (Dict.insert u j before) out v t i (ground (arith, h, q)) k)
        | inr (x, q) ↦ elim (Bool-cases (is_skipped e x)) [
          | inl skipped ↦ find_all-Known types before out v t i (ground (arith, h, q, skipped)) k
          | inr raised ↦ ground (arith, h, q, raised)
        ]
      ]

  -- Every instance that `find_instances` reports under a type is what `find_instance` found for that
  -- type and label.
  pub find_instances_lem :
      (w : W) (out : Dict Instance) (t : Text) (i : Instance)
      → (find_instances e label w).0 ≡ ok out
      → Dict.lookup t out ≡ some i
      → (v : W) × ((find_instance e t label v).0 ≡ ok i)
  unfolding find_instances Dict.lookup
  find_instances_lem w out t i h k =
      elim (find_all-Known (type_postgres ∷ type_redis ∷ type_mongodb ∷ []) [] out w t i h k) [
        | inl none_before ↦ absurd (ground (arith, none_before))
        | inr found ↦ found
      ]
