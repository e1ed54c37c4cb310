-- ===== src/Cmd/Stop/Laws.antt =====
-- Which containers `dbctl stop` removes, and which it leaves.
use dbctl.Base.{
  ℕ, ◌+◌, ◌≡◌, refl, ◌∙◌, ap, Bool, not, List, [], ◌∷◌, map, Text, keep, some_of, length, arith, ok,
  Result-cases, inl, inr, for_each,
}
use mathlib.Core.Path.{fun_ext}
use dbctl.Base.Dict
use dbctl.Container.{Container, list, filter_args, terminate_by_id}
use dbctl.Container.Docker.{Engine, Summary, Observed, selects}
use dbctl.Container.Laws.{ids, UniqueIds, list-keeps, list-selects, remove_all, keep-not_selected}
use dbctl.Database.{instances_of, instance_labels, to_info}
use dbctl.Database.Selection.{is_managed, is_instance, selects-instance, selects-managed}
use dbctl.Cmd.Stop.{remove_by_info, remove_counted, stop_type, stop_all}

infos-ids : (l : List Container) → map (λ i. i.id) (map to_info l) ≡ ids l
unfolding to_info
infos-ids [] = refl
infos-ids (c ∷ l) = ap (◌∷◌ c.id) (infos-ids l)

module _ {W : Type 0} (e : Engine W) (o : Observed e) where
  pub stop_listed :
      (sel : Summary → Bool) (labels : Dict.Dict Text) (w : W) (l : List Container)
      → UniqueIds (o.containers w)
      → ((c : Summary) → selects (filter_args labels) c ≡ sel c)
      → (list e labels w).0 ≡ ok l
      → (for_each l (λ c. terminate_by_id e c.id) (list e labels w).1).0 ≡ ok tt
      → o.containers (for_each l (λ c. terminate_by_id e c.id) (list e labels w).1).1
        ≡ keep (λ c. not (sel c)) (o.containers w)
  stop_listed sel labels w l u same listed done =
      remove_all e o (λ (c : Container). c.id) l (list e labels w).1 done
      ∙ ap (λ m. keep (λ c. not (some_of (λ i. o.names i c) (ids l))) m) (list-keeps e o labels w)
      ∙ ap (λ m. keep (λ c. not (some_of (λ i. o.names i c) m)) (o.containers w))
          (list-selects e o labels w l listed)
      ∙ keep-not_selected e o (selects (filter_args labels)) w u
      ∙ ap (λ p. keep (λ c. not (p c)) (o.containers w)) (fun_ext same)

  -- The part of `for_each` that a map on the list moves into the step.
  infos-steps :
      (l : List Container) (w : W)
      → remove_by_info e (map to_info l) w ≡ for_each l (λ c. terminate_by_id e c.id) w
  unfolding remove_by_info to_info
  infos-steps [] w = refl
  infos-steps (c ∷ l) w = ground (arith, infos-steps l (terminate_by_id e c.id w).1)

  pub stop_type-removes :
      (db_type label : Text) (w : W)
      → UniqueIds (o.containers w)
      → (stop_type e db_type label w).0 ≡ ok tt
      → o.containers (stop_type e db_type label w).1
        ≡ keep (λ c. not (is_instance db_type label c)) (o.containers w)
  unfolding stop_type instances_of
  stop_type-removes db_type label w u h =
      elim (Result-cases (list e (instance_labels db_type label) w).0) [
        | inl (l, q) ↦ ground (
          arith,
          infos-steps l (list e (instance_labels db_type label) w).1,
          stop_listed (is_instance db_type label) (instance_labels db_type label) w l u
              (selects-instance db_type label) q,
        )
        | inr (x, q) ↦ ground arith
      ]

  -- `dbctl stop all` that succeeds removes every container of dbctl and no other.
  pub stop_all-removes :
      (w : W)
      → UniqueIds (o.containers w)
      → (stop_all e w).0 ≡ ok tt
      → o.containers (stop_all e w).1 ≡ keep (λ c. not (is_managed c)) (o.containers w)
  unfolding stop_all
  stop_all-removes w u h = elim (Result-cases (list e [] w).0) [
    | inl (l, q) ↦ ground (arith, stop_listed is_managed [] w l u selects-managed q)
    | inr (x, q) ↦ ground arith
  ]

  pub remove_counted-ok :
      (l : List Container) (m : ℕ) (w : W) (n : ℕ)
      → (remove_counted e m l w).0 ≡ ok n
      → ((for_each l (λ c. terminate_by_id e c.id) w).0 ≡ ok tt)
        × (n ≡ m + length l)
        × ((remove_counted e m l w).1 ≡ (for_each l (λ c. terminate_by_id e c.id) w).1)
  unfolding remove_counted for_each
  remove_counted-ok [] m w n h = ground arith
  remove_counted-ok (c ∷ l) m w n h =
      ground (arith, remove_counted-ok l (m + 1) (terminate_by_id e c.id w).1 n)
