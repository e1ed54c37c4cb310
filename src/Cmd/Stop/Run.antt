-- ===== src/Cmd/Stop/Run.antt =====
-- The whole of `runStop`: its arguments name types, or one label, or one container.
use mathlib.Core.Path.{fun_ext, subst}
use dbctl.Base.{
  ℕ, suc, ◌≡◌, ◌≢◌, refl, sym, ◌∙◌, ap, Bool, true, false, not, ◌&&◌, ◌||◌, List, [], ◌∷◌,
  if◌then◌else◌, ltb, Text, codes, keep, keep-keep, keep_all, all_of, length, arith, ok,
  Result-cases, inl, inr, Exec, ◌>>◌,
}
use dbctl.Utils.{contain}
use dbctl.Container.{Container, list, label_custom}
use dbctl.Container.Docker.{Engine, Summary, Observed}
use dbctl.Container.Laws.{ids, summary_ids, UniqueIds, UniqueIds-keep, list-selects, remove-removes}
use dbctl.Database.{type_postgres, type_redis, type_mongodb}
use dbctl.Cmd.Stop.{
  when, stop_type, stop_single, stop_named, run_stop, its_db_type, remove_by_label,
}
use dbctl.Database.Selection.{is_instance, carries, selects-carries}
use dbctl.Cmd.Stop.Laws.{stop_type-removes, remove_counted-ok, stop_listed}

-- The container runs a type that the arguments name, under the given label.
abbrev pub is_stopped : Text → List Text → Summary → Bool
is_stopped label args c =
    (contain args (codes "pg") (codes "postgres") && is_instance type_postgres label c)
    || ((contain args (codes "rs") (codes "redis") && is_instance type_redis label c)
        || (contain args (codes "mdb") (codes "mongodb") && is_instance type_mongodb label c))

-- Three steps and a last one that does nothing, when they succeed.
chain_ok :
    {W : Type 0} (m1 m2 m3 m4 : Exec W Unit) (w : W)
    → ((v : W) → m4 v ≡ (ok tt, v))
    → ((m1 >> (m2 >> (m3 >> m4))) w).0 ≡ ok tt
    → ((m1 w).0 ≡ ok tt)
      × ((m2 (m1 w).1).0 ≡ ok tt)
      × ((m3 (m2 (m1 w).1).1).0 ≡ ok tt)
      × (((m1 >> (m2 >> (m3 >> m4))) w).1 ≡ (m3 (m2 (m1 w).1).1).1)
chain_ok m1 m2 m3 m4 w idle h = ground (arith, idle (m3 (m2 (m1 w).1).1).1)

length-ids : (l : List Container) → length (ids l) ≡ length l
length-ids [] = refl
length-ids (c ∷ l) = ap suc (length-ids l)

length-summary_ids : (l : List Summary) → length (summary_ids l) ≡ length l
length-summary_ids [] = refl
length-summary_ids (c ∷ l) = ap suc (length-summary_ids l)

keep_of_none :
    (p : Summary → Bool) (l : List Summary)
    → ltb 0 (length (keep p l)) ≡ false
    → keep (λ c. not (p c)) l ≡ l
keep_of_none p [] h = refl
keep_of_none p (c ∷ l) h = ground (arith, keep_of_none p l)

module _ {W : Type 0} (e : Engine W) (o : Observed e) where
  abbrev block : Bool → Text → Text → Exec W Unit
  block named db_type label = when e named (stop_type e db_type label)

  block-removes :
      (named : Bool) (db_type label : Text) (w : W)
      → UniqueIds (o.containers w)
      → (block named db_type label w).0 ≡ ok tt
      → o.containers (block named db_type label w).1
        ≡ keep (λ c. not (named && is_instance db_type label c)) (o.containers w)
  block-removes true db_type label w u h = stop_type-removes e o db_type label w u h
  block-removes false db_type label w u h = sym (keep_all (o.containers w))

  stop_single_of_types :
      (args : List Text) (w : W)
      → all_of its_db_type args ≡ true
      → stop_single e args w ≡ (ok tt, w)
  unfolding stop_single
  stop_single_of_types [] w h = refl
  stop_single_of_types (a ∷ []) w h = ground arith
  stop_single_of_types (a ∷ b ∷ args) w h = refl

  module _ (b1 b2 b3 : Bool) (t1 t2 t3 label : Text) where
    three_blocks :
        (w : W)
        → UniqueIds (o.containers w)
        → (block b1 t1 label w).0 ≡ ok tt
        → (block b2 t2 label (block b1 t1 label w).1).0 ≡ ok tt
        → (block b3 t3 label (block b2 t2 label (block b1 t1 label w).1).1).0 ≡ ok tt
        → o.containers (block b3 t3 label (block b2 t2 label (block b1 t1 label w).1).1).1
          ≡ keep
              (λ c. not (
                (b1 && is_instance t1 label c)
                || ((b2 && is_instance t2 label c) || (b3 && is_instance t3 label c))))
              (o.containers w)
    three_blocks w u h1 h2 h3 =
        let q1 = block-removes b1 t1 label w u h1 in
        let u1 : UniqueIds (o.containers (block b1 t1 label w).1) =
          subst UniqueIds (sym q1) (UniqueIds-keep _ _ u) in
        let q2 = block-removes b2 t2 label (block b1 t1 label w).1 u1 h2 in
        let u2 : UniqueIds (o.containers (block b2 t2 label (block b1 t1 label w).1).1) =
          subst UniqueIds (sym q2) (UniqueIds-keep _ _ u1) in
        let p1 : Summary → Bool = λ c. not (b1 && is_instance t1 label c) in
        let p2 : Summary → Bool = λ c. not (b2 && is_instance t2 label c) in
        let p3 : Summary → Bool = λ c. not (b3 && is_instance t3 label c) in
        block-removes b3 t3 label (block b2 t2 label (block b1 t1 label w).1).1 u2 h3
        ∙ ap (keep p3) (q2 ∙ ap (keep p2) q1)
        ∙ keep-keep p3 p2 (keep p1 (o.containers w))
        ∙ keep-keep (λ c. p3 c && p2 c) p1 (o.containers w)
        ∙ ap (λ p. keep p (o.containers w))
            (fun_ext λ c.
              combine (b1 && is_instance t1 label c) (b2 && is_instance t2 label c)
                (b3 && is_instance t3 label c))
      where
        combine : (x y z : Bool) → ((not z && not y) && not x) ≡ not (x || (y || z))
        combine x y z = ground arith

  -- `dbctl stop` with the names of types that succeeds removes exactly the instances of these types,
  -- under the label if one is given.
  pub run_stop-removes :
      (label a : Text) (args : List Text) (w : W)
      → UniqueIds (o.containers w)
      → all_of its_db_type (a ∷ args) ≡ true
      → (run_stop e (ok label) (a ∷ args) w).0 ≡ ok tt
      → o.containers (run_stop e (ok label) (a ∷ args) w).1
        ≡ keep (λ c. not (is_stopped label (a ∷ args) c)) (o.containers w)
  unfolding run_stop
  run_stop-removes label a args w u types h =
      let b1 = contain (a ∷ args) (codes "pg") (codes "postgres") in
      let b2 = contain (a ∷ args) (codes "rs") (codes "redis") in
      let b3 = contain (a ∷ args) (codes "mdb") (codes "mongodb") in
      let (h1, h2, h3, same) =
        chain_ok (block b1 type_postgres label) (block b2 type_redis label)
          (block b3 type_mongodb label) (stop_single e (a ∷ args)) w
          (λ v. stop_single_of_types (a ∷ args) v types) h in
      ap o.containers same
      ∙ three_blocks b1 b2 b3 type_postgres type_redis type_mongodb label w u h1 h2 h3

  remove_by_label-removes :
      (name : Text) (w : W) (n : ℕ)
      → UniqueIds (o.containers w)
      → (remove_by_label e name w).0 ≡ ok n
      → (n ≡ length (keep (carries name) (o.containers w)))
        × (o.containers (remove_by_label e name w).1
            ≡ keep (λ c. not (carries name c)) (o.containers w))
  unfolding remove_by_label
  remove_by_label-removes name w n u h =
      elim (Result-cases (list e ((label_custom, name) ∷ []) w).0) [
        | inl (l, q) ↦ ground (
          arith,
          remove_counted-ok e o l 0 (list e ((label_custom, name) ∷ []) w).1 n,
          stop_listed e o (carries name) ((label_custom, name) ∷ []) w l u (selects-carries name) q,
          length-ids l,
          length-summary_ids (keep (carries name) (o.containers w)),
          ap length (list-selects e o ((label_custom, name) ∷ []) w l q),
          ap (λ p. length (summary_ids (keep p (o.containers w)))) (fun_ext (selects-carries name)),
        )
        | inr (x, q) ↦ ground arith
      ]

  stop_named-removes :
      (name : Text) (w : W)
      → UniqueIds (o.containers w)
      → name ≢ codes "all"
      → (stop_named e name w).0 ≡ ok tt
      → o.containers (stop_named e name w).1
        ≡ keep
            (λ c. not (
              if ltb 0 (length (keep (carries name) (o.containers w)))
              then carries name c
              else o.names name c))
            (o.containers w)
  unfolding stop_named
  stop_named-removes name w u other h = elim (Result-cases (remove_by_label e name w).0) [
    | inl (n, q) ↦
        let (count, gone) = remove_by_label-removes name w n u q in
        ground (
          arith,
          count,
          gone,
          remove-removes e o name (remove_by_label e name w).1,
          keep_of_none (carries name) (o.containers w),
        )
    | inr (x, q) ↦ ground arith
  ]

  -- An argument that is no type goes past the blocks of the types.
  run_stop-stop_named :
      (label name : Text) (w : W)
      → its_db_type name ≡ false
      → run_stop e (ok label) (name ∷ []) w ≡ stop_named e name w
  unfolding run_stop contain its_db_type stop_single
  run_stop-stop_named label name w other = ground (arith, other)

  -- `dbctl stop NAME` that succeeds, for a name that is neither a type nor `all`: if a container of dbctl
  -- carries the label NAME, those containers are removed and no other. If none does, the containers that
  -- the engine takes NAME for are removed, and no other. The flag for the label has no part in it.
  pub run_stop-removes_named :
      (label name : Text) (w : W)
      → UniqueIds (o.containers w)
      → its_db_type name ≡ false
      → name ≢ codes "all"
      → (run_stop e (ok label) (name ∷ []) w).0 ≡ ok tt
      → o.containers (run_stop e (ok label) (name ∷ []) w).1
        ≡ keep
            (λ c. not (
              if ltb 0 (length (keep (carries name) (o.containers w)))
              then carries name c
              else o.names name c))
            (o.containers w)
  run_stop-removes_named label name w u other named h =
      let same = run_stop-stop_named label name w other in
      ap (λ r. o.containers r.1) same
      ∙ stop_named-removes name w u named (ap (λ r. r.0) (sym same) ∙ h)
