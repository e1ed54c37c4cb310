-- ===== src/Container/Laws.antt =====
-- What listing and removing containers does to the containers of the engine.
use dbctl.Base.{
  ◌≡◌, refl, sym, ◌∙◌, ap, Bool, true, false, not, ◌&&◌, List, [], ◌∷◌, map, Text, text_eq, some_of,
  keep, keep-keep, Elem, keep_congr, keep_all, some_of-of_Elem, arith, ok, Exec, for_each,
  Result-cases, for_each-cons, inl, inr,
}
use dbctl.Base.Dict.{Dict}
use dbctl.Container.{Container, filter_args, to_containers, list, terminate_by_id}
use dbctl.Container.Docker.{Engine, Summary, Observed, selects}

abbrev pub ids : List Container → List Text
ids = map (λ c. c.id)

abbrev pub summary_ids : List Summary → List Text
summary_ids = map (λ c. c.id)

to_containers-ids :
    (cs : List Summary) (l : List Container) → to_containers cs ≡ ok l → ids l ≡ summary_ids cs
unfolding to_containers
to_containers-ids [] l h = ground arith
to_containers-ids (c ∷ cs) l h = elim (Result-cases (to_containers cs)) [
  | inl (tail, e) ↦ ground (arith, to_containers-ids cs tail e)
  | inr (x, e) ↦ ground arith
]

-- No two containers of a list share their id.
abbrev pub UniqueIds : List Summary → Type 0
UniqueIds l = (c d : Summary) → Elem c l → Elem d l → c.id ≡ d.id → c ≡ d

Elem-keep : (p : Summary → Bool) (c : Summary) (l : List Summary) → Elem c (keep p l) → Elem c l
Elem-keep p c [] m = m
Elem-keep p c (x ∷ l) m = ground (arith, Elem-keep p c l)

pub UniqueIds-keep : (p : Summary → Bool) (l : List Summary) → UniqueIds l → UniqueIds (keep p l)
UniqueIds-keep p l u c d mc md = u c d (Elem-keep p c l mc) (Elem-keep p d l md)

some_of-selected :
    (names : Text → Summary → Bool) (sel : Summary → Bool) (c : Summary) (m : List Summary)
    → ((d : Summary) → Elem d m → names d.id c ≡ text_eq c.id d.id)
    → ((d : Summary) → Elem d m → c.id ≡ d.id → c ≡ d)
    → some_of (λ i. names i c) (summary_ids (keep sel m))
      ≡ (sel c && some_of (λ d. text_eq c.id d.id) m)
some_of-selected names sel c [] hn hu = ground arith
some_of-selected names sel c (d ∷ m) hn hu = ground (
  arith,
  hn d (inl refl),
  hu d (inl refl),
  some_of-selected names sel c m (λ x k. hn x (inr k)) (λ x k. hu x (inr k)),
)

module _ {W : Type 0} (e : Engine W) (o : Observed e) where
  pub list-keeps : (labels : Dict Text) (w : W) → o.containers (list e labels w).1 ≡ o.containers w
  unfolding list
  list-keeps labels w = ground (
    arith,
    o.connect_keeps w,
    o.list_keeps (filter_args labels) (e.connect w).1,
    o.close_keeps (e.connect w).1,
    o.close_keeps (e.container_list (filter_args labels) (e.connect w).1).1,
  )

  pub list-selects :
      (labels : Dict Text) (w : W) (l : List Container)
      → (list e labels w).0 ≡ ok l
      → ids l ≡ summary_ids (keep (selects (filter_args labels)) (o.containers w))
  unfolding list
  list-selects labels w l h =
      elim (Result-cases (e.container_list (filter_args labels) (e.connect w).1).0) [
        | inl (cs, q) ↦
            to_containers-ids cs l (ground arith)
            ∙ ap summary_ids (
                o.list_selects (filter_args labels) (e.connect w).1 cs q
                ∙ ap (keep (selects (filter_args labels))) (o.connect_keeps w))
        | inr (x, q) ↦ ground arith
      ]

  pub remove-removes :
      (id : Text) (w : W)
      → (terminate_by_id e id w).0 ≡ ok tt
      → o.containers (terminate_by_id e id w).1 ≡ keep (λ c. not (o.names id c)) (o.containers w)
  unfolding terminate_by_id
  remove-removes id w h = ground (
    arith,
    o.connect_keeps w,
    o.remove_removes id (e.connect w).1,
    o.close_keeps (e.container_remove id true false true (e.connect w).1).1,
  )

  module _ {A : Type 0} (id_of : A → Text) where
    pub remove_all :
        (xs : List A) (w : W)
        → (for_each xs (λ x. terminate_by_id e (id_of x)) w).0 ≡ ok tt
        → o.containers (for_each xs (λ x. terminate_by_id e (id_of x)) w).1
          ≡ keep (λ c. not (some_of (λ i. o.names i c) (map id_of xs))) (o.containers w)
    unfolding for_each
    remove_all [] w h = sym (keep_all (o.containers w))
    remove_all (x ∷ xs) w h =
        let f : A → Exec W Unit = λ x. terminate_by_id e (id_of x) in
        let (first, later, same) = for_each-cons f x xs w h in
        ap o.containers same
        ∙ remove_all xs _ later
        ∙ ap (keep (λ c. not (some_of (λ i. o.names i c) (map id_of xs))))
            (remove-removes (id_of x) w first)
        ∙ keep-keep _ _ (o.containers w)
        ∙ keep_congr
            (λ c. not (some_of (λ i. o.names i c) (map id_of xs)) && not (o.names (id_of x) c)) _
            (o.containers w) (λ c m. ground arith)

  -- Removing the ids of the selected containers leaves those that are not selected.
  pub keep-not_selected :
      (sel : Summary → Bool) (w : W)
      → UniqueIds (o.containers w)
      → keep
          (λ c. not (some_of (λ i. o.names i c) (summary_ids (keep sel (o.containers w)))))
          (o.containers w)
        ≡ keep (λ c. not (sel c)) (o.containers w)
  keep-not_selected sel w u = keep_congr _ _ (o.containers w) λ c m. ground (
    arith,
    some_of-selected o.names sel c (o.containers w) (λ d k. o.names_id w c d m k)
        (λ d k. u c d m k),
    some_of-of_Elem (λ d. text_eq c.id d.id) c (o.containers w) m,
  )
