-- ===== src/Redis/Index/Pool.antt =====
-- redis.go: the numbered databases of one server while its clients create, use and remove databases.
use dbctl.Base.{
  ℕ, ◌-◌, ◌<◌, ◌≡◌, ap, true, false, List, ◌∷◌, Text, All, ok, is_ok, inl, inr, ◌⊎◌, arith,
}
use dbctl.Base.Decimal.{pos}
use mathlib.Core.Path.{subst}
use dbctl.Redis.Server.{Server, IsUp}
use dbctl.Redis.Index.{index_key, acquire_db_index, release}
use dbctl.Redis.Index.Claims.{Exhausted}
use dbctl.Redis.Index.Acquire.{acquired, acquire_db_index_ends, release_lem, count_at}
use dbctl.Redis.Index.Leases.{
  member, remove, Distinct, index_key-eq, member-remove, remove-Distinct, remove-All,
}

-- The server, and the indexes that were handed out and not removed since.
pub record Pool (W : Type 0) : Type 0 where
  pub world : W
  pub held : List ℕ

module _ {W : Type 0} (r : Server W) {d : ℕ} (up : IsUp r d) where
  -- What may happen: `acquireDBIndex` gives an index or fails, the script of `RemoveDB` runs for an index
  -- of the server other than 0, held or not, and a client works in the databases. No step touches the keys
  -- of database 0 but the two scripts: a client that sends FLUSHALL is not among them.
  pub data Step (s t : Pool W) : Type 0 where
    hand_out :
        (i : ℕ) → acquire_db_index r s.world ≡ (ok i, t.world) → t.held ≡ i ∷ s.held → Step s t
    refuse :
        is_ok (acquire_db_index r s.world).0 ≡ false
        → t.world ≡ (acquire_db_index r s.world).1
        → t.held ≡ s.held
        → Step s t
    take_back :
        (i : ℕ)
        → 0 < i
        → i < d
        → t.world ≡ (release r (pos i) s.world).1
        → t.held ≡ remove i s.held
        → Step s t
    work :
        up.selected t.world ≡ 0
        → ((k : Text) → up.has t.world 0 k ≡ up.has s.world 0 k)
        → t.held ≡ s.held
        → Step s t

  pub data Reach (s : Pool W) : Pool W → Type 0 where
    here : Reach s s
    next : {t u : Pool W} → Reach s t → Step t u → Reach s u

  -- The marks on the server are the indexes that are held, each held once and never 0.
  pub record IsLeased (s : Pool W) : Type 0 where
    pub on_zero : up.selected s.world ≡ 0
    pub marked : (j : ℕ) → up.has s.world 0 (index_key j) ≡ member j s.held
    pub once : Distinct s.held
    pub in_range : All (λ i. (0 < i) × (i < d)) s.held

  -- The server reports the number of databases that it has.
  module _ (counted : (w : W) → count_at r up w ≡ d) where
    hand_out-IsLeased :
        (s t : Pool W) (i : ℕ)
        → acquire_db_index r s.world ≡ (ok i, t.world)
        → t.held ≡ i ∷ s.held
        → IsLeased s
        → IsLeased t
    hand_out-IsLeased s t i got held v =
        let (within, c) =
          acquired r up s.world i v.on_zero (omega (arith, counted s.world)) (ap (λ x. x.0) got) in
        let after : (acquire_db_index r s.world).1 ≡ t.world = ap (λ x. x.1) got in
        record {
          on_zero = ground (arith, c.back_on_zero, after);
          marked =
              λ j. ground (arith, held, after, c.marks (index_key j), index_key-eq j i, v.marked j);
          once = rw held (ground (arith, c.was_free, v.marked i), v.once);
          in_range =
              rw held
                ((omega (arith, c.from_first), omega (arith, counted s.world, within)), v.in_range);
        }

    -- A call that fails has marked nothing.
    refused :
        (w : W)
        → up.selected w ≡ 0
        → is_ok (acquire_db_index r w).0 ≡ false
        → Exhausted r up 1 (d - 1) w (acquire_db_index r w).1
    refused w z failed = elim (acquire_db_index_ends r up w z (omega (arith, counted w))) [
      | inl (i, got, _, _) ↦ absurd (ground (arith, got, failed))
      | inr (_, x) ↦ subst (λ n. Exhausted r up 1 (n - 1) w (acquire_db_index r w).1) (counted w) x
    ]

    refuse-IsLeased :
        (s t : Pool W)
        → is_ok (acquire_db_index r s.world).0 ≡ false
        → t.world ≡ (acquire_db_index r s.world).1
        → t.held ≡ s.held
        → IsLeased s
        → IsLeased t
    refuse-IsLeased s t failed after held v =
        let x = refused s.world v.on_zero failed in
        record {
          on_zero = ground (arith, after, x.still_on_zero);
          marked = λ j. ground (arith, after, held, x.same 0 (index_key j), v.marked j);
          once = rw held v.once;
          in_range = rw held v.in_range;
        }

    take_back-IsLeased :
        (s t : Pool W) (i : ℕ)
        → 0 < i
        → i < d
        → t.world ≡ (release r (pos i) s.world).1
        → t.held ≡ remove i s.held
        → IsLeased s
        → IsLeased t
    take_back-IsLeased s t i above below after held v =
        let (_, back, has) = release_lem r up i s.world above below in
        record {
          on_zero = ground (arith, after, back);
          marked = λ j. ground (
            arith,
            after,
            held,
            has 0 (index_key j),
            index_key-eq j i,
            member-remove i j s.held,
            v.marked j,
          );
          once = rw held (remove-Distinct i s.held v.once);
          in_range = rw held (remove-All (λ i. (0 < i) × (i < d)) i s.held v.in_range);
        }

    Step-IsLeased : {s t : Pool W} → Step s t → IsLeased s → IsLeased t
    Step-IsLeased {s} {t} (hand_out i got held) v = hand_out-IsLeased s t i got held v
    Step-IsLeased {s} {t} (refuse failed after held) v = refuse-IsLeased s t failed after held v
    Step-IsLeased {s} {t} (take_back i above below after held) v =
        take_back-IsLeased s t i above below after held v
    Step-IsLeased {s} {t} (work zero_again same held) v = record {
      on_zero = zero_again;
      marked = λ j. ground (arith, same (index_key j), v.marked j, held);
      once = rw held v.once;
      in_range = rw held v.in_range;
    }

    -- While the clients acquire and remove databases in any order, also ones that nobody holds, and leave
    -- the keys of database 0 to these two calls: the marks on the server are the indexes that were handed
    -- out and not removed since, each of them once, and none is 0 or past the last database.
    pub Reach-IsLeased : {s t : Pool W} → Reach s t → IsLeased s → IsLeased t
    Reach-IsLeased here v = v
    Reach-IsLeased (next before step) v = Step-IsLeased step (Reach-IsLeased before v)

    -- In a pool whose marks are the indexes held, `acquireDBIndex` gives the least index from 1 on that
    -- is not held, or else each index from 1 on is held and it fails.
    acquire_db_index-least :
        (s : Pool W)
        → IsLeased s
        → ((i : ℕ) × ((acquire_db_index r s.world).0 ≡ ok i)
            × (0 < i)
            × (i < d)
            × (member i s.held ≡ false)
            × ((j : ℕ) → 0 < j → j < i → member j s.held ≡ true))
          ⊎ ((is_ok (acquire_db_index r s.world).0 ≡ false)
              × ((j : ℕ) → 0 < j → j < d → member j s.held ≡ true))
    acquire_db_index-least s v =
        elim (acquire_db_index_ends r up s.world v.on_zero (omega (arith, counted s.world))) [
          | inl (i, got, within, c) ↦ inl (
            i,
            got,
            omega (arith, c.from_first),
            omega (arith, within, counted s.world),
            ground (arith, c.was_free, v.marked i),
            λ j above below. ground (arith, v.marked j, c.taken_below j above below),
          )
          | inr (failed, _) ↦
              let x = refused s.world v.on_zero failed in
              inr (
                failed,
                λ j above below.
                    ground (arith, v.marked j, x.all_taken j (omega arith) (omega arith)),
              )
        ]
