-- ===== src/Redis/Index/Claims.antt =====
-- Which index a caller gets, and what the two scripts do to the databases of the server.
use dbctl.Base.{
  ℕ, zero, suc, ◌+◌, ◌≤◌, ◌<◌, ◌≡◌, ◌≢◌, refl, sym, ◌∙◌, true, false, not, ◌&&◌, ◌||◌, ◌==◌,
  text_eq, Text, codes, ok, arith, ◌⊎◌, inl, inr, Bool-cases,
}
use native.Mathlib.Decide.{dec_le}
use dbctl.Base.Decimal.{pos, negsuc}
use dbctl.Redis.Server.{Server, IsUp}
use dbctl.Redis.Index.{index_key, claim, hand_out}

module _ {W : Type 0} (r : Server W) {d : ℕ} (up : IsUp r d) where
  -- From `w` to `v` the index `i`, free before, is marked, and its database is emptied. The marks and
  -- the other databases stay as they are, and every index from `first` on and below `i` was taken.
  pub record Claimed (first i : ℕ) (w v : W) : Type 0 where
    pub from_first : first ≤ i
    pub was_free : up.has w 0 (index_key i) ≡ false
    pub taken_below : (j : ℕ) → first ≤ j → j < i → up.has w 0 (index_key j) ≡ true
    pub back_on_zero : up.selected v ≡ 0
    pub marks : (k : Text) → up.has v 0 k ≡ (text_eq k (index_key i) || up.has w 0 k)
    pub others : (n : ℕ) (k : Text) → n ≢ 0 → up.has v n k ≡ (not (n == i) && up.has w n k)

  -- Every index of the range was taken, and nothing has changed.
  pub record Exhausted (first rounds : ℕ) (w v : W) : Type 0 where
    pub all_taken : (j : ℕ) → first ≤ j → j < first + rounds → up.has w 0 (index_key j) ≡ true
    pub still_on_zero : up.selected v ≡ 0
    pub same : (n : ℕ) (k : Text) → up.has v n k ≡ up.has w n k

  hand_out_reply : (i : ℕ) (w : W) → 0 < i → i < d → (hand_out r i w).0 ≡ ok (pos i)
  unfolding hand_out
  hand_out_reply i w p h = ground (
    arith,
    up.select_reply i w h,
    up.flushdb_reply (r.select (pos i) w).1,
    up.select_reply 0 (r.flushdb (r.select (pos i) w).1).1 (omega arith),
  )

  hand_out_selected : (i : ℕ) (w : W) → 0 < i → i < d → up.selected (hand_out r i w).1 ≡ 0
  unfolding hand_out
  hand_out_selected i w p h = ground (
    arith,
    up.select_reply i w h,
    up.flushdb_reply (r.select (pos i) w).1,
    up.select_reply 0 (r.flushdb (r.select (pos i) w).1).1 (omega arith),
    up.select_selected 0 (r.flushdb (r.select (pos i) w).1).1 (omega arith),
  )

  hand_out_has :
      (i : ℕ) (w : W) (n : ℕ) (k : Text)
      → 0 < i
      → i < d
      → up.has (hand_out r i w).1 n k ≡ (not (n == i) && up.has w n k)
  unfolding hand_out
  hand_out_has i w n k p h = ground (
    arith,
    up.select_reply i w h,
    up.flushdb_reply (r.select (pos i) w).1,
    up.select_reply 0 (r.flushdb (r.select (pos i) w).1).1 (omega arith),
    up.select_selected i w h,
    up.select_has i w n k h,
    up.flushdb_has (r.select (pos i) w).1 n k,
    up.select_has 0 (r.flushdb (r.select (pos i) w).1).1 n k (omega arith),
  )

  -- The two ways in which the loop ends.
  abbrev pub Ends : ℕ → ℕ → W → Type 0
  Ends rounds first w =
      ((i : ℕ) × ((claim r rounds first w).0 ≡ ok (pos i))
        × (i < first + rounds)
        × Claimed first i w (claim r rounds first w).1)
      ⊎ (((claim r rounds first w).0 ≡ ok (negsuc 0))
          × Exhausted first rounds w (claim r rounds first w).1)

  claim-free :
      (rounds first : ℕ) (w : W)
      → up.selected w ≡ 0
      → 0 < first
      → first + suc rounds ≤ d
      → up.has w 0 (index_key first) ≡ false
      → Ends (suc rounds) first w
  unfolding claim
  claim-free rounds first w z p fits free =
      let v = (r.setnx (index_key first) (codes "1") w).1 in
      let won : (claim r (suc rounds) first w) ≡ hand_out r first v =
        ground (arith, up.setnx_reply (index_key first) (codes "1") w) in
      inl (
        first,
        rw won (hand_out_reply first v p (omega arith)),
        omega arith,
        record {
          from_first = omega arith;
          was_free = free;
          taken_below = λ j a b. absurd (omega arith);
          back_on_zero = rw won (hand_out_selected first v p (omega arith));
          marks = λ k. ground (
            arith,
            won,
            hand_out_has first v 0 k p (omega arith),
            up.setnx_has (index_key first) (codes "1") w 0 k,
          );
          others = λ n k ne. ground (
            arith,
            won,
            hand_out_has first v n k p (omega arith),
            up.setnx_has (index_key first) (codes "1") w n k,
          );
        },
      )

  -- A round that finds its index taken leaves the rest to the rounds behind it.
  after_taken :
      (rounds first : ℕ) (w : W)
      → up.selected w ≡ 0
      → up.has w 0 (index_key first) ≡ true
      → Ends rounds (suc first) (r.setnx (index_key first) (codes "1") w).1
      → Ends (suc rounds) first w
  unfolding claim
  after_taken rounds first w z taken later =
      let v = (r.setnx (index_key first) (codes "1") w).1 in
      let step : claim r (suc rounds) first w ≡ claim r rounds (suc first) v =
        ground (arith, up.setnx_reply (index_key first) (codes "1") w) in
      let kept : (n : ℕ) (k : Text) → up.has v n k ≡ up.has w n k =
        λ n k. ground (arith, up.setnx_has (index_key first) (codes "1") w n k) in
      elim later [
        | inl (i, got, within, c) ↦ inl (
          i,
          rw step got,
          omega arith,
          record {
            from_first = omega (arith, c.from_first);
            was_free = sym (kept 0 (index_key i)) ∙ c.was_free;
            taken_below = λ j a b. elim (dec_le (suc first) j) [
              | yes above ↦ sym (kept 0 (index_key j)) ∙ c.taken_below j above b
              | no here ↦ let e : j ≡ first = omega arith in rw e taken
            ];
            back_on_zero = rw step c.back_on_zero;
            marks = λ k. ground (arith, step, c.marks k, kept 0 k);
            others = λ n k ne. ground (arith, step, c.others n k ne, kept n k);
          },
        )
        | inr (none_left, x) ↦ inr (
          rw step none_left,
          record {
            all_taken = λ j a b. elim (dec_le (suc first) j) [
              | yes above ↦ sym (kept 0 (index_key j)) ∙ x.all_taken j above (omega arith)
              | no here ↦ let e : j ≡ first = omega arith in rw e taken
            ];
            still_on_zero = rw step x.still_on_zero;
            same = λ n k. ground (arith, step, x.same n k, kept n k);
          },
        )
      ]

  pub claim-Ends :
      (rounds first : ℕ) (w : W)
      → up.selected w ≡ 0
      → 0 < first
      → first + rounds ≤ d
      → Ends rounds first w
  claim-Ends zero first w z p fits =
      unfold claim in
      inr (
        refl,
        record { all_taken = λ j a b. absurd (omega arith); still_on_zero = z; same = λ n k. refl },
      )
  claim-Ends (suc rounds) first w z p fits =
      let v = (r.setnx (index_key first) (codes "1") w).1 in
      elim (Bool-cases (up.has w 0 (index_key first))) [
        | inl taken ↦ after_taken rounds first w z taken (
            claim-Ends rounds (suc first) v (up.setnx_selected (index_key first) (codes "1") w ∙ z)
              (omega arith) (omega arith))
        | inr free ↦ claim-free rounds first w z p fits free
      ]

  module _ {w v : W} (kept : (n : ℕ) (k : Text) → up.has v n k ≡ up.has w n k) where
    -- A start in which every database holds the same keys does as well.
    pub Claimed-before : {first i : ℕ} {u : W} → Claimed first i v u → Claimed first i w u
    Claimed-before {first} {i} {u} c = record {
      from_first = c.from_first;
      was_free = sym (kept 0 (index_key i)) ∙ c.was_free;
      taken_below = λ j a b. sym (kept 0 (index_key j)) ∙ c.taken_below j a b;
      back_on_zero = c.back_on_zero;
      marks = λ k. ground (arith, c.marks k, kept 0 k);
      others = λ n k ne. ground (arith, c.others n k ne, kept n k);
    }

    pub Exhausted-before :
        {first rounds : ℕ} {u : W} → Exhausted first rounds v u → Exhausted first rounds w u
    Exhausted-before x = record {
      all_taken = λ j a b. sym (kept 0 (index_key j)) ∙ x.all_taken j a b;
      still_on_zero = x.still_on_zero;
      same = λ n k. x.same n k ∙ kept n k;
    }
