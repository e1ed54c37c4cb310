-- ===== src/Redis/Index/Acquire.antt =====
-- `acquireDBIndex` and the script of `RemoveDB` on a server that answers.
use dbctl.Base.{
  ap, ℕ, ◌-◌, ◌≤◌, ◌<◌, ◌≡◌, ◌≢◌, sym, ◌∙◌, false, not, ◌&&◌, ◌==◌, text_eq, if◌then◌else◌, Text,
  codes, ok, err, is_ok, Result, Result-cases, List, [], ◌∷◌, arith, ◌⊎◌, inl, inr,
}
use dbctl.Base.Decimal.{pos, negsuc, atoi}
use mathlib.Core.Path.{subst}
use native.Mathlib.Decide.{ℕ_discrete}
use dbctl.Redis.Server.{Server, IsUp}
use dbctl.Redis.Index.{index_key, acquire_db_index, claim, count_from, release}
use dbctl.Redis.Index.Claims.{Claimed, Exhausted, claim-Ends, Claimed-before, Exhausted-before}

-- A count below 2 is not believed.
pub count_from-ge : (reply : Result (List Text)) → 2 ≤ count_from reply
count_from-ge (err e) = omega arith
count_from-ge (ok []) = omega arith
count_from-ge (ok (k ∷ [])) = omega arith
count_from-ge (ok (k ∷ v ∷ x ∷ l)) = omega arith
count_from-ge (ok (k ∷ v ∷ [])) = elim (Result-cases (atoi v)) [
  | inl (pos n, e) ↦ rw e (ground arith)
  | inl (negsuc n, e) ↦ rw e (omega arith)
  | inr (x, e) ↦ rw e (omega arith)
]

module _ {W : Type 0} (r : Server W) {d : ℕ} (up : IsUp r d) where
  -- The number of databases that the program takes the server to have.
  abbrev pub count_at : W → ℕ
  count_at w = count_from (r.config_get (codes "databases") w).0

  -- The two outcomes of `acquireDBIndex`.
  abbrev pub Outcome : W → Type 0
  Outcome w =
      ((i : ℕ) × ((acquire_db_index r w).0 ≡ ok i)
        × (i < count_at w)
        × Claimed r up 1 i w (acquire_db_index r w).1)
      ⊎ ((is_ok (acquire_db_index r w).0 ≡ false)
          × Exhausted r up 1 (count_at w - 1) w (acquire_db_index r w).1)

  -- On database 0 of a server that has the databases it is taken to have, `acquireDBIndex` either
  -- gives the least index from 1 on that is not marked, now marked and with its database emptied, or
  -- every index from 1 on is marked, it fails, and nothing has changed.
  pub acquire_db_index_ends : (w : W) → up.selected w ≡ 0 → count_at w ≤ d → Outcome w
  unfolding acquire_db_index
  acquire_db_index_ends w z fits =
      let n = count_at w in
      let v = (r.config_get (codes "databases") w).1 in
      let kept : (n : ℕ) (k : Text) → up.has v n k ≡ up.has w n k =
        λ n k. up.config_has (codes "databases") w n k in
      let big = count_from-ge (r.config_get (codes "databases") w).0 in
      elim (claim-Ends r up (n - 1) 1 v (up.config_selected (codes "databases") w ∙ z) (omega arith)
        (omega arith)) [
          | inl (i, got, within, c) ↦
              let step : acquire_db_index r w ≡ (ok i, (claim r (n - 1) 1 v).1) =
                ground (arith, got) in
              inl (
                i,
                ap (λ x. x.0) step,
                omega arith,
                subst (Claimed r up 1 i w) (sym (ap (λ x. x.1) step)) (Claimed-before r up kept c),
              )
          | inr (none_left, x) ↦
              let failed : is_ok (acquire_db_index r w).0 ≡ false = ground (arith, none_left) in
              let after : (claim r (n - 1) 1 v).1 ≡ (acquire_db_index r w).1 =
                ground (arith, none_left) in
              inr (failed, subst (Exhausted r up 1 (n - 1) w) after (Exhausted-before r up kept x))
        ]

  -- What an index that was handed out is.
  pub acquired :
      (w : W) (i : ℕ)
      → up.selected w ≡ 0
      → count_at w ≤ d
      → (acquire_db_index r w).0 ≡ ok i
      → (i < count_at w) × Claimed r up 1 i w (acquire_db_index r w).1
  acquired w i z fits p = elim (acquire_db_index_ends w z fits) [
    | inl (j, got, within, c) ↦
        let e : j ≡ i = ground (arith, got) in
        (omega arith, subst (λ k. Claimed r up 1 k w (acquire_db_index r w).1) e c)
    | inr (failed, x) ↦ absurd (ground (arith, failed))
  ]

  release_marks :
      (i : ℕ) (w : W) (k : Text)
      → 0 < i
      → i < d
      → up.has (release r (pos i) w).1 0 k ≡ (not (text_eq k (index_key i)) && up.has w 0 k)
  unfolding release
  release_marks i w k p h =
      let a = (r.select (pos i) w).1 in
      let b = (r.flushdb a).1 in
      let c = (r.select (pos 0) b).1 in
      ground (
        arith,
        up.select_reply i w h,
        up.flushdb_reply a,
        up.select_reply 0 b (omega arith),
        up.select_selected i w h,
        up.select_selected 0 b (omega arith),
        up.del_has (index_key i) c 0 k,
        up.select_has 0 b 0 k (omega arith),
        up.flushdb_has a 0 k,
        up.select_has i w 0 k h,
      )

  release_others :
      (i : ℕ) (w : W) (n : ℕ) (k : Text)
      → 0 < i
      → i < d
      → n ≢ 0
      → up.has (release r (pos i) w).1 n k ≡ (not (n == i) && up.has w n k)
  unfolding release
  release_others i w n k p h ne =
      let a = (r.select (pos i) w).1 in
      let b = (r.flushdb a).1 in
      let c = (r.select (pos 0) b).1 in
      ground (
        arith,
        up.select_reply i w h,
        up.flushdb_reply a,
        up.select_reply 0 b (omega arith),
        up.select_selected i w h,
        up.select_selected 0 b (omega arith),
        up.del_has (index_key i) c n k,
        up.select_has 0 b n k (omega arith),
        up.flushdb_has a n k,
        up.select_has i w n k h,
      )

  release_ends :
      (i : ℕ) (w : W)
      → 0 < i
      → i < d
      → ((release r (pos i) w).0 ≡ ok tt) × (up.selected (release r (pos i) w).1 ≡ 0)
  unfolding release
  release_ends i w p h =
      let a = (r.select (pos i) w).1 in
      let b = (r.flushdb a).1 in
      let c = (r.select (pos 0) b).1 in
      let ra = up.select_reply i w h in
      let rb = up.flushdb_reply a in
      let rc = up.select_reply 0 b (omega arith) in
      let sc = up.select_selected 0 b (omega arith) in
      (
        ground (arith, up.del_reply (index_key i) c),
        ground (arith, up.del_selected (index_key i) c),
      )

  -- Releasing an index of the server other than 0 succeeds, empties its database and takes its mark
  -- away. The other marks and the other databases stay as they are.
  pub release_lem :
      (i : ℕ) (w : W)
      → 0 < i
      → i < d
      → ((release r (pos i) w).0 ≡ ok tt)
        × (up.selected (release r (pos i) w).1 ≡ 0)
        × ((n : ℕ) (k : Text)
            → up.has (release r (pos i) w).1 n k ≡ (
                if n == 0
                then not (text_eq k (index_key i)) && up.has w 0 k
                else not (n == i) && up.has w n k))
  release_lem i w p h =
      let (done, back) = release_ends i w p h in
      (
        done,
        back,
        λ n k. elim (ℕ_discrete n 0) [
          | yes e ↦ ground (arith, e, release_marks i w k p h)
          | no e ↦ ground (arith, e, release_others i w n k p h e)
        ],
      )
