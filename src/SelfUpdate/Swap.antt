-- ===== src/SelfUpdate/Swap.antt =====
-- internal/selfupdate/selfupdate.go: the running program is never lost by an update.
use dbctl.Base.{◌≡◌, ◌≢◌, Option, Text, ok, err, Error, arith, Result-cases, ◌⊎◌, inl, inr}
use dbctl.SelfUpdate.Machine.{Machine}
use dbctl.SelfUpdate.Install.{swap, rollback_failed}

-- What `os.Remove` and `os.Rename` do to the files of one directory: `at` is what stands at a path.
pub record IsDirectory {W : Type 0} (m : Machine W) : Type 0 where
  pub at : W → Text → Option Text
  pub remove_others : (p q : Text) (w : W) → q ≢ p → at (m.remove p w).1 q ≡ at w q
  pub rename_moves :
      (a b : Text) (w : W) → (m.rename a b w).0 ≡ ok tt → at (m.rename a b w).1 b ≡ at w a
  pub rename_others : (a b q : Text) (w : W) → q ≢ a → q ≢ b → at (m.rename a b w).1 q ≡ at w q
  pub rename_fails :
      (a b q : Text) (w : W) (e : Error)
      → (m.rename a b w).0 ≡ err e
      → at (m.rename a b w).1 q ≡ at w q

module _ {W : Type 0} (m : Machine W) (dir : IsDirectory m) where
  -- If the swap succeeds the new executable stands in the place of the program, and the program beside
  -- it. If it fails the program stands in its place, or, where the error says that the rollback failed,
  -- beside it.
  pub swap-keeps :
      (target new old : Text) (w : W)
      → target ≢ old
      → new ≢ old
      → new ≢ target
      → (((swap m target new old w).0 ≡ ok tt)
          × (dir.at (swap m target new old w).1 target ≡ dir.at w new)
          × (dir.at (swap m target new old w).1 old ≡ dir.at w target))
        ⊎ ((e : Error) × ((((swap m target new old w).0 ≡ err e)
                × (dir.at (swap m target new old w).1 target ≡ dir.at w target))
              ⊎ (((swap m target new old w).0 ≡ err (rollback_failed e))
                  × (dir.at (swap m target new old w).1 old ≡ dir.at w target))))
  unfolding swap
  swap-keeps target new old w t n s =
      let w1 = (m.remove old w).1 in
      let w2 = (m.rename target old w1).1 in
      let w3 = (m.rename new target w2).1 in
      let kept = dir.remove_others old target w t in
      elim (Result-cases (m.rename target old w1).0) [
        | inr (e, q) ↦ inr (
          e,
          inl (
            ground (arith, q),
            ground (arith, q, dir.rename_fails target old target w1 e q, kept),
          ),
        )
        | inl (_, q) ↦
            let aside = dir.rename_moves target old w1 q in
            elim (Result-cases (m.rename new target w2).0) [
              | inl (_, k) ↦ inl (
                ground (arith, q, k),
                ground (
                  arith,
                  q,
                  k,
                  dir.rename_moves new target w2 k,
                  dir.rename_others target old new w1 s n,
                  dir.remove_others old new w n,
                ),
                ground (arith, q, k, dir.rename_others new target old w2, aside, kept),
              )
              | inr (e, k) ↦ elim (Result-cases (m.rename old target w3).0) [
                | inl (_, b) ↦ inr (
                  e,
                  inl (
                    ground (arith, q, k, b),
                    ground (
                      arith,
                      q,
                      k,
                      b,
                      dir.rename_moves old target w3 b,
                      dir.rename_fails new target old w2 e k,
                      aside,
                      kept,
                    ),
                  ),
                )
                | inr (x, b) ↦ inr (
                  e,
                  inr (
                    ground (arith, q, k, b),
                    ground (
                      arith,
                      q,
                      k,
                      b,
                      dir.rename_fails old target old w3 x b,
                      dir.rename_fails new target old w2 e k,
                      aside,
                      kept,
                    ),
                  ),
                )
              ]
            ]
      ]
