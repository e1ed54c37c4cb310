-- ===== src/ApiServer/Remove/Laws.antt =====
-- server.go: what a response to the removal of a database says of the world behind it.
use dbctl.Base.{
  ◌≡◌, ◌≢◌, true, false, [], ◌∷◌, codes, text_eq, is_empty, arith, Result, ok, err, Result-cases,
  inl, inr, then_result,
}
use dbctl.Database.{type_postgres, type_redis, type_mongodb}
use dbctl.Utils.{one_of}
use dbctl.ApiServer.System.{System, Request, RemoveDbRequest}
use dbctl.ApiServer.Create.{validate_type}
use dbctl.ApiServer.Remove.{check, remove_of_type, remove_db}

checked :
    (d : Result RemoveDbRequest) (req : RemoveDbRequest)
    → then_result d check ≡ ok req
    → (d ≡ ok req)
      × (is_empty req.uri ≡ false)
      × (one_of req.db_type (type_postgres ∷ type_redis ∷ type_mongodb ∷ []) ≡ true)
unfolding validate_type
checked (ok x) req h = ground (arith, h)
checked (err e) req h = ground (arith, h)

module _ {W : Type 0} (sys : System W) (r : Request) (w : W) where
  -- A removal that is answered with neither 204 nor 500 leaves the world as it was.
  remove_db-rejects :
      (remove_db sys r w).0.status ≢ 204
      → (remove_db sys r w).0.status ≢ 500
      → (remove_db sys r w).1 ≡ w
  unfolding remove_db
  remove_db-rejects h k = elim (Result-cases (then_result (sys.decode_remove r.body) check)) [
    | inl (req, q) ↦ elim (Result-cases (remove_of_type sys req w).0) [
      | inl (t, p) ↦ ground (arith, h, k, q, p)
      | inr (x, p) ↦ ground (arith, h, k, q, p)
    ]
    | inr (x, q) ↦ ground (arith, h, k, q)
  ]

  -- A removal that is answered with 204 was a DELETE whose body names one of the three types and holds
  -- a URI, and the database was removed without an error.
  pub remove_db-accepts :
      (remove_db sys r w).0.status ≡ 204
      → (text_eq r.method (codes "DELETE") ≡ true)
        × ((req : RemoveDbRequest) × ((sys.decode_remove r.body ≡ ok req)
              × (is_empty req.uri ≡ false)
              × (one_of req.db_type (type_postgres ∷ type_redis ∷ type_mongodb ∷ []) ≡ true)
              × (remove_of_type sys req w ≡ (ok tt, (remove_db sys r w).1))))
  unfolding remove_db
  remove_db-accepts h = elim (Result-cases (then_result (sys.decode_remove r.body) check)) [
    | inl (req, q) ↦ elim (Result-cases (remove_of_type sys req w).0) [
      | inl (t, p) ↦
          let (d, u, ty) = checked (sys.decode_remove r.body) req q in
          (ground (arith, h), (req, (d, u, ty, ground (arith, h, q, p))))
      | inr (x, p) ↦ ground (arith, h, q, p)
    ]
    | inr (x, q) ↦ ground (arith, h, q)
  ]
