-- ===== src/Redis/Start/Laws.antt =====
-- Waiting for an instance, and what `Start` does when its container cannot run.
use dbctl.Base.{
  ℕ, zero, suc, ◌+◌, ◌≡◌, refl, ◌∙◌, ap, Bool, true, false, none, some, arith, Error, panic,
  is_exactly, deadline_exceeded, Result, ok, err, is_ok, Result-cases, inl, inr,
}
use dbctl.Container.{Env, CreateRequest, run}
use dbctl.Container.Docker.{Engine}
use dbctl.Files.{Files}
use dbctl.Redis.{Config, no_auth_uri}
use dbctl.Redis.Server.{Server}
use dbctl.Redis.Start.{
  Host, wait_for_start, start_using_docker, create_request, start, failed, pick_port,
}

shift : (n m : ℕ) → suc n + m ≡ suc (n + m)
shift n m = omega arith

module _ {W : Type 0} (env : Env) (redis : Server W) (files : Files W) where
  -- A wait that has ended does not depend on the ticks that it was given beyond those it took.
  wait_for_start-more :
      (ticks more : ℕ) (c : Config) (w : W) (r : Result Unit)
      → (wait_for_start env redis files ticks c w).0 ≡ ok (some r)
      → wait_for_start env redis files (ticks + more) c w ≡ wait_for_start env redis files ticks c w
  unfolding wait_for_start
  wait_for_start-more zero more c w r h = ground arith
  wait_for_start-more (suc ticks) more c w r h =
      ap (λ n. wait_for_start env redis files n c w) (shift ticks more)
      ∙ elim (Result-cases (redis.dial (no_auth_uri env c) w).0) [
        | inl (t, q) ↦ ground (arith, q)
        | inr (e, q) ↦
            ground
              (arith, q, wait_for_start-more ticks more c (redis.dial (no_auth_uri env c) w).1 r)
      ]

  -- While the server is down, the wait ends only with an error that is `context.DeadlineExceeded`
  -- itself: an error that wraps it, or any other, is taken for one more try, however long it goes on.
  pub wait_for_start-waits :
      (ticks : ℕ) (c : Config) (w : W)
      → ((v : W) → is_ok (redis.dial (no_auth_uri env c) v).0 ≡ false)
      → ((v : W) (e : Error)
          → (redis.dial (no_auth_uri env c) v).0 ≡ err e
          → is_exactly deadline_exceeded e ≡ false)
      → (wait_for_start env redis files ticks c w).0 ≡ ok none
  unfolding wait_for_start
  wait_for_start-waits zero c w down other = refl
  wait_for_start-waits (suc ticks) c w down other =
      elim (Result-cases (redis.dial (no_auth_uri env c) w).0) [
        | inl (t, q) ↦ ground (arith, down w)
        | inr (e, q) ↦ ground (
          arith,
          other w e q,
          wait_for_start-waits ticks c (redis.dial (no_auth_uri env c) w).1 down other,
        )
      ]

module _ {W : Type 0} (engine : Engine W) (host : Host W) (env : Env) (redis : Server W)
    (files : Files W) where
  no_container :
      (ticks : ℕ) (c : Config) (w : W)
      → ((q : CreateRequest) (v : W) → is_ok (run engine q v).0 ≡ false)
      → ((v : W) → is_ok (host.random v).0 ≡ true)
      → ((v : W) → is_ok (host.unix_time v).0 ≡ true)
      → ((v : W) → is_ok (host.available_port v).0 ≡ true)
      → (d : Config) × (e : Error) × ((start_using_docker engine host env redis files ticks c w).0
          ≡ ok (some (failed d e)))
  unfolding start_using_docker
  no_container ticks c w no_run rnd time port = elim (Result-cases (host.random w).0) [
    | inr (e, q) ↦ (c, e, ground arith)
    | inl (n, q) ↦
        let v = (host.random w).1 in
        elim (Result-cases (pick_port engine host env redis files c v).0) [
          | inr (e, p) ↦ ground (arith, port v)
          | inl (c', p) ↦
              let v' = (pick_port engine host env redis files c v).1 in
              elim (Result-cases (host.unix_time v').0) [
                | inr (e, t) ↦ ground (arith, time v')
                | inl (now, t) ↦
                    let req = create_request engine host env redis files c' now n in
                    elim (Result-cases (run engine req (host.unix_time v').1).0) [
                      | inl (cn, x) ↦ ground (arith, no_run req (host.unix_time v').1)
                      | inr (e, x) ↦ (c', e, ground (arith, q, p, t, x))
                    ]
              ]
        ]
  ]

  -- When no container can be run, `Start` ends in a run time panic and not in the error of the engine.
  pub start-panics :
      (ticks : ℕ) (detach : Bool) (c : Config) (w : W)
      → ((q : CreateRequest) (v : W) → is_ok (run engine q v).0 ≡ false)
      → ((v : W) → is_ok (host.random v).0 ≡ true)
      → ((v : W) → is_ok (host.unix_time v).0 ≡ true)
      → ((v : W) → is_ok (host.available_port v).0 ≡ true)
      → (start engine host env redis files ticks detach c w).0
        ≡ err (panic "invalid memory address or nil pointer dereference")
  unfolding start start_using_docker
  start-panics ticks detach c w no_run rnd time port =
      ground (arith, no_container ticks c w no_run rnd time port)
