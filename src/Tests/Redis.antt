-- ===== src/Tests/Redis.antt =====
-- A Redis server whose world is the selected database and the keys of each database.
use dbctl.Base.{
  ℕ, ◌<◌, ◌≡◌, ◌≢◌, refl, Bool, true, false, not, ◌&&◌, ◌||◌, List, [], ◌∷◌, ◌++◌, if◌then◌else◌,
  ltb, ◌==◌, Text, codes, ◌⊎◌, text_eq, text_discrete, Error, errorf, external, panic, Result, ok,
  err, is_ok, is_exactly, deadline_exceeded, Exec, pure, raise, some, none, arith, All, all_of,
  ◌>>◌, length, ◌+◌,
}
use dbctl.Base.Decimal.{ℤ, pos, negsuc}
use dbctl.Container.{Env}
use dbctl.Container.Docker.{Summary}
use dbctl.Files.{Files}
use dbctl.Redis.{default_config, no_auth_uri}
use dbctl.Redis.Server.{Server, IsUp}
use dbctl.Redis.Index.{acquire_db_index, release, index_key}
use dbctl.Redis.Index.Claims.{Claimed}
use dbctl.Redis.Index.Acquire.{acquire_db_index_ends, Outcome, acquired, release_lem, count_at}
use dbctl.Redis.Index.Pool.{Pool, Step, hand_out, here, next, IsLeased, Reach-IsLeased}
use dbctl.Redis.Fixtures.Split.{split_command, split_command-render, render}
use dbctl.Redis.Start.{Host, wait_for_start, start}
use dbctl.Redis.Start.Laws.{wait_for_start-waits, start-panics}
use dbctl.Database.Host.{host_uri}
use dbctl.Redis.{uri}
use dbctl.Redis.Start.{create_db}
use dbctl.Redis.Start.Create.{create_db-Claimed, at_index}
use dbctl.Tests.Docker.{docker}

pub record Memory : Type 0 where
  pub selected : ℕ
  pub has : ℕ → Text → Bool

abbrev pub memory : Server Memory
memory = record {
  dial = λ target. pure tt;
  close = pure tt;
  config_get = λ key. pure (codes "databases" ∷ codes "16" ∷ []);
  setnx = λ k v w. (
    ok (if w.has w.selected k then 0 else 1),
    record w { has = λ i j. (i == w.selected && text_eq j k) || w.has i j },
  );
  select = λ index w. elim index [
    | pos n ↦
        if ltb n 16 then (ok tt, record w { selected = n }) else (err (errorf "out of range" []), w)
    | negsuc n ↦ (err (errorf "out of range" []), w)
  ];
  flushdb = λ w. (ok tt, record w { has = λ i j. not (i == w.selected) && w.has i j });
  del = λ k w. (ok tt, record w { has = λ i j. not (i == w.selected && text_eq j k) && w.has i j });
  eval = λ script. pure tt;
  command = λ name args. pure tt;
  acl = λ args. pure tt;
}

memory_up : IsUp memory 16
memory_up = record {
  selected = λ w. w.selected;
  has = λ w. w.has;
  setnx_reply = λ k v w. refl;
  setnx_selected = λ k v w. refl;
  setnx_has = λ k v w i j. refl;
  select_reply = λ n w h. ground (arith, h);
  select_selected = λ n w h. ground (arith, h);
  select_has = λ n w i j h. ground (arith, h);
  flushdb_reply = λ w. refl;
  flushdb_selected = λ w. refl;
  flushdb_has = λ w i j. refl;
  del_reply = λ k w. refl;
  del_selected = λ k w. refl;
  del_has = λ k w i j. refl;
  config_selected = λ k w. refl;
  config_has = λ k w i j. refl;
}

abbrev pub fresh : Memory
fresh = record { selected = 0; has = λ i j. false }

acquire_db_index_ends_example : Outcome memory memory_up fresh
unfolding memory_up dbctl.Base.Decimal.atoi
acquire_db_index_ends_example = acquire_db_index_ends memory memory_up fresh refl (omega arith)

acquired_example : (1 < 16) × Claimed memory memory_up 1 1 fresh (acquire_db_index memory fresh).1
unfolding memory_up dbctl.Base.Decimal.atoi acquire_db_index
acquired_example = acquired memory memory_up fresh 1 refl (omega arith) refl

release_lem_example :
    ((release memory (pos 3) fresh).0 ≡ ok tt)
    × ((release memory (pos 3) fresh).1.selected ≡ 0)
    × ((n : ℕ) (k : Text)
        → (release memory (pos 3) fresh).1.has n k ≡ (
            if n == 0
            then not (text_eq k (index_key 3)) && fresh.has 0 k
            else not (n == 3) && fresh.has n k))
unfolding release memory_up
release_lem_example = release_lem memory memory_up 3 fresh (omega arith) (omega arith)

abbrev leased : Pool Memory
leased = record { world = fresh; held = [] }

abbrev leased_one : Pool Memory
leased_one = record { world = (acquire_db_index memory fresh).1; held = 1 ∷ [] }

leased-IsLeased : IsLeased memory memory_up leased
unfolding memory_up
leased-IsLeased = record { on_zero = refl; marked = λ j. refl; once = tt; in_range = tt }

always_16 : (w : Memory) → count_at memory memory_up w ≡ 16
unfolding dbctl.Base.Decimal.atoi
always_16 w = refl

one_handed_out : Step memory memory_up leased leased_one
unfolding dbctl.Base.Decimal.atoi acquire_db_index
one_handed_out = hand_out 1 refl refl

Reach-IsLeased_example : IsLeased memory memory_up leased_one
Reach-IsLeased_example =
    Reach-IsLeased memory memory_up always_16 (next here one_handed_out) leased-IsLeased

split_command-render_example :
    split_command (render (codes "SET" ∷ codes "a b" ∷ [])) ≡ ok (codes "SET" ∷ codes "a b" ∷ [])
split_command-render_example = split_command-render (codes "SET" ∷ codes "a b" ∷ []) (ground arith)

abbrev pub no_env : Env
no_env name = []

abbrev pub no_files : {W : Type 0} → Files W
no_files = record {
  is_dir = λ path. pure false;
  is_missing = λ path. pure true;
  abs = λ path. pure path;
  walk = λ root. pure [];
  read_file = λ path. pure [];
}

abbrev down : Server (List Summary)
down = record {
  dial = λ target. raise (external (codes "connection refused"));
  close = pure tt;
  config_get = λ key. pure [];
  setnx = λ k v. pure 0;
  select = λ index. pure tt;
  flushdb = pure tt;
  del = λ k. pure tt;
  eval = λ script. pure tt;
  command = λ name args. pure tt;
  acl = λ args. pure tt;
}

abbrev pub host : Host (List Summary)
host = record { random = pure 7; unix_time = pure 1700000000; available_port = pure 4096 }

refused_is_no_deadline :
    (v : List Summary) (e : Error)
    → (down.dial (no_auth_uri no_env default_config) v).0 ≡ err e
    → is_exactly deadline_exceeded e ≡ false
unfolding is_exactly
refused_is_no_deadline v e h = ground (arith, h)

wait_for_start-waits_example :
    (wait_for_start no_env down no_files 40 default_config []).0 ≡ ok none
wait_for_start-waits_example =
    wait_for_start-waits no_env down no_files 40 default_config [] (λ v. refl)
      refused_is_no_deadline

start-panics_example :
    (start docker host no_env down no_files 40 true default_config []).0
    ≡ err (panic "invalid memory address or nil pointer dereference")
unfolding dbctl.Container.run
start-panics_example =
    start-panics docker host no_env down no_files 40 true default_config [] (λ q v. refl)
      (λ v. refl) (λ v. refl) (λ v. refl)

create_db-Claimed_example :
    (i : ℕ) × ((codes "redis://localhost:16379/1"
        ≡ host_uri no_env (uri no_env (at_index no_env memory no_files memory_up default_config i)))
      × Claimed memory memory_up 1 i fresh (acquire_db_index memory fresh).1
      × ((create_db no_env memory no_files default_config [] fresh).1
          ≡ (acquire_db_index memory fresh).1))
unfolding memory_up dbctl.Base.Decimal.atoi create_db text_discrete
create_db-Claimed_example =
    create_db-Claimed no_env memory no_files memory_up default_config fresh
      (codes "redis://localhost:16379/1") refl (omega arith) refl
