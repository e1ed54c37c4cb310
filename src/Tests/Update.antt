-- ===== src/Tests/Update.antt =====
-- A machine whose world is what stands at each path.
use dbctl.Base.{
  ◌≡◌, Option, none, some, [], if◌then◌else◌, Text, codes, text_eq, Error, ok, err, pure, arith,
  ◌⊎◌, external, raise,
}
use dbctl.SelfUpdate.Machine.{Machine}
use dbctl.SelfUpdate.Install.{swap, rollback_failed}
use dbctl.SelfUpdate.Swap.{IsDirectory, swap-keeps}

abbrev Disk : Type 0
Disk = Text → Option Text

abbrev machine : Machine Disk
machine = record {
  os = codes "linux";
  arch = codes "amd64";
  executable = pure (codes "/bin/dbctl");
  check_url = λ url. ok tt;
  get = λ url. raise (external (codes "no network"));
  read_all = λ body. pure [];
  close_body = λ body. pure tt;
  decode_release = λ d. err (external (codes "no release"));
  create_file = λ path. pure 0;
  open_file = λ path. pure 0;
  file_mode = λ path. pure 0;
  open_new = λ path mode. pure 0;
  copy = λ a b. pure tt;
  close_file = λ f. pure tt;
  remove = λ p w. (ok tt, λ q. if text_eq q p then none else w q);
  remove_all = λ p. pure tt;
  rename = λ a b w. (ok tt, λ q. if text_eq q b then w a else if text_eq q a then none else w q);
  mkdir_all = λ p. pure tt;
  mkdir = λ p. pure tt;
  gunzip = λ f. pure 0;
  entries = λ f. pure [];
}

machine-IsDirectory : IsDirectory machine
machine-IsDirectory = record {
  at = λ w. w;
  remove_others = λ p q w n. ground (arith, n);
  rename_moves = λ a b w h. ground arith;
  rename_others = λ a b q w n k. ground (arith, n, k);
  rename_fails = λ a b q w e h. absurd (ground (arith, h));
}

abbrev disk : Disk
disk path = some path

swap-keeps_example :
    (((swap machine (codes "a") (codes "b") (codes "c") disk).0 ≡ ok tt)
      × ((swap machine (codes "a") (codes "b") (codes "c") disk).1 (codes "a") ≡ disk (codes "b"))
      × ((swap machine (codes "a") (codes "b") (codes "c") disk).1 (codes "c") ≡ disk (codes "a")))
    ⊎ ((e : Error) × ((((swap machine (codes "a") (codes "b") (codes "c") disk).0 ≡ err e)
            × ((swap machine (codes "a") (codes "b") (codes "c") disk).1 (codes "a")
                ≡ disk (codes "a")))
          ⊎ (((swap machine (codes "a") (codes "b") (codes "c") disk).0 ≡ err (rollback_failed e))
              × ((swap machine (codes "a") (codes "b") (codes "c") disk).1 (codes "c")
                  ≡ disk (codes "a")))))
unfolding machine-IsDirectory
swap-keeps_example =
    swap-keeps machine machine-IsDirectory (codes "a") (codes "b") (codes "c") disk
      (λ e. ground (arith, e)) (λ e. ground (arith, e)) (λ e. ground (arith, e))
