-- ===== src/Tests/Commands.antt =====
-- The commands on the engine of the tests, and a logger that keeps what it prints.
use dbctl.Base.{
  ℕ, ◌+◌, ◌≡◌, refl, false, List, [], ◌∷◌, ◌++◌, length, All, Text, codes, ok, arith, text_discrete,
}
use dbctl.Base.Decimal.{pos}
use dbctl.Container.Docker.{Summary}
use dbctl.Cmd.List.{run_list, run_list-prints}
use dbctl.Cmd.Testing.{command_list, with_dashes, command_list-with_dashes}
use dbctl.Logger.{Logger}
use dbctl.Tests.Docker.{docker, pg_one}

abbrev one_running : List Summary
one_running = record pg_one { id = codes "0123456789abcdef" } ∷ []

run_list-prints_example :
    (n : ℕ) × (ls : List Text) × (((run_list docker one_running).0 ≡ ok ls)
      × (length ls ≡ 1 + 4)
      × All (λ l. length l ≡ n) ls)
unfolding dbctl.Container.list dbctl.Base.Dict.lookup text_discrete dbctl.Net.Url.cut
run_list-prints_example = run_list-prints docker one_running _ refl (omega arith, tt)

command_list-with_dashes_example :
    command_list
      (with_dashes ((codes "pg" ∷ codes "-p" ∷ codes "5435" ∷ []) ∷ (codes "rs" ∷ []) ∷ []))
    ≡ (codes "pg" ∷ codes "-p" ∷ codes "5435" ∷ []) ∷ (codes "rs" ∷ []) ∷ []
unfolding text_discrete
command_list-with_dashes_example =
    command_list-with_dashes (codes "pg" ∷ codes "-p" ∷ codes "5435" ∷ []) ((codes "rs" ∷ []) ∷ [])
      refl

abbrev keeping : Logger (List (List Text))
keeping = record { provider = λ v w. w ++ v ∷ []; log_lvl = pos 0 }
