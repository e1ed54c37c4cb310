-- ===== src/Tests/SelfUpdate.antt =====
-- Versions in their order.
use dbctl.Base.{◌≡◌, ◌⊎◌, true, false, codes, ok, arith}
use dbctl.Base.Decimal.{pos, negsuc}
use dbctl.SelfUpdate.{Version, compare, greater, to_text, parse_version}
use dbctl.SelfUpdate.Order.{is_before, compare_lem, greater_lem, parse_version-to_text}

abbrev old : Version
old = record { major = 1; minor = 9; patch = 0 }

abbrev new : Version
new = record { major = 1; minor = 10; patch = 0 }

compare_lem_example :
    ((is_before old new ≡ true) × (compare old new ≡ negsuc 0))
    ⊎ (((is_before new old ≡ true) × (compare old new ≡ pos 1))
        ⊎ ((old ≡ new) × (compare old new ≡ pos 0)))
compare_lem_example = compare_lem old new

greater_lem_example : greater new old ≡ false
greater_lem_example = greater_lem new old

parse_version-to_text_example : parse_version (codes "v1.10.0") ≡ ok new
unfolding to_text
parse_version-to_text_example = parse_version-to_text new (omega arith) (omega arith) (omega arith)
