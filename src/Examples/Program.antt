-- ===== src/Examples/Program.antt =====
-- The start of the program at a concrete input.
use hotswap_operator.Prelude.{true, ◌≡◌, ◌↔◌, none, [], ◌∷◌, ◌++◌}
use hotswap_operator.Program.{default_flags, Answers, start, main}
use hotswap_operator.Program.Start.{Succeed, has_start, preparations, main_lem}

-- Every call succeeds.
abbrev well : Answers
well made c = none

main_lem_example :
    (((main default_flags well).code ≡ 0)
      ↔ Succeed well [] (preparations default_flags ++ start ∷ []))
    × (has_start (main default_flags well).calls ≡ true
        → Succeed well [] (preparations default_flags))
main_lem_example = main_lem default_flags well
