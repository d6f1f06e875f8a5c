-- ===== src/Consola/Reach.antt =====
-- Every state of a console that the steps of its threads reach, in any order, is valid.
use esthe_r.Base.{Option, none, some}
use esthe_r.Consola.{ConsoleState}
use esthe_r.Consola.Valid.{ValidState}
use esthe_r.Consola.Goes.{Goes}

-- If there is a state, it is valid.
abbrev ValidResult : Option ConsoleState → Type 0
ValidResult none = Unit
ValidResult (some s) = ValidState s
