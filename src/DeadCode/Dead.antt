-- ===== src/DeadCode/Dead.antt =====
-- DeadCode on one function: marking and sweeping leave no use of what was erased.
use mathlib.Core.List.{Memᴰ}
use mathlib.Core.List.Memᴰ
use poly_cminus.Prelude.{List}
use poly_cminus.DeadCode.Live.{Live}
