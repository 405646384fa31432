-- ===== src/Ir/Sample.antt =====
-- A small world that the passes' tests run in.
use poly_cminus.Prelude.{ℕ, zero, suc, none, some, ◌∷◌}
use poly_cminus.Ir.Exec.{External}

-- One number: kind 0 reads it, kind 1 writes it.
abbrev pub cell : External ℕ
cell zero args w = some (w, w)
cell (suc zero) (x ∷ args) w = some (0, x)
cell kind args w = none
