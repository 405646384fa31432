-- ===== src/Ir/Rewrite.antt =====
-- The loop that the arithmetic passes share (MulWeaken::run, DivisionInvariant::run,
-- UselessOperationEli::run): the blocks of a function and their instructions in order, where a
-- rule looks at each binary instruction.
use poly_cminus.Prelude.{
  ℕ, ◌+◌, Bool, true, false, if◌then◌else◌, Option, none, some, ◌>>=◌, List, [], ◌∷◌, ◌++◌, map,
  length,
}
use poly_cminus.Ir.{OpId, IntTy, Value, Inst, binary, other, Replacements, replaced, replaced_inst}

-- What a pass does at one instruction: the instructions inserted before it, the value that
-- replaces all its uses, whether it stays in the block, and whether the loop's iterator steps
-- over the instruction behind it.
pub record Rewrite : Type 0 where
  pub emitted : List Inst
  pub new_val : Option Value
  pub kept : Bool
  pub skips : Bool

abbrev pub unchanged : Rewrite
unchanged = record { emitted = []; new_val = none; kept = true; skips = false }

-- A rule gets the next free identity and the instruction; `none` when the pass does not return.
abbrev pub Rule : Type 0
Rule = ℕ → OpId → IntTy → Value → Value → Option Rewrite

pub record Rewritten : Type 0 where
  pub code : List Inst
  pub pending : Replacements
  pub next : ℕ

abbrev pub extended : Replacements → ℕ → Option Value → Replacements
extended rs d none = rs
extended rs d (some v) = record { old = d; new = v } ∷ rs

abbrev pub keeping : Bool → Inst → List Inst → List Inst
keeping true i is = i ∷ is
keeping false i is = is

abbrev pub prepend : List Inst → Rewritten → Rewritten
prepend is r = record r { code = is ++ r.code }

abbrev pub looked_at : Rule → Bool → Rule
looked_at rule skip next op t a b = if skip then some unchanged else rule next op t a b

-- One block. A use that stands later is replaced when the loop reaches it.
unfoldable pub run_block : Rule → Bool → Replacements → ℕ → List Inst → Option Rewritten
run_block rule skip rs next [] = some (record { code = []; pending = rs; next = next })
run_block rule skip rs next (other d k args ∷ is) = run_block rule false rs next is >>= λ r.
    some (prepend (other d k (map (replaced rs) args) ∷ []) r)
run_block rule skip rs next (binary d op t a b ∷ is) =
    looked_at rule skip next op t (replaced rs a) (replaced rs b) >>= λ w.
    run_block rule w.skips (extended rs d w.new_val) (next + length w.emitted) is >>= λ r.
    some
      (prepend (w.emitted ++ keeping w.kept (binary d op t (replaced rs a) (replaced rs b)) []) r)

-- The blocks of a function in their order, with the replacements made so far.
unfoldable pub run_blocks :
    Rule
    → Replacements
    → ℕ
    → List (List Inst)
    → Option (record { blocks : List (List Inst); pending : Replacements; next : ℕ })
run_blocks rule rs next [] = some (record { blocks = []; pending = rs; next = next })
run_blocks rule rs next (b ∷ bs) = run_block rule false rs next b >>= λ r.
    run_blocks rule r.pending r.next bs >>= λ s.
    some (record { blocks = r.code ∷ s.blocks; pending = s.pending; next = s.next })

-- A use in an earlier block, of a phi behind a loop's back edge, is replaced as well.
unfoldable pub run_function : Rule → ℕ → List (List Inst) → Option (List (List Inst))
unfolding run_blocks run_block
run_function rule next bs =
    run_blocks rule [] next bs >>= λ s. some (map (map (replaced_inst s.pending)) s.blocks)
