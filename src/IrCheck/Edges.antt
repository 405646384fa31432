-- ===== src/IrCheck/Edges.antt =====
-- Predecessors, successors and branches after the checks of src/Optimize/IRCheck.cc.
use mathlib.Core.List.{Memᴰ}
use poly_cminus.Prelude.{
  ℕ, ◌&&◌, true, Bool-cases, inl, inr, Option, none, some, List, [], ◌∷◌, ◌≡◌, refl, sym, ◌∙◌,
  subst,
}
use poly_cminus.Dominators.Search.{has}
use poly_cminus.Dominators.Iteration.{is_set, is_block}
use poly_cminus.IrCheck.Values.{Module, every, is_unique, names, is_basic_block}
use poly_cminus.IrCheck.Structure.{
  agrees, among, all_successors, branches_to, is_successor, targets_are_successors,
  terminator_operands, check_pred_succ, check_pred_succ_br,
}
use poly_cminus.IrCheck.Lists.{
  &&-both, every-Memᴰ, every_block-Memᴰ, has-Memᴰ, IsDistinct, is_unique-IsDistinct, is_block-eq,
}

names-Memᴰ : (os : List (Option ℕ)) (v : ℕ) → names os v ≡ true → Memᴰ (some v) os
names-Memᴰ [] v e = cc
names-Memᴰ (o ∷ os) v e = elim (Bool-cases (is_block o v)) [
  | inl p ↦ Memᴰ.head (sym (is_block-eq o v p))
  | inr p ↦ Memᴰ.tail (names-Memᴰ os v (rw p at e))
]

module _ (m : Module) where
  -- Where check_pred_succ passes, no predecessor or successor of a block of a function is named
  -- twice, and each names the block on the other side.
  pub check_pred_succ-agrees :
      {f b : ℕ}
      → check_pred_succ m ≡ true
      → Memᴰ f m.functions
      → Memᴰ b (m.basic_blocks f)
      → IsDistinct (m.graph.pre b)
        × IsDistinct (m.graph.succ b)
        × ((a : ℕ) → Memᴰ a (m.graph.pre b) → Memᴰ b (m.graph.succ a))
        × ((a : ℕ) → Memᴰ a (m.graph.succ b) → Memᴰ b (m.graph.pre a))
  unfolding check_pred_succ
  check_pred_succ-agrees {f} {b} e mf mb =
      let both =
        every_block-Memᴰ m
          (λ f b. agrees m m.graph.pre m.graph.succ b && agrees m m.graph.succ m.graph.pre b) e mf
          mb in
      let (preds, succs) = &&-both (agrees m m.graph.pre m.graph.succ b) _ both in
      let (p, p') = &&-both (is_unique (m.graph.pre b)) _ preds in
      let (s, s') = &&-both (is_unique (m.graph.succ b)) _ succs in
      (
        is_unique-IsDistinct (m.graph.pre b) p,
        is_unique-IsDistinct (m.graph.succ b) s,
        λ a n.
            has-Memᴰ (m.graph.succ a) b
              (every-Memᴰ (λ x. has (m.graph.succ x) b) (m.graph.pre b) p' n),
        λ a n.
            has-Memᴰ (m.graph.pre a) b
              (every-Memᴰ (λ x. has (m.graph.pre x) b) (m.graph.succ b) s' n),
      )

  operands_there :
      (b : ℕ) (o : Option (List (Option ℕ)))
      → all_successors m b o ≡ true
      → (os : List (Option ℕ)) × (o ≡ some os) × (every (is_successor m b) os ≡ true)
  operands_there b none e = cc
  operands_there b (some os) e = (os, refl, e)

  among-Memᴰ :
      (to : ℕ) (o : Option (List (Option ℕ)))
      → among m o to ≡ true
      → (os : List (Option ℕ)) × (o ≡ some os) × Memᴰ (some to) os
  among-Memᴰ to none e = cc
  among-Memᴰ to (some os) e = (os, refl, names-Memᴰ os to (&&-both (every is_set os) _ e).1)

  is_successor-has :
      (b s : ℕ)
      → is_successor m b (some s) ≡ true
      → is_basic_block (m.class_of s) ≡ true
      → has (m.graph.succ b) s ≡ true
  is_successor-has b s e block = rw block at e

  -- Where check_pred_succ_br passes, the terminator of a block of a function is there, and the
  -- successors of the block are exactly the blocks among its operands; the block is among the
  -- operands of the terminator of each predecessor.
  pub check_pred_succ_br-targets :
      {f b : ℕ}
      → check_pred_succ_br m ≡ true
      → Memᴰ f m.functions
      → Memᴰ b (m.basic_blocks f)
      → (os : List (Option ℕ)) × (terminator_operands m b ≡ some os)
        × ((s : ℕ) → Memᴰ s (m.graph.succ b) → Memᴰ (some s) os)
        × ((s : ℕ)
            → Memᴰ (some s) os
            → is_basic_block (m.class_of s) ≡ true
            → Memᴰ s (m.graph.succ b))
        × ((p : ℕ)
            → Memᴰ p (m.graph.pre b)
            → (os' : List (Option ℕ)) × (terminator_operands m p ≡ some os') × Memᴰ (some b) os')
  unfolding check_pred_succ_br
  check_pred_succ_br-targets {f} {b} e mf mb =
      let all =
        every_block-Memᴰ m
          (λ f b.
            every (λ p. branches_to m p b) (m.graph.pre b)
            && (every (branches_to m b) (m.graph.succ b) && targets_are_successors m b))
          e mf mb in
      let (preds, rest) = &&-both (every (λ p. branches_to m p b) (m.graph.pre b)) _ all in
      let (succs, targets) = &&-both (every (branches_to m b) (m.graph.succ b)) _ rest in
      let (os, found, every_target) = operands_there b (terminator_operands m b) targets in
      (
        os,
        found,
        λ s n.
            let (os', found', listed) =
              among-Memᴰ s (terminator_operands m b)
                (every-Memᴰ (branches_to m b) (m.graph.succ b) succs n) in
            let same : some os' ≡ some os = sym found' ∙ found in
            subst (Memᴰ (some s)) (cc same) listed,
        λ s n block.
            has-Memᴰ (m.graph.succ b) s
              (is_successor-has b s (every-Memᴰ (is_successor m b) os every_target n) block),
        λ p n.
            among-Memᴰ b (terminator_operands m p)
              (every-Memᴰ (λ p. branches_to m p b) (m.graph.pre b) preds n),
      )
