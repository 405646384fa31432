-- ===== src/DeadCode/SweepBlock.antt =====
-- DeadCode::sweep on one block: it keeps the marked instructions in their order, and takes the uses
-- of the others out of the use lists.
use mathlib.Core.List.{Memᴰ}
use poly_cminus.Prelude.{
  ℕ, suc, ◌==◌, ◌&&◌, ◌||◌, Bool, true, false, not, if◌then◌else◌, Bool-cases, Option, some, List,
  [], ◌∷◌, ◌≡◌, refl, sym, ap, ◌∙◌, inl, inr, subst, ==→eq,
}
use poly_cminus.Uses.{Store, operand_at}
use poly_cminus.Uses.Consistent.{has_use, is_value}
use poly_cminus.Uses.Consistent.Remove.{all_set, AreOwn, remove_use_of_ops-removes}
use poly_cminus.Dominators.Search.{has}
use poly_cminus.DeadCode.{Marked, Swept, sweep_block}

-- The marked elements of a list, in their order.
abbrev pub only : Marked → List ℕ → List ℕ
only marked [] = []
only marked (i ∷ is) = if marked i then i ∷ only marked is else only marked is

pub only_again : (marked : Marked) (is : List ℕ) → only marked (only marked is) ≡ only marked is
only_again marked [] = refl
only_again marked (i ∷ is) = elim (Bool-cases (marked i)) [
  | inl e ↦ rw e (rw e (ap (λ r. i ∷ r) (only_again marked is)))
  | inr e ↦ rw e (only_again marked is)
]

abbrev pub is_swept : Marked → List ℕ → ℕ → Bool
is_swept marked is x = has is x && not (marked x)

-- Every user's uses in the lists are those of its operands.
abbrev pub AllOwn : Store → Type 0
AllOwn s = (u : ℕ) → AreOwn s u

-- The store after the uses by some users were removed.
pub record WithoutUses (gone : ℕ → Bool) (s s' : Store) : Type 0 where
  pub same_operands : s'.operands ≡ s.operands
  pub uses :
      (v x i : ℕ)
      → has_use (s'.use_list v) x i ≡ (if gone x then false else has_use (s.use_list v) x i)

pub WithoutUses-AllOwn :
    {gone : ℕ → Bool} {s s' : Store} → WithoutUses gone s s' → AllOwn s → AllOwn s'
WithoutUses-AllOwn {gone} {s} {s'} w own u v i e =
    subst (λ (os : ℕ → List (Option ℕ)). is_value (operand_at (os u) i) v ≡ true)
      (sym w.same_operands)
      (own u v i (before (gone u) (has_use (s.use_list v) u i) (sym (w.uses v u i) ∙ e)))
  where
    before : (a b : Bool) → (if a then false else b) ≡ true → b ≡ true
    before true b h = cc
    before false b h = h

and_false : (a : Bool) → (a && false) ≡ false
and_false true = refl
and_false false = refl

pub joined :
    (a b d : Bool) → (if b then false else (if a then false else d)) ≡ (if a || b then false else d)
joined true true d = refl
joined true false d = refl
joined false true d = refl
joined false false d = refl

module _ (marked : Marked) where
  pub swept-cons :
      (i : ℕ) (is : List ℕ) (x : ℕ)
      → marked i ≡ true
      → is_swept marked is x ≡ is_swept marked (i ∷ is) x
  swept-cons i is x e = elim (Bool-cases (x == i)) [
    | inl p ↦
        let mx : marked x ≡ true = ap marked (==→eq x i p) ∙ e in
        rw mx (and_false (has is x) ∙ sym (and_false (x == i || has is x)))
    | inr p ↦ rw p refl
  ]

  swept-erased :
      (i : ℕ) (is : List ℕ) (x : ℕ)
      → marked i ≡ false
      → (x == i || is_swept marked is x) ≡ is_swept marked (i ∷ is) x
  swept-erased i is x e = elim (Bool-cases (x == i)) [
    | inl p ↦ let mx : marked x ≡ false = ap marked (==→eq x i p) ∙ e in rw (p, mx) refl
    | inr p ↦ rw p refl
  ]

  -- Where every user's uses are those of its operands and no operand is null, a block's sweep returns,
  -- keeps the marked instructions, and removes the uses of the others.
  pub sweep_block-only :
      (is : List ℕ) (s : Store)
      → AllOwn s
      → ((i : ℕ) → Memᴰ i is → all_set (s.operands i) ≡ true)
      → (r : Swept) × (sweep_block marked is s ≡ some r)
        × (r.kept ≡ only marked is)
        × WithoutUses (is_swept marked is) s r.store
  unfolding sweep_block
  sweep_block-only [] s own set = (
    record { kept = []; store = s; ins_sweeped = 0 },
    refl,
    refl,
    record { same_operands = refl; uses = λ v x i. refl },
  )
  sweep_block-only (i ∷ is) s own set = elim (Bool-cases (marked i)) [
    | inl e ↦
        let (r, ran, kept, w) = sweep_block-only is s own (λ x n. set x (Memᴰ.tail n)) in
        (
          record r { kept = i ∷ r.kept },
          rw (e, ran) refl,
          rw e (ap (λ l. i ∷ l) kept),
          record {
            same_operands = w.same_operands;
            uses = λ v x j.
                w.uses v x j
                ∙ ap (λ b. if b then false else has_use (s.use_list v) x j) (swept-cons i is x e);
          },
        )
    | inr e ↦
        let (s', removed, same, uses) =
          remove_use_of_ops-removes i s (own i) (set i (Memᴰ.head refl)) in
        let gone : WithoutUses (λ x. x == i) s s' = record { same_operands = same; uses = uses } in
        let (r, ran, kept, w) = sweep_block-only is s' (WithoutUses-AllOwn gone own) (λ x n.
          subst (λ (os : ℕ → List (Option ℕ)). all_set (os x) ≡ true) (sym same)
            (set x (Memᴰ.tail n))) in
        (
          record r { ins_sweeped = suc r.ins_sweeped },
          rw (e, removed, ran) refl,
          rw e kept,
          record {
            same_operands = w.same_operands ∙ same;
            uses = λ v x j.
                w.uses v x j
                ∙ ap (λ b. if is_swept marked is x then false else b) (uses v x j)
                ∙ joined (x == i) (is_swept marked is x) (has_use (s.use_list v) x j)
                ∙ ap (λ b. if b then false else has_use (s.use_list v) x j) (swept-erased i is x e);
          },
        )
  ]
