-- ===== src/DeadCode/Sweep.antt =====
-- DeadCode::sweep: it keeps the marked instructions in their order, and takes the uses of the
-- others out of the use lists.
use mathlib.Core.List.{Memᴰ}
use mathlib.Core.List.Memᴰ
use poly_cminus.Prelude.{
  ℕ, ◌+◌, ◌==◌, ◌||◌, Bool, true, false, if◌then◌else◌, Bool-cases, Option, some, List, [], ◌∷◌,
  ◌≡◌, refl, sym, ap, ◌∙◌, inl, inr, subst, ==→eq,
}
use poly_cminus.Uses.{put}
use poly_cminus.Uses.Consistent.{has_use}
use poly_cminus.Uses.Consistent.Remove.{all_set}
use poly_cminus.Dominators.Search.{has}
use poly_cminus.DeadCode.{Marked, SweptBlocks, sweep_blocks}
use poly_cminus.DeadCode.SweepBlock.{
  only, only_again, is_swept, AllOwn, WithoutUses, WithoutUses-AllOwn, joined, swept-cons,
  sweep_block-only,
}

module _ (marked : Marked) where
  -- The block's list after the sweep of some blocks.
  abbrev pub swept_list : List ℕ → (ℕ → List ℕ) → ℕ → List ℕ
  swept_list bs instructions b = if has bs b then only marked (instructions b) else instructions b

  -- An instruction of one of the blocks that is not marked.
  abbrev pub is_gone : List ℕ → (ℕ → List ℕ) → ℕ → Bool
  is_gone [] instructions x = false
  is_gone (b ∷ bs) instructions x = is_swept marked (instructions b) x || is_gone bs instructions x

  abbrev swept_at : (ℕ → List ℕ) → ℕ → ℕ → List ℕ
  swept_at instructions b = put instructions b (only marked (instructions b))

  only-is_swept : (is : List ℕ) (x : ℕ) → is_swept marked (only marked is) x ≡ false
  only-is_swept [] x = refl
  only-is_swept (i ∷ is) x = elim (Bool-cases (marked i)) [
    | inl e ↦ rw e (sym (swept-cons marked i (only marked is) x e) ∙ only-is_swept is x)
    | inr e ↦ rw e (only-is_swept is x)
  ]

  is_gone-swept_at :
      (bs : List ℕ) (instructions : ℕ → List ℕ) (b x : ℕ)
      → is_swept marked (instructions b) x ≡ false
      → is_gone bs (swept_at instructions b) x ≡ is_gone bs instructions x
  is_gone-swept_at [] instructions b x e = refl
  is_gone-swept_at (c ∷ bs) instructions b x e = elim (Bool-cases (c == b)) [
    | inl p ↦
        let same : is_swept marked (instructions c) x ≡ false =
          ap (λ c. is_swept marked (instructions c) x) (==→eq c b p) ∙ e in
        rw (p, only-is_swept (instructions b) x, same) (is_gone-swept_at bs instructions b x e)
    | inr p ↦
        rw p (
          ap (λ g. is_swept marked (instructions c) x || g)
            (is_gone-swept_at bs instructions b x e))
  ]

  gone-swept_at :
      (bs : List ℕ) (instructions : ℕ → List ℕ) (b x : ℕ)
      → (is_swept marked (instructions b) x || is_gone bs (swept_at instructions b) x)
        ≡ is_gone (b ∷ bs) instructions x
  gone-swept_at bs instructions b x = elim (Bool-cases (is_swept marked (instructions b) x)) [
    | inl e ↦ rw e refl
    | inr e ↦ rw e (is_gone-swept_at bs instructions b x e)
  ]

  swept_list-swept_at :
      (bs : List ℕ) (instructions : ℕ → List ℕ) (b c : ℕ)
      → swept_list bs (swept_at instructions b) c ≡ swept_list (b ∷ bs) instructions c
  swept_list-swept_at bs instructions b c = elim (Bool-cases (c == b)) [
    | inl p ↦
        let same : only marked (instructions b) ≡ only marked (instructions c) =
          ap (λ c. only marked (instructions c)) (sym (==→eq c b p)) in
        elim (Bool-cases (has bs c)) [
          | inl q ↦ rw (q, p) (only_again marked (instructions b) ∙ same)
          | inr q ↦ rw (q, p) same
        ]
    | inr p ↦ rw p refl
  ]

  only-Memᴰ : (is : List ℕ) {i : ℕ} → Memᴰ i (only marked is) → Memᴰ i is
  only-Memᴰ [] m = m
  only-Memᴰ (j ∷ is) m = elim (Bool-cases (marked j)) [
    | inl e ↦ elim (Memᴰ.cases_cons (rw e at m)) [
      | inl first ↦ Memᴰ.head first
      | inr later ↦ Memᴰ.tail (only-Memᴰ is later)
    ]
    | inr e ↦ Memᴰ.tail (only-Memᴰ is (rw e at m))
  ]

  swept_at-Memᴰ :
      (instructions : ℕ → List ℕ) (b c : ℕ) {i : ℕ}
      → Memᴰ i (swept_at instructions b c)
      → Memᴰ i (instructions c)
  swept_at-Memᴰ instructions b c {i} m = elim (Bool-cases (c == b)) [
    | inl p ↦
        subst (λ c. Memᴰ i (instructions c)) (sym (==→eq c b p))
          (only-Memᴰ (instructions b) (rw p at m))
    | inr p ↦ rw p at m
  ]

  -- Where every user's uses are those of its operands and no operand of the blocks' instructions is
  -- null, the sweep of the blocks returns, keeps the marked instructions of each block in their order,
  -- and removes the uses by the others, and no other use.
  pub sweep_blocks-only :
      (bs : List ℕ) (s : SweptBlocks)
      → AllOwn s.store
      → ((b i : ℕ) → Memᴰ b bs → Memᴰ i (s.instructions b) → all_set (s.store.operands i) ≡ true)
      → (r : SweptBlocks) × (sweep_blocks marked bs s ≡ some r)
        × ((b : ℕ) → r.instructions b ≡ swept_list bs s.instructions b)
        × WithoutUses (is_gone bs s.instructions) s.store r.store
  sweep_blocks-only [] s own set =
      (s, refl, λ b. refl, record { same_operands = refl; uses = λ v x i. refl })
  sweep_blocks-only (b ∷ bs) s own set =
      let (t, swept, kept, w) =
        sweep_block-only marked (s.instructions b) s.store own
          (λ i n. set b i (Memᴰ.head refl) n) in
      let s' : SweptBlocks = record {
        instructions = swept_at s.instructions b;
        store = t.store;
        ins_sweeped = s.ins_sweeped + t.ins_sweeped;
      } in
      let (r, ran, lists, w') = sweep_blocks-only bs s' (WithoutUses-AllOwn w own) (λ c i m n.
        subst (λ (os : ℕ → List (Option ℕ)). all_set (os i) ≡ true) (sym w.same_operands)
          (set c i (Memᴰ.tail m) (swept_at-Memᴰ s.instructions b c n))) in
      (
        r,
        rw (swept, kept) ran,
        λ c. lists c ∙ swept_list-swept_at bs s.instructions b c,
        record {
          same_operands = w'.same_operands ∙ w.same_operands;
          uses = λ v x i.
              w'.uses v x i
              ∙ ap (λ u. if is_gone bs (swept_at s.instructions b) x then false else u)
                  (w.uses v x i)
              ∙ joined (is_swept marked (s.instructions b) x)
                  (is_gone bs (swept_at s.instructions b) x) (has_use (s.store.use_list v) x i)
              ∙ ap (λ g. if g then false else has_use (s.store.use_list v) x i)
                  (gone-swept_at bs s.instructions b x);
        },
      )
