-- ===== src/ParallelMov/Tests.antt =====
-- Orders of a few moves.
use mathlib.Core.List.{Memᴰ}
use mathlib.Core.List.Memᴰ
use poly_cminus.Prelude.{
  Bool, false, ◌+◌, ap, inl, inr, ℕ, some, List, [], ◌∷◌, ◌≡◌, ◌≢◌, refl, ◌>>=◌, ◌<◌, suc, zero,
  All, All-Memᴰ, arith,
}
use poly_cminus.ParallelMov.Emit.{
  Armval, reg, value, int_slot, Move, Instr, st, mov, set_value, offset_of, emit_moves,
  parallel_mov, Machine, exec, worth,
}
use poly_cminus.ParallelMov.Emit.Stores.{IsSafe, StoreFits, LoadFits}
use poly_cminus.ParallelMov.Emit.Memory.{HasTarget}
use poly_cminus.ParallelMov.Emit.Loads.{reg_eq}
use poly_cminus.ParallelMov.Emit.Sound.{AreParallel, emit_moves-worth}
use poly_cminus.ParallelMov.Once.{NoRepeat}
use poly_cminus.ParallelMov.Acyclic.{topo_sort-run_moves}
use poly_cminus.ParallelMov.{MoveType, Edge, topo_sort, dfs, sort_nodes, run_moves}

abbrev move : ℕ → ℕ → Edge
move from to = record { from = from; to = to }

chain_example :
    topo_sort MoveType.ireg 8 8 (move 1 2 ∷ move 2 3 ∷ []) ≡ some (move 2 3 ∷ move 1 2 ∷ [])
unfolding dfs sort_nodes
chain_example = refl

-- Two registers are exchanged by way of one of the pool.
swap_example :
    topo_sort MoveType.ireg 8 8 (move 5 6 ∷ move 6 5 ∷ [])
    ≡ some (move 6 22 ∷ move 5 6 ∷ move 22 5 ∷ [])
unfolding dfs sort_nodes
swap_example = refl

-- 14 goes to 13 and 5 and 6 are exchanged, but 13 is taken for the exchange, and loses its value.
clobbered_example :
    (topo_sort MoveType.ireg 8 8 (move 14 13 ∷ move 5 6 ∷ move 6 5 ∷ []) >>= λ moves.
    some (run_moves moves (λ r. r) 13))
    ≡ some 6
unfolding dfs sort_nodes
clobbered_example = refl

abbrev chain : List Edge
chain = move 1 2 ∷ move 2 3 ∷ []

abbrev rank : ℕ → ℕ
rank (suc zero) = 2
rank (suc (suc zero)) = 1
rank x = 0

rank_deep : (x : ℕ) → rank x < 3
rank_deep zero = omega arith
rank_deep (suc zero) = omega arith
rank_deep (suc (suc zero)) = omega arith
rank_deep (suc (suc (suc x))) = omega arith

chain_falls : (e : Edge) → Memᴰ e chain → rank e.to < rank e.from
chain_falls e m =
    All-Memᴰ (λ (e : Edge). rank e.to < rank e.from) chain (omega arith, (omega arith, tt)) m

chain-NoRepeat : NoRepeat chain
chain-NoRepeat = (
  (λ m. elim (Memᴰ.cases_cons m) [
    | inl e ↦ absurd (omega (arith, ap (λ (e : Edge). e.to) e))
    | inr m' ↦ absurd (Memᴰ.not-nil m')
  ]),
  ((λ m. absurd (Memᴰ.not-nil m)), tt),
)

chain_unique : (e f : Edge) → Memᴰ e chain → Memᴰ f chain → e.to ≡ f.to → e.from ≡ f.from
chain_unique e f m n =
    All-Memᴰ (λ (f : Edge). e.to ≡ f.to → e.from ≡ f.from) chain
      (All-Memᴰ (λ (e : Edge). All (λ (f : Edge). e.to ≡ f.to → e.from ≡ f.from) chain) chain
        (
          ((λ e. refl), ((λ e. absurd (omega (arith, e))), tt)),
          (((λ e. absurd (omega (arith, e))), ((λ e. refl), tt)), tt),
        )
        m)
      n

topo_sort-run_moves_example :
    (moves : List Edge) × (topo_sort MoveType.ireg 4 3 chain ≡ some moves)
    × ((r : ℕ → ℕ)
        → ((e : Edge) → Memᴰ e chain → run_moves moves r e.to ≡ r e.from)
          × ((x : ℕ) → ((e : Edge) → Memᴰ e chain → e.to ≢ x) → run_moves moves r x ≡ r x))
topo_sort-run_moves_example =
    topo_sort-run_moves chain rank chain_falls chain-NoRepeat chain_unique MoveType.ireg 4 3
      rank_deep (omega arith)

abbrev state : Machine
state = record { regs = λ r. r; slots = λ s. s }

abbrev three : List Move
three =
    record { to = reg 2 false; from = reg 1 false }
    ∷ record { to = int_slot 8; from = reg 2 false }
    ∷ record { to = reg 3 false; from = value 5 }
    ∷ []

abbrev ThreeParallel : (ℕ → ℕ) → Type 0
ThreeParallel r = AreParallel MoveType.ireg 9 0 (λ v. v) three r

-- A statement on every move of the three.
for_three :
    (P : Move → Type 0)
    → P (record { to = reg 2 false; from = reg 1 false })
    → P (record { to = int_slot 8; from = reg 2 false })
    → P (record { to = reg 3 false; from = value 5 })
    → (d : Move) → Memᴰ d three
    → P d
for_three P a b c d m = All-Memᴰ P three (a, (b, (c, tt))) m

three-AreParallel : ThreeParallel rank
three-AreParallel = record {
  target =
      for_three (λ d. HasTarget MoveType.ireg 9 0 (λ v. v) d.to) (inl (2, false, refl))
        (inr (8, refl)) (inl (3, false, refl));
  one_reg = λ d e id f g md me.
      for_three (λ d. d.to ≡ reg id f → e.to ≡ reg id g → d.from ≡ e.from)
        (λ a.
          for_three (λ (e : Move). e.to ≡ reg id g → ◌≡◌ {A = Armval} (reg 1 false) e.from)
            (λ b. refl) (λ b. cc b) (λ b. absurd (omega (arith, reg_eq a, reg_eq b))) e me)
        (λ a. cc a)
        (λ a.
          for_three (λ (e : Move). e.to ≡ reg id g → ◌≡◌ {A = Armval} (value 5) e.from)
            (λ b. absurd (omega (arith, reg_eq a, reg_eq b))) (λ b. cc b) (λ b. refl) e me)
        d md;
  one_slot = λ d e o md me.
      for_three
        (λ d.
          offset_of MoveType.ireg d.to ≡ some o
          → offset_of MoveType.ireg e.to ≡ some o
          → d.from ≡ e.from)
        (λ a. cc a)
        (λ a.
          for_three
            (λ (e : Move).
              offset_of MoveType.ireg e.to ≡ some o → ◌≡◌ {A = Armval} (reg 2 false) e.from)
            (λ b. cc b) (λ b. refl) (λ b. cc b) e me)
        (λ a. cc a) d md;
  safe = λ d e o md me.
      for_three
        (λ d. offset_of MoveType.ireg d.to ≡ some o → IsSafe MoveType.ireg 9 0 (λ v. v) o e.from)
        (λ a. cc a)
        (λ a.
          for_three (λ (e : Move). IsSafe MoveType.ireg 9 0 (λ v. v) o e.from)
            (λ i. absurd (omega (arith, i))) (λ i. absurd (omega (arith, i))) tt e me)
        (λ a. cc a) d md;
  store_fits = λ d o md.
      for_three
        (λ d. offset_of MoveType.ireg d.to ≡ some o → StoreFits MoveType.ireg 9 0 (λ v. v) o d.from)
        (λ a e. cc e) (λ a e. cc e) (λ a. cc a) d md;
  load_fits = λ d id f md.
      for_three (λ d. d.to ≡ reg id f → LoadFits MoveType.ireg 9 0 (λ v. v) d.from) (λ a. tt)
        (λ a. tt) (λ a. tt) d md;
  no_temp_to = λ d id f md.
      for_three (λ d. d.to ≡ reg id f → id ≢ 9) (λ a i. absurd (omega (arith, reg_eq a, i)))
        (λ a. cc a) (λ a i. absurd (omega (arith, reg_eq a, i))) d md;
  no_temp = λ d id f md.
      for_three (λ d. d.from ≡ reg id f → id ≢ 9) (λ a i. absurd (omega (arith, reg_eq a, i)))
        (λ a i. absurd (omega (arith, reg_eq a, i))) (λ a. cc a) d md;
  falls =
      λ e m. All-Memᴰ (λ (e : Edge). rank e.to < rank e.from) (move 1 2 ∷ []) (omega arith, tt) m;
  no_repeat = ((λ m. absurd (Memᴰ.not-nil m)), tt);
}

emit_moves-worth_example :
    (is : List Instr) × (emit_moves MoveType.ireg 9 0 4 3 three ≡ some is)
    × ((d : Move) (id : ℕ) (f : Bool)
        → Memᴰ d three
        → d.to ≡ reg id f
        → (exec (λ v. v) is state).regs id ≡ worth (λ v. v) 0 state d.from)
    × ((d : Move) (o : ℕ)
        → Memᴰ d three
        → offset_of MoveType.ireg d.to ≡ some o
        → (exec (λ v. v) is state).slots (o + 0) ≡ worth (λ v. v) 0 state d.from)
    × ((x : ℕ)
        → x ≢ 9
        → ((d : Move) (f : Bool) → Memᴰ d three → d.to ≢ reg x f)
        → (exec (λ v. v) is state).regs x ≡ state.regs x)
    × ((s : ℕ)
        → ((d : Move) (o : ℕ) → Memᴰ d three → offset_of MoveType.ireg d.to ≡ some o → o + 0 ≢ s)
        → (exec (λ v. v) is state).slots s ≡ state.slots s)
emit_moves-worth_example =
    emit_moves-worth MoveType.ireg 9 0 (λ v. v) three rank 4 3 three-AreParallel rank_deep
      (omega arith) state

-- The value 5 goes to a slot at 4096: the offset takes the place of the value in the register for
-- temporary values, and is stored itself.
far_store_example :
    (emit_moves MoveType.ireg 9 0 0 0 (record { to = int_slot 4096; from = value 5 } ∷ []) >>= λ is.
    some ((exec (λ v. v) is state).slots 4096))
    ≡ some 4096
unfolding dfs sort_nodes
far_store_example = refl

-- A register goes there as it should.
far_reg_example :
    (emit_moves MoveType.ireg 9 0 0 0 (record { to = int_slot 4096; from = reg 5 false } ∷ [])
      >>= λ is. some ((exec (λ v. v) is state).slots 4096))
    ≡ some 5
unfolding dfs sort_nodes
far_reg_example = refl

-- The store to the stack, the move between registers, and the value.
parallel_mov_example :
    parallel_mov 9 9 0 4 4 three ≡ some (st 2 8 ∷ mov 2 1 ∷ set_value 3 5 ∷ [], [])
unfolding dfs sort_nodes
parallel_mov_example = refl
