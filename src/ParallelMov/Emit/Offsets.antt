-- ===== src/ParallelMov/Emit/Offsets.antt =====
-- The stores and loads of parallel_mov at offsets that fit the instructions, and at those that go
-- through the register for temporary values.
use poly_cminus.Prelude.{
  ℕ, ◌<◌, true, Bool-cases, List, [], ◌∷◌, ◌++◌, ◌≡◌, ◌≢◌, refl, sym, ap, ◌∙◌, ◌⊎◌, inl, inr, subst,
  ltb, lt→ltb,
}
use poly_cminus.Uses.{put}
use poly_cminus.ParallelMov.{MoveType, ireg, freg, Edge, run_moves}
use poly_cminus.ParallelMov.Moves.{put-same, put-other}
use poly_cminus.ParallelMov.Emit.{
  Instr, st, ld, stx, ldx, set_imm, st_d, ld_d, str, ldr, movs, Machine, exec_one, exec,
}

pub exec-append :
    (value_of : ℕ → ℕ) (xs ys : List Instr) (m : Machine)
    → exec value_of (xs ++ ys) m ≡ exec value_of ys (exec value_of xs m)
exec-append value_of [] ys m = refl
exec-append value_of (x ∷ xs) ys m = exec-append value_of xs ys (exec_one value_of x m)

pub exec-movs :
    (value_of : ℕ → ℕ) (es : List Edge) (m : Machine)
    → ((exec value_of (movs es) m).regs ≡ run_moves es m.regs)
      × ((exec value_of (movs es) m).slots ≡ m.slots)
exec-movs value_of [] m = (refl, refl)
exec-movs value_of (e ∷ es) m =
    exec-movs value_of es (record m { regs = put m.regs e.to (m.regs e.from) })

-- The floats have no other way for an offset that does not fit.
abbrev pub Fits : MoveType → ℕ → Type 0
Fits kind o = kind ≡ freg → o < 2048

-- What a store does; the register for temporary values may be lost.
pub record Wrote (temp r o : ℕ) (m m' : Machine) : Type 0 where
  pub regs : (x : ℕ) → x ≢ temp → m'.regs x ≡ m.regs x
  pub slots : m'.slots ≡ put m.slots o (m.regs r)

pub record Read (temp r o : ℕ) (m m' : Machine) : Type 0 where
  pub slots : m'.slots ≡ m.slots
  pub here : m'.regs r ≡ m.slots o
  pub regs : (x : ℕ) → x ≢ temp → x ≢ r → m'.regs x ≡ m.regs x

module _ (temp growth : ℕ) (value_of : ℕ → ℕ) where
  st-Wrote :
      {r o : ℕ} {m : Machine} → ltb o 2048 ≡ true → Wrote temp r o m (exec_one value_of (st r o) m)
  st-Wrote {r} {o} {m} near =
      let ran : exec_one value_of (st r o) m ≡ record m { slots = put m.slots o (m.regs r) } =
        rw near refl in
      record {
        regs = λ x ne. ap (λ (m : Machine). m.regs x) ran;
        slots = ap (λ (m : Machine). m.slots) ran;
      }

  ld-Read :
      {r o : ℕ} {m : Machine} → ltb o 2048 ≡ true → Read temp r o m (exec_one value_of (ld r o) m)
  ld-Read {r} {o} {m} near =
      let ran : exec_one value_of (ld r o) m ≡ record m { regs = put m.regs r (m.slots o) } =
        rw near refl in
      record {
        slots = ap (λ (m : Machine). m.slots) ran;
        here = ap (λ (m : Machine). m.regs r) ran ∙ put-same m.regs r r (m.slots o) refl;
        regs = λ x ne other.
            ap (λ (m : Machine). m.regs x) ran
            ∙ put-other m.regs r x (m.slots o) (λ e. other (sym e));
      }

  -- A store stores, where its register is not the one that the offset goes through.
  pub str-Wrote :
      (kind : MoveType) (r o : ℕ) (m : Machine)
      → Fits kind o
      → (o < 2048) ⊎ (r ≢ temp)
      → Wrote temp r o m (exec value_of (str kind temp growth r o) m)
  str-Wrote ireg r o m fits either = elim (Bool-cases (ltb o 2048)) [
    | inl near ↦
        let near_list : st_d temp r o ≡ st r o ∷ [] = rw near refl in
        subst (λ is. Wrote temp r o m (exec value_of is m)) (sym near_list) (st-Wrote near)
    | inr far ↦ elim either [
      | inl near ↦ cc (lt→ltb o 2048 near, far)
      | inr ne ↦
          let far_list : st_d temp r o ≡ set_imm temp o ∷ stx r temp ∷ [] = rw far refl in
          subst (λ is. Wrote temp r o m (exec value_of is m)) (sym far_list)
            (record {
              regs = λ x ne'. put-other m.regs temp x o (λ e. ne' (sym e));
              slots =
                  ap (λ a. put m.slots a (put m.regs temp o r)) (put-same m.regs temp temp o refl)
                  ∙ ap (put m.slots o) (put-other m.regs temp r o (λ e. ne (sym e)));
            })
    ]
  ]
  str-Wrote freg r o m fits either = st-Wrote (lt→ltb o 2048 (fits refl))

  -- A load loads, into whatever register.
  pub ldr-Read :
      (kind : MoveType) (r o : ℕ) (m : Machine)
      → Fits kind o
      → Read temp r o m (exec value_of (ldr kind temp growth r o) m)
  ldr-Read ireg r o m fits = elim (Bool-cases (ltb o 2048)) [
    | inl near ↦
        let near_list : ld_d temp r o ≡ ld r o ∷ [] = rw near refl in
        subst (λ is. Read temp r o m (exec value_of is m)) (sym near_list) (ld-Read near)
    | inr far ↦
        let far_list : ld_d temp r o ≡ set_imm temp o ∷ ldx r temp ∷ [] = rw far refl in
        let set = put m.regs temp o in
        subst (λ is. Read temp r o m (exec value_of is m)) (sym far_list)
          (record {
            slots = refl;
            here =
                put-same set r r (m.slots (set temp)) refl
                ∙ ap m.slots (put-same m.regs temp temp o refl);
            regs = λ x ne other.
                put-other set r x (m.slots (set temp)) (λ e. other (sym e))
                ∙ put-other m.regs temp x o (λ e. ne (sym e));
          })
  ]
  ldr-Read freg r o m fits = ld-Read (lt→ltb o 2048 (fits refl))
