-- ===== src/ParallelMov/Emit/Memory.antt =====
-- The first loop of parallel_mov: what goes to the stack.
use mathlib.Core.List.{Memᴰ}
use mathlib.Core.List.Memᴰ
use poly_cminus.Prelude.{
  ℕ, ◌+◌, Bool, none, some, List, [], ◌∷◌, ◌++◌, ◌≡◌, ◌≢◌, refl, sym, ap, ◌∙◌, ◌⊎◌, inl, inr, subst,
  arith,
}
use native.Mathlib.Decide.{ℕ_discrete}
use poly_cminus.ParallelMov.{MoveType}
use poly_cminus.ParallelMov.Emit.Offsets.{exec-append}
use poly_cminus.ParallelMov.Emit.Stores.{IsSafe, StoreFits, Stored, store_to-Stored, Stored-worth}
use poly_cminus.ParallelMov.Emit.{
  Armval, reg, value, int_slot, float_slot, Move, Instr, offset_of, store_to, to_memory_one,
  to_memory, Machine, exec, worth,
}

module _ (kind : MoveType) (temp growth : ℕ) (value_of : ℕ → ℕ) where
  -- A move goes to a register, or to a slot of its kind.
  abbrev pub HasTarget : Armval → Type 0
  HasTarget to =
      ((id : ℕ) × (f : Bool) × (to ≡ reg id f)) ⊎ ((o : ℕ) × (offset_of kind to ≡ some o))

  module _ (m0 : Machine) where
    to_memory_one-reg :
        (d : Move) {id : ℕ} {f : Bool}
        → d.to ≡ reg id f
        → to_memory_one kind temp growth d ≡ some []
    to_memory_one-reg d e =
        ap (λ (to : Armval). to_memory_one kind temp growth (record { to = to; from = d.from })) e

    to_memory_one-slot :
        (to from : Armval) {o : ℕ}
        → offset_of kind to ≡ some o
        → to_memory_one kind temp growth (record { to = to; from = from })
          ≡ some (store_to kind temp growth o from)
    to_memory_one-slot (reg id f) from e = cc
    to_memory_one-slot (value v) from e = cc
    to_memory_one-slot (int_slot n) from e = rw e refl
    to_memory_one-slot (float_slot n) from e = rw e refl

    reg_offset :
        {to : Armval} {id o : ℕ} {f : Bool} → to ≡ reg id f → ¬ (offset_of kind to ≡ some o)
    reg_offset e h =
        let none_there : none ≡ some _ = sym (ap (offset_of kind) e) ∙ h in cc none_there

    -- What the first loop leaves on the stack.
    pub record Written (ms : List Move) (m m' : Machine) : Type 0 where
      pub regs : (x : ℕ) → x ≢ temp → m'.regs x ≡ m.regs x
      pub holds :
          (s v : ℕ)
          → m.slots s ≡ v
          → ((d : Move) (o : ℕ)
              → Memᴰ d ms
              → offset_of kind d.to ≡ some o
              → o + growth ≡ s
              → worth value_of growth m0 d.from ≡ v)
          → m'.slots s ≡ v
      pub written :
          (d : Move) (o : ℕ)
          → Memᴰ d ms
          → offset_of kind d.to ≡ some o
          → ((e : Move) → Memᴰ e ms → offset_of kind e.to ≡ some o → e.from ≡ d.from)
          → m'.slots (o + growth) ≡ worth value_of growth m0 d.from

    Written-reg :
        {d : Move} {ms : List Move} {m m' : Machine} {id : ℕ} {f : Bool}
        → d.to ≡ reg id f
        → Written ms m m'
        → Written (d ∷ ms) m m'
    Written-reg {d} at_reg w = record {
      regs = w.regs;
      holds = λ s v e h. w.holds s v e (λ d o n. h d o (Memᴰ.tail n));
      written = λ e o n at one. elim (Memᴰ.cases_cons n) [
        | inl first ↦
            absurd (reg_offset at_reg (sym (ap (λ (e : Move). offset_of kind e.to) first) ∙ at))
        | inr later ↦ w.written e o later at (λ g n'. one g (Memᴰ.tail n'))
      ];
    }

    Written-slot :
        {d : Move} {ms : List Move} {m m1 m' : Machine} {o : ℕ}
        → offset_of kind d.to ≡ some o
        → worth value_of growth m d.from ≡ worth value_of growth m0 d.from
        → Stored kind temp growth value_of o d.from m m1
        → Written ms m1 m'
        → Written (d ∷ ms) m m'
    Written-slot {d} {ms} {m} {m1} {m'} {o} at same st w = record {
      regs = λ x ne. w.regs x ne ∙ st.regs x ne;
      holds = λ s v e h.
          w.holds s v
            (elim (ℕ_discrete (o + growth) s) [
              | yes here ↦ ap m1.slots (sym here) ∙ st.here ∙ same ∙ h d o (Memᴰ.head refl) at here
              | no ne ↦ st.else_where s ne ∙ e
            ])
            (λ d' o' n. h d' o' (Memᴰ.tail n));
      written = λ e o' n at' one. elim (Memᴰ.cases_cons n) [
        | inl first ↦
            let same_offset : some o' ≡ some o =
              sym at' ∙ ap (λ (e : Move). offset_of kind e.to) first ∙ at in
            let o'≡o : o' ≡ o = cc same_offset in
            let at_o : m1.slots (o' + growth) ≡ worth value_of growth m0 e.from =
              ap (λ o. m1.slots (o + growth)) o'≡o
              ∙ st.here
              ∙ same
              ∙ ap (λ (e : Move). worth value_of growth m0 e.from) (sym first) in
            w.holds (o' + growth) (worth value_of growth m0 e.from) at_o (λ g o'' n' at'' s.
              let o''≡o' : o'' ≡ o' = omega (arith, s) in
              ap (worth value_of growth m0) (one g (Memᴰ.tail n') (at'' ∙ ap some o''≡o')))
        | inr later ↦ w.written e o' later at' (λ g n'. one g (Memᴰ.tail n'))
      ];
    }

    pub to_memory-Written :
        (ms : List Move) (m : Machine)
        → ((d : Move) → Memᴰ d ms → HasTarget d.to)
        → ((d : Move)
            → Memᴰ d ms
            → worth value_of growth m d.from ≡ worth value_of growth m0 d.from)
        → ((d e : Move) (o : ℕ)
            → Memᴰ d ms
            → Memᴰ e ms
            → offset_of kind d.to ≡ some o
            → IsSafe kind temp growth value_of o e.from)
        → ((d : Move) (o : ℕ)
            → Memᴰ d ms
            → offset_of kind d.to ≡ some o
            → StoreFits kind temp growth value_of o d.from)
        → (is : List Instr) × (to_memory kind temp growth ms ≡ some is)
          × Written ms m (exec value_of is m)
    to_memory-Written [] m target same safe fits = (
      [],
      refl,
      record {
        regs = λ x ne. refl;
        holds = λ s v e h. e;
        written = λ d o n. absurd (Memᴰ.not-nil n);
      },
    )
    to_memory-Written (d ∷ ms) m target same safe fits =
        let later = λ (e : Move) (n : Memᴰ e ms). target e (Memᴰ.tail n) in
        elim (target d (Memᴰ.head refl)) [
          | inl (id, f, at_reg) ↦
              let (is, ran, w) =
                to_memory-Written ms m later (λ e n. same e (Memᴰ.tail n))
                  (λ a b o na nb. safe a b o (Memᴰ.tail na) (Memᴰ.tail nb))
                  (λ a o na. fits a o (Memᴰ.tail na)) in
              (is, rw (to_memory_one-reg d at_reg, ran) refl, Written-reg at_reg w)
          | inr (o, at_slot) ↦
              let st =
                store_to-Stored kind temp growth value_of o d.from m
                  (fits d o (Memᴰ.head refl) at_slot)
                  (safe d d o (Memᴰ.head refl) (Memᴰ.head refl) at_slot) in
              let m1 = exec value_of (store_to kind temp growth o d.from) m in
              let (is, ran, w) =
                to_memory-Written ms m1 later
                  (λ e n.
                    Stored-worth kind temp growth value_of o d.from e.from st
                      (safe d e o (Memᴰ.head refl) (Memᴰ.tail n) at_slot)
                    ∙ same e (Memᴰ.tail n))
                  (λ a b o na nb. safe a b o (Memᴰ.tail na) (Memᴰ.tail nb))
                  (λ a o na. fits a o (Memᴰ.tail na)) in
              (
                store_to kind temp growth o d.from ++ is,
                rw (to_memory_one-slot d.to d.from at_slot, ran) refl,
                subst (Written (d ∷ ms) m)
                    (sym (exec-append value_of (store_to kind temp growth o d.from) is m))
                    (Written-slot at_slot (same d (Memᴰ.head refl)) st w),
              )
        ]
