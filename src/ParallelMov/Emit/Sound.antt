-- ===== src/ParallelMov/Emit/Sound.antt =====
-- parallel_mov: the moves of one kind take place as if all at once.
use mathlib.Core.List.{Memᴰ}
use mathlib.Core.List.Memᴰ
use poly_cminus.Prelude.{
  ℕ, ◌+◌, ◌≤◌, ◌<◌, length, Bool, true, some, List, [], ◌∷◌, ◌++◌, ◌≡◌, ◌≢◌, refl, sym, ap, ◌∙◌,
  ◌⊎◌, inl, inr, subst, Memᴰ-append, arith,
}
use poly_cminus.ParallelMov.{MoveType, Edge}
use poly_cminus.ParallelMov.Once.{NoRepeat}
use poly_cminus.ParallelMov.Acyclic.{topo_sort-run_moves}
use poly_cminus.ParallelMov.Emit.{
  Armval, reg, value, int_slot, float_slot, Move, Instr, offset_of, edge_of, reg_edges, movs,
  from_memory, emit_moves, Machine, exec, worth,
}
use poly_cminus.ParallelMov.Emit.Offsets.{exec-append, exec-movs}
use poly_cminus.ParallelMov.Emit.Stores.{IsSafe, StoreFits, LoadFits}
use poly_cminus.ParallelMov.Emit.Memory.{HasTarget, Written, to_memory-Written}
use poly_cminus.ParallelMov.Emit.Loads.{is_memory, reg_eq, memory_worth, from_memory-Loaded}

-- An edge is a move from a register to a register.
edge_of-Memᴰ :
    (to from : Armval) {e : Edge}
    → Memᴰ e (edge_of to from)
    → (f : Bool) × (g : Bool) × (to ≡ reg e.to f) × (from ≡ reg e.from g)
edge_of-Memᴰ (reg t f) (reg s g) {e} m = elim (Memᴰ.cases_cons m) [
  | inl first ↦ (
    f,
    g,
    ap (λ i. reg i f) (sym (ap (λ (e : Edge). e.to) first)),
    ap (λ i. reg i g) (sym (ap (λ (e : Edge). e.from) first)),
  )
  | inr nothing ↦ absurd (Memᴰ.not-nil nothing)
]
edge_of-Memᴰ (reg t f) (value v) m = absurd (Memᴰ.not-nil m)
edge_of-Memᴰ (reg t f) (int_slot n) m = absurd (Memᴰ.not-nil m)
edge_of-Memᴰ (reg t f) (float_slot n) m = absurd (Memᴰ.not-nil m)
edge_of-Memᴰ (value v) from m = absurd (Memᴰ.not-nil m)
edge_of-Memᴰ (int_slot n) from m = absurd (Memᴰ.not-nil m)
edge_of-Memᴰ (float_slot n) from m = absurd (Memᴰ.not-nil m)

reg_edges-Memᴰ :
    (ms : List Move) {e : Edge}
    → Memᴰ e (reg_edges ms)
    → (d : Move) × Memᴰ d ms
      × (f : Bool) × (g : Bool) × (d.to ≡ reg e.to f)
      × (d.from ≡ reg e.from g)
reg_edges-Memᴰ [] m = absurd (Memᴰ.not-nil m)
reg_edges-Memᴰ (d ∷ ms) m = elim (Memᴰ-append (edge_of d.to d.from) m) [
  | inl here ↦
      let (f, g, to, from) = edge_of-Memᴰ d.to d.from here in (d, Memᴰ.head refl, f, g, to, from)
  | inr later ↦
      let (e, n, f, g, to, from) = reg_edges-Memᴰ ms later in (e, Memᴰ.tail n, f, g, to, from)
]

Memᴰ-reg_edges :
    (ms : List Move) {d : Move} {t s : ℕ} {f g : Bool}
    → Memᴰ d ms
    → d.to ≡ reg t f
    → d.from ≡ reg s g
    → Memᴰ (record { from = s; to = t }) (reg_edges ms)
Memᴰ-reg_edges [] m a b = absurd (Memᴰ.not-nil m)
Memᴰ-reg_edges (c ∷ ms) {d} {t} {s} {f} {g} m a b = elim (Memᴰ.cases_cons m) [
  | inl first ↦
      let to : c.to ≡ reg t f = sym (ap (λ (d : Move). d.to) first) ∙ a in
      let from : c.from ≡ reg s g = sym (ap (λ (d : Move). d.from) first) ∙ b in
      Memᴰ.append_left (reg_edges ms) (
        subst (Memᴰ _)
          (sym (ap (λ (x : Armval). edge_of x c.from) to ∙ ap (edge_of (reg t f)) from))
          (Memᴰ.head refl))
  | inr later ↦ Memᴰ.append_right (edge_of c.to c.from) (Memᴰ-reg_edges ms later a b)
]

is_memory-cases : (a : Armval) → ((id : ℕ) × (f : Bool) × (a ≡ reg id f)) ⊎ (is_memory a ≡ true)
is_memory-cases (reg id f) = inl (id, f, refl)
is_memory-cases (value v) = inr refl
is_memory-cases (int_slot n) = inr refl
is_memory-cases (float_slot n) = inr refl

module _ (kind : MoveType) (temp growth : ℕ) (value_of : ℕ → ℕ) (ms : List Move) where
  -- What parallel_mov relies on: no two moves from different places go to one place, the register for
  -- temporary values is no source and no target, no slot is a source and a target, the offsets fit,
  -- and the moves between registers have no cycle.
  pub record AreParallel (rank : ℕ → ℕ) : Type 0 where
    pub target : (d : Move) → Memᴰ d ms → HasTarget kind temp growth value_of d.to
    pub one_reg :
        (d e : Move) (id : ℕ) (f g : Bool)
        → Memᴰ d ms
        → Memᴰ e ms
        → d.to ≡ reg id f
        → e.to ≡ reg id g
        → d.from ≡ e.from
    pub one_slot :
        (d e : Move) (o : ℕ)
        → Memᴰ d ms
        → Memᴰ e ms
        → offset_of kind d.to ≡ some o
        → offset_of kind e.to ≡ some o
        → d.from ≡ e.from
    pub safe :
        (d e : Move) (o : ℕ)
        → Memᴰ d ms
        → Memᴰ e ms
        → offset_of kind d.to ≡ some o
        → IsSafe kind temp growth value_of o e.from
    -- Only a store of an integer register goes to an offset that does not fit.
    pub store_fits :
        (d : Move) (o : ℕ)
        → Memᴰ d ms
        → offset_of kind d.to ≡ some o
        → StoreFits kind temp growth value_of o d.from
    pub load_fits :
        (d : Move) (id : ℕ) (f : Bool)
        → Memᴰ d ms
        → d.to ≡ reg id f
        → LoadFits kind temp growth value_of d.from
    pub no_temp_to : (d : Move) (id : ℕ) (f : Bool) → Memᴰ d ms → d.to ≡ reg id f → id ≢ temp
    pub no_temp : (d : Move) (id : ℕ) (f : Bool) → Memᴰ d ms → d.from ≡ reg id f → id ≢ temp
    pub falls : (e : Edge) → Memᴰ e (reg_edges ms) → rank e.to < rank e.from
    pub no_repeat : NoRepeat (reg_edges ms)

  edges_unique :
      {rank : ℕ → ℕ} (a : AreParallel rank) (e f : Edge)
      → Memᴰ e (reg_edges ms)
      → Memᴰ f (reg_edges ms)
      → e.to ≡ f.to
      → e.from ≡ f.from
  edges_unique a e f me mf same =
      let (d, nd, b, c, to, from) = reg_edges-Memᴰ ms me in
      let (d', nd', b', c', to', from') = reg_edges-Memᴰ ms mf in
      reg_eq (sym from ∙ a.one_reg d d' f.to b b' nd nd' (to ∙ ap (λ i. reg i b) same) to' ∙ from')

  -- A source on the stack is still there after the first loop.
  source_kept :
      (from : Armval) (m m1 : Machine)
      → Written kind temp growth value_of m ms m m1
      → is_memory from ≡ true
      → ((e : Move) (o : ℕ)
          → Memᴰ e ms
          → offset_of kind e.to ≡ some o
          → IsSafe kind temp growth value_of o from)
      → worth value_of growth m1 from ≡ worth value_of growth m from
  source_kept (reg id f) m m1 w mem safe = cc
  source_kept (value v) m m1 w mem safe = refl
  source_kept (int_slot k) m m1 w mem safe =
      w.holds (k + growth) (m.slots (k + growth)) refl
        (λ e o n at same. absurd (safe e o n at (omega (arith, same))))
  source_kept (float_slot k) m m1 w mem safe =
      w.holds (k + growth) (m.slots (k + growth)) refl
        (λ e o n at same. absurd (safe e o n at (omega (arith, same))))

  -- Take moves of one kind, each to a register or a slot of the kind, of which no two go from
  -- different sources to one register or slot, no one to or from the register for temporary values,
  -- no slot that is stored to is a source, no move between registers is there twice, and these fall in
  -- a rank, so that there is no cycle. Let the offset with the growth of the stack be below 2048 of
  -- each slot that a value or a slot is stored to and, of floats, of each slot. Then the moves are
  -- emitted, on fuel for the order of those between registers, and from any state the instructions
  -- leave in each target what its source was worth before all of them; the other registers but the
  -- one for temporary values, and the other slots, are as they were.
  pub emit_moves-worth :
      (rank : ℕ → ℕ) (rounds depth : ℕ)
      → AreParallel rank
      → ((x : ℕ) → rank x < depth)
      → length (reg_edges ms) + length (reg_edges ms) ≤ rounds
      → (m : Machine)
      → (is : List Instr) × (emit_moves kind temp growth rounds depth ms ≡ some is)
        × ((d : Move) (id : ℕ) (f : Bool)
            → Memᴰ d ms
            → d.to ≡ reg id f
            → (exec value_of is m).regs id ≡ worth value_of growth m d.from)
        × ((d : Move) (o : ℕ)
            → Memᴰ d ms
            → offset_of kind d.to ≡ some o
            → (exec value_of is m).slots (o + growth) ≡ worth value_of growth m d.from)
        × ((x : ℕ)
            → x ≢ temp
            → ((d : Move) (f : Bool) → Memᴰ d ms → d.to ≢ reg x f)
            → (exec value_of is m).regs x ≡ m.regs x)
        × ((s : ℕ)
            → ((d : Move) (o : ℕ) → Memᴰ d ms → offset_of kind d.to ≡ some o → o + growth ≢ s)
            → (exec value_of is m).slots s ≡ m.slots s)
  emit_moves-worth rank rounds depth a deep enough m =
      let (first, ran1, w) =
        to_memory-Written kind temp growth value_of m ms m a.target (λ d n. refl) a.safe
          a.store_fits in
      let m1 = exec value_of first m in
      let (order, ran2, moved) =
        topo_sort-run_moves (reg_edges ms) rank a.falls a.no_repeat (edges_unique a) kind rounds
          depth deep enough in
      let m2 = exec value_of (movs order) m1 in
      let last = from_memory kind temp growth ms in
      let l = from_memory-Loaded kind temp growth value_of ms m2 a.load_fits in
      let is = first ++ (movs order ++ last) in
      let whole : exec value_of is m ≡ exec value_of last m2 =
        exec-append value_of first (movs order ++ last) m
        ∙ exec-append value_of (movs order) last m1 in
      let (regs2, slots2) = exec-movs value_of order m1 in
      (
        is,
        rw (ran1, ran2) refl,
        λ d id f n at. ap (λ (x : Machine). x.regs id) whole ∙ elim (is_memory-cases d.from) [
          | inl (s, g, from) ↦
              l.holds id (worth value_of growth m d.from) (a.no_temp_to d id f n at)
                (ap (λ (r : ℕ → ℕ). r id) regs2
                  ∙ (moved m1.regs).0 (record { from = s; to = id }) (Memᴰ-reg_edges ms n at from)
                  ∙ w.regs s (a.no_temp d s g n from)
                  ∙ sym (ap (worth value_of growth m) from))
                (λ e b n' at' mem.
                  let source : e.from ≡ reg s g = sym (a.one_reg d e id f b n n' at at') ∙ from in
                  cc (ap is_memory source, mem))
          | inr mem ↦
              l.loaded d id f n at mem (a.no_temp_to d id f n at)
                (λ e g n' at'. a.one_reg e d id g f n' n at' at)
              ∙ memory_worth kind temp growth value_of d.from m1 m2 mem slots2
              ∙ source_kept d.from m m1 w mem (λ e o n' at'. a.safe e d o n' n at')
        ],
        λ d o n at.
            ap (λ (x : Machine). x.slots (o + growth)) whole
            ∙ ap (λ (r : ℕ → ℕ). r (o + growth)) (l.slots ∙ slots2)
            ∙ w.written d o n at (λ e n' at'. a.one_slot e d o n' n at' at),
        λ x ne away.
            ap (λ (y : Machine). y.regs x) whole
            ∙ l.holds x (m.regs x) ne
                (ap (λ (r : ℕ → ℕ). r x) regs2
                  ∙ (moved m1.regs).1 x (λ e me same.
                      let (d, n, f, g, to, from) = reg_edges-Memᴰ ms me in
                      away d f n (to ∙ ap (λ i. reg i f) same))
                  ∙ w.regs x ne)
                (λ d f n at mem. absurd (away d f n at)),
        λ s away.
            ap (λ (x : Machine). x.slots s) whole
            ∙ ap (λ (r : ℕ → ℕ). r s) (l.slots ∙ slots2)
            ∙ w.holds s (m.slots s) refl (λ d o n at same. absurd (away d o n at same)),
      )
