-- ===== src/ParallelMov/Emit/Stores.antt =====
-- What store_to of parallel_mov leaves in a slot of the stack.
use poly_cminus.Prelude.{ℕ, ◌+◌, ◌<◌, ◌++◌, ◌≡◌, ◌≢◌, refl, sym, ap, ◌∙◌, inl, inr, subst, arith}
use poly_cminus.Uses.{put}
use poly_cminus.ParallelMov.{MoveType}
use poly_cminus.ParallelMov.Moves.{put-same, put-other}
use poly_cminus.ParallelMov.Emit.{
  Armval, reg, value, int_slot, float_slot, str, ldr, store_to, Machine, exec, worth,
}
use poly_cminus.ParallelMov.Emit.Offsets.{Fits, str-Wrote, ldr-Read, exec-append}

module _ (kind : MoveType) (temp growth : ℕ) (value_of : ℕ → ℕ) where
  -- A store to a slot leaves a source as it is.
  abbrev pub IsSafe : ℕ → Armval → Type 0
  IsSafe o (reg id f) = id ≢ temp
  IsSafe o (value v) = Unit
  IsSafe o (int_slot n) = n ≢ o
  IsSafe o (float_slot n) = n ≢ o

  -- The offset of a slot that is loaded fits.
  abbrev pub LoadFits : Armval → Type 0
  LoadFits (reg id f) = Unit
  LoadFits (value v) = Unit
  LoadFits (int_slot n) = Fits kind (n + growth)
  LoadFits (float_slot n) = Fits kind (n + growth)

  -- The offset of a slot that is stored to fits, except where an integer register is the source.
  abbrev pub StoreFits : ℕ → Armval → Type 0
  StoreFits o (reg id f) = Fits kind (o + growth)
  StoreFits o from = (o + growth < 2048) × LoadFits from

  pub record Stored (o : ℕ) (from : Armval) (m m' : Machine) : Type 0 where
    pub regs : (x : ℕ) → x ≢ temp → m'.regs x ≡ m.regs x
    pub here : m'.slots (o + growth) ≡ worth value_of growth m from
    pub else_where : (s : ℕ) → o + growth ≢ s → m'.slots s ≡ m.slots s

  -- A store from the register for temporary values, once it holds the source.
  from_temp-Stored :
      (o : ℕ) (from : Armval) (m m1 : Machine)
      → o + growth < 2048
      → m1.slots ≡ m.slots
      → m1.regs temp ≡ worth value_of growth m from
      → ((x : ℕ) → x ≢ temp → m1.regs x ≡ m.regs x)
      → Stored o from m (exec value_of (str kind temp growth temp (o + growth)) m1)
  from_temp-Stored o from m m1 near same held others =
      let w = str-Wrote temp growth value_of kind temp (o + growth) m1 (λ e. near) (inl near) in
      record {
        regs = λ x ne. w.regs x ne ∙ others x ne;
        here =
            ap (λ (s : ℕ → ℕ). s (o + growth)) w.slots
            ∙ put-same m1.slots (o + growth) (o + growth) (m1.regs temp) refl
            ∙ held;
        else_where = λ s ne.
            ap (λ (r : ℕ → ℕ). r s) w.slots
            ∙ put-other m1.slots (o + growth) s (m1.regs temp) ne
            ∙ ap (λ (r : ℕ → ℕ). r s) same;
      }

  loaded-Stored :
      (o n : ℕ) (from : Armval) (m : Machine)
      → o + growth < 2048
      → Fits kind (n + growth)
      → m.slots (n + growth) ≡ worth value_of growth m from
      → Stored o from m (
          exec value_of
            (ldr kind temp growth temp (n + growth) ++ str kind temp growth temp (o + growth))
            m)
  loaded-Stored o n from m near fits is_worth =
      let load = ldr kind temp growth temp (n + growth) in
      let r = ldr-Read temp growth value_of kind temp (n + growth) m fits in
      subst (Stored o from m)
        (sym (exec-append value_of load (str kind temp growth temp (o + growth)) m))
        (from_temp-Stored o from m (exec value_of load m) near r.slots (r.here ∙ is_worth)
          (λ x ne. r.regs x ne ne))

  pub store_to-Stored :
      (o : ℕ) (from : Armval) (m : Machine)
      → StoreFits o from
      → IsSafe o from
      → Stored o from m (exec value_of (store_to kind temp growth o from) m)
  store_to-Stored o (reg id f) m fits safe =
      let w = str-Wrote temp growth value_of kind id (o + growth) m fits (inr safe) in
      record {
        regs = w.regs;
        here =
            ap (λ (s : ℕ → ℕ). s (o + growth)) w.slots
            ∙ put-same m.slots (o + growth) (o + growth) (m.regs id) refl;
        else_where = λ s ne.
            ap (λ (r : ℕ → ℕ). r s) w.slots ∙ put-other m.slots (o + growth) s (m.regs id) ne;
      }
  store_to-Stored o (value v) m (near, _) safe =
      from_temp-Stored o (value v) m (record m { regs = put m.regs temp (value_of v) }) near refl
        (put-same m.regs temp temp (value_of v) refl)
        (λ x ne. put-other m.regs temp x (value_of v) (λ e. ne (sym e)))
  store_to-Stored o (int_slot n) m (near, fits) safe =
      loaded-Stored o n (int_slot n) m near fits refl
  store_to-Stored o (float_slot n) m (near, fits) safe =
      loaded-Stored o n (float_slot n) m near fits refl

  pub Stored-worth :
      (o : ℕ) (from a : Armval) {m m' : Machine}
      → Stored o from m m'
      → IsSafe o a
      → worth value_of growth m' a ≡ worth value_of growth m a
  Stored-worth o from (reg id f) s safe = s.regs id safe
  Stored-worth o from (value v) s safe = refl
  Stored-worth o from (int_slot n) s safe = s.else_where (n + growth) (λ e. safe (omega (arith, e)))
  Stored-worth o from (float_slot n) s safe =
      s.else_where (n + growth) (λ e. safe (omega (arith, e)))
