-- ===== src/ParallelMov/Emit/Loads.antt =====
-- The last loop of parallel_mov: what comes from values and from the stack.
use mathlib.Core.List.{Memᴰ}
use mathlib.Core.List.Memᴰ
use poly_cminus.Prelude.{
  ℕ, ◌+◌, Bool, true, false, List, [], ◌∷◌, ◌≡◌, ◌≢◌, refl, sym, ap, ◌∙◌, ◌⊎◌, inl, inr, subst,
}
use native.Mathlib.Decide.{ℕ_discrete}
use poly_cminus.ParallelMov.Moves.{put-same, put-other}
use poly_cminus.ParallelMov.Emit.{
  Armval, reg, value, int_slot, float_slot, Move, load_to, from_memory, Machine, exec, worth,
}
use poly_cminus.ParallelMov.Emit.Offsets.{exec-append, ldr-Read}
use poly_cminus.ParallelMov.Emit.Stores.{LoadFits}
use poly_cminus.ParallelMov.{MoveType}

abbrev pub is_memory : Armval → Bool
is_memory (reg id f) = false
is_memory a = true

abbrev number_of : Armval → ℕ
number_of (reg id f) = id
number_of a = 0

pub reg_eq : {id id' : ℕ} {f f' : Bool} → reg id f ≡ reg id' f' → id ≡ id'
reg_eq e = ap number_of e

module _ (kind : MoveType) (temp growth : ℕ) (value_of : ℕ → ℕ) where
  pub memory_worth :
      (a : Armval) (m m' : Machine)
      → is_memory a ≡ true
      → m'.slots ≡ m.slots
      → worth value_of growth m' a ≡ worth value_of growth m a
  memory_worth (reg id f) m m' e s = cc
  memory_worth (value v) m m' e s = refl
  memory_worth (int_slot n) m m' e s = ap (λ (f : ℕ → ℕ). f (n + growth)) s
  memory_worth (float_slot n) m m' e s = ap (λ (f : ℕ → ℕ). f (n + growth)) s

  -- What a load of a source into a register leaves.
  record LoadedOne (id : ℕ) (from : Armval) (m m' : Machine) : Type 0 where
    slots : m'.slots ≡ m.slots
    here : m'.regs id ≡ worth value_of growth m from
    others : (x : ℕ) → x ≢ temp → x ≢ id → m'.regs x ≡ m.regs x

  -- A move from memory to a register loads it, another one does nothing here.
  load-cases :
      (to from : Armval) (m : Machine)
      → ((id : ℕ) (f : Bool) → to ≡ reg id f → LoadFits kind temp growth value_of from)
      → ((id : ℕ) × (f : Bool) × (to ≡ reg id f)
          × (is_memory from ≡ true)
          × LoadedOne id from m (exec value_of (load_to kind temp growth to from) m))
        ⊎ (((id : ℕ) (f : Bool) → to ≡ reg id f → is_memory from ≡ false)
            × (exec value_of (load_to kind temp growth to from) m ≡ m))
  load-cases (reg id f) (reg id' f') m fits = inr (λ i g e. refl, refl)
  load-cases (reg id f) (value v) m fits = inl (
    id,
    f,
    refl,
    refl,
    record {
      slots = refl;
      here = put-same m.regs id id (value_of v) refl;
      others = λ x ne other. put-other m.regs id x (value_of v) (λ e. other (sym e));
    },
  )
  load-cases (reg id f) (int_slot n) m fits =
      let r = ldr-Read temp growth value_of kind id (n + growth) m (fits id f refl) in
      inl (id, f, refl, refl, record { slots = r.slots; here = r.here; others = r.regs })
  load-cases (reg id f) (float_slot n) m fits =
      let r = ldr-Read temp growth value_of kind id (n + growth) m (fits id f refl) in
      inl (id, f, refl, refl, record { slots = r.slots; here = r.here; others = r.regs })
  load-cases (value v) from m fits = inr (λ i g e. cc e, refl)
  load-cases (int_slot n) from m fits = inr (λ i g e. cc e, refl)
  load-cases (float_slot n) from m fits = inr (λ i g e. cc e, refl)

  pub record Loaded (ms : List Move) (m m' : Machine) : Type 0 where
    pub slots : m'.slots ≡ m.slots
    pub holds :
        (x v : ℕ)
        → x ≢ temp
        → m.regs x ≡ v
        → ((d : Move) (f : Bool)
            → Memᴰ d ms
            → d.to ≡ reg x f
            → is_memory d.from ≡ true
            → worth value_of growth m d.from ≡ v)
        → m'.regs x ≡ v
    pub loaded :
        (d : Move) (id : ℕ) (f : Bool)
        → Memᴰ d ms
        → d.to ≡ reg id f
        → is_memory d.from ≡ true
        → id ≢ temp
        → ((e : Move) (g : Bool) → Memᴰ e ms → e.to ≡ reg id g → e.from ≡ d.from)
        → m'.regs id ≡ worth value_of growth m d.from

  Loaded-load :
      {d : Move} {ms : List Move} {m m1 m' : Machine} {id : ℕ} {f : Bool}
      → d.to ≡ reg id f
      → is_memory d.from ≡ true
      → LoadedOne id d.from m m1
      → Loaded ms m1 m'
      → Loaded (d ∷ ms) m m'
  Loaded-load {d} {ms} {m} {m1} {m'} {id} {f} at mem l w = record {
    slots = w.slots ∙ l.slots;
    holds = λ x v free e h.
        w.holds x v free
          (elim (ℕ_discrete id x) [
            | yes id≡x ↦
                ap m1.regs (sym id≡x)
                ∙ l.here
                ∙ h d f (Memᴰ.head refl) (at ∙ ap (λ i. reg i f) id≡x) mem
            | no ne ↦ l.others x free (λ same. ne (sym same)) ∙ e
          ])
          (λ g b n at' mem'. memory_worth g.from m m1 mem' l.slots ∙ h g b (Memᴰ.tail n) at' mem');
    loaded = λ e id' f' n at' mem' free one. elim (Memᴰ.cases_cons n) [
      | inl first ↦
          let id'≡id : id' ≡ id = reg_eq (sym at' ∙ ap (λ (e : Move). e.to) first ∙ at) in
          w.holds id' (worth value_of growth m e.from) free
            (ap m1.regs id'≡id
              ∙ l.here
              ∙ ap (λ (e : Move). worth value_of growth m e.from) (sym first))
            (λ g b n' at'' mem''.
              memory_worth g.from m m1 mem'' l.slots
              ∙ ap (worth value_of growth m) (one g b (Memᴰ.tail n') at''))
      | inr later ↦
          w.loaded e id' f' later at' mem' free (λ g b n'. one g b (Memᴰ.tail n'))
          ∙ memory_worth e.from m m1 mem' l.slots
    ];
  }

  Loaded-other :
      {d : Move} {ms : List Move} {m m' : Machine}
      → ((id : ℕ) (f : Bool) → d.to ≡ reg id f → is_memory d.from ≡ false)
      → Loaded ms m m'
      → Loaded (d ∷ ms) m m'
  Loaded-other {d} not_memory w = record {
    slots = w.slots;
    holds = λ x v free e h. w.holds x v free e (λ g b n. h g b (Memᴰ.tail n));
    loaded = λ e id f n at mem free one. elim (Memᴰ.cases_cons n) [
      | inl first ↦ cc (
        not_memory id f (sym (ap (λ (e : Move). e.to) first) ∙ at),
        ap (λ (e : Move). is_memory e.from) first,
        mem,
      )
      | inr later ↦ w.loaded e id f later at mem free (λ g b n'. one g b (Memᴰ.tail n'))
    ];
  }

  pub from_memory-Loaded :
      (ms : List Move) (m : Machine)
      → ((d : Move) (id : ℕ) (f : Bool)
          → Memᴰ d ms
          → d.to ≡ reg id f
          → LoadFits kind temp growth value_of d.from)
      → Loaded ms m (exec value_of (from_memory kind temp growth ms) m)
  from_memory-Loaded [] m fits = record {
    slots = refl;
    holds = λ x v free e h. e;
    loaded = λ d id f n. absurd (Memᴰ.not-nil n);
  }
  from_memory-Loaded (d ∷ ms) m fits =
      let later = λ (e : Move) (id : ℕ) (f : Bool) (n : Memᴰ e ms). fits e id f (Memᴰ.tail n) in
      let is = load_to kind temp growth d.to d.from in
      let rest = from_memory kind temp growth ms in
      subst (Loaded (d ∷ ms) m) (sym (exec-append value_of is rest m))
        (elim (load-cases d.to d.from m (λ id f. fits d id f (Memᴰ.head refl))) [
          | inl (id, f, at, mem, l) ↦ Loaded-load at mem l (from_memory-Loaded ms _ later)
          | inr (not_memory, e) ↦
              subst (λ m1. Loaded (d ∷ ms) m (exec value_of rest m1)) (sym e)
                (Loaded-other not_memory (from_memory-Loaded ms m later))
        ])
