-- ===== src/FuncInfo/Sound.antt =====
-- FuncInfo: the functions that are not pure are those that are marked at once, and those that call
-- one that is not pure.
use mathlib.Core.List.{Memᴰ}
use poly_cminus.Prelude.{
  ap, ℕ, ◌+◌, ◌≤◌, ◌==◌, length, Bool, true, false, not, Bool-cases, Option, none, some, List, [],
  ◌∷◌, ◌≡◌, refl, sym, inl, inr, ◌⊎◌, subst, arith,
}
use poly_cminus.Uses.{Use}
use poly_cminus.IrCheck.Values.{is_instruction}
use poly_cminus.Worklist.{Pending, each}
use poly_cminus.Worklist.Closed.{work-keeps, IsReady, work-Done}
use poly_cminus.Worklist.Left.{left-length}
use poly_cminus.FuncInfo.{
  Program, Pure, says_pure, trivial_mark, mark_caller, process_uses, process, run, is_pure_function,
}
use poly_cminus.FuncInfo.Marks.{
  is_met, impure, mark_caller-Marking, callers, process_uses-each, callers-Memᴰ, Memᴰ-callers,
}
use poly_cminus.FuncInfo.Started.{Started, mark_each-Started}

module _ (p : Program) where
  -- A function that is marked at once, or that has an instruction that uses one which is not pure.
  pub data Impure (depth : ℕ) : ℕ → Type 0 where
    at_once :
        {f : ℕ} → Memᴰ f p.values.functions → trivial_mark p depth f ≡ some false → Impure depth f
    caller :
        {g : ℕ} {entry : Use}
        → Impure depth g
        → Memᴰ entry (p.values.store.use_list g)
        → is_instruction (p.values.class_of entry.user) ≡ true
        → Impure depth (p.get_function entry.user)

  module _ (depth : ℕ) where
    -- Every function that is met has an entry.
    abbrev HasEntries : Pure → Type 0
    HasEntries pure = (f : ℕ) → Memᴰ f p.values.functions → is_met (pure f) ≡ true

    process_uses-HasEntries :
        (uses : List Use) (s : Pending Pure)
        → HasEntries s.flags
        → HasEntries (process_uses p uses s).flags
    process_uses-HasEntries [] s h f m = h f m
    process_uses-HasEntries (entry ∷ uses) s h f m =
        elim (Bool-cases (is_instruction (p.values.class_of entry.user))) [
          | inl e ↦ rw e (
              process_uses-HasEntries uses (mark_caller (p.get_function entry.user) s)
                (λ x n. after (p.get_function entry.user) x (h x n)) f m)
          | inr e ↦ rw e (process_uses-HasEntries uses s h f m)
        ]
      where
        after : (g x : ℕ) → is_met (s.flags x) ≡ true → is_met ((mark_caller g s).flags x) ≡ true
        after g x e = elim (Bool-cases (says_pure (s.flags g))) [
          | inl q ↦ elim (Bool-cases (x == g)) [ inl r ↦ rw (q, r) refl | inr r ↦ rw (q, r) e ]
          | inr q ↦ elim (Bool-cases (x == g)) [ inl r ↦ rw (q, r) refl | inr r ↦ rw (q, r) e ]
        ]

    of_entry :
        (o : Option Bool)
        → is_met o ≡ true
        → ((o ≡ some false) × (not (says_pure o) ≡ true))
          ⊎ ((o ≡ some true) × (not (says_pure o) ≡ false))
    of_entry none e = cc
    of_entry (some false) e = inl (refl, refl)
    of_entry (some true) e = inr (refl, refl)

    of_impure :
        (o : Option Bool) {b : Bool} → o ≡ some b → not (says_pure o) ≡ true → o ≡ some false
    of_impure none e h = cc
    of_impure (some false) e h = refl
    of_impure (some true) e h = cc

    -- A mark on what is marked at once and on callers p is on every impure function.
    Impure-mark :
        (mark : ℕ → Type 0)
        → ((f : ℕ) → Memᴰ f p.values.functions → trivial_mark p depth f ≡ some false → mark f)
        → ((g f : ℕ) → mark g → Memᴰ f (callers p (p.values.store.use_list g)) → mark f)
        → {f : ℕ} → Impure depth f
        → mark f
    Impure-mark mark start step (at_once m e) = start _ m e
    Impure-mark mark start step (caller {g} {entry} i n inst) =
        step g (p.get_function entry.user) (Impure-mark mark start step i)
          (Memᴰ-callers p (p.values.store.use_list g) n inst)

    abbrev next : ℕ → List ℕ
    next g = callers p (p.values.store.use_list g)

    touches :
        (g : ℕ) (t : Pending Pure)
        → Memᴰ g p.values.functions
        → process p g t ≡ some (each mark_caller (next g) t)
    touches g t m = ap some (process_uses-each p (p.values.store.use_list g) t)

    -- What the first loop leaves is ready for the worklist.
    Started-IsReady :
        ((f : ℕ) → Memᴰ f p.values.functions → (pure : Bool) × (trivial_mark p depth f ≡ some pure))
        → (inside : (g f : ℕ)
            → Memᴰ g p.values.functions
            → Memᴰ f (next g)
            → Memᴰ f p.values.functions)
        → {s : Pending Pure}
        → Started p depth p.values.functions (record { flags = λ f. none; queue = [] }) s
        → IsReady impure mark_caller mark_caller-Marking
            (process p)
            next
            p.values.functions
            touches
            inside
            s
    Started-IsReady found inside {s} r =
        let in_queue : (f : ℕ)
            → Memᴰ f s.queue
            → Memᴰ f p.values.functions × (trivial_mark p depth f ≡ some false) =
          λ f n. r.among f (subst (Memᴰ f) r.queued n) in
        record {
          queue_within = λ f n. (in_queue f n).0;
          queue_marked = λ f n. rw (r.set f (in_queue f n).0, (in_queue f n).1) refl;
          closed = λ f m e. inl (
              subst (Memᴰ f) (sym r.queued) (
                r.all f m (
                  of_impure (trivial_mark p depth f) (found f m).1
                    (subst (λ o. not (says_pure o) ≡ true) (r.set f m) e))));
        }

    -- Where the chains of addresses end within the fuel and users stand in functions of the module,
    -- the pass returns on fuel of twice the number of functions, and a function of the module is pure
    -- just if it is not marked at once, calls none that is marked at once, none that calls such a
    -- one, and so on.
    pub run-Impure :
        (fuel : ℕ)
        → ((f : ℕ)
            → Memᴰ f p.values.functions
            → (pure : Bool) × (trivial_mark p depth f ≡ some pure))
        → ((g : ℕ) (entry : Use)
            → Memᴰ g p.values.functions
            → Memᴰ entry (p.values.store.use_list g)
            → is_instruction (p.values.class_of entry.user) ≡ true
            → Memᴰ (p.get_function entry.user) p.values.functions)
        → length p.values.functions + length p.values.functions ≤ fuel
        → (pure : Pure) × (run p depth fuel ≡ some pure)
          × ((f : ℕ)
              → Memᴰ f p.values.functions
              → (Impure depth f × (is_pure_function pure f ≡ some false))
                ⊎ ((¬ (Impure depth f)) × (is_pure_function pure f ≡ some true)))
    unfolding run
    run-Impure fuel found within enough =
        let fs = p.values.functions in
        let (s, first, r) =
          mark_each-Started p depth fs (record { flags = λ f. none; queue = [] }) found in
        let inside : (g f : ℕ) → Memᴰ g fs → Memᴰ f (next g) → Memᴰ f fs = λ g f mg n.
          let (entry, m, i, same) = callers-Memᴰ p (p.values.store.use_list g) n in
          subst (λ x. Memᴰ x fs) (sym same) (within g entry mg m i) in
        let short : length s.queue ≤ length fs =
          subst (λ q. length q ≤ length fs) (sym r.queued) r.shorter in
        let (s', ran, d) =
          work-Done impure mark_caller mark_caller-Marking (process p) next fs touches inside fuel
            s.flags s.queue (Started-IsReady found inside r)
            (omega (arith, enough, short, left-length fs (impure s.flags))) in
        let met : HasEntries s'.flags =
          work-keeps (process p) HasEntries
            (λ g t t' e h.
              let same : process_uses p (p.values.store.use_list g) t ≡ t' = cc e in
              subst (λ (t : Pending Pure). HasEntries t.flags) same
                (process_uses-HasEntries (p.values.store.use_list g) t h))
            fuel s.flags s.queue (λ f m. rw (r.set f m, (found f m).1) refl) ran in
        let marked : (f : ℕ) → Memᴰ f fs → impure s'.flags f ≡ true → Impure depth f =
          d.least (Impure depth)
            (λ f m e. at_once m (
              of_impure (trivial_mark p depth f) (found f m).1
                (subst (λ o. not (says_pure o) ≡ true) (r.set f m) e)))
            (λ g f mg i n.
              let (entry, m, inst, same) = callers-Memᴰ p (p.values.store.use_list g) n in
              subst (Impure depth) (sym same) (caller i m inst)) in
        let all : (f : ℕ) → Impure depth f → Memᴰ f fs × (impure s'.flags f ≡ true) = λ f i.
          Impure-mark (λ f. Memᴰ f fs × (impure s'.flags f ≡ true))
            (λ f m e. (m, d.kept f (rw (r.set f m, e) refl)))
            (λ g f (m, e) n. (inside g f m n, d.closed g f m e n)) i in
        (
          s'.flags,
          rw (first, ran) refl,
          λ f m. elim (of_entry (s'.flags f) (met f m)) [
            | inl (says, e) ↦ inl (marked f m e, says)
            | inr (says, e) ↦ inr (λ i. cc ((all f i).1, e), says)
          ],
        )
