-- ===== src/DeadCode/Live.antt =====
-- DeadCode::mark: the marked instructions are those that are critical, and those that a marked one
-- of the same function uses.
use mathlib.Core.List.{Memᴰ}
use poly_cminus.Prelude.{
  ℕ, ◌+◌, ◌≤◌, length, Bool, true, false, some, [], ◌≡◌, refl, sym, inl, inr, subst, arith,
}
use poly_cminus.IrCheck.Checks.{instructions_of}
use poly_cminus.Uses.Consistent.Remove.{all_set}
use poly_cminus.Worklist.{Pending}
use poly_cminus.Worklist.Closed.{IsReady, work-Done}
use poly_cminus.Worklist.Left.{left-length}
use poly_cminus.FuncInfo.{Program, Pure}
use poly_cminus.DeadCode.{Marked, is_critical, mark_def, is_def, mark_ins, mark}
use poly_cminus.DeadCode.Defs.{
  has_mark, mark_def-Marking, defs, mark_operands-each, defs-Memᴰ, Memᴰ-defs,
}
use poly_cminus.DeadCode.Started.{mark_critical-Started}

module _ (pure : Pure) (p : Program) where
  -- A critical instruction of the function, or one of it that a live one uses.
  pub data Live (f : ℕ) : ℕ → Type 0 where
    critical :
        {i : ℕ} → Memᴰ i (instructions_of p.values f) → is_critical pure p i ≡ some true → Live f i
    used :
        {i def : ℕ}
        → Live f i
        → Memᴰ (some def) (p.values.store.operands i)
        → is_def pure p i def ≡ true
        → Live f def

  Live-mark :
      {f : ℕ} (mark : ℕ → Type 0)
      → ((i : ℕ) → Memᴰ i (instructions_of p.values f) → is_critical pure p i ≡ some true → mark i)
      → ((i def : ℕ) → mark i → Memᴰ def (defs pure p i (p.values.store.operands i)) → mark def)
      → {i : ℕ} → Live f i
      → mark i
  Live-mark mark start step (critical m e) = start _ m e
  Live-mark mark start step (used {i} {def} l m e) =
      step i def (Live-mark mark start step l) (Memᴰ-defs pure p i (p.values.store.operands i) m e)

  -- Where the callees of calls are functions that were looked at, the instructions of a function that
  -- its instructions use stand in its blocks, and no operand of them is null, `mark` returns on fuel
  -- of twice the number of its instructions, and it marks the instructions of it that are live, and
  -- no other.
  pub mark-Live :
      (fuel f : ℕ)
      → ((i : ℕ)
          → Memᴰ i (instructions_of p.values f)
          → (b : Bool) × (is_critical pure p i ≡ some b))
      → ((i def : ℕ)
          → Memᴰ i (instructions_of p.values f)
          → Memᴰ (some def) (p.values.store.operands i)
          → is_def pure p i def ≡ true
          → Memᴰ def (instructions_of p.values f))
      → ((i : ℕ) → Memᴰ i (instructions_of p.values f) → all_set (p.values.store.operands i) ≡ true)
      → length (instructions_of p.values f) + length (instructions_of p.values f) ≤ fuel
      → (marked : Marked) × (mark pure p fuel f ≡ some marked)
        × ((i : ℕ) → Live f i → marked i ≡ true)
        × ((i : ℕ) → Memᴰ i (instructions_of p.values f) → marked i ≡ true → Live f i)
  unfolding mark
  mark-Live fuel f found within set enough =
      let is = instructions_of p.values f in
      let (s, first, r) =
        mark_critical-Started pure p is (record { flags = λ i. false; queue = [] }) found in
      let next = λ (i : ℕ). defs pure p i (p.values.store.operands i) in
      let inside : (i def : ℕ) → Memᴰ i is → Memᴰ def (next i) → Memᴰ def is = λ i def m n.
        let (n', e) = defs-Memᴰ pure p i (p.values.store.operands i) n in within i def m n' e in
      let touches = λ (i : ℕ) (t : Pending Marked) (m : Memᴰ i is).
        mark_operands-each pure p i (p.values.store.operands i) t (set i m) in
      let was_added : (i : ℕ) → s.flags i ≡ true → Memᴰ i r.added =
        λ i e. elim (r.new i e) [ inl old ↦ cc old | inr n ↦ n ] in
      let ready : IsReady has_mark (mark_def pure p) (mark_def-Marking pure p) (mark_ins pure p)
          next is touches inside s =
        record {
          queue_within = λ i n. (r.among i (subst (Memᴰ i) r.queued n)).0;
          queue_marked = λ i n. r.marked i (subst (Memᴰ i) r.queued n);
          closed = λ i m e. inl (subst (Memᴰ i) (sym r.queued) (was_added i e));
        } in
      let short : length s.queue ≤ length is =
        subst (λ q. length q ≤ length is) (sym r.queued) r.shorter in
      let (s', ran, d) =
        work-Done has_mark (mark_def pure p) (mark_def-Marking pure p) (mark_ins pure p) next is
          touches inside fuel s.flags s.queue ready
          (omega (arith, enough, short, left-length is s.flags)) in
      (
        s'.flags,
        rw (first, ran) refl,
        λ i l.
            (Live-mark (λ i. Memᴰ i is × (s'.flags i ≡ true)) (λ i m e. (m, d.kept i (r.all i m e)))
              (λ i def (m, e) n. (inside i def m n, d.closed i def m e n)) l).1,
        d.least (Live f) (λ i m e. critical m (r.among i (was_added i e)).1)
            (λ i def m l n.
              let (n', e) = defs-Memᴰ pure p i (p.values.store.operands i) n in used l n' e),
      )
