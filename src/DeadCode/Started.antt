-- ===== src/DeadCode/Started.antt =====
-- DeadCode: the first loop of `mark`.
use mathlib.Core.List.{Memᴰ, append-nil, append_assoc}
use mathlib.Core.List.Memᴰ
use poly_cminus.Prelude.{
  ℕ, ◌≤◌, length, Bool, true, false, Bool-cases, some, List, [], ◌∷◌, ◌++◌, ◌≡◌, refl, sym, ap, ◌∙◌,
  inl, inr, ◌⊎◌, arith, eq→==,
}
use poly_cminus.Uses.{put}
use poly_cminus.Worklist.{Pending}
use poly_cminus.Worklist.Left.{put-true, put-true_inv}
use poly_cminus.FuncInfo.{Program, Pure}
use poly_cminus.DeadCode.{Marked, is_critical, mark_critical}

module _ (pure : Pure) (p : Program) where
  -- What the first loop leaves.
  pub record Started (is : List ℕ) (s s' : Pending Marked) : Type 0 where
    pub added : List ℕ
    pub queued : s'.queue ≡ s.queue ++ added
    pub kept : (x : ℕ) → s.flags x ≡ true → s'.flags x ≡ true
    pub new : (x : ℕ) → s'.flags x ≡ true → (s.flags x ≡ true) ⊎ Memᴰ x added
    pub among : (x : ℕ) → Memᴰ x added → Memᴰ x is × (is_critical pure p x ≡ some true)
    pub marked : (x : ℕ) → Memᴰ x added → s'.flags x ≡ true
    pub all : (x : ℕ) → Memᴰ x is → is_critical pure p x ≡ some true → s'.flags x ≡ true
    pub shorter : length added ≤ length is

  Started-critical :
      {i : ℕ} {is : List ℕ} {s s' : Pending Marked}
      → is_critical pure p i ≡ some true
      → Started is (record { flags = put s.flags i true; queue = s.queue ++ i ∷ [] }) s'
      → Started (i ∷ is) s s'
  Started-critical {i} {is} {s} {s'} c r =
      let at_i : s'.flags i ≡ true = r.kept i (rw (eq→== i i refl) refl) in
      record {
        added = i ∷ r.added;
        queued = r.queued ∙ append_assoc s.queue (i ∷ []) r.added;
        kept = λ x e. r.kept x (put-true s.flags i x e);
        new = λ x e. elim (r.new x e) [
          | inl early ↦ elim (put-true_inv s.flags i x early) [
            | inl x≡i ↦ inr (Memᴰ.head x≡i)
            | inr old ↦ inl old
          ]
          | inr n ↦ inr (Memᴰ.tail n)
        ];
        among = λ x n. elim (Memᴰ.cases_cons n) [
          | inl x≡i ↦ (Memᴰ.head x≡i, ap (is_critical pure p) x≡i ∙ c)
          | inr n' ↦ (Memᴰ.tail (r.among x n').0, (r.among x n').1)
        ];
        marked = λ x n. elim (Memᴰ.cases_cons n) [
          | inl x≡i ↦ ap s'.flags x≡i ∙ at_i
          | inr n' ↦ r.marked x n'
        ];
        all = λ x n e. elim (Memᴰ.cases_cons n) [
          | inl x≡i ↦ ap s'.flags x≡i ∙ at_i
          | inr n' ↦ r.all x n' e
        ];
        shorter = omega (arith, r.shorter);
      }

  Started-other :
      {i : ℕ} {is : List ℕ} {s s' : Pending Marked}
      → is_critical pure p i ≡ some false
      → Started is s s'
      → Started (i ∷ is) s s'
  Started-other {i} c r = record {
    added = r.added;
    queued = r.queued;
    kept = r.kept;
    new = r.new;
    among = λ x n. (Memᴰ.tail (r.among x n).0, (r.among x n).1);
    marked = r.marked;
    all = λ x n e. elim (Memᴰ.cases_cons n) [ inl x≡i ↦ cc (x≡i, c, e) | inr n' ↦ r.all x n' e ];
    shorter = omega (arith, r.shorter);
  }

  pub mark_critical-Started :
      (is : List ℕ) (s : Pending Marked)
      → ((i : ℕ) → Memᴰ i is → (b : Bool) × (is_critical pure p i ≡ some b))
      → (s' : Pending Marked) × (mark_critical pure p is s ≡ some s') × Started is s s'
  mark_critical-Started [] s found = (
    s,
    refl,
    record {
      added = [];
      queued = sym (append-nil s.queue);
      kept = λ x e. e;
      new = λ x e. inl e;
      among = λ x n. absurd (Memᴰ.not-nil n);
      marked = λ x n. absurd (Memᴰ.not-nil n);
      all = λ x n e. absurd (Memᴰ.not-nil n);
      shorter = omega arith;
    },
  )
  mark_critical-Started (i ∷ is) s found =
      let (b, e) = found i (Memᴰ.head refl) in
      let later = λ (x : ℕ) (n : Memᴰ x is). found x (Memᴰ.tail n) in
      elim (Bool-cases b) [
        | inl is_true ↦
            let c : is_critical pure p i ≡ some true = e ∙ ap some is_true in
            let (s', ran, r) =
              mark_critical-Started is
                (record { flags = put s.flags i true; queue = s.queue ++ i ∷ [] }) later in
            (s', rw c ran, Started-critical c r)
        | inr is_false ↦
            let c : is_critical pure p i ≡ some false = e ∙ ap some is_false in
            let (s', ran, r) = mark_critical-Started is s later in (s', rw c ran, Started-other c r)
      ]
