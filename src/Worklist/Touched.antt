-- ===== src/Worklist/Touched.antt =====
-- What a worklist owes for its marks, and what a loop over elements then does.
use mathlib.Core.List.{Memᴰ, append-nil, append_assoc}
use mathlib.Core.List.Memᴰ
use poly_cminus.Prelude.{
  ℕ, ◌+◌, ◌≤◌, length, Bool, true, false, Bool-cases, List, [], ◌∷◌, ◌++◌, ◌≡◌, refl, sym, ap, ◌∙◌,
  inl, inr, ◌⊎◌, eq→==, arith,
}
use poly_cminus.Uses.{put}
use poly_cminus.Worklist.{Pending, each}
use poly_cminus.Worklist.Left.{left, left_mono, left-put, put-true, put-true_inv}

-- What a worklist owes: touching an element that is marked changes no mark, touching another one
-- marks it and puts it at the end of the queue.
pub record Marking {F : Type 0} (marked : F → ℕ → Bool) (touch : ℕ → Pending F → Pending F)
    : Type 0 where
  pub skip :
      (t : ℕ) (s : Pending F)
      → marked s.flags t ≡ true
      → ((touch t s).queue ≡ s.queue) × ((x : ℕ) → marked (touch t s).flags x ≡ marked s.flags x)
  pub add :
      (t : ℕ) (s : Pending F)
      → marked s.flags t ≡ false
      → ((touch t s).queue ≡ s.queue ++ t ∷ [])
        × ((x : ℕ) → marked (touch t s).flags x ≡ put (marked s.flags) t true x)

module _ {F : Type 0} (marked : F → ℕ → Bool) (touch : ℕ → Pending F → Pending F)
    (laws : Marking marked touch) where
  -- What a loop over elements does.
  pub record Touched (ts : List ℕ) (s s' : Pending F) : Type 0 where
    pub added : List ℕ
    pub queued : s'.queue ≡ s.queue ++ added
    pub kept : (x : ℕ) → marked s.flags x ≡ true → marked s'.flags x ≡ true
    pub all : (x : ℕ) → Memᴰ x ts → marked s'.flags x ≡ true
    pub new : (x : ℕ) → marked s'.flags x ≡ true → (marked s.flags x ≡ true) ⊎ Memᴰ x added
    pub among : (x : ℕ) → Memᴰ x added → Memᴰ x ts
    pub paid :
        (us : List ℕ)
        → ((x : ℕ) → Memᴰ x ts → Memᴰ x us)
        → left us (marked s'.flags) + length added ≤ left us (marked s.flags)

  Touched-skip :
      {t : ℕ} {ts : List ℕ} {s s' : Pending F}
      → marked s.flags t ≡ true
      → Touched ts (touch t s) s'
      → Touched (t ∷ ts) s s'
  Touched-skip {t} {ts} {s} {s'} m r =
      let (same_queue, same) = laws.skip t s m in
      record {
        added = r.added;
        queued = r.queued ∙ ap (λ q. q ++ r.added) same_queue;
        kept = λ x e. r.kept x (same x ∙ e);
        all = λ x n. elim (Memᴰ.cases_cons n) [
          | inl x≡t ↦ r.kept x (same x ∙ ap (marked s.flags) x≡t ∙ m)
          | inr n' ↦ r.all x n'
        ];
        new = λ x e. elim (r.new x e) [ inl old ↦ inl (sym (same x) ∙ old) | inr n ↦ inr n ];
        among = λ x n. Memᴰ.tail (r.among x n);
        paid = λ us h.
            let rest = r.paid us (λ x n. h x (Memᴰ.tail n)) in
            let mono =
              left_mono us (marked s.flags) (marked (touch t s).flags) (λ x e. same x ∙ e) in
            omega (arith, rest, mono);
      }

  Touched-add :
      {t : ℕ} {ts : List ℕ} {s s' : Pending F}
      → marked s.flags t ≡ false
      → Touched ts (touch t s) s'
      → Touched (t ∷ ts) s s'
  Touched-add {t} {ts} {s} {s'} f r =
      let (new_queue, put_mark) = laws.add t s f in
      record {
        added = t ∷ r.added;
        queued =
            r.queued ∙ ap (λ q. q ++ r.added) new_queue ∙ append_assoc s.queue (t ∷ []) r.added;
        kept = λ x e. r.kept x (put_mark x ∙ put-true (marked s.flags) t x e);
        all = λ x n. elim (Memᴰ.cases_cons n) [
          | inl x≡t ↦ r.kept x (put_mark x ∙ rw (eq→== x t x≡t))
          | inr n' ↦ r.all x n'
        ];
        new = λ x e. elim (r.new x e) [
          | inl early ↦ elim (put-true_inv (marked s.flags) t x (sym (put_mark x) ∙ early)) [
            | inl x≡t ↦ inr (Memᴰ.head x≡t)
            | inr old ↦ inl old
          ]
          | inr n ↦ inr (Memᴰ.tail n)
        ];
        among = λ x n. elim (Memᴰ.cases_cons n) [
          | inl x≡t ↦ Memᴰ.head x≡t
          | inr n' ↦ Memᴰ.tail (r.among x n')
        ];
        paid = λ us h.
            let rest = r.paid us (λ x n. h x (Memᴰ.tail n)) in
            let less = left-put us (marked s.flags) t (h t (Memᴰ.head refl)) f in
            let mono =
              left_mono us (put (marked s.flags) t true) (marked (touch t s).flags)
                (λ x e. put_mark x ∙ e) in
            omega (arith, rest, less, mono);
      }

  pub each-Touched : (ts : List ℕ) (s : Pending F) → Touched ts s (each touch ts s)
  each-Touched [] s = record {
    added = [];
    queued = sym (append-nil s.queue);
    kept = λ x e. e;
    all = λ x n. absurd (Memᴰ.not-nil n);
    new = λ x e. inl e;
    among = λ x n. n;
    paid = λ us h. omega arith;
  }
  each-Touched (t ∷ ts) s = elim (Bool-cases (marked s.flags t)) [
    | inl m ↦ Touched-skip m (each-Touched ts (touch t s))
    | inr f ↦ Touched-add f (each-Touched ts (touch t s))
  ]
