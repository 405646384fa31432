-- ===== src/FuncInfo/Started.antt =====
-- FuncInfo: the first loop of its run.
use mathlib.Core.List.{Memᴰ, append-nil, append_assoc}
use mathlib.Core.List.Memᴰ
use poly_cminus.Prelude.{
  ℕ, ◌≤◌, ◌==◌, length, Bool, false, if◌then◌else◌, Bool-cases, some, List, [], ◌∷◌, ◌++◌, ◌≡◌,
  refl, sym, ap, ◌∙◌, inl, inr, ◌⊎◌, arith, ==→eq, eq→==,
}
use poly_cminus.Uses.{put}
use poly_cminus.Worklist.{Pending}
use poly_cminus.FuncInfo.{Program, Pure, trivial_mark, mark_each}

module _ (p : Program) (depth : ℕ) where
  -- What the first loop leaves.
  pub record Started (fs : List ℕ) (s s' : Pending Pure) : Type 0 where
    pub set : (f : ℕ) → Memᴰ f fs → s'.flags f ≡ trivial_mark p depth f
    pub other : (f : ℕ) → (s'.flags f ≡ s.flags f) ⊎ Memᴰ f fs
    pub added : List ℕ
    pub queued : s'.queue ≡ s.queue ++ added
    pub among : (f : ℕ) → Memᴰ f added → Memᴰ f fs × (trivial_mark p depth f ≡ some false)
    pub all : (f : ℕ) → Memᴰ f fs → trivial_mark p depth f ≡ some false → Memᴰ f added
    pub shorter : length added ≤ length fs

  started :
      (f : ℕ) (fs : List ℕ) (s s' : Pending Pure) (pure : Bool)
      → trivial_mark p depth f ≡ some pure
      → Started fs
          (record {
            flags = put s.flags f (some pure);
            queue = if pure then s.queue else s.queue ++ f ∷ [];
          })
          s'
      → Started (f ∷ fs) s s'
  started f fs s s' pure e r =
      let set : (x : ℕ) → Memᴰ x (f ∷ fs) → s'.flags x ≡ trivial_mark p depth x = λ x n.
        elim (Memᴰ.cases_cons n) [
          | inl x≡f ↦ elim (r.other x) [
            | inl old ↦ old ∙ rw (eq→== x f x≡f) (sym e ∙ ap (trivial_mark p depth) (sym x≡f))
            | inr later ↦ r.set x later
          ]
          | inr later ↦ r.set x later
        ] in
      let other : (x : ℕ) → (s'.flags x ≡ s.flags x) ⊎ Memᴰ x (f ∷ fs) = λ x. elim (r.other x) [
        | inl old ↦ elim (Bool-cases (x == f)) [
          | inl q ↦ inr (Memᴰ.head (==→eq x f q))
          | inr q ↦ inl (old ∙ rw q refl)
        ]
        | inr later ↦ inr (Memᴰ.tail later)
      ] in
      elim (Bool-cases pure) [
        | inl q ↦ record {
          set = set;
          other = other;
          added = r.added;
          queued = r.queued ∙ rw q refl;
          among = λ x n. (Memᴰ.tail (r.among x n).0, (r.among x n).1);
          all = λ x n t. elim (Memᴰ.cases_cons n) [
            | inl x≡f ↦ cc (e, q, t, x≡f)
            | inr later ↦ r.all x later t
          ];
          shorter = omega (arith, r.shorter);
        }
        | inr q ↦ record {
          set = set;
          other = other;
          added = f ∷ r.added;
          queued = r.queued ∙ rw q (append_assoc s.queue (f ∷ []) r.added);
          among = λ x n. elim (Memᴰ.cases_cons n) [
            | inl x≡f ↦ (Memᴰ.head x≡f, ap (trivial_mark p depth) x≡f ∙ e ∙ ap some q)
            | inr later ↦ (Memᴰ.tail (r.among x later).0, (r.among x later).1)
          ];
          all = λ x n t. elim (Memᴰ.cases_cons n) [
            | inl x≡f ↦ Memᴰ.head x≡f
            | inr later ↦ Memᴰ.tail (r.all x later t)
          ];
          shorter = omega (arith, r.shorter);
        }
      ]

  pub mark_each-Started :
      (fs : List ℕ) (s : Pending Pure)
      → ((f : ℕ) → Memᴰ f fs → (pure : Bool) × (trivial_mark p depth f ≡ some pure))
      → (s' : Pending Pure) × (mark_each p depth fs s ≡ some s') × Started fs s s'
  mark_each-Started [] s found = (
    s,
    refl,
    record {
      set = λ f n. absurd (Memᴰ.not-nil n);
      other = λ f. inl refl;
      added = [];
      queued = sym (append-nil s.queue);
      among = λ f n. absurd (Memᴰ.not-nil n);
      all = λ f n t. n;
      shorter = omega arith;
    },
  )
  mark_each-Started (f ∷ fs) s found =
      let (pure, e) = found f (Memᴰ.head refl) in
      let (s', ran, r) =
        mark_each-Started fs
          (record {
            flags = put s.flags f (some pure);
            queue = if pure then s.queue else s.queue ++ f ∷ [];
          })
          (λ x n. found x (Memᴰ.tail n)) in
      (s', rw e ran, started f fs s s' pure e r)
