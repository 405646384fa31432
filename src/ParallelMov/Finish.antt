-- ===== src/ParallelMov/Finish.antt =====
-- topo_sort on moves without a cycle: what holds between its steps, and the end of a node.
use mathlib.Core.List.{Memᴰ}
use poly_cminus.Prelude.{
  Memᴰ-append, subst, ℕ, ◌≤◌, ◌<◌, ◌==◌, length, Bool-cases, List, ◌++◌, ◌≡◌, ◌≢◌, refl, sym, ap,
  ◌∙◌, ◌⊎◌, inl, inr, ==→eq, eq→==, arith,
}
use poly_cminus.Uses.{put}
use poly_cminus.ParallelMov.{
  MoveType, Edge, Mark, on_path, finished, Sorting, edges_of, finish, run_moves,
}
use poly_cminus.ParallelMov.Nodes.{without-Memᴰ, Memᴰ-without}
use poly_cminus.ParallelMov.Once.{NoRepeat, NoRepeat-append, edges_of-NoRepeat}
use poly_cminus.ParallelMov.Moves.{
  run_moves-append, run_moves-other, AllFrom, run_moves-from, edges_of-Memᴰ, Memᴰ-edges_of,
}

module _ (edges : List Edge) (rank : ℕ → ℕ)
    (falls : (e : Edge) → Memᴰ e edges → rank e.to < rank e.from) (no_repeat : NoRepeat edges)
    (unique : (e f : Edge) → Memᴰ e edges → Memᴰ f edges → e.to ≡ f.to → e.from ≡ f.from) where
  -- Between the searches and within them: the moves of the finished registers are in the result,
  -- and have the effect of all of them at once.
  pub record IsSound (s : Sorting) : Type 1 where
    pub same_edges : s.edges ≡ edges
    pub closed : (e : Edge) → Memᴰ e edges → s.visited e.from ≡ finished → s.visited e.to ≡ finished
    pub moved :
        {V : Type 0} (r : ℕ → V) (e : Edge)
        → Memᴰ e edges
        → s.visited e.from ≡ finished
        → run_moves s.nret r e.to ≡ r e.from
    pub other :
        {V : Type 0} (r : ℕ → V) (x : ℕ)
        → ((e : Edge) → Memᴰ e edges → s.visited e.from ≡ finished → e.to ≢ x)
        → run_moves s.nret r x ≡ r x
    pub finished_moves : (e : Edge) → Memᴰ e s.nret → Memᴰ e edges × (s.visited e.from ≡ finished)
    pub once : NoRepeat s.nret
    pub left : (x : ℕ) → Memᴰ x s.nodes → s.visited x ≢ finished
    pub covered : (e : Edge) → Memᴰ e edges → Memᴰ e.from s.nodes ⊎ (s.visited e.from ≡ finished)

  -- What a search changes.
  pub record Extends (s s' : Sorting) : Type 0 where
    pub kept : (x : ℕ) → s.visited x ≡ finished → s'.visited x ≡ finished
    pub path : (x : ℕ) → s.visited x ≡ on_path → s'.visited x ≡ on_path
    pub path_before : (x : ℕ) → s'.visited x ≡ on_path → s.visited x ≡ on_path
    pub fewer : length s'.nodes ≤ length s.nodes
    pub stays : (x : ℕ) → Memᴰ x s.nodes → Memᴰ x s'.nodes ⊎ (s'.visited x ≡ finished)

  pub Extends-refl : (s : Sorting) → Extends s s
  Extends-refl s = record {
    kept = λ x e. e;
    path = λ x e. e;
    path_before = λ x e. e;
    fewer = omega arith;
    stays = λ x m. inl m;
  }

  pub Extends-trans : {s t u : Sorting} → Extends s t → Extends t u → Extends s u
  Extends-trans a b = record {
    kept = λ x e. b.kept x (a.kept x e);
    path = λ x e. b.path x (a.path x e);
    path_before = λ x e. a.path_before x (b.path_before x e);
    fewer = omega (arith, a.fewer, b.fewer);
    stays = λ x m. elim (a.stays x m) [ inl m' ↦ b.stays x m' | inr f ↦ inr (b.kept x f) ];
  }

  finish-source :
      (v : ℕ → Mark) (n x : ℕ) → put v n finished x ≡ finished → (x ≡ n) ⊎ (v x ≡ finished)
  finish-source v n x e = elim (Bool-cases (x == n)) [
    | inl p ↦ inl (==→eq x n p)
    | inr p ↦ inr (rw p at e)
  ]

  pub put-finished : (v : ℕ → Mark) (n x : ℕ) → v x ≡ finished → put v n finished x ≡ finished
  put-finished v n x e = elim (Bool-cases (x == n)) [ inl p ↦ rw p refl | inr p ↦ rw p e ]

  out-AllFrom : (n : ℕ) → AllFrom n (edges_of n edges)
  out-AllFrom n e m =
      let (m', from_n) = edges_of-Memᴰ n edges m in
      (
        from_n,
        λ loop.
            let less = falls e m' in
            let same : rank e.to ≡ rank e.from = ap rank (loop ∙ sym from_n) in
            absurd (omega (arith, less, same)),
      )

  module _ (kind : MoveType) (n : ℕ) (s : Sorting) (h : IsSound s)
      (new : s.visited n ≢ finished) where
    runs :
        {V : Type 0} (r : ℕ → V) (x : ℕ)
        → run_moves (finish kind n s).nret r x ≡ run_moves (edges_of n edges) (run_moves s.nret r) x
    runs r x =
        ap (λ es. run_moves (s.nret ++ edges_of n es) r x) h.same_edges
        ∙ ap (λ (f : ℕ → _). f x) (run_moves-append s.nret (edges_of n edges) r)

    -- The register still has its value.
    source_value : {V : Type 0} (r : ℕ → V) → run_moves s.nret r n ≡ r n
    source_value r = h.other r n (λ e m f loop. new (ap s.visited (sym loop) ∙ h.closed e m f))

    finish-moved :
        {V : Type 0} (r : ℕ → V) (e : Edge)
        → Memᴰ e edges
        → (finish kind n s).visited e.from ≡ finished
        → run_moves (finish kind n s).nret r e.to ≡ r e.from
    finish-moved r e m f = runs r e.to ∙ elim (finish-source s.visited n e.from f) [
      | inl from_n ↦
          run_moves-from n (edges_of n edges) (run_moves s.nret r) (out-AllFrom n)
            (Memᴰ-edges_of n edges m from_n)
          ∙ source_value r
          ∙ ap r (sym from_n)
      | inr old ↦
          run_moves-other (edges_of n edges) (run_moves s.nret r) e.to (λ e' m' same.
            let (n', from_n) = edges_of-Memᴰ n edges m' in
            new (ap s.visited (sym from_n ∙ unique e' e n' m same) ∙ old))
          ∙ h.moved r e m old
    ]

    finish-other :
        {V : Type 0} (r : ℕ → V) (x : ℕ)
        → ((e : Edge) → Memᴰ e edges → (finish kind n s).visited e.from ≡ finished → e.to ≢ x)
        → run_moves (finish kind n s).nret r x ≡ r x
    finish-other r x away =
        runs r x
        ∙ run_moves-other (edges_of n edges) (run_moves s.nret r) x
            (λ e m. let (m', from_n) = edges_of-Memᴰ n edges m in away e m' (at_n e.from from_n))
        ∙ h.other r x (λ e m f. away e m (put-finished s.visited n e.from f))
      where
        at_n : (y : ℕ) → y ≡ n → put s.visited n finished y ≡ finished
        at_n y e = rw (eq→== y n e) refl

    finish-moves :
        (e : Edge)
        → Memᴰ e (finish kind n s).nret
        → Memᴰ e edges × ((finish kind n s).visited e.from ≡ finished)
    finish-moves e m = elim (Memᴰ-append s.nret m) [
      | inl old ↦ let (m', f) = h.finished_moves e old in (m', put-finished s.visited n e.from f)
      | inr here ↦
          let (m', from_n) = edges_of-Memᴰ n s.edges here in
          (subst (Memᴰ e) h.same_edges m', rw (eq→== e.from n from_n) refl)
    ]

    finish-NoRepeat : NoRepeat (finish kind n s).nret
    finish-NoRepeat =
        NoRepeat-append s.nret (edges_of n s.edges) h.once
          (edges_of-NoRepeat n s.edges (subst NoRepeat (sym h.same_edges) no_repeat))
          (λ e old here.
            new (ap s.visited (sym (edges_of-Memᴰ n s.edges here).1) ∙ (h.finished_moves e old).1))

    -- The end of a register whose targets are finished.
    pub finish-IsSound :
        ((e : Edge) → Memᴰ e (edges_of n edges) → s.visited e.to ≡ finished)
        → IsSound (finish kind n s)
    finish-IsSound done = record {
      same_edges = h.same_edges;
      closed = λ e m f. put-finished s.visited n e.to (elim (finish-source s.visited n e.from f) [
        | inl from_n ↦ done e (Memᴰ-edges_of n edges m from_n)
        | inr old ↦ h.closed e m old
      ]);
      moved = finish-moved;
      other = finish-other;
      finished_moves = finish-moves;
      once = finish-NoRepeat;
      left = λ x m f.
          let (m', differs) = without-Memᴰ s.nodes n x m in
          elim (finish-source s.visited n x f) [ inl e ↦ differs e | inr old ↦ h.left x m' old ];
      covered = λ e m. elim (h.covered e m) [
        | inl there ↦ elim (Memᴰ-without s.nodes n e.from there) [
          | inl stays ↦ inl stays
          | inr e≡n ↦ inr (rw (eq→== e.from n e≡n) refl)
        ]
        | inr f ↦ inr (put-finished s.visited n e.from f)
      ];
    }
