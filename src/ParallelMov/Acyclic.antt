-- ===== src/ParallelMov/Acyclic.antt =====
-- topo_sort on moves without a cycle: the moves in its order do what they do all at once.
use mathlib.Core.List.{Memᴰ}
use mathlib.Core.List.Memᴰ
use poly_cminus.Prelude.{
  eq→==, ℕ, zero, suc, ◌+◌, ◌≤◌, ◌<◌, length, some, ◌>>=◌, List, [], ◌∷◌, ◌≡◌, ◌≢◌, refl, sym, ap,
  subst, ◌∙◌, ◌⊎◌, inl, inr, arith,
}
use poly_cminus.ParallelMov.{
  MoveType, Edge, Mark, unseen, on_path, finished, Sorting, dfs, sort_step, sort_nodes, after_dfs,
  start, nodes_of, topo_sort, insert_node, falling, run_moves,
}
use poly_cminus.ParallelMov.Nodes.{insert_by-old, insert_by-new, insert_by-length}
use poly_cminus.ParallelMov.Search.{Mark-cases, dfs-Searched}
use poly_cminus.ParallelMov.Once.{NoRepeat, set_of_moves-length}
use poly_cminus.ParallelMov.Finish.{IsSound, Extends}

module _ (edges : List Edge) (rank : ℕ → ℕ)
    (falls : (e : Edge) → Memᴰ e edges → rank e.to < rank e.from) (no_repeat : NoRepeat edges)
    (unique : (e f : Edge) → Memᴰ e edges → Memᴰ f edges → e.to ≡ f.to → e.from ≡ f.from)
    (kind : MoveType) where
  abbrev Sound : Sorting → Type 1
  Sound s = IsSound edges rank falls no_repeat unique s

  abbrev Grows : Sorting → Sorting → Type 0
  Grows s s' = Extends edges rank falls no_repeat unique s s'

  -- Every node of the path is above.
  abbrev IsBelow : ℕ → Sorting → Type 0
  IsBelow k s = (x : ℕ) → s.visited x ≡ on_path → k < rank x

  nodes-cases : (xs : List ℕ) → (xs ≡ []) ⊎ ((n : ℕ) × (ns : List ℕ) × (xs ≡ n ∷ ns))
  nodes-cases [] = inl refl
  nodes-cases (n ∷ ns) = inr (n, ns, refl)

  sort_nodes-cons :
      (rounds depth : ℕ) (s : Sorting) {n : ℕ} {ns : List ℕ}
      → s.nodes ≡ n ∷ ns
      → sort_nodes kind (suc rounds) depth s
        ≡ (sort_step kind depth n s >>= sort_nodes kind rounds depth)
  unfolding sort_nodes
  sort_nodes-cons rounds depth s e =
      ap
        (λ (ns : List ℕ). elim ns [
          | [] ↦ some s
          | n ∷ ns ↦ sort_step kind depth n s >>= sort_nodes kind rounds depth
        ])
        e

  sort_step-unseen :
      (depth n : ℕ) (s : Sorting)
      → s.visited n ≡ unseen
      → sort_step kind depth n s ≡ (dfs kind depth n s >>= after_dfs kind)
  sort_step-unseen depth n s new =
      ap (λ (m : Mark). elim m [ unseen ↦ dfs kind depth n s >>= after_dfs kind | _ ↦ some s ]) new

  sort_nodes-Sound :
      (rounds depth : ℕ) (s : Sorting)
      → ((x : ℕ) → rank x < depth)
      → Sound s
      → ((x : ℕ) → s.visited x ≢ on_path)
      → length s.nodes ≤ rounds
      → (s' : Sorting) × (sort_nodes kind rounds depth s ≡ some s') × Sound s' × (s'.nodes ≡ [])
  unfolding sort_nodes
  sort_nodes-Sound zero depth s deep sound off enough = elim (nodes-cases s.nodes) [
    | inl e ↦ (s, rw e refl, sound, e)
    | inr (n, ns, e) ↦
        let long : length s.nodes ≡ suc (length ns) = ap length e in
        absurd (omega (arith, long, enough))
  ]
  sort_nodes-Sound (suc rounds) depth s deep sound off enough = elim (nodes-cases s.nodes) [
    | inl e ↦ (s, rw e refl, sound, e)
    | inr (n, ns, e) ↦
        let m : Memᴰ n s.nodes = subst (Memᴰ n) (sym e) (Memᴰ.head refl) in
        let new : s.visited n ≡ unseen = elim (Mark-cases (s.visited n)) [
          | inl f ↦ absurd (sound.left n m f)
          | inr (inl p) ↦ absurd (off n p)
          | inr (inr u) ↦ u
        ] in
        let a =
          dfs-Searched edges rank falls no_repeat unique kind depth n s (deep n) sound
            (λ x p. absurd (off x p)) in
        let less = a.removed m (sound.left n m) in
        let (s', ran, sound', empty) =
          sort_nodes-Sound rounds depth a.state deep a.sound
            (λ x p. off x (a.grown.path_before x p)) (omega (arith, less, enough)) in
        (
          s',
          sort_nodes-cons rounds depth s e ∙ rw (sort_step-unseen depth n s new, a.ran) ran,
          sound',
          empty,
        )
  ]

  source_in : (es : List Edge) {e : Edge} → Memᴰ e es → Memᴰ e.from (nodes_of kind es)
  source_in [] m = absurd (Memᴰ.not-nil m)
  source_in (f ∷ es) {e} m = elim (Memᴰ.cases_cons m) [
    | inl first ↦
        subst (λ x. Memᴰ x (nodes_of kind (f ∷ es))) (sym (ap (λ (e : Edge). e.from) first))
          (insert_by-new falling f.from (insert_node f.to (nodes_of kind es)))
    | inr later ↦
        insert_by-old falling f.from (insert_node f.to (nodes_of kind es))
          (insert_by-old falling f.to (nodes_of kind es) (source_in es later))
  ]

  start-Sound : Sound (start kind edges)
  start-Sound = record {
    same_edges = refl;
    closed = λ e m f. cc f;
    moved = λ r e m f. cc f;
    other = λ r x away. refl;
    finished_moves = λ e m. absurd (Memᴰ.not-nil m);
    once = tt;
    left = λ x m f. cc f;
    covered = λ e m. inl (source_in edges m);
  }

  length-nodes_of : (es : List Edge) → length (nodes_of kind es) ≤ length es + length es
  length-nodes_of [] = omega arith
  length-nodes_of (e ∷ es) =
      let inner = nodes_of kind es in
      let a = insert_by-length falling e.to inner in
      let b = insert_by-length falling e.from (insert_node e.to inner) in
      omega (arith, a, b, length-nodes_of es)

  -- Where each move goes from a higher to a lower rank, so that there is no cycle, no move is there
  -- twice, and no two moves go from different registers to the same one, the sort returns on fuel for twice the number of moves
  -- and the highest rank, and running its moves one after the other puts into each target the value
  -- that its source had before all of them, and leaves the other registers as they were.
  pub topo_sort-run_moves :
      (rounds depth : ℕ)
      → ((x : ℕ) → rank x < depth)
      → length edges + length edges ≤ rounds
      → (moves : List Edge) × (topo_sort kind rounds depth edges ≡ some moves)
        × ((r : ℕ → ℕ)
            → ((e : Edge) → Memᴰ e edges → run_moves moves r e.to ≡ r e.from)
              × ((x : ℕ) → ((e : Edge) → Memᴰ e edges → e.to ≢ x) → run_moves moves r x ≡ r x))
  topo_sort-run_moves rounds depth deep enough =
      let (s, ran, sound, empty) =
        sort_nodes-Sound rounds depth (start kind edges) deep start-Sound (λ x p. cc p)
          (omega (arith, enough, length-nodes_of edges)) in
      let all_done : (e : Edge) → Memᴰ e edges → s.visited e.from ≡ finished = λ e m.
        elim (sound.covered e m) [
          | inl there ↦ absurd (Memᴰ.not-nil (subst (Memᴰ e.from) empty there))
          | inr f ↦ f
        ] in
      (
        s.nret,
        rw (ran, eq→== _ _ (set_of_moves-length s.nret sound.once)) refl,
        λ r. (
          λ e m. sound.moved r e m (all_done e m),
          λ x away. sound.other r x (λ e m f. away e m),
        ),
      )
