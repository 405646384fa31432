-- ===== src/ParallelMov/Search.antt =====
-- The search of topo_sort on moves without a cycle.
use mathlib.Core.List.{Memᴰ}
use mathlib.Core.List.Memᴰ
use poly_cminus.Prelude.{
  ℕ, zero, suc, ◌≤◌, ◌<◌, ◌==◌, length, Bool-cases, Option, none, some, List, [], ◌∷◌, ◌≡◌, ◌≢◌,
  refl, sym, ap, subst, ◌∙◌, ◌⊎◌, inl, inr, ==→eq, eq→==, ne→==, arith,
}
use poly_cminus.Uses.{put}
use poly_cminus.ParallelMov.{
  MoveType, Edge, Mark, unseen, on_path, finished, Sorting, edges_of, Found, finish, set_visited,
  dfs_each, dfs,
}
use poly_cminus.ParallelMov.Nodes.{length-without, Memᴰ-fewer, Memᴰ-without}
use poly_cminus.ParallelMov.Moves.{edges_of-Memᴰ}
use poly_cminus.ParallelMov.Once.{NoRepeat}
use poly_cminus.ParallelMov.Finish.{
  IsSound, Extends, Extends-refl, Extends-trans, put-finished, finish-IsSound,
}

-- A register is finished, on the path, or neither.
pub Mark-cases : (m : Mark) → (m ≡ finished) ⊎ ((m ≡ on_path) ⊎ (m ≡ unseen))
Mark-cases unseen = inr (inr refl)
Mark-cases on_path = inr (inl refl)
Mark-cases finished = inl refl

put-at : (v : ℕ → Mark) (n x : ℕ) (m : Mark) → x ≡ n → put v n m x ≡ m
put-at v n x m e = rw (eq→== x n e) refl

put-else : (v : ℕ → Mark) (n x : ℕ) (m : Mark) → x ≢ n → put v n m x ≡ v x
put-else v n x m ne = rw (ne→== x n ne) refl

module _ (edges : List Edge) (rank : ℕ → ℕ)
    (falls : (e : Edge) → Memᴰ e edges → rank e.to < rank e.from) (no_repeat : NoRepeat edges)
    (unique : (e f : Edge) → Memᴰ e edges → Memᴰ f edges → e.to ≡ f.to → e.from ≡ f.from)
    (kind : MoveType) where
  abbrev Sound : Sorting → Type 1
  Sound s = IsSound edges rank falls no_repeat unique s

  abbrev Grows : Sorting → Sorting → Type 0
  Grows s s' = Extends edges rank falls no_repeat unique s s'

  -- Every node of the path is above.
  abbrev IsBelow : ℕ → Sorting → Type 0
  IsBelow k s = (x : ℕ) → s.visited x ≡ on_path → k < rank x

  pub record Searched (n : ℕ) (s : Sorting) (o : Option Found) : Type 1 where
    pub state : Sorting
    pub ran : o ≡ some (record { state = state; cycle = none })
    pub sound : Sound state
    pub grown : Grows s state
    pub done : state.visited n ≡ finished
    pub removed : Memᴰ n s.nodes → s.visited n ≢ finished → length state.nodes < length s.nodes

  -- The loop over the edges of a node, up to the end of the node.
  record Looked (n : ℕ) (es : List Edge) (s : Sorting) (o : Option Found) : Type 1 where
    state : Sorting
    ran : o ≡ some (record { state = finish kind n state; cycle = none })
    sound : Sound state
    grown : Grows s state
    done : (e : Edge) → Memᴰ e es → state.visited e.to ≡ finished

  dfs_each-Looked :
      (go : ℕ → Sorting → Option Found) (n : ℕ) (es : List Edge) (s : Sorting)
      → ((m : ℕ) (t : Sorting)
          → rank m < rank n
          → Sound t
          → IsBelow (rank m) t
          → Searched m t (go m t))
      → Sound s
      → ((x : ℕ) → s.visited x ≡ on_path → rank n ≤ rank x)
      → ((e : Edge) → Memᴰ e es → rank e.to < rank n)
      → Looked n es s (dfs_each kind go n es s)
  dfs_each-Looked go n [] s search sound path low = record {
    state = s;
    ran = refl;
    sound = sound;
    grown = Extends-refl edges rank falls no_repeat unique s;
    done = λ e m. absurd (Memᴰ.not-nil m);
  }
  dfs_each-Looked go n (e ∷ es) s search sound path low =
      let less = low e (Memᴰ.head refl) in
      let a = search e.to s less sound (λ x p. omega (arith, path x p, less)) in
      let b =
        dfs_each-Looked go n es a.state search a.sound (λ x p. path x (a.grown.path_before x p))
          (λ f m. low f (Memᴰ.tail m)) in
      record {
        state = b.state;
        ran = rw a.ran b.ran;
        sound = b.sound;
        grown = Extends-trans edges rank falls no_repeat unique a.grown b.grown;
        done = λ f m. elim (Memᴰ.cases_cons m) [
          | inl first ↦
              ap b.state.visited (ap (λ (e : Edge). e.to) first) ∙ b.grown.kept e.to a.done
          | inr later ↦ b.done f later
        ];
      }

  module _ (n : ℕ) (s : Sorting) (new : s.visited n ≡ unseen) where
    abbrev entered : Sorting
    entered = set_visited kind n on_path s

    entered-finished : (x : ℕ) → entered.visited x ≡ finished → s.visited x ≡ finished
    entered-finished x e = elim (Bool-cases (x == n)) [ inl p ↦ cc (rw p at e) | inr p ↦ rw p at e ]

    finished-entered : (x : ℕ) → s.visited x ≡ finished → entered.visited x ≡ finished
    finished-entered x e = elim (Bool-cases (x == n)) [
      | inl p ↦ cc (ap s.visited (==→eq x n p), new, e)
      | inr p ↦ rw p e
    ]

    entered-Sound : Sound s → Sound entered
    entered-Sound h = record {
      same_edges = h.same_edges;
      closed = λ e m f. finished-entered e.to (h.closed e m (entered-finished e.from f));
      moved = λ r e m f. h.moved r e m (entered-finished e.from f);
      other = λ r x away. h.other r x (λ e m f. away e m (finished-entered e.from f));
      finished_moves = λ e m. let (m', f) = h.finished_moves e m in (m', finished-entered e.from f);
      once = h.once;
      left = λ x m f. h.left x m (entered-finished x f);
      covered = λ e m. elim (h.covered e m) [
        | inl there ↦ inl there
        | inr f ↦ inr (finished-entered e.from f)
      ];
    }

    finished-Grows : (t : Sorting) → Grows entered t → Grows s (finish kind n t)
    finished-Grows t g = record {
      kept = λ x e.
          put-finished edges rank falls no_repeat unique t.visited n x
            (g.kept x (finished-entered x e));
      path = λ x e.
          let ne : x ≢ n = λ x≡n. cc (ap s.visited x≡n, new, e) in
          put-else t.visited n x finished ne ∙ g.path x (put-else s.visited n x on_path ne ∙ e);
      path_before = λ x e.
          let ne : x ≢ n = λ x≡n. cc (put-at t.visited n x finished x≡n, e) in
          sym (put-else s.visited n x on_path ne)
          ∙ g.path_before x (sym (put-else t.visited n x finished ne) ∙ e);
      fewer = omega (arith, g.fewer, length-without t.nodes n);
      stays = λ x m. elim (g.stays x m) [
        | inl m' ↦ elim (Memᴰ-without t.nodes n x m') [
          | inl stays ↦ inl stays
          | inr x≡n ↦ inr (put-at t.visited n x finished x≡n)
        ]
        | inr f ↦ inr (put-finished edges rank falls no_repeat unique t.visited n x f)
      ];
    }

  entered-above :
      (n : ℕ) (s : Sorting) (new : s.visited n ≡ unseen)
      → IsBelow (rank n) s
      → (x : ℕ) → (entered n s new).visited x ≡ on_path
      → rank n ≤ rank x
  entered-above n s new path x p = elim (Bool-cases (x == n)) [
    | inl e ↦ let same : rank x ≡ rank n = ap rank (==→eq x n e) in omega (arith, same)
    | inr ne ↦ omega (arith, path x (rw ne at p))
  ]

  searched :
      (n : ℕ) (s : Sorting) (new : s.visited n ≡ unseen)
      → Sound s
      → {o : Option Found} → Looked n (edges_of n s.edges) (entered n s new) o
      → Searched n s o
  searched n s new sound b =
      let still : b.state.visited n ≡ on_path =
        b.grown.path n (put-at s.visited n n on_path refl) in
      record {
        state = finish kind n b.state;
        ran = b.ran;
        sound =
            finish-IsSound edges rank falls no_repeat unique kind n b.state b.sound
              (λ f. cc (still, f))
              (λ e m. b.done e (subst (λ es. Memᴰ e (edges_of n es)) (sym sound.same_edges) m));
        grown = finished-Grows n s new b.state b.grown;
        done = put-at b.state.visited n n finished refl;
        removed = λ m ne. elim (b.grown.stays n m) [
          | inl m' ↦ omega (arith, Memᴰ-fewer b.state.nodes n m', b.grown.fewer)
          | inr f ↦ cc (still, f)
        ];
      }

  pub dfs-Searched :
      (fuel n : ℕ) (s : Sorting)
      → rank n < fuel
      → Sound s
      → IsBelow (rank n) s
      → Searched n s (dfs kind fuel n s)
  unfolding dfs
  dfs-Searched zero n s enough sound path = absurd (omega (arith, enough))
  dfs-Searched (suc fuel) n s enough sound path = elim (Mark-cases (s.visited n)) [
    | inl old ↦ record {
      state = s;
      ran = rw old refl;
      sound = sound;
      grown = Extends-refl edges rank falls no_repeat unique s;
      done = old;
      removed = λ m ne. absurd (ne old);
    }
    | inr (inl above) ↦ absurd (omega (arith, path n above))
    | inr (inr new) ↦
        let low : (e : Edge) → Memᴰ e (edges_of n s.edges) → rank e.to < rank n = λ e m.
          let (m', from_n) = edges_of-Memᴰ n s.edges m in
          let less = falls e (subst (Memᴰ e) sound.same_edges m') in
          let same : rank e.from ≡ rank n = ap rank from_n in omega (arith, less, same) in
        let b =
          dfs_each-Looked (dfs kind fuel) n (edges_of n s.edges) (entered n s new)
            (λ m t less. dfs-Searched fuel m t (omega (arith, less, enough)))
            (entered-Sound n s new sound) (entered-above n s new path) low in
        rw new (searched n s new sound b)
  ]
