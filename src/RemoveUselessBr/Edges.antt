-- ===== src/RemoveUselessBr/Edges.antt =====
-- The lists of predecessors and successors name the same edges, those of the terminators.
use poly_cminus.Prelude.{
  ℕ, ◌==◌, ◌&&◌, ◌||◌, Bool, true, false, Bool-cases, inl, inr, if◌then◌else◌, some, List, [], ◌∷◌,
  ◌++◌, map, ◌≡◌, ◌≢◌, refl, sym, ap, ◌∙◌, eq→==, ne→==,
}
use native.Mathlib.Decide.{ℕ_discrete}
use poly_cminus.Uses.{put}
use poly_cminus.RemoveUselessBr.{
  Inst, br, cond_br, ret, other, Block, ends, cut, Graph, clear, add_edge, last, targets, add_edges,
  connect, cut_block, run,
}

abbrev pub has : List ℕ → ℕ → Bool
has [] x = false
has (y ∷ ys) x = x == y || has ys x

-- The edge from `x` to `y`, as the successors and as the predecessors see it.
abbrev pub IsGraph : (ℕ → ℕ → Bool) → Graph → Type 0
IsGraph edge g = (x y : ℕ) → (has (g.succ x) y ≡ edge x y) × (has (g.pre y) x ≡ edge x y)

has-append_last : (xs : List ℕ) (z x : ℕ) → has (xs ++ z ∷ []) x ≡ (has xs x || x == z)
has-append_last [] z x = or_false (x == z)
  where
    or_false : (b : Bool) → (b || false) ≡ b
    or_false true = refl
    or_false false = refl
has-append_last (y ∷ ys) z x = rw (has-append_last ys z x) (or_assoc (x == y) (has ys x) (x == z))
  where
    or_assoc : (a b c : Bool) → (a || (b || c)) ≡ ((a || b) || c)
    or_assoc true b c = refl
    or_assoc false b c = refl

has-put :
    (f : ℕ → List ℕ) (k z x y : ℕ)
    → has (put f k (f k ++ z ∷ []) y) x ≡ (has (f y) x || (y == k && x == z))
has-put f k z x y = elim (ℕ_discrete y k) [
  | yes e ↦ rw (e, eq→== k k refl) (has-append_last (f k) z x)
  | no ne ↦ rw (ne→== y k ne) (or_false (has (f y) x))
]
  where
    or_false : (b : Bool) → b ≡ (b || false)
    or_false true = refl
    or_false false = refl

abbrev with_edge : ℕ → ℕ → (ℕ → ℕ → Bool) → ℕ → ℕ → Bool
with_edge from to edge x y = edge x y || (x == from && y == to)

add_edge-IsGraph :
    (from to : ℕ) (edge : ℕ → ℕ → Bool) (g : Graph)
    → IsGraph edge g
    → IsGraph (with_edge from to edge) (add_edge from to g)
unfolding add_edge
add_edge-IsGraph from to edge g h x y = (
  has-put g.succ from to y x ∙ ap (λ (b : Bool). b || (x == from && y == to)) (h x y).0,
  has-put g.pre to from x y
      ∙ ap (λ (b : Bool). b || (y == to && x == from)) (h x y).1
      ∙ ap (λ (b : Bool). edge x y || b) (and_comm (y == to) (x == from)),
)
  where
    and_comm : (a b : Bool) → (a && b) ≡ (b && a)
    and_comm true true = refl
    and_comm true false = refl
    and_comm false true = refl
    and_comm false false = refl

abbrev with_edges : ℕ → List ℕ → (ℕ → ℕ → Bool) → ℕ → ℕ → Bool
with_edges from tos edge x y = edge x y || (x == from && has tos y)

ext-IsGraph :
    (edge edge' : ℕ → ℕ → Bool) (g : Graph)
    → ((x y : ℕ) → edge x y ≡ edge' x y)
    → IsGraph edge g
    → IsGraph edge' g
ext-IsGraph edge edge' g e h x y = ((h x y).0 ∙ e x y, (h x y).1 ∙ e x y)

add_edges-IsGraph :
    (from : ℕ) (tos : List ℕ) (edge : ℕ → ℕ → Bool) (g : Graph)
    → IsGraph edge g
    → IsGraph (with_edges from tos edge) (add_edges from tos g)
add_edges-IsGraph from [] edge g h =
    ext-IsGraph edge (with_edges from [] edge) g (λ x y. nothing (edge x y) (x == from)) h
  where
    nothing : (a b : Bool) → a ≡ (a || (b && false))
    nothing true b = refl
    nothing false true = refl
    nothing false false = refl
add_edges-IsGraph from (to ∷ tos) edge g h =
    ext-IsGraph (with_edges from tos (with_edge from to edge)) (with_edges from (to ∷ tos) edge) _
      (λ x y. joined (edge x y) (x == from) (y == to) (has tos y))
      (add_edges-IsGraph from tos (with_edge from to edge) (add_edge from to g)
        (add_edge-IsGraph from to edge g h))
  where
    joined : (a b c d : Bool) → ((a || (b && c)) || (b && d)) ≡ (a || (b && (c || d)))
    joined true b c d = refl
    joined false true c d = refl
    joined false false c d = refl

-- Is there a block of this name?
abbrev pub is_block : List Block → ℕ → Bool
is_block [] x = false
is_block (b ∷ bs) x = x == b.id || is_block bs x

-- No block outside the function has an edge.
abbrev pub IsWithin : List Block → Graph → Type 0
IsWithin bs g = (x : ℕ) → is_block bs x ≡ false → (g.succ x ≡ []) × (g.pre x ≡ [])

clear-IsGraph : (bs : List Block) (g : Graph) → IsWithin bs g → IsGraph (λ x y. false) (clear bs g)
clear-IsGraph [] g h = λ x y. (ap (λ l. has l y) (h x refl).0, ap (λ l. has l x) (h y refl).1)
clear-IsGraph (b ∷ bs) g h = clear-IsGraph bs _ within
  where
    within : IsWithin bs (record { pre = put g.pre b.id []; succ = put g.succ b.id [] })
    within x f = elim (ℕ_discrete x b.id) [
      | yes e ↦ rw (e, eq→== b.id b.id refl) (refl, refl)
      | no ne ↦ rw (ne→== x b.id ne) (h x (rw (ne→== x b.id ne) f))
    ]

-- What the first terminator of a block branches to, in the block as it was.
abbrev pub branches : List Inst → List ℕ
branches [] = []
branches (i ∷ is) = let rest = branches is in if ends i then targets i else rest

-- The edges that the first terminators of the blocks name.
abbrev pub terminator_edge : List Block → ℕ → ℕ → Bool
terminator_edge [] x y = false
terminator_edge (b ∷ bs) x y = (x == b.id && has (branches b.insts) y) || terminator_edge bs x y

abbrev pub AreFilled : List Block → Type 0
AreFilled [] = Unit
AreFilled (b ∷ bs) = (b.insts ≢ []) × AreFilled bs

targets-other : (i : Inst) → ends i ≡ false → targets i ≡ []
targets-other (br d) e = cc
targets-other (cond_br d e') e = cc
targets-other ret e = cc
targets-other (other n) e = refl

last-cons : (i j : Inst) (is : List Inst) → last is ≡ some j → last (i ∷ is) ≡ some j
last-cons i j [] e = cc
last-cons i j (k ∷ is) e = e

-- The last instruction that is kept branches where the first terminator does.
last-cut :
    (is : List Inst) → is ≢ [] → (j : Inst) × (last (cut is) ≡ some j) × (targets j ≡ branches is)
unfolding cut
last-cut [] ne = absurd (ne refl)
last-cut (i ∷ []) ne = elim (Bool-cases (ends i)) [
  | inl e ↦ rw e (i, refl, refl)
  | inr e ↦ rw e (i, refl, targets-other i e)
]
last-cut (i ∷ k ∷ is) ne =
    let (j, e, t) = last-cut (k ∷ is) (λ e. cc) in
    elim (Bool-cases (ends i)) [
      | inl y ↦ rw y (i, refl, refl)
      | inr y ↦ rw y (j, last-cons i j (cut (k ∷ is)) e, t)
    ]

connect-IsGraph :
    (bs : List Block) (edge : ℕ → ℕ → Bool) (g : Graph)
    → AreFilled bs
    → IsGraph edge g
    → (h : Graph) × (connect (map cut_block bs) g ≡ some h)
      × IsGraph (λ x y. edge x y || terminator_edge bs x y) h
unfolding connect
connect-IsGraph [] edge g f k = (g, refl, ext-IsGraph edge _ g (λ x y. or_false (edge x y)) k)
  where
    or_false : (b : Bool) → b ≡ (b || false)
    or_false true = refl
    or_false false = refl
connect-IsGraph (b ∷ bs) edge g f k =
    let (j, e, t) = last-cut b.insts f.0 in
    let (h, e', k') =
      connect-IsGraph bs (with_edges b.id (targets j) edge) (add_edges b.id (targets j) g) f.1
        (add_edges-IsGraph b.id (targets j) edge g k) in
    (
      h,
      rw e e',
      ext-IsGraph _ _ h
          (λ x y.
            rw t (
              or_assoc (edge x y) (x == b.id && has (branches b.insts) y) (terminator_edge bs x y)))
          k',
    )
  where
    or_assoc : (a b c : Bool) → ((a || b) || c) ≡ (a || (b || c))
    or_assoc true b c = refl
    or_assoc false b c = refl

-- After `run` on blocks with instructions, in a graph without edges at other blocks, the lists of
-- successors and of predecessors name the same edges, those from a block to what its first
-- terminator branches to.
pub run-IsGraph :
    (bs : List Block) (g : Graph)
    → AreFilled bs
    → IsWithin bs g
    → (h : Graph) × (run bs g ≡ some (record { blocks = map cut_block bs; graph = h }))
      × IsGraph (terminator_edge bs) h
unfolding run
run-IsGraph bs g f w =
    let (h, e, k) =
      connect-IsGraph bs (λ x y. false) (clear (map cut_block bs) g) f
        (clear-IsGraph (map cut_block bs) g (within bs w)) in
    (h, rw e refl, k)
  where
    same : (bs : List Block) (x : ℕ) → is_block (map cut_block bs) x ≡ is_block bs x
    same [] x = refl
    same (b ∷ bs) x = ap (λ r. x == b.id || r) (same bs x)

    within : (bs : List Block) → IsWithin bs g → IsWithin (map cut_block bs) g
    within bs w x e = w x (sym (same bs x) ∙ e)
