-- ===== src/ParallelMov/Once.antt =====
-- Lists of moves in which no move is twice.
use mathlib.Core.List.{Memᴰ}
use poly_cminus.Prelude.{
  ℕ, ◌==◌, ◌&&◌, length, true, Bool-cases, List, [], ◌∷◌, ◌++◌, ◌≡◌, refl, inl, inr, ==→eq,
  Memᴰ-append, arith,
}
use poly_cminus.IrCheck.Lists.{&&-both}
use poly_cminus.ParallelMov.{Edge, edges_of, has_move, set_of_moves}
use poly_cminus.ParallelMov.Moves.{edges_of-Memᴰ}

abbrev pub NoRepeat : List Edge → Type 0
NoRepeat [] = Unit
NoRepeat (e ∷ es) = (¬ (Memᴰ e es)) × NoRepeat es

pub NoRepeat-append :
    (xs ys : List Edge)
    → NoRepeat xs
    → NoRepeat ys
    → ((e : Edge) → Memᴰ e xs → ¬ (Memᴰ e ys))
    → NoRepeat (xs ++ ys)
NoRepeat-append [] ys a b apart = b
NoRepeat-append (x ∷ xs) ys (new, a) b apart = (
  λ m. elim (Memᴰ-append xs m) [ inl m' ↦ new m' | inr m' ↦ apart x (Memᴰ.head refl) m' ],
  NoRepeat-append xs ys a b (λ e m. apart e (Memᴰ.tail m)),
)

pub edges_of-NoRepeat : (n : ℕ) (es : List Edge) → NoRepeat es → NoRepeat (edges_of n es)
edges_of-NoRepeat n [] a = tt
edges_of-NoRepeat n (e ∷ es) (new, a) = elim (Bool-cases (e.from == n)) [
  | inl p ↦ rw p ((λ m. new (edges_of-Memᴰ n es m).0), edges_of-NoRepeat n es a)
  | inr p ↦ rw p (edges_of-NoRepeat n es a)
]

edge_eq : (e f : Edge) → e.from ≡ f.from → e.to ≡ f.to → e ≡ f
edge_eq e f a b = cc

has_move-Memᴰ : (es : List Edge) (e : Edge) → has_move es e ≡ true → Memᴰ e es
has_move-Memᴰ [] e h = cc
has_move-Memᴰ (f ∷ es) e h = elim (Bool-cases (e.from == f.from && e.to == f.to)) [
  | inl p ↦
      let (a, b) = &&-both (e.from == f.from) (e.to == f.to) p in
      Memᴰ.head (edge_eq e f (==→eq e.from f.from a) (==→eq e.to f.to b))
  | inr p ↦ Memᴰ.tail (has_move-Memᴰ es e (rw p at h))
]

-- The set made of them has their number.
pub set_of_moves-length : (es : List Edge) → NoRepeat es → length (set_of_moves es) ≡ length es
set_of_moves-length [] a = refl
set_of_moves-length (e ∷ es) (new, a) = elim (Bool-cases (has_move es e)) [
  | inl p ↦ absurd (new (has_move-Memᴰ es e p))
  | inr p ↦ rw p (omega (arith, set_of_moves-length es a))
]
