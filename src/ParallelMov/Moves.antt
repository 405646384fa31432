-- ===== src/ParallelMov/Moves.antt =====
-- What a row of moves does to the registers.
use mathlib.Core.List.{Memᴰ}
use mathlib.Core.List.Memᴰ
use poly_cminus.Prelude.{
  ℕ, ◌==◌, Bool-cases, List, [], ◌∷◌, ◌++◌, ◌≡◌, ◌≢◌, refl, sym, ap, ◌∙◌, inl, inr, ==→eq, eq→==,
  ne→==,
}
use poly_cminus.Uses.{put}
use poly_cminus.ParallelMov.{Edge, edges_of, run_moves}

pub put-same : {V : Type 0} (r : ℕ → V) (x y : ℕ) (v : V) → y ≡ x → put r x v y ≡ v
put-same r x y v e = rw (eq→== y x e) refl

pub put-other : {V : Type 0} (r : ℕ → V) (x y : ℕ) (v : V) → x ≢ y → put r x v y ≡ r y
put-other r x y v ne = rw (ne→== y x (λ e. ne (sym e))) refl

pub run_moves-append :
    {V : Type 0} (xs ys : List Edge) (r : ℕ → V)
    → run_moves (xs ++ ys) r ≡ run_moves ys (run_moves xs r)
run_moves-append [] ys r = refl
run_moves-append (e ∷ xs) ys r = run_moves-append xs ys (put r e.to (r e.from))

-- A register that no move goes to keeps its value.
pub run_moves-other :
    {V : Type 0} (es : List Edge) (r : ℕ → V) (x : ℕ)
    → ((e : Edge) → Memᴰ e es → e.to ≢ x)
    → run_moves es r x ≡ r x
run_moves-other [] r x h = refl
run_moves-other (e ∷ es) r x h =
    run_moves-other es (put r e.to (r e.from)) x (λ e' m. h e' (Memᴰ.tail m))
    ∙ put-other r e.to x (r e.from) (h e (Memᴰ.head refl))

-- Moves that all come from one register, and do not go to it.
abbrev pub AllFrom : ℕ → List Edge → Type 0
AllFrom n es = (e : Edge) → Memᴰ e es → (e.from ≡ n) × (e.to ≢ n)

module _ {V : Type 0} (n : ℕ) where
  source-kept :
      (e : Edge) (es : List Edge) (r : ℕ → V) → AllFrom n (e ∷ es) → put r e.to (r e.from) n ≡ r n
  source-kept e es r all = put-other r e.to n (r e.from) (all e (Memᴰ.head refl)).1

  moved-stays :
      (es : List Edge) (r : ℕ → V) (x : ℕ) → AllFrom n es → r x ≡ r n → run_moves es r x ≡ r n
  moved-stays [] r x all e = e
  moved-stays (m ∷ es) r x all e =
      let kept = source-kept m es r all in
      let at_x : put r m.to (r m.from) x ≡ put r m.to (r m.from) n = elim (Bool-cases (x == m.to)) [
        | inl p ↦
            put-same r m.to x (r m.from) (==→eq x m.to p)
            ∙ ap r (all m (Memᴰ.head refl)).0
            ∙ sym kept
        | inr p ↦ rw p (e ∙ sym kept)
      ] in
      moved-stays es (put r m.to (r m.from)) x (λ e' n'. all e' (Memᴰ.tail n')) at_x ∙ kept

  -- They put the value of the register into each register that they go to.
  pub run_moves-from :
      (es : List Edge) (r : ℕ → V) {e : Edge} → AllFrom n es → Memᴰ e es → run_moves es r e.to ≡ r n
  run_moves-from [] r all m = absurd (Memᴰ.not-nil m)
  run_moves-from (f ∷ es) r {e} all m =
      let kept = source-kept f es r all in
      let rest = λ (e' : Edge) (n' : Memᴰ e' es). all e' (Memᴰ.tail n') in
      elim (Memᴰ.cases_cons m) [
        | inl first ↦
            moved-stays es (put r f.to (r f.from)) e.to rest (
              put-same r f.to e.to (r f.from) (ap (λ (e : Edge). e.to) first)
              ∙ ap r (all f (Memᴰ.head refl)).0
              ∙ sym kept)
            ∙ kept
        | inr later ↦ run_moves-from es (put r f.to (r f.from)) rest later ∙ kept
      ]

pub edges_of-Memᴰ :
    (n : ℕ) (es : List Edge) {e : Edge} → Memᴰ e (edges_of n es) → Memᴰ e es × (e.from ≡ n)
edges_of-Memᴰ n [] m = absurd (Memᴰ.not-nil m)
edges_of-Memᴰ n (f ∷ es) m = elim (Bool-cases (f.from == n)) [
  | inl p ↦ elim (Memᴰ.cases_cons (rw p at m)) [
    | inl first ↦ (Memᴰ.head first, ap (λ (e : Edge). e.from) first ∙ ==→eq f.from n p)
    | inr later ↦ let (n', e) = edges_of-Memᴰ n es later in (Memᴰ.tail n', e)
  ]
  | inr p ↦ let (n', e) = edges_of-Memᴰ n es (rw p at m) in (Memᴰ.tail n', e)
]

pub Memᴰ-edges_of :
    (n : ℕ) (es : List Edge) {e : Edge} → Memᴰ e es → e.from ≡ n → Memᴰ e (edges_of n es)
Memᴰ-edges_of n [] m h = absurd (Memᴰ.not-nil m)
Memᴰ-edges_of n (f ∷ es) {e} m h = elim (Bool-cases (f.from == n)) [
  | inl p ↦ rw p (elim (Memᴰ.cases_cons m) [
    | inl first ↦ Memᴰ.head first
    | inr later ↦ Memᴰ.tail (Memᴰ-edges_of n es later h)
  ])
  | inr p ↦ rw p (elim (Memᴰ.cases_cons m) [
    | inl first ↦ cc (eq→== f.from n (sym (ap (λ (e : Edge). e.from) first) ∙ h), p)
    | inr later ↦ Memᴰ-edges_of n es later h
  ])
]
