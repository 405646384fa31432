-- ===== src/Ir/Simulation/Operands.antt =====
-- Operands under the replacements made so far.
use poly_cminus.Prelude.{ℕ, ◌≤◌, ◌<◌, ◌≡◌, refl, sym, inl, inr, List, [], ◌∷◌, map, All, arith}
use poly_cminus.Ir.{Value, const_int, ref, Replacements, replaced}
use poly_cminus.Ir.Exec.{Env, update, value_of}
use poly_cminus.Ir.Simulation.{
  Below, Origin, Agree, InRange, IsSettled, constant, left, right, fresh,
}

pub replaced-const_int :
    (rs : Replacements) (t : _) (c : ℕ) → replaced rs (const_int t c) ≡ const_int t c
replaced-const_int [] t c = refl
replaced-const_int (r ∷ rs) t c = rw (replaced-const_int rs t c)

module _ (n : ℕ) (rs : Replacements) (e e' : Env) (agree : Agree n rs e e') where
  pub value_of-replaced : (u : Value) → Below n u → value_of e' (replaced rs u) ≡ value_of e u
  value_of-replaced (const_int t c) h = rw (replaced-const_int rs t c)
  value_of-replaced (ref x) h = sym (agree x h)

  pub map-value_of-replaced :
      (us : List Value)
      → All (Below n) us
      → map (value_of e') (map (replaced rs) us) ≡ map (value_of e) us
  map-value_of-replaced [] h = refl
  map-value_of-replaced (u ∷ us) h = rw (value_of-replaced u h.0, map-value_of-replaced us h.1)

pub Below-mono : (m n : ℕ) (u : Value) → m ≤ n → Below m u → Below n u
Below-mono m n (const_int t c) h b = tt
Below-mono m n (ref x) h b = omega arith

pub All-Below-mono : (m n : ℕ) (us : List Value) → m ≤ n → All (Below m) us → All (Below n) us
All-Below-mono m n [] h b = tt
All-Below-mono m n (u ∷ us) h b = (Below-mono m n u h b.0, All-Below-mono m n us h b.1)

pub InRange-mono :
    (n k next k' next' : ℕ) (u : Value)
    → k ≤ k'
    → next ≤ next'
    → InRange n k next u
    → InRange n k' next' u
InRange-mono n k next k' next' (const_int t c) p q r = tt
InRange-mono n k next k' next' (ref y) p q (inl r) = inl (omega arith)
InRange-mono n k next k' next' (ref y) p q (inr r) = inr (omega arith)

pub InRange-Below : (n k next m : ℕ) (u : Value) → k ≤ m → next ≤ m → InRange n k next u → Below m u
InRange-Below n k next m (const_int t c) p q r = tt
InRange-Below n k next m (ref y) p q (inl r) = omega arith
InRange-Below n k next m (ref y) p q (inr r) = omega arith

-- An update at an identity that is neither in use nor new does not show.
pub value_of-update :
    (n k next d x : ℕ) (e : Env) (u : Value)
    → k ≤ d
    → d < n
    → InRange n k next u
    → value_of (update e d x) u ≡ value_of e u
value_of-update n k next d x e (const_int t c) p q r = refl
value_of-update n k next d x e (ref y) p q (inl r) = ground arith
value_of-update n k next d x e (ref y) p q (inr r) = ground arith

pub value_of-ext :
    (m : ℕ) (e e' : Env) (u : Value)
    → ((y : ℕ) → y < m → e' y ≡ e y)
    → Below m u
    → value_of e' u ≡ value_of e u
value_of-ext m e e' (const_int t c) h b = refl
value_of-ext m e e' (ref y) h b = h y b

-- An operand older than `d` is, after the replacements, older than `d` or new.
pub replaced-InRange :
    (V : Value → Type 0) (n k next d : ℕ) (rs : Replacements) (u : Value)
    → IsSettled V n k next rs
    → k ≤ d
    → d < n
    → Below d u
    → InRange n d next (replaced rs u)
replaced-InRange V n k next d rs (const_int t c) s p q b = rw (replaced-const_int rs t c) tt
replaced-InRange V n k next d rs (ref x) s p q b = elim ((s x (omega arith)).1) [
  | inl same ↦ rw same (inl b)
  | inr (xk, r) ↦ InRange-mono n k next d next (replaced rs (ref x)) p (omega arith) r
]

pub replaced-V :
    (V : Value → Type 0) (n k next : ℕ) (rs : Replacements) (u : Value)
    → IsSettled V n k next rs
    → Below n u
    → V u
    → V (replaced rs u)
replaced-V V n k next rs (const_int t c) s b v = rw (replaced-const_int rs t c) v
replaced-V V n k next rs (ref x) s b v = (s x b).0

-- The replacement of an instruction is older than the instruction, or new.
pub Origin-InRange :
    (n d next next' : ℕ) (a b v : Value)
    → n ≤ next
    → next ≤ next'
    → InRange n d next a
    → InRange n d next b
    → Origin next next' a b v
    → InRange n d next' v
Origin-InRange n d next next' a b v g p ra rb (constant t c e) = rw e tt
Origin-InRange n d next next' a b v g p ra rb (left e) =
    rw e (InRange-mono n d next d next' a (omega arith) p ra)
Origin-InRange n d next next' a b v g p ra rb (right e) =
    rw e (InRange-mono n d next d next' b (omega arith) p rb)
Origin-InRange n d next next' a b v g p ra rb (fresh y l h e) = rw e (inr (omega arith))
