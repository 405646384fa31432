-- ===== src/Uses/Consistent.antt =====
-- Use lists and operands tell the same, and the operations keep it so.
pub mod Replace
pub mod Remove
use poly_cminus.Prelude.{
  ℕ, zero, suc, ◌+◌, ◌≤◌, ◌<◌, ◌≡◌, ◌≢◌, refl, sym, ap, ◌∙◌, ◌==◌, ◌&&◌, ◌||◌, ltb, length, Bool,
  true, false, Bool-cases, inl, inr, not, if◌then◌else◌, Option, none, some, ◌>>=◌, ==→eq, eq→==,
  ne→==, List, [], ◌∷◌, ◌++◌, arith,
}
use native.Mathlib.Decide.{ℕ_discrete}
use poly_cminus.Uses.{
  Use, Store, put, operand_at, set_at, get_operand, add_use, set_operand, add_operand,
}

abbrev pub has_use : List Use → ℕ → ℕ → Bool
has_use [] u i = false
has_use (entry ∷ uses) u i = (u == entry.user && i == entry.arg_no) || has_use uses u i

abbrev pub is_value : Option ℕ → ℕ → Bool
is_value none v = false
is_value (some w) v = v == w

-- A value's use list names exactly the operands that are the value.
abbrev pub IsConsistent : Store → Type 0
IsConsistent s = (v u i : ℕ) → has_use (s.use_list v) u i ≡ is_value (get_operand s u i) v

pub has_use-append :
    (xs ys : List Use) (u i : ℕ) → has_use (xs ++ ys) u i ≡ (has_use xs u i || has_use ys u i)
has_use-append [] ys u i = refl
has_use-append (x ∷ xs) ys u i =
    rw (has_use-append xs ys u i)
      (or_assoc (u == x.user && i == x.arg_no) (has_use xs u i) (has_use ys u i))
  where
    or_assoc : (a b c : Bool) → (a || (b || c)) ≡ ((a || b) || c)
    or_assoc true b c = refl
    or_assoc false b c = refl

operand_at-append :
    (os : List (Option ℕ)) (o : Option ℕ) (i : ℕ)
    → operand_at (os ++ o ∷ []) i ≡ (if i == length os then o else operand_at os i)
operand_at-append [] o zero = refl
operand_at-append [] o (suc i) = ground arith
operand_at-append (x ∷ os) o zero = ground arith
operand_at-append (x ∷ os) o (suc i) =
    let shift : (suc i == suc (length os)) ≡ (i == length os) = ground arith in
    rw shift (operand_at-append os o i)

pub operand_at-beyond : (os : List (Option ℕ)) (i : ℕ) → length os ≤ i → operand_at os i ≡ none
operand_at-beyond [] i h = refl
operand_at-beyond (o ∷ os) zero h = absurd (omega arith)
operand_at-beyond (o ∷ os) (suc i) h = operand_at-beyond os i (omega arith)

pub or_true : (b : Bool) → (b || true) ≡ true
or_true true = refl
or_true false = refl

pub or_false : (b : Bool) → (b || false) ≡ b
or_false true = refl
or_false false = refl

pub same_number : (n : ℕ) → (n == n) ≡ true
same_number n = eq→== n n refl

-- A new operand and its use are added together: consistency is kept.
pub add_operand-IsConsistent :
    (u v : ℕ) (s : Store) → IsConsistent s → IsConsistent (add_operand u v s)
unfolding add_operand
add_operand-IsConsistent u v s h w x i =
    let n = length (s.operands u) in
    elim (Bool-cases (i == n)) [
      | inl here ↦
          let null : operand_at (s.operands u) i ≡ none =
            operand_at-beyond (s.operands u) i (omega (arith, ==→eq i n here)) in
          elim (ℕ_discrete x u) [
            | yes same_user ↦ elim (ℕ_discrete w v) [
              | yes same_val ↦
                  rw
                    (
                      same_val,
                      same_user,
                      same_number v,
                      same_number u,
                      has_use-append,
                      operand_at-append,
                      here,
                    )
                    (at_user u v true ∙ or_true (has_use (s.use_list v) u i) ∙ sym (same_number v))
              | no other ↦
                  let f : (w == v) ≡ false = ne→== w v other in
                  rw (same_user, f, same_number u, operand_at-append, here)
                    (h w u i ∙ ap (λ (o : Option ℕ). is_value o w) null ∙ sym f)
            ]
            | no differs ↦ elsewhere differs
          ]
      | inr there ↦ elim (ℕ_discrete x u) [
        | yes same_user ↦ elim (ℕ_discrete w v) [
          | yes same_val ↦
              rw
                (
                  same_val,
                  same_user,
                  same_number v,
                  same_number u,
                  has_use-append,
                  operand_at-append,
                  there,
                )
                (at_user u v false ∙ or_false (has_use (s.use_list v) u i) ∙ h v u i)
          | no other ↦
              let f : (w == v) ≡ false = ne→== w v other in
              rw (same_user, f, same_number u, operand_at-append, there) (h w u i)
        ]
        | no differs ↦ elsewhere differs
      ]
    ]
  where
    at_user :
        (u v : ℕ) (b : Bool)
        → (has_use (s.use_list v) u i || (u == u && b || false)) ≡ (has_use (s.use_list v) u i || b)
    at_user u v b =
        ap (λ (c : Bool). has_use (s.use_list v) u i || (c && b || false)) (same_number u)
        ∙ ap (λ (c : Bool). has_use (s.use_list v) u i || c) (or_false b)

    elsewhere :
        x ≢ u
        → has_use ((add_operand u v s).use_list w) x i
          ≡ is_value (operand_at ((add_operand u v s).operands x) i) w
    elsewhere differs =
        let g : (x == u) ≡ false = ne→== x u differs in
        elim (ℕ_discrete w v) [
          | yes same_val ↦
              rw (same_val, same_number v, has_use-append, g)
                (or_false (has_use (s.use_list v) x i) ∙ h v x i)
          | no other ↦ let f : (w == v) ≡ false = ne→== w v other in rw (f, g) (h w x i)
        ]
