-- ===== src/MulWeaken/Shift.antt =====
-- The shift, and the addition or subtraction behind it, multiply by the constant.
use poly_cminus.Prelude.{
  ℕ, zero, suc, ◌+◌, ◌-◌, ◌*◌, ◌%◌, ◌^◌, ◌<◌, ◌≡◌, ◌≢◌, refl, ap, true, false, some, [], arith,
  two-pow-pos, sym, ◌∙◌,
}
use native.Mathlib.Nat.{mul-add, mul-one}
use poly_cminus.Ir.{OpId, shl, add, sub, IntTy, i1, i32, i64, Value, ref, num_bits}
use poly_cminus.Ir.Word.{word_op, apply_op}
use poly_cminus.Ir.Word.Laws.{word_op_lem}
use poly_cminus.Ir.Exec.{Env, External, update, value_of}
use poly_cminus.Ir.Simulation.{Below, Preserves}
use poly_cminus.Ir.Simulation.Emit.{
  value_of-update_fresh, value_of-update_self, Preserves-nil, Preserves-cons,
}
use poly_cminus.MulWeaken.{Distance, exact, below, above, weakened, shl_op_c}

-- The constant at distance `d` of 2 ^ p.
abbrev pub factor : Distance → ℕ → ℕ
factor exact p = 2 ^ p
factor below p = 2 ^ p - 1
factor above p = 2 ^ p + 1

module _ (y q : ℕ) where
  add_back :
      (t : IntTy) → t ≢ i1 → (q % 2 ^ num_bits t + y) % 2 ^ num_bits t ≡ (q + y) % 2 ^ num_bits t
  add_back i1 h = absurd (h refl)
  add_back i32 h = omega arith
  add_back i64 h = omega arith

  take_back :
      (t : IntTy)
      → t ≢ i1
      → y < 2 ^ num_bits t
      → ((q + y) % 2 ^ num_bits t + 2 ^ num_bits t - y) % 2 ^ num_bits t ≡ q % 2 ^ num_bits t
  take_back i1 h l = absurd (h refl)
  take_back i32 h l = omega arith
  take_back i64 h l = omega arith

mul-below : (y p : ℕ) → y * 2 ^ p ≡ y * (2 ^ p - 1) + y
mul-below y p =
    let split : 2 ^ p ≡ (2 ^ p - 1) + 1 = omega (arith, two-pow-pos p) in
    ap (λ (k : ℕ). y * k) split
    ∙ mul-add y (2 ^ p - 1) 1
    ∙ ap (λ (k : ℕ). y * (2 ^ p - 1) + k) (mul-one y)

mul-above : (y p : ℕ) → y * (2 ^ p + 1) ≡ y * 2 ^ p + y
mul-above y p = mul-add y (2 ^ p) 1 ∙ ap (λ (k : ℕ). y * 2 ^ p + k) (mul-one y)

word_op-shl :
    (e : Env) (t : IntTy) (v : Value) (p : ℕ)
    → t ≢ i1
    → p < 31
    → value_of e v < 2 ^ num_bits t
    → word_op (num_bits t) shl (value_of e v) (value_of e (shl_op_c t p))
      ≡ some (value_of e v * 2 ^ p % 2 ^ num_bits t)
word_op-shl e i1 v p h l y = absurd (h refl)
word_op-shl e i32 v p h l y =
    let amount : value_of e (shl_op_c i32 p) ≡ p = ground arith in
    rw amount (word_op_lem 32 shl (value_of e v) p y (omega arith) ∙ ground arith)
word_op-shl e i64 v p h l y =
    let amount : value_of e (shl_op_c i64 p) ≡ p = ground arith in
    rw amount (word_op_lem 64 shl (value_of e v) p y (omega arith) ∙ ground arith)

mod-below : (t : IntTy) (z : ℕ) → z % 2 ^ num_bits t < 2 ^ num_bits t
mod-below i1 z = omega arith
mod-below i32 z = omega arith
mod-below i64 z = omega arith

mod-small : (t : IntTy) (z : ℕ) → z < 2 ^ num_bits t → z % 2 ^ num_bits t ≡ z
mod-small i1 z h = omega arith
mod-small i32 z h = omega arith
mod-small i64 z h = omega arith

module _ {W : Type 0} (ext : External W) (next : ℕ) (t : IntTy) (v : Value) (e : Env) (x : ℕ)
    (wide : t ≢ i1) (below_v : Below next v) (word : value_of e v < 2 ^ num_bits t) where
  abbrev shifted : ℕ → ℕ
  shifted p = value_of e v * 2 ^ p % 2 ^ num_bits t

  second :
      (op : OpId) (p z : ℕ)
      → apply_op (num_bits t) op (shifted p) (value_of e v) ≡ some z
      → word_op
          (num_bits t)
          op
          (value_of (update e next (shifted p)) (ref next))
          (value_of (update e next (shifted p)) v)
        ≡ some z
  second op p z h =
      rw
        (
          value_of-update_self e next (shifted p),
          value_of-update_fresh e next (shifted p) v below_v,
        )
        (word_op_lem (num_bits t) op (shifted p) (value_of e v) (mod-below t (value_of e v * 2 ^ p))
            word
          ∙ h)

  pub weakened-Preserves :
      (distance : Distance) (p : ℕ)
      → p < 31
      → (p ≡ 0 → distance ≡ exact)
      → value_of e v * factor distance p % 2 ^ num_bits t ≡ x
      → Preserves ext next e x (weakened next t v distance p)
  unfolding weakened
  weakened-Preserves distance zero l at_zero h = Preserves-nil ext x v true false next e (
      let y = value_of e v in
      sym (mod-small t y word)
      ∙ ap (λ (k : ℕ). k % 2 ^ num_bits t) (sym (mul-one y))
      ∙ ap (λ (d : Distance). y * factor d 0 % 2 ^ num_bits t) (sym (at_zero refl))
      ∙ h)
  weakened-Preserves exact (suc p) l at_zero h =
      Preserves-cons ext x (ref next) true false next (next + 1) next shl t v (shl_op_c t (suc p))
        [] e (shifted (suc p)) (omega arith) (omega arith) (word_op-shl e t v (suc p) wide l word)
        (Preserves-nil ext x (ref next) true false (next + 1) (update e next (shifted (suc p)))
          (value_of-update_self e next (shifted (suc p)) ∙ h))
  weakened-Preserves above (suc p) l at_zero h =
      Preserves-cons ext x (ref (next + 1)) true false next (next + 1) next shl t v
        (shl_op_c t (suc p)) _ e (shifted (suc p)) (omega arith) (omega arith)
        (word_op-shl e t v (suc p) wide l word)
        (Preserves-cons ext x (ref (next + 1)) true false (next + 1) (next + 2) (next + 1) add t
          (ref next) v [] (update e next (shifted (suc p))) x (omega arith) (omega arith)
          (second add (suc p) x (
            let y = value_of e v in
            ap some (
              add_back y (y * 2 ^ suc p) t wide
              ∙ ap (λ (k : ℕ). k % 2 ^ num_bits t) (sym (mul-above y (suc p)))
              ∙ h)))
          (Preserves-nil ext x (ref (next + 1)) true false (next + 2) _
            (value_of-update_self (update e next (shifted (suc p))) (next + 1) x)))
  weakened-Preserves below (suc p) l at_zero h =
      Preserves-cons ext x (ref (next + 1)) true false next (next + 1) next shl t v
        (shl_op_c t (suc p)) _ e (shifted (suc p)) (omega arith) (omega arith)
        (word_op-shl e t v (suc p) wide l word)
        (Preserves-cons ext x (ref (next + 1)) true false (next + 1) (next + 2) (next + 1) sub t
          (ref next) v [] (update e next (shifted (suc p))) x (omega arith) (omega arith)
          (second sub (suc p) x (
            let y = value_of e v in
            ap some (
              ap (λ (k : ℕ). (k % 2 ^ num_bits t + 2 ^ num_bits t - y) % 2 ^ num_bits t)
                (mul-below y (suc p))
              ∙ take_back y (y * (2 ^ suc p - 1)) t wide word
              ∙ h)))
          (Preserves-nil ext x (ref (next + 1)) true false (next + 2) _
            (value_of-update_self (update e next (shifted (suc p))) (next + 1) x)))
