-- ===== src/Ir/Simulation/Steps.antt =====
-- How one instruction moves the relation between the two executions.
use poly_cminus.Prelude.{
  ℕ, suc, ◌≤◌, ◌<◌, ◌≡◌, ◌≢◌, refl, sym, ◌∙◌, inl, inr, ◌==◌, Bool-cases, none, some, ◌>>=◌, List,
  [], ◌∷◌, ◌++◌, arith,
}
use poly_cminus.Ir.{Value, Inst, const_int, ref, Replacements, replaced, replace}
use poly_cminus.Ir.Exec.{Env, External, update, value_of, exec, exec_inst}
use poly_cminus.Ir.Simulation.{Agree, InRange, IsSettled}
use poly_cminus.Ir.Simulation.Operands.{InRange-mono}

-- `e''` differs from `e'` at `d` and from `next` on only.
abbrev pub Frame : ℕ → ℕ → Env → Env → Type 0
Frame next d e' e'' = (y : ℕ) → y < next → y ≢ d → e'' y ≡ e' y

pub exec-append :
    {W : Type 0} (ext : External W) (is js : List Inst) (e : Env) (w : W)
    → exec ext (is ++ js) e w ≡ (exec ext is e w >>= λ r. exec ext js r.0 r.1)
unfolding exec
exec-append ext [] js e w = refl
exec-append ext (i ∷ is) js e w =
    elim (exec_inst ext i e w)
      as (λ o.
        (o >>= λ r. exec ext (is ++ js) r.0 r.1)
        ≡ ((o >>= λ r. exec ext is r.0 r.1) >>= λ r. exec ext js r.0 r.1)) [
          | none ↦ refl
          | some r ↦ exec-append ext is js r.0 r.1
        ]

replace-other : (d x : ℕ) (v : Value) → x ≢ d → replace d v (ref x) ≡ ref x
replace-other d x v h = ground arith

replace_self : (d : ℕ) (v : Value) → replace d v (ref d) ≡ v
replace_self d v = ground arith

replace-InRange :
    (n k next d : ℕ) (v u : Value) → k ≤ d → d < n → InRange n k next u → replace d v u ≡ u
replace-InRange n k next d v (const_int t c) p q r = refl
replace-InRange n k next d v (ref y) p q (inl r) = replace-other d y v (omega arith)
replace-InRange n k next d v (ref y) p q (inr r) = replace-other d y v (omega arith)

value_of-Frame :
    (n k next d : ℕ) (e' e'' : Env) (u : Value)
    → n ≤ next
    → k ≤ d
    → d < n
    → Frame next d e' e''
    → InRange n k next u
    → value_of e'' u ≡ value_of e' u
value_of-Frame n k next d e' e'' (const_int t c) g p q f r = refl
value_of-Frame n k next d e' e'' (ref y) g p q f (inl r) = f y (omega arith) (omega arith)
value_of-Frame n k next d e' e'' (ref y) g p q f (inr r) = f y (omega arith) (omega arith)

module _ (V : Value → Type 0) (n k next d : ℕ) (rs : Replacements)
    (settled : IsSettled V n k next rs) (kd : k ≤ d) (dn : d < n) where
  replaced_self : replaced rs (ref d) ≡ ref d
  replaced_self = elim ((settled d dn).1) [ inl same ↦ same | inr h ↦ absurd (omega arith) ]

  pub IsSettled-plain : IsSettled V n (suc d) next rs
  IsSettled-plain x h = (
    (settled x h).0,
    elim ((settled x h).1) [
      | inl same ↦ inl same
      | inr (xk, r) ↦ inr (
        omega arith,
        InRange-mono n k next (suc d) next (replaced rs (ref x)) (omega arith) (omega arith) r,
      )
    ],
  )

  pub IsSettled-replaced :
      (next' : ℕ) (v : Value)
      → next ≤ next'
      → V v
      → InRange n d next' v
      → IsSettled V n (suc d) next' (record { old = d; new = v } ∷ rs)
  IsSettled-replaced next' v g good r x h = elim (Bool-cases (x == d)) [
    | inl same ↦
        let e : x ≡ d = ground arith in
        let new : replaced (record { old = d; new = v } ∷ rs) (ref x) ≡ v =
          rw (e, replaced_self) (replace_self d v) in
        rw new (
          good,
          inr (omega arith, InRange-mono n d next' (suc d) next' v (omega arith) (omega arith) r),
        )
    | inr differs ↦ elim ((settled x h).1) [
      | inl same ↦
          let old : replaced (record { old = d; new = v } ∷ rs) (ref x) ≡ ref x =
            rw same (replace-other d x v (ground arith)) in
          rw old (rw same at (settled x h).0, inl refl)
      | inr (xk, r') ↦
          let old : replaced (record { old = d; new = v } ∷ rs) (ref x) ≡ replaced rs (ref x) =
            replace-InRange n k next d v (replaced rs (ref x)) kd dn r' in
          rw old (
            (settled x h).0,
            inr (
              omega arith,
              InRange-mono n k next (suc d) next' (replaced rs (ref x)) (omega arith) g r',
            ),
          )
    ]
  ]

  module _ (e e' : Env) (agree : Agree n rs e e') (x : ℕ) (g : n ≤ next) where
    Frame-replaced :
        (e'' : Env) (y : ℕ)
        → Frame next d e' e''
        → y < n
        → y ≢ d
        → e y ≡ value_of e'' (replaced rs (ref y))
    Frame-replaced e'' y f h ne = elim ((settled y h).1) [
      | inl same ↦ rw same (agree y h ∙ rw same (sym (f y (omega arith) ne)))
      | inr (yk, r) ↦
          agree y h ∙ sym (value_of-Frame n k next d e' e'' (replaced rs (ref y)) g kd dn f r)
    ]

    pub Agree-plain : (e'' : Env) → Frame next d e' e'' → e'' d ≡ x → Agree n rs (update e d x) e''
    Agree-plain e'' f value y h = elim (Bool-cases (y == d)) [
      | inl same ↦ let p : y ≡ d = ground arith in rw (p, replaced_self) (ground arith)
      | inr differs ↦ rw differs (Frame-replaced e'' y f h (ground arith))
    ]

    pub Agree-replaced :
        (e'' : Env) (v : Value)
        → Frame next d e' e''
        → value_of e'' v ≡ x
        → Agree n (record { old = d; new = v } ∷ rs) (update e d x) e''
    Agree-replaced e'' v f value y h = elim (Bool-cases (y == d)) [
      | inl same ↦
          let p : y ≡ d = ground arith in
          rw (p, replaced_self, replace_self d v, value) (ground arith)
      | inr differs ↦ elim ((settled y h).1) [
        | inl t ↦
            rw (differs, t, replace-other d y v (ground arith))
              (rw t at (Frame-replaced e'' y f h (ground arith)))
        | inr (yk, r) ↦
            rw (differs, replace-InRange n k next d v (replaced rs (ref y)) kd dn r)
              (Frame-replaced e'' y f h (ground arith))
      ]
    ]
