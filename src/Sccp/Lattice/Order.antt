-- ===== src/Sccp/Lattice/Order.antt =====
-- The order of the lattice, and `mergein` as its least upper bound.
use poly_cminus.Prelude.{
  ℕ, true, false, ◌==◌, Option, none, some, ◌≡◌, ◌≢◌, refl, sym, ap, ◌∙◌, ◌<◌, inl, inr, Bool-cases,
  arith, ==→eq, eq→==,
}
use poly_cminus.Ir.{IntTy, i1, i32, i64}
use poly_cminus.Sccp.Lattice.{
  Constant, int_const, fp_const, same_type, same_constant, LatticeType, unknown, constant,
  overdefined, Lattice, same_val, mergein,
}

-- Unknown below the constants, and these below overdefined.
infix 50 ◌⊑◌
pub data ◌⊑◌ (a b : Lattice) : Type 0 where
  bottom : a.tag ≡ unknown → a ⊑ b
  top : b.tag ≡ overdefined → a ⊑ b
  same : a.tag ≡ b.tag → a.val ≡ b.val → a ⊑ b

pub ⊑-refl : (a : Lattice) → a ⊑ a
⊑-refl a = same refl refl

pub ⊑-trans : (a b c : Lattice) → a ⊑ b → b ⊑ c → a ⊑ c
⊑-trans a b c (bottom p) q = bottom p
⊑-trans a b c (top p) (bottom q) = absurd cc
⊑-trans a b c (top p) (top q) = top q
⊑-trans a b c (top p) (same q r) = top (sym q ∙ p)
⊑-trans a b c (same p r) (bottom q) = bottom (p ∙ q)
⊑-trans a b c (same p r) (top q) = top q
⊑-trans a b c (same p r) (same q t) = same (p ∙ q) (r ∙ t)

same_type-eq : (t u : IntTy) → same_type t u ≡ true → t ≡ u
same_type-eq i1 i1 h = refl
same_type-eq i32 i32 h = refl
same_type-eq i64 i64 h = refl
same_type-eq i1 i32 h = cc
same_type-eq i1 i64 h = cc
same_type-eq i32 i1 h = cc
same_type-eq i32 i64 h = cc
same_type-eq i64 i1 h = cc
same_type-eq i64 i32 h = cc

same_type_refl : (t : IntTy) → same_type t t ≡ true
same_type_refl i1 = refl
same_type_refl i32 = refl
same_type_refl i64 = refl

same_constant-eq : (c d : Constant) → same_constant c d ≡ true → c ≡ d
same_constant-eq (int_const t c) (int_const u d) h = elim (Bool-cases (same_type t u)) [
  | inl p ↦ let e : (c == d) ≡ true = rw p at h in rw (same_type-eq t u p, ==→eq c d e)
  | inr p ↦ let f : false ≡ true = rw p at h in cc
]
same_constant-eq (fp_const c) (fp_const d) h = ap fp_const (==→eq c d h)
same_constant-eq (int_const t c) (fp_const d) h = cc
same_constant-eq (fp_const c) (int_const t d) h = cc

same_constant_refl : (c : Constant) → same_constant c c ≡ true
same_constant_refl (int_const t c) = rw (same_type_refl t) (eq→== c c refl)
same_constant_refl (fp_const c) = eq→== c c refl

pub same_val-eq : (u v : Option Constant) → same_val u v ≡ true → u ≡ v
same_val-eq none none h = refl
same_val-eq (some c) (some d) h = ap some (same_constant-eq c d h)
same_val-eq none (some d) h = cc
same_val-eq (some c) none h = cc

same_val_refl : (u : Option Constant) → same_val u u ≡ true
same_val_refl none = refl
same_val_refl (some c) = same_constant_refl c

-- Merging is an upper bound.
mergein-upper :
    (s t : LatticeType) (u v : Option Constant)
    → let a : Lattice = record { tag = s; val = u } in
      let b : Lattice = record { tag = t; val = v } in
      (a ⊑ (mergein a b).now) × (b ⊑ (mergein a b).now)
unfolding mergein
mergein-upper unknown unknown u v = (bottom refl, bottom refl)
mergein-upper unknown constant u v = (bottom refl, same refl refl)
mergein-upper unknown overdefined u v = (bottom refl, top refl)
mergein-upper constant unknown u v = (same refl refl, bottom refl)
mergein-upper constant constant u v = elim (Bool-cases (same_val u v)) [
  | inl p ↦ rw p (same refl refl, same refl (sym (same_val-eq u v p)))
  | inr p ↦ rw p (top refl, top refl)
]
mergein-upper constant overdefined u v = (top refl, top refl)
mergein-upper overdefined unknown u v = (same refl refl, bottom refl)
mergein-upper overdefined constant u v = (same refl refl, top refl)
mergein-upper overdefined overdefined u v = (same refl refl, top refl)

-- And it is below every other upper bound.
mergein-least :
    (s t : LatticeType) (u v : Option Constant) (c : Lattice)
    → let a : Lattice = record { tag = s; val = u } in
      let b : Lattice = record { tag = t; val = v } in a ⊑ c → b ⊑ c → (mergein a b).now ⊑ c
unfolding mergein
mergein-least unknown unknown u v c p q = p
mergein-least unknown constant u v c p q = q
mergein-least unknown overdefined u v c p q = above q
  where
    above : record { tag = overdefined; val = v } ⊑ c → record { tag = overdefined; val = u } ⊑ c
    above (bottom e) = absurd cc
    above (top e) = top e
    above (same e f) = top (sym e)
mergein-least constant unknown u v c p q = p
mergein-least constant constant u v c p q = elim (Bool-cases (same_val u v)) [
  | inl e ↦ rw e p
  | inr e ↦ rw e (different p q (apart e))
]
  where
    apart : same_val u v ≡ false → u ≢ v
    apart e f =
        let g : same_val u u ≡ false = rw (sym f) at e in
        let h : true ≡ false = sym (same_val_refl u) ∙ g in cc

    different :
        record { tag = constant; val = u } ⊑ c
        → record { tag = constant; val = v } ⊑ c
        → u ≢ v
        → record { tag = overdefined; val = u } ⊑ c
    different (bottom e) q ne = absurd cc
    different (top e) q ne = top e
    different (same e f) (bottom g) ne = absurd cc
    different (same e f) (top g) ne = top g
    different (same e f) (same g h) ne = absurd (ne (f ∙ sym h))
mergein-least constant overdefined u v c p q = above q
  where
    above : record { tag = overdefined; val = v } ⊑ c → record { tag = overdefined; val = u } ⊑ c
    above (bottom e) = absurd cc
    above (top e) = top e
    above (same e f) = top (sym e)
mergein-least overdefined unknown u v c p q = p
mergein-least overdefined constant u v c p q = p
mergein-least overdefined overdefined u v c p q = p

-- `mergein` leaves the least upper bound of the element and its argument.
pub mergein-join :
    (a b : Lattice)
    → (a ⊑ (mergein a b).now)
      × (b ⊑ (mergein a b).now)
      × ((c : Lattice) → a ⊑ c → b ⊑ c → (mergein a b).now ⊑ c)
mergein-join a b =
    let (p, q) = mergein-upper (a.tag) (b.tag) (a.val) (b.val) in
    (p, q, λ c. mergein-least (a.tag) (b.tag) (a.val) (b.val) c)

abbrev pub rank : LatticeType → ℕ
rank unknown = 0
rank constant = 1
rank overdefined = 2

abbrev Tells : Lattice → Lattice → Type 0
Tells a b =
    ((mergein a b).changed ≡ true → rank a.tag < rank (mergein a b).now.tag)
    × ((mergein a b).changed ≡ false → (mergein a b).now ≡ a)

mergein-Tells :
    (s t : LatticeType) (u v : Option Constant)
    → Tells (record { tag = s; val = u }) (record { tag = t; val = v })
unfolding mergein
mergein-Tells unknown unknown u v = (λ h. cc, λ h. refl)
mergein-Tells unknown constant u v = (λ h. omega arith, λ h. cc)
mergein-Tells unknown overdefined u v = (λ h. omega arith, λ h. cc)
mergein-Tells constant unknown u v = (λ h. cc, λ h. refl)
mergein-Tells constant constant u v = elim (Bool-cases (same_val u v)) [
  | inl p ↦ rw p (λ h. cc, λ h. refl)
  | inr p ↦ rw p (λ h. omega arith, λ h. cc)
]
mergein-Tells constant overdefined u v = (λ h. omega arith, λ h. cc)
mergein-Tells overdefined unknown u v = (λ h. cc, λ h. refl)
mergein-Tells overdefined constant u v = (λ h. cc, λ h. refl)
mergein-Tells overdefined overdefined u v = (λ h. cc, λ h. refl)

-- The result of `mergein` tells whether the element rose; if not, it is as it was.
pub mergein-changed : (a b : Lattice) → Tells a b
mergein-changed a b = mergein-Tells (a.tag) (b.tag) (a.val) (b.val)
