-- ===== src/DeadCode/Defs.antt =====
-- DeadCode: the marks of its worklist, and the definitions that an instruction's operands name.
use mathlib.Core.List.{Memᴰ}
use mathlib.Core.List.Memᴰ
use poly_cminus.Prelude.{
  ℕ, Bool, true, if◌then◌else◌, Bool-cases, Option, none, some, List, [], ◌∷◌, ◌≡◌, refl, ap, ◌∙◌,
  inl, inr,
}
use poly_cminus.Uses.Consistent.Remove.{all_set}
use poly_cminus.Worklist.{Pending, each}
use poly_cminus.Worklist.Touched.{Marking}
use poly_cminus.FuncInfo.{Program, Pure}
use poly_cminus.DeadCode.{Marked, mark_def, is_def, mark_operands}

abbrev pub has_mark : Marked → ℕ → Bool
has_mark marked i = marked i

module _ (pure : Pure) (p : Program) where
  pub mark_def-Marking : Marking has_mark (mark_def pure p)
  mark_def-Marking = record {
    skip = λ t s e. rw e (refl, λ x. refl);
    add = λ t s e. rw e (refl, λ x. refl);
  }

  -- The operands that are instructions of the same function.
  abbrev pub defs : ℕ → List (Option ℕ) → List ℕ
  defs ins [] = []
  defs ins (none ∷ os) = defs ins os
  defs ins (some def ∷ os) = if is_def pure p ins def then def ∷ defs ins os else defs ins os

  pub mark_operands-each :
      (ins : ℕ) (os : List (Option ℕ)) (s : Pending Marked)
      → all_set os ≡ true
      → mark_operands pure p ins os s ≡ some (each (mark_def pure p) (defs ins os) s)
  mark_operands-each ins [] s set = refl
  mark_operands-each ins (none ∷ os) s set = cc
  mark_operands-each ins (some def ∷ os) s set = elim (Bool-cases (is_def pure p ins def)) [
    | inl e ↦ rw e (mark_operands-each ins os (mark_def pure p def s) set)
    | inr e ↦ rw e (mark_operands-each ins os s set)
  ]

  pub defs-Memᴰ :
      (ins : ℕ) (os : List (Option ℕ)) {def : ℕ}
      → Memᴰ def (defs ins os)
      → Memᴰ (some def) os × (is_def pure p ins def ≡ true)
  defs-Memᴰ ins [] m = absurd (Memᴰ.not-nil m)
  defs-Memᴰ ins (none ∷ os) m = let (n, e) = defs-Memᴰ ins os m in (Memᴰ.tail n, e)
  defs-Memᴰ ins (some o ∷ os) {def} m = elim (Bool-cases (is_def pure p ins o)) [
    | inl e ↦ elim (Memᴰ.cases_cons (rw e at m)) [
      | inl first ↦ (Memᴰ.head (ap some first), ap (is_def pure p ins) first ∙ e)
      | inr later ↦ let (n, e') = defs-Memᴰ ins os later in (Memᴰ.tail n, e')
    ]
    | inr e ↦ let (n, e') = defs-Memᴰ ins os (rw e at m) in (Memᴰ.tail n, e')
  ]

  pub Memᴰ-defs :
      (ins : ℕ) (os : List (Option ℕ)) {def : ℕ}
      → Memᴰ (some def) os
      → is_def pure p ins def ≡ true
      → Memᴰ def (defs ins os)
  Memᴰ-defs ins [] m e = absurd (Memᴰ.not-nil m)
  Memᴰ-defs ins (none ∷ os) m e = elim (Memᴰ.cases_cons m) [
    | inl first ↦ cc
    | inr later ↦ Memᴰ-defs ins os later e
  ]
  Memᴰ-defs ins (some o ∷ os) {def} m e = elim (Bool-cases (is_def pure p ins o)) [
    | inl i ↦ rw i (elim (Memᴰ.cases_cons m) [
      | inl first ↦ Memᴰ.head (cc first)
      | inr later ↦ Memᴰ.tail (Memᴰ-defs ins os later e)
    ])
    | inr i ↦ rw i (elim (Memᴰ.cases_cons m) [
      | inl first ↦ let same : def ≡ o = cc first in cc (ap (is_def pure p ins) same, e, i)
      | inr later ↦ Memᴰ-defs ins os later e
    ])
  ]
