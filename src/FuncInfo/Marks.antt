-- ===== src/FuncInfo/Marks.antt =====
-- FuncInfo: the marks of its worklist, and the callers that a function's uses name.
use mathlib.Core.List.{Memᴰ}
use mathlib.Core.List.Memᴰ
use poly_cminus.Prelude.{
  ℕ, ◌==◌, Bool, true, false, not, if◌then◌else◌, Bool-cases, Option, none, some, List, [], ◌∷◌,
  ◌≡◌, refl, sym, ap, ◌∙◌, inl, inr, ==→eq,
}
use poly_cminus.Uses.{Use, put}
use poly_cminus.IrCheck.Values.{is_instruction}
use poly_cminus.Worklist.{Pending, each}
use poly_cminus.Worklist.Touched.{Marking}
use poly_cminus.FuncInfo.{Program, Pure, says_pure, mark_caller, process_uses}

-- Has the function an entry?
abbrev pub is_met : Option Bool → Bool
is_met none = false
is_met (some pure) = true

abbrev pub impure : Pure → ℕ → Bool
impure pure f = not (says_pure (pure f))

impure-put :
    (pure : Pure) (t x : ℕ) → impure (put pure t (some false)) x ≡ put (impure pure) t true x
impure-put pure t x = elim (Bool-cases (x == t)) [ inl p ↦ rw p refl | inr p ↦ rw p refl ]

put-same : (v : ℕ → Bool) (t x : ℕ) → v t ≡ true → put v t true x ≡ v x
put-same v t x e = elim (Bool-cases (x == t)) [
  | inl p ↦ rw p (sym (ap v (==→eq x t p) ∙ e))
  | inr p ↦ rw p refl
]

pub mark_caller-Marking : Marking impure mark_caller
mark_caller-Marking = record {
  skip = λ t s e. elim (Bool-cases (says_pure (s.flags t))) [
    | inl p ↦ cc (rw p at e)
    | inr p ↦ rw p (refl, λ x. impure-put s.flags t x ∙ put-same (impure s.flags) t x e)
  ];
  add = λ t s e. elim (Bool-cases (says_pure (s.flags t))) [
    | inl p ↦ rw p (refl, λ x. impure-put s.flags t x)
    | inr p ↦ cc (rw p at e)
  ];
}

module _ (p : Program) where
  -- The functions of the instructions among the users.
  abbrev pub callers : List Use → List ℕ
  callers [] = []
  callers (entry ∷ uses) =
      if is_instruction (p.values.class_of entry.user)
      then p.get_function entry.user ∷ callers uses
      else callers uses

  pub process_uses-each :
      (uses : List Use) (s : Pending Pure)
      → process_uses p uses s ≡ each mark_caller (callers uses) s
  process_uses-each [] s = refl
  process_uses-each (entry ∷ uses) s =
      elim (Bool-cases (is_instruction (p.values.class_of entry.user))) [
        | inl e ↦ rw e (process_uses-each uses (mark_caller (p.get_function entry.user) s))
        | inr e ↦ rw e (process_uses-each uses s)
      ]

  pub callers-Memᴰ :
      (uses : List Use) {f : ℕ}
      → Memᴰ f (callers uses)
      → (entry : Use) × Memᴰ entry uses
        × (is_instruction (p.values.class_of entry.user) ≡ true)
        × (f ≡ p.get_function entry.user)
  callers-Memᴰ [] m = absurd (Memᴰ.not-nil m)
  callers-Memᴰ (entry ∷ uses) {f} m =
      elim (Bool-cases (is_instruction (p.values.class_of entry.user))) [
        | inl e ↦ elim (Memᴰ.cases_cons (rw e at m)) [
          | inl first ↦ (entry, Memᴰ.head refl, e, first)
          | inr later ↦ let (u, n, i, same) = callers-Memᴰ uses later in (u, Memᴰ.tail n, i, same)
        ]
        | inr e ↦ let (u, n, i, same) = callers-Memᴰ uses (rw e at m) in (u, Memᴰ.tail n, i, same)
      ]

  pub Memᴰ-callers :
      (uses : List Use) {entry : Use}
      → Memᴰ entry uses
      → is_instruction (p.values.class_of entry.user) ≡ true
      → Memᴰ (p.get_function entry.user) (callers uses)
  Memᴰ-callers [] m e = absurd (Memᴰ.not-nil m)
  Memᴰ-callers (u ∷ uses) {entry} m e =
      elim (Bool-cases (is_instruction (p.values.class_of u.user))) [
        | inl i ↦ rw i (elim (Memᴰ.cases_cons m) [
          | inl first ↦ Memᴰ.head (ap (λ (x : Use). p.get_function x.user) first)
          | inr later ↦ Memᴰ.tail (Memᴰ-callers uses later e)
        ])
        | inr i ↦ rw i (elim (Memᴰ.cases_cons m) [
          | inl first ↦ cc (ap (λ (x : Use). is_instruction (p.values.class_of x.user)) first, e, i)
          | inr later ↦ Memᴰ-callers uses later e
        ])
      ]
