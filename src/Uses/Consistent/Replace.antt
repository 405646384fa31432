-- ===== src/Uses/Consistent/Replace.antt =====
-- Value::replace_all_use_with on consistent use lists.
use poly_cminus.Prelude.{
  ℕ, zero, suc, ◌<◌, ◌≡◌, ◌≢◌, refl, sym, ap, ◌∙◌, ◌==◌, ◌&&◌, ◌||◌, length, Bool, true, false,
  Bool-cases, inl, inr, if◌then◌else◌, Option, none, some, ==→eq, ne→==, lt→ltb, List, [], ◌∷◌,
  ◌++◌, arith,
}
use mathlib.Core.List.{append-nil, append_assoc}
use native.Mathlib.Decide.{ℕ_discrete, dec_lt}
use poly_cminus.Uses.{
  Use, Store, put, operand_at, set_at, get_operand, add_use, set_operand, replace_uses,
  replace_all_use_with,
}
use poly_cminus.Uses.Consistent.{
  has_use, has_use-append, is_value, IsConsistent, operand_at-beyond, same_number, or_true,
  or_false,
}

operand_at-set_at :
    (os : List (Option ℕ)) (i : ℕ) (v : Option ℕ) (j : ℕ)
    → i < length os
    → operand_at (set_at os i v) j ≡ (if j == i then v else operand_at os j)
operand_at-set_at [] i v j h = absurd (omega arith)
operand_at-set_at (o ∷ os) zero v zero h = refl
operand_at-set_at (o ∷ os) zero v (suc j) h = ground arith
operand_at-set_at (o ∷ os) (suc i) v zero h = ground arith
operand_at-set_at (o ∷ os) (suc i) v (suc j) h =
    let shift : (suc j == suc i) ≡ (j == i) = ground arith in
    rw shift (operand_at-set_at os i v j (omega arith))

length-set_at : (os : List (Option ℕ)) (i : ℕ) (v : Option ℕ) → length (set_at os i v) ≡ length os
length-set_at [] i v = refl
length-set_at (o ∷ os) zero v = refl
length-set_at (o ∷ os) (suc i) v = ap suc (length-set_at os i v)

-- Every use in the list names an operand.
abbrev InRange : List Use → Store → Type 0
InRange uses s = (u i : ℕ) → has_use uses u i ≡ true → i < length (s.operands u)

-- What the loop leaves.
record Replaced (new : ℕ) (uses : List Use) (s s' : Store) : Type 0 where
  operands :
      (u i : ℕ) → get_operand s' u i ≡ (if has_use uses u i then some new else get_operand s u i)
  uses_of_new : s'.use_list new ≡ s.use_list new ++ uses
  other_uses : (v : ℕ) → v ≢ new → s'.use_list v ≡ s.use_list v

abbrev after : ℕ → Use → Store → Store
after new entry s = add_use new entry.user entry.arg_no (record s {
  operands = put s.operands entry.user (set_at (s.operands entry.user) entry.arg_no (some new));
})

set_operand-after :
    (new : ℕ) (entry : Use) (s : Store)
    → entry.arg_no < length (s.operands entry.user)
    → set_operand entry.user entry.arg_no new s ≡ some (after new entry s)
unfolding set_operand
set_operand-after new entry s h = rw (lt→ltb entry.arg_no (length (s.operands entry.user)) h)

after-operands :
    (new : ℕ) (entry : Use) (s : Store) (u i : ℕ)
    → entry.arg_no < length (s.operands entry.user)
    → get_operand (after new entry s) u i
      ≡ (if u == entry.user && i == entry.arg_no then some new else get_operand s u i)
after-operands new entry s u i h = elim (ℕ_discrete u entry.user) [
  | yes same ↦
      rw (same, same_number) (operand_at-set_at (s.operands entry.user) entry.arg_no (some new) i h)
  | no differs ↦ rw (ne→== u entry.user differs)
]

after-length :
    (new : ℕ) (entry : Use) (s : Store) (u : ℕ)
    → length ((after new entry s).operands u) ≡ length (s.operands u)
after-length new entry s u = elim (ℕ_discrete u entry.user) [
  | yes same ↦
      rw (same, same_number) (length-set_at (s.operands entry.user) entry.arg_no (some new))
  | no differs ↦ rw (ne→== u entry.user differs)
]

replace_uses-Replaced :
    (new : ℕ) (uses : List Use) (s : Store)
    → InRange uses s
    → (s' : Store) × (replace_uses new uses s ≡ some s') × Replaced new uses s s'
unfolding replace_uses
replace_uses-Replaced new [] s range = (
  s,
  refl,
  record {
    operands = λ u i. refl;
    uses_of_new = sym (append-nil (s.use_list new));
    other_uses = λ v ne. refl;
  },
)
replace_uses-Replaced new (entry ∷ uses) s range =
    let first : entry.arg_no < length (s.operands entry.user) =
      range entry.user entry.arg_no (rw (same_number entry.user, same_number entry.arg_no)) in
    let t = after new entry s in
    let rest : InRange uses t =
      λ u i h. rw (after-length new entry s u) (range u i (or_right _ _ h)) in
    let (s', ran, r) = replace_uses-Replaced new uses t rest in
    (
      s',
      rw (set_operand-after new entry s first) ran,
      record {
        operands = λ u i.
            r.operands u i
            ∙ ap (λ (o : Option ℕ). if has_use uses u i then some new else o)
                (after-operands new entry s u i first)
            ∙ joined (u == entry.user && i == entry.arg_no) (has_use uses u i) (get_operand s u i);
        uses_of_new =
            r.uses_of_new
            ∙ ap (λ (us : List Use). us ++ uses) (appended t refl)
            ∙ append_assoc (s.use_list new) (entry ∷ []) uses;
        other_uses = λ v ne. r.other_uses v ne ∙ kept v ne;
      },
    )
  where
    or_right : (a b : Bool) → b ≡ true → (a || b) ≡ true
    or_right true b h = refl
    or_right false b h = h

    joined :
        (a b : Bool) (y : Option ℕ)
        → (if b then some new else (if a then some new else y)) ≡ (if a || b then some new else y)
    joined true true y = refl
    joined true false y = refl
    joined false b y = refl

    appended : (t : Store) → t ≡ after new entry s → t.use_list new ≡ s.use_list new ++ entry ∷ []
    appended t e = rw (e, same_number new)

    kept : (v : ℕ) → v ≢ new → (after new entry s).use_list v ≡ s.use_list v
    kept v ne = rw (ne→== v new ne)

use-InRange : (s : Store) (old : ℕ) → IsConsistent s → InRange (s.use_list old) s
use-InRange s old h u i e = elim (dec_lt i (length (s.operands u))) [
  | yes l ↦ l
  | no ge ↦
      let null : get_operand s u i ≡ none = operand_at-beyond (s.operands u) i (omega arith) in
      let impossible : true ≡ false =
        sym e ∙ h old u i ∙ ap (λ (o : Option ℕ). is_value o old) null in
      absurd cc
]

is_value-eq : (o : Option ℕ) (v : ℕ) → is_value o v ≡ true → o ≡ some v
is_value-eq none v h = cc
is_value-eq (some w) v h = ap some (sym (==→eq v w h))

-- The operand that was `o`, as the use lists see it.
module _ (old new : ℕ) (ne : new ≢ old) (o : Option ℕ) where
  abbrev swapped_to : Option ℕ
  swapped_to = if is_value o old then some new else o

  no_old : is_value swapped_to old ≡ false
  no_old = elim (Bool-cases (is_value o old)) [
    | inl p ↦ rw p (ne→== old new (λ e. ne (sym e)))
    | inr p ↦ rw p p
  ]

  all_new : is_value swapped_to new ≡ (is_value o new || is_value o old)
  all_new = elim (Bool-cases (is_value o old)) [
    | inl p ↦ rw p (same_number new ∙ sym (or_true (is_value o new)))
    | inr p ↦ rw p (sym (or_false (is_value o new)))
  ]

  no_other : (v : ℕ) → v ≢ old → v ≢ new → is_value swapped_to v ≡ is_value o v
  no_other v not_old not_new = elim (Bool-cases (is_value o old)) [
    | inl p ↦
        let same : is_value o v ≡ false = rw (is_value-eq o old p) (ne→== v old not_old) in
        rw p (ne→== v new not_new ∙ sym same)
    | inr p ↦ rw p
  ]

-- On consistent use lists the replacement of a value by another one returns: afterwards every
-- operand that was the old value is the new one, the others are as they were, and the use lists
-- are consistent, that of the old value empty.
pub replace_all_use_with-IsConsistent :
    (old new : ℕ) (s : Store)
    → new ≢ old
    → IsConsistent s
    → (s' : Store) × (replace_all_use_with old new s ≡ some s')
      × IsConsistent s'
      × ((u i : ℕ)
          → get_operand s' u i
            ≡ (if is_value (get_operand s u i) old then some new else get_operand s u i))
      × (s'.use_list old ≡ [])
unfolding replace_all_use_with
replace_all_use_with-IsConsistent old new s ne h =
    let (t, ran, r) = replace_uses-Replaced new (s.use_list old) s (use-InRange s old h) in
    let s' = record t { use_list = put t.use_list old [] } in
    let swapped : (u i : ℕ)
        → get_operand t u i
          ≡ (if is_value (get_operand s u i) old then some new else get_operand s u i) =
      λ u i.
        r.operands u i ∙ ap (λ (b : Bool). if b then some new else get_operand s u i) (h old u i) in
    let final_uses : (v u i : ℕ)
        → has_use (put t.use_list old [] v) u i
          ≡ is_value (swapped_to old new ne (get_operand s u i)) v =
      λ v u i. after_loop t r v u i in
    (
      s',
      rw ran,
      (λ v u i. final_uses v u i ∙ ap (λ (o : Option ℕ). is_value o v) (sym (swapped u i))),
      swapped,
      rw (same_number old),
    )
  where
    after_loop :
        (t : Store)
        → Replaced new (s.use_list old) s t
        → (v u i : ℕ)
        → has_use (put t.use_list old [] v) u i
          ≡ is_value (swapped_to old new ne (get_operand s u i)) v
    after_loop t r v u i = elim (ℕ_discrete v old) [
      | yes e ↦ rw (e, same_number old) (sym (no_old old new ne (get_operand s u i)))
      | no not_old ↦ elim (ℕ_discrete v new) [
        | yes e ↦
            rw (e, ne→== new old ne, r.uses_of_new, has_use-append, h new u i, h old u i)
              (sym (all_new old new ne (get_operand s u i)))
        | no not_new ↦
            rw (ne→== v old not_old, r.other_uses v not_new, h v u i)
              (sym (no_other old new ne (get_operand s u i) v not_old not_new))
      ]
    ]
