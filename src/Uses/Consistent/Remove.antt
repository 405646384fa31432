-- ===== src/Uses/Consistent/Remove.antt =====
-- User::remove_use_of_ops on consistent use lists.
use poly_cminus.Prelude.{
  ℕ, zero, suc, ◌≡◌, refl, sym, ap, ◌∙◌, ◌==◌, ◌&&◌, ◌||◌, Bool, true, false, Bool-cases, inl, inr,
  if◌then◌else◌, Option, none, some, eq→==, ne→==, List, [], ◌∷◌,
}
use native.Mathlib.Decide.{ℕ_discrete}
use poly_cminus.Uses.{
  Use, Store, operand_at, without_user, remove_use, remove_uses, remove_use_of_ops,
}
use poly_cminus.Uses.Consistent.{has_use, is_value, IsConsistent, same_number}

abbrev pub all_set : List (Option ℕ) → Bool
all_set [] = true
all_set (none ∷ os) = false
all_set (some v ∷ os) = all_set os

abbrev occurs : List (Option ℕ) → ℕ → Bool
occurs [] v = false
occurs (o ∷ os) v = is_value o v || occurs os v

-- The uses by `u` are gone, those by others are not.
has_use-without_user :
    (uses : List Use) (u x i : ℕ)
    → has_use (without_user uses u) x i ≡ (if x == u then false else has_use uses x i)
has_use-without_user [] u x i = constant_false (x == u)
  where
    constant_false : (b : Bool) → false ≡ (if b then false else false)
    constant_false true = refl
    constant_false false = refl
has_use-without_user (entry ∷ uses) u x i = elim (ℕ_discrete entry.user u) [
  | yes gone ↦ elim (ℕ_discrete x u) [
    | yes e ↦ rw (gone, same_number u) (has_use-without_user uses u x i ∙ rw (eq→== x u e))
    | no ne ↦
        rw (gone, same_number u, ne→== x u ne) (has_use-without_user uses u x i ∙ rw (ne→== x u ne))
  ]
  | no stays ↦ elim (ℕ_discrete x u) [
    | yes e ↦
        rw (ne→== entry.user u stays, e, same_number u, ne→== u entry.user (λ p. stays (sym p)))
          (has_use-without_user uses u u i ∙ rw (same_number u))
    | no ne ↦
        rw (ne→== entry.user u stays, ne→== x u ne)
          (ap (λ (b : Bool). (x == entry.user && i == entry.arg_no) || b)
            (has_use-without_user uses u x i ∙ rw (ne→== x u ne)))
  ]
]

removed :
    (s : Store) (w u v x i : ℕ)
    → has_use ((remove_use w u s).use_list v) x i
      ≡ (if x == u && v == w then false else has_use (s.use_list v) x i)
removed s w u v x i = elim (ℕ_discrete v w) [
  | yes e ↦
      rw (e, same_number w)
        (has_use-without_user (s.use_list w) u x i ∙ both (x == u) (has_use (s.use_list w) x i))
  | no ne ↦ rw (ne→== v w ne) (neither (x == u) (has_use (s.use_list v) x i))
]
  where
    both : (a b : Bool) → (if a then false else b) ≡ (if a && true then false else b)
    both true b = refl
    both false b = refl

    neither : (a b : Bool) → b ≡ (if a && false then false else b)
    neither true b = refl
    neither false b = refl

remove_uses_lem :
    (u : ℕ) (os : List (Option ℕ)) (s : Store)
    → all_set os ≡ true
    → (s' : Store) × (remove_uses u os s ≡ some s')
      × (s'.operands ≡ s.operands)
      × ((v x i : ℕ)
          → has_use (s'.use_list v) x i
            ≡ (if x == u && occurs os v then false else has_use (s.use_list v) x i))
remove_uses_lem u [] s h =
    (s, refl, refl, λ v x i. none_removed (x == u) (has_use (s.use_list v) x i))
  where
    none_removed : (a b : Bool) → b ≡ (if a && false then false else b)
    none_removed true b = refl
    none_removed false b = refl
remove_uses_lem u (none ∷ os) s h = cc
remove_uses_lem u (some w ∷ os) s h =
    let (s', ran, same, rest) = remove_uses_lem u os (remove_use w u s) h in
    (
      s',
      ran,
      same,
      λ v x i.
          rest v x i
          ∙ ap (λ (b : Bool). if x == u && occurs os v then false else b) (removed s w u v x i)
          ∙ joined (x == u) (v == w) (occurs os v) (has_use (s.use_list v) x i),
    )
  where
    joined :
        (a b c d : Bool)
        → (if a && c then false else (if a && b then false else d))
          ≡ (if a && (b || c) then false else d)
    joined true true true d = refl
    joined true true false d = refl
    joined true false true d = refl
    joined true false false d = refl
    joined false b c d = refl

occurs-operand_at :
    (os : List (Option ℕ)) (i v : ℕ) → occurs os v ≡ false → is_value (operand_at os i) v ≡ false
occurs-operand_at [] i v h = refl
occurs-operand_at (o ∷ os) zero v h = left_false (is_value o v) (occurs os v) h
  where
    left_false : (a b : Bool) → (a || b) ≡ false → a ≡ false
    left_false true b h = cc
    left_false false b h = refl
occurs-operand_at (o ∷ os) (suc i) v h =
    occurs-operand_at os i v (right_false (is_value o v) (occurs os v) h)
  where
    right_false : (a b : Bool) → (a || b) ≡ false → b ≡ false
    right_false true b h = cc
    right_false false b h = h

-- The uses that a user has in the lists are those of its operands.
abbrev pub AreOwn : Store → ℕ → Type 0
AreOwn s u =
    (v i : ℕ) → has_use (s.use_list v) u i ≡ true → is_value (operand_at (s.operands u) i) v ≡ true

-- The removal of the uses of such a user leaves none of its uses, and changes no other one.
pub remove_use_of_ops-removes :
    (u : ℕ) (s : Store)
    → AreOwn s u
    → all_set (s.operands u) ≡ true
    → (s' : Store) × (remove_use_of_ops u s ≡ some s')
      × (s'.operands ≡ s.operands)
      × ((v x i : ℕ)
          → has_use (s'.use_list v) x i ≡ (if x == u then false else has_use (s.use_list v) x i))
unfolding remove_use_of_ops
remove_use_of_ops-removes u s own set =
    let (s', ran, same, uses) = remove_uses_lem u (s.operands u) s set in
    (s', ran, same, λ v x i. uses v x i ∙ only_operands v x i)
  where
    no_use : (v i : ℕ) → occurs (s.operands u) v ≡ false → has_use (s.use_list v) u i ≡ false
    no_use v i p = elim (Bool-cases (has_use (s.use_list v) u i)) [
      | inl e ↦ cc (own v i e, occurs-operand_at (s.operands u) i v p)
      | inr e ↦ e
    ]

    only_operands :
        (v x i : ℕ)
        → (if x == u && occurs (s.operands u) v then false else has_use (s.use_list v) x i)
          ≡ (if x == u then false else has_use (s.use_list v) x i)
    only_operands v x i = elim (ℕ_discrete x u) [
      | yes e ↦ elim (Bool-cases (occurs (s.operands u) v)) [
        | inl p ↦ rw (e, same_number u, p)
        | inr p ↦ rw (e, same_number u, p) (no_use v i p)
      ]
      | no ne ↦ rw (ne→== x u ne)
    ]

-- On consistent use lists the removal of the uses of a user without null operands returns, leaves
-- the operands as they are and no use of this user in any list, and changes no other use.
pub remove_use_of_ops-has_use :
    (u : ℕ) (s : Store)
    → IsConsistent s
    → all_set (s.operands u) ≡ true
    → (s' : Store) × (remove_use_of_ops u s ≡ some s')
      × (s'.operands ≡ s.operands)
      × ((v x i : ℕ)
          → has_use (s'.use_list v) x i ≡ (if x == u then false else has_use (s.use_list v) x i))
remove_use_of_ops-has_use u s h set = remove_use_of_ops-removes u s (λ v i e. sym (h v u i) ∙ e) set
