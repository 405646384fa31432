-- ===== src/IrCheck/UseLists.antt =====
-- The use lists that src/Optimize/IRCheck.cc lets pass, against the operands.
use mathlib.Core.List.{Memᴰ}
use poly_cminus.Prelude.{
  ℕ, suc, ◌≤◌, ◌==◌, ◌&&◌, ◌||◌, length, Bool, true, false, Bool-cases, inl, inr, some, List, [],
  ◌∷◌, ◌≡◌, refl, sym, ap, ◌∙◌, ==→eq, eq→==, arith,
}
use poly_cminus.Uses.{Use, get_operand}
use poly_cminus.Uses.Consistent.{has_use}
use poly_cminus.Dominators.Search.{has}
use poly_cminus.IrCheck.Values.{Module, every, has_entry, set_of_uses}
use poly_cminus.IrCheck.Checks.{is_used_at, uses_hold, all_users, check_use_list}
use poly_cminus.IrCheck.Lists.{&&-both, every-Memᴰ, has-Memᴰ, is_block-eq}

-- No use stands twice.
abbrev pub AreDistinct : List Use → Type 0
AreDistinct [] = Unit
AreDistinct (x ∷ xs) = (has_use xs x.user x.arg_no ≡ false) × AreDistinct xs

pub every-has_use :
    (p : Use → Bool) (uses : List Use) (u i : ℕ)
    → every p uses ≡ true
    → has_use uses u i ≡ true
    → p (record { user = u; arg_no = i }) ≡ true
every-has_use p [] u i e h = cc
every-has_use p (x ∷ xs) u i e h =
    let (first, rest) = &&-both (p x) (every p xs) e in
    elim (Bool-cases (u == x.user && i == x.arg_no)) [
      | inl here ↦
          let (pu, pi) = &&-both (u == x.user) (i == x.arg_no) here in
          let same : record { user = u; arg_no = i } ≡ x =
            use_eq x (==→eq u x.user pu) (==→eq i x.arg_no pi) in
          ap p same ∙ first
      | inr there ↦ every-has_use p xs u i rest (rw there at h)
    ]
  where
    use_eq :
        (x : Use) → u ≡ x.user → i ≡ x.arg_no → ◌≡◌ {A = Use} (record { user = u; arg_no = i }) x
    use_eq x a b = cc

has_entry-has_use : (xs : List Use) (x : Use) → has_entry xs x ≡ has_use xs x.user x.arg_no
has_entry-has_use [] x = refl
has_entry-has_use (y ∷ ys) x =
    ap (λ (r : Bool). (x.user == y.user && x.arg_no == y.arg_no) || r) (has_entry-has_use ys x)

has_use-set_of_uses : (xs : List Use) (u i : ℕ) → has_use (set_of_uses xs) u i ≡ has_use xs u i
has_use-set_of_uses [] u i = refl
has_use-set_of_uses (x ∷ xs) u i = elim (Bool-cases (has_entry (set_of_uses xs) x)) [
  | inl old ↦ rw old (
      has_use-set_of_uses xs u i ∙ elim (Bool-cases (u == x.user && i == x.arg_no)) [
        | inl here ↦ rw here (sym (has_use-set_of_uses xs u i) ∙ already old here)
        | inr there ↦ rw there
      ])
  | inr new ↦
      rw new (ap (λ (r : Bool). (u == x.user && i == x.arg_no) || r) (has_use-set_of_uses xs u i))
]
  where
    already :
        has_entry (set_of_uses xs) x ≡ true
        → (u == x.user && i == x.arg_no) ≡ true
        → has_use (set_of_uses xs) u i ≡ true
    already old here =
        let (pu, pi) = &&-both (u == x.user) (i == x.arg_no) here in
        ap (λ (a : ℕ). has_use (set_of_uses xs) a i) (==→eq u x.user pu)
        ∙ ap (λ (a : ℕ). has_use (set_of_uses xs) x.user a) (==→eq i x.arg_no pi)
        ∙ sym (has_entry-has_use (set_of_uses xs) x)
        ∙ old

length-set_of_uses : (xs : List Use) → length (set_of_uses xs) ≤ length xs
length-set_of_uses [] = omega arith
length-set_of_uses (x ∷ xs) = elim (Bool-cases (has_entry (set_of_uses xs) x)) [
  | inl old ↦ rw old (omega (arith, length-set_of_uses xs))
  | inr new ↦ rw new (omega (arith, length-set_of_uses xs))
]

set_of_uses-AreDistinct :
    (xs : List Use) → (length (set_of_uses xs) == length xs) ≡ true → AreDistinct xs
set_of_uses-AreDistinct [] e = tt
set_of_uses-AreDistinct (x ∷ xs) e = elim (Bool-cases (has_entry (set_of_uses xs) x)) [
  | inl old ↦
      let same : length (set_of_uses xs) ≡ suc (length xs) = ==→eq _ _ (rw old at e) in
      absurd (omega (arith, same, length-set_of_uses xs))
  | inr new ↦
      let same : suc (length (set_of_uses xs)) ≡ suc (length xs) = ==→eq _ _ (rw new at e) in
      (
        sym (has_use-set_of_uses xs x.user x.arg_no)
            ∙ sym (has_entry-has_use (set_of_uses xs) x)
            ∙ new,
        set_of_uses-AreDistinct xs (eq→== _ _ (omega (arith, same))),
      )
]

module _ (m : Module) where
  -- The values whose use lists are checked.
  pub data IsChecked : ℕ → Type 0 where
    of_global : {v : ℕ} → Memᴰ v m.globals → IsChecked v
    of_function : {v : ℕ} → Memᴰ v m.functions → IsChecked v
    of_arg : {f v : ℕ} → Memᴰ f m.functions → Memᴰ v (m.args f) → IsChecked v
    of_block : {f v : ℕ} → Memᴰ f m.functions → Memᴰ v (m.basic_blocks f) → IsChecked v
    of_instruction :
        {f b v : ℕ}
        → Memᴰ f m.functions
        → Memᴰ b (m.basic_blocks f)
        → Memᴰ v (m.instructions b)
        → IsChecked v

  in_function :
      {f : ℕ}
      → check_use_list m ≡ true
      → Memᴰ f m.functions
      → (uses_hold m f ≡ true)
        × (every (uses_hold m) (m.args f) ≡ true)
        × (every (λ b. uses_hold m b && every (uses_hold m) (m.instructions b)) (m.basic_blocks f)
            ≡ true)
  unfolding check_use_list
  in_function {f} e mf =
      let (_, all) = &&-both (every (uses_hold m) m.globals) _ e in
      let (own, parts) = &&-both (uses_hold m f) _ (every-Memᴰ _ m.functions all mf) in
      let (args, blocks) = &&-both (every (uses_hold m) (m.args f)) _ parts in (own, args, blocks)

  checked-uses_hold : {v : ℕ} → check_use_list m ≡ true → IsChecked v → uses_hold m v ≡ true
  unfolding check_use_list
  checked-uses_hold e (of_global n) = every-Memᴰ (uses_hold m) m.globals (&&-both _ _ e).0 n
  checked-uses_hold e (of_function n) = (in_function e n).0
  checked-uses_hold e (of_arg {f} mf n) = every-Memᴰ (uses_hold m) (m.args f) (in_function e mf).1 n
  checked-uses_hold e (of_block {f} {v} mf n) =
      (&&-both (uses_hold m v) _ (every-Memᴰ _ (m.basic_blocks f) (in_function e mf).2 n)).0
  checked-uses_hold e (of_instruction {f} {b} mf mb n) =
      every-Memᴰ (uses_hold m) (m.instructions b)
        (&&-both (uses_hold m b) _ (every-Memᴰ _ (m.basic_blocks f) (in_function e mf).2 mb)).1 n

  -- Where check_use_list passes, no use stands twice in the list of a global variable, function,
  -- argument, block or instruction, and each names an instruction of the module and an operand of
  -- it that is this value.
  pub check_use_list-get_operand :
      {v : ℕ}
      → check_use_list m ≡ true
      → IsChecked v
      → AreDistinct (m.store.use_list v)
        × ((u i : ℕ)
            → has_use (m.store.use_list v) u i ≡ true
            → Memᴰ u (all_users m) × (get_operand m.store u i ≡ some v))
  check_use_list-get_operand {v} e c =
      let uses = m.store.use_list v in
      let (size, used) =
        &&-both (length (set_of_uses uses) == length uses) _ (checked-uses_hold e c) in
      (
        set_of_uses-AreDistinct uses size,
        λ u i h.
            let (user, operand) =
              &&-both (has (all_users m) u) _ (every-has_use (is_used_at m v) uses u i used h) in
            (has-Memᴰ (all_users m) u user, is_block-eq (get_operand m.store u i) v operand),
      )
