-- ===== src/IrCheck/Positions.antt =====
-- The order of the instructions of a block that src/Optimize/IRCheck.cc lets pass.
use mathlib.Core.List.{Memᴰ}
use mathlib.Core.List.Memᴰ
use poly_cminus.Prelude.{
  ℕ, ◌==◌, ◌||◌, Bool, true, false, not, Bool-cases, inl, inr, if◌then◌else◌, Option, none, some,
  >>=-eq-some, Option-cases, List, [], ◌∷◌, ◌++◌, All, ◌≡◌, refl, sym, ap, subst, ◌∙◌, ==→eq,
}
use poly_cminus.Dominators.Search.{has}
use poly_cminus.Dominators.Iteration.{is_set, is_block}
use poly_cminus.IrCheck.Values.{Module, Kind, is_phi, is_br_or_ret, is_terminator, every, last_of}
use poly_cminus.IrCheck.Structure.{
  get_terminator, phis_first, is_last, check_phi_position, check_ret_br_position, check_terminate,
}
use poly_cminus.IrCheck.Lists.{&&-both, every_block-Memᴰ, Memᴰ-has, IsDistinct}

module _ (m : Module) where
  abbrev IsPhi : ℕ → Type 0
  IsPhi i = is_phi (m.kind i) ≡ true

  -- Neither a phi nor a branch nor a return.
  abbrev IsPlain : ℕ → Type 0
  IsPlain i = (is_phi (m.kind i) ≡ false) × (is_br_or_ret (m.kind i) ≡ false)

  -- The phis, then the plain instructions, then a branch, a return or a switch.
  pub record IsLaidOut (is : List ℕ) : Type 0 where
    pub phis : List ℕ
    pub body : List ℕ
    pub end : ℕ
    pub whole : is ≡ phis ++ (body ++ end ∷ [])
    pub phis_first : All (λ i. is_phi (m.kind i) ≡ true) phis
    pub body_plain : All (λ i. (is_phi (m.kind i) ≡ false) × (is_br_or_ret (m.kind i) ≡ false)) body
    pub end_last : is_terminator (m.kind end) ≡ true

  last-Memᴰ : (is : List ℕ) {t : ℕ} → last_of is ≡ some t → Memᴰ t is
  last-Memᴰ [] e = cc
  last-Memᴰ (i ∷ []) e = Memᴰ.head (cc e)
  last-Memᴰ (i ∷ j ∷ is) e = Memᴰ.tail (last-Memᴰ (j ∷ is) e)

  abbrev only_last : ℕ → List ℕ → Bool
  only_last t = every (λ i. not (is_br_or_ret (m.kind i)) || t == i)

  -- An instruction with others behind it is not the last one.
  inner-plain :
      (t i : ℕ) (is : List ℕ)
      → has is i ≡ false
      → Memᴰ t is
      → (not (is_br_or_ret (m.kind i)) || t == i) ≡ true
      → is_br_or_ret (m.kind i) ≡ false
  inner-plain t i is fresh mt e = elim (Bool-cases (is_br_or_ret (m.kind i))) [
    | inl p ↦
        let t≡i : t ≡ i = ==→eq t i (rw p at e) in
        cc (fresh, Memᴰ-has is i (Memᴰ.cast (sym t≡i) mt))
    | inr p ↦ p
  ]

  terminator-is_phi : (k : Kind) → is_terminator k ≡ true → is_phi k ≡ false
  terminator-is_phi Kind.phi e = cc
  terminator-is_phi Kind.br e = refl
  terminator-is_phi Kind.ret e = refl
  terminator-is_phi Kind.switch1 e = refl
  terminator-is_phi Kind.call e = refl
  terminator-is_phi Kind.store e = refl
  terminator-is_phi Kind.load e = refl
  terminator-is_phi Kind.alloca e = refl
  terminator-is_phi Kind.getelementptr e = refl
  terminator-is_phi Kind.other e = refl

  laid_body :
      (is : List ℕ) (t : ℕ)
      → phis_first m false is ≡ true
      → only_last t is ≡ true
      → last_of is ≡ some t
      → IsDistinct is
      → (body : List ℕ) × (is ≡ body ++ t ∷ [])
        × All (λ i. (is_phi (m.kind i) ≡ false) × (is_br_or_ret (m.kind i) ≡ false)) body
  laid_body [] t p o l d = cc
  laid_body (i ∷ []) t p o l d = ([], ap (λ x. x ∷ []) (cc l), tt)
  laid_body (i ∷ j ∷ is) t p o l d = elim (Bool-cases (is_phi (m.kind i))) [
    | inl phi ↦ cc (rw phi at p)
    | inr no_phi ↦
        let (here, there) = &&-both (not (is_br_or_ret (m.kind i)) || t == i) _ o in
        let (body, whole, plain) = laid_body (j ∷ is) t (rw no_phi at p) there l d.1 in
        let mt : Memᴰ t (j ∷ is) = last-Memᴰ (j ∷ is) l in
        (i ∷ body, ap (λ r. i ∷ r) whole, ((no_phi, inner-plain t i (j ∷ is) d.0 mt here), plain))
  ]

  laid_out :
      (is : List ℕ) (t : ℕ)
      → phis_first m true is ≡ true
      → only_last t is ≡ true
      → last_of is ≡ some t
      → is_terminator (m.kind t) ≡ true
      → IsDistinct is
      → IsLaidOut is
  laid_out [] t p o l e d = cc
  laid_out (i ∷ []) t p o l e d = record {
    phis = [];
    body = [];
    end = t;
    whole = ap (λ x. x ∷ []) (cc l);
    phis_first = tt;
    body_plain = tt;
    end_last = e;
  }
  laid_out (i ∷ j ∷ is) t p o l e d = elim (Bool-cases (is_phi (m.kind i))) [
    | inl phi ↦
        let r =
          laid_out (j ∷ is) t (rw phi at p)
            (&&-both (not (is_br_or_ret (m.kind i)) || t == i) _ o).1 l e d.1 in
        record {
          phis = i ∷ r.phis;
          body = r.body;
          end = r.end;
          whole = ap (λ s. i ∷ s) r.whole;
          phis_first = (phi, r.phis_first);
          body_plain = r.body_plain;
          end_last = r.end_last;
        }
    | inr no_phi ↦
        let (body, whole, plain) = laid_body (i ∷ j ∷ is) t (rw no_phi (rw no_phi at p)) o l d in
        record {
          phis = [];
          body = body;
          end = t;
          whole = whole;
          phis_first = tt;
          body_plain = plain;
          end_last = e;
        }
  ]

  get_terminator-last :
      (b : ℕ) {t : ℕ}
      → get_terminator m b ≡ some t
      → (last_of (m.instructions b) ≡ some t) × (is_terminator (m.kind t) ≡ true)
  get_terminator-last b {t} e =
      let (i, last, rest) =
        >>=-eq-some (last_of (m.instructions b))
          (λ i. if is_terminator (m.kind i) then some i else none) e in
      elim (Bool-cases (is_terminator (m.kind i))) [
        | inl p ↦
            let same : some i ≡ some t = rw p at rest in
            let i≡t : i ≡ t = cc in
            (last ∙ ap some i≡t, ap (λ x. is_terminator (m.kind x)) (sym i≡t) ∙ p)
        | inr p ↦ cc (rw p at rest)
      ]

  -- Where the checks of phis, of branches and returns, and of terminators pass, every block whose
  -- instructions are distinct has its phis first, then instructions that are no phi, branch or
  -- return, then a branch, a return or a switch.
  pub check_positions-IsLaidOut :
      {f b : ℕ}
      → check_phi_position m ≡ true
      → check_ret_br_position m ≡ true
      → check_terminate m ≡ true
      → Memᴰ f m.functions
      → Memᴰ b (m.basic_blocks f)
      → IsDistinct (m.instructions b)
      → IsLaidOut (m.instructions b)
  unfolding check_phi_position check_ret_br_position check_terminate
  check_positions-IsLaidOut {f} {b} phis ends has_end mf mb d =
      let p = every_block-Memᴰ m (λ f b. phis_first m true (m.instructions b)) phis mf mb in
      let o = every_block-Memᴰ m (λ f b. every (is_last m b) (m.instructions b)) ends mf mb in
      let s = every_block-Memᴰ m (λ f b. is_set (get_terminator m b)) has_end mf mb in
      elim (Option-cases (get_terminator m b)) [
        | inl nothing ↦ cc (rw nothing at s)
        | inr (t, found) ↦
            let (last, at_end) = get_terminator-last b found in
            laid_out (m.instructions b) t p
              (subst
                (λ (g : Option ℕ).
                  every (λ i. not (is_br_or_ret (m.kind i)) || is_block g i) (m.instructions b)
                  ≡ true)
                found o)
              last at_end d
      ]
