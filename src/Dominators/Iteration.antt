-- ===== src/Dominators/Iteration.antt =====
-- `intersect` and `generate_idom` of src/Optimize/Dominators.cc.
use poly_cminus.Prelude.{
  ℕ, zero, suc, ◌==◌, ◌&&◌, ltb, Bool, true, false, not, if◌then◌else◌, Option, none, some, ◌>>=◌,
  List, [], ◌∷◌,
}
use poly_cminus.Uses.{put}

-- `idom_`, null where there is none yet.
abbrev pub Idom : Type 0
Idom = ℕ → Option ℕ

abbrev pub is_set : Option ℕ → Bool
is_set none = false
is_set (some d) = true

abbrev pub is_block : Option ℕ → ℕ → Bool
is_block none b = false
is_block (some d) b = d == b

-- The first block behind that has a dominator already.
abbrev pub first_set : Idom → List ℕ → Option ℕ
first_set idom [] = none
first_set idom (p ∷ ps) = if is_set (idom p) then some p else first_set idom ps

pub record Pass : Type 0 where
  pub idom : Idom
  pub changed : Bool

abbrev pub update : ℕ → ℕ → Pass → Pass
update b new_idom s =
    if is_block (s.idom b) new_idom
    then s
    else record { idom = put s.idom b (some new_idom); changed = true }

module _ (visit_index : ℕ → ℕ) where
  unfoldable pub intersect : ℕ → Idom → ℕ → ℕ → Option ℕ
  intersect zero idom b1 b2 = none
  intersect (suc fuel) idom b1 b2 =
      let first = idom b1 >>= λ up. intersect fuel idom up b2 in
      let second = idom b2 >>= λ up. intersect fuel idom b1 up in
      if b1 == b2 then some b1 else if ltb (visit_index b1) (visit_index b2) then first else second

  abbrev pub intersect_each : ℕ → Idom → ℕ → List ℕ → ℕ → Option ℕ
  intersect_each fuel idom pre_block [] new_idom = some new_idom
  intersect_each fuel idom pre_block (p ∷ ps) new_idom =
      (if is_set (idom p) && not (p == pre_block)
        then intersect fuel idom new_idom p
        else some new_idom)
      >>= intersect_each fuel idom pre_block ps

  abbrev pub new_idom_of : ℕ → Idom → List ℕ → Option ℕ
  new_idom_of fuel idom ps =
      first_set idom ps >>= λ pre_block. intersect_each fuel idom pre_block ps pre_block

  -- The body of the loop over `visit_order`.
  abbrev pub process : (ℕ → List ℕ) → ℕ → ℕ → ℕ → Pass → Option Pass
  process behind fuel root b s =
      if b == root
      then some s
      else (new_idom_of fuel s.idom (behind b) >>= λ new_idom. some (update b new_idom s))

  abbrev pub process_each : (ℕ → List ℕ) → ℕ → ℕ → List ℕ → Pass → Option Pass
  process_each behind fuel root [] s = some s
  process_each behind fuel root (b ∷ bs) s =
      process behind fuel root b s >>= process_each behind fuel root bs

  -- The `while (changed)` loop, on fuel for its rounds and for the climbs of `intersect`.
  unfoldable pub iterate : (ℕ → List ℕ) → ℕ → ℕ → ℕ → List ℕ → Idom → Option Idom
  iterate behind climb zero root order idom = none
  iterate behind climb (suc rounds) root order idom =
      process_each behind climb root order (record { idom = idom; changed = false }) >>= λ s.
      let again = iterate behind climb rounds root order s.idom in
      if s.changed then again else some s.idom

  abbrev pub generate_idom : (ℕ → List ℕ) → ℕ → ℕ → ℕ → List ℕ → Option Idom
  generate_idom behind climb rounds root order =
      iterate behind climb rounds root order (put (λ b. none) root (some root))
