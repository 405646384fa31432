-- ===== src/Types/Shapes.antt =====
-- The size of an array type of src/MIR_new/Type.cc, from its shape.
use poly_cminus.Prelude.{
  ℕ, ◌*◌, ◌%◌, ◌^◌, ◌||◌, true, Option, some, List, [], ◌∷◌, ◌>>=◌, ◌≡◌, refl, sym, ap, ◌∙◌,
  mul-mod-mod_left,
}
use native.Mathlib.Nat.{one-mul, mul_assoc}
use poly_cminus.Types.{
  Ty, void, label, integer, function, array, pointer, float, struct, get_size, get_shape,
  is_integer_type, is_float_type, is_valid_element_type, array_type,
}

abbrev pub product : List ℕ → ℕ
product [] = 1
product (n ∷ ns) = product ns * n

-- Neither an array nor anything that an array cannot hold.
abbrev pub IsElement : Ty → Type 0
IsElement t = (is_integer_type t || is_float_type t) ≡ true

-- Arrays nested in one another, the outermost dimension first.
abbrev pub array_of : Ty → List ℕ → Option Ty
array_of t [] = some t
array_of t (n ∷ ns) = array_of t ns >>= λ c. array_type c n

element_lem : (t : Ty) → IsElement t → (is_valid_element_type t ≡ true) × (get_shape t ≡ [])
unfolding get_shape
element_lem (integer m) e = (refl, refl)
element_lem float e = (refl, refl)
element_lem void e = cc
element_lem label e = cc
element_lem (function r ps) e = cc
element_lem (array t n) e = cc
element_lem (pointer t) e = cc
element_lem (struct ts) e = cc

-- A nested array of integers or floats is built whatever its dimensions are, one or more. Its shape
-- is these dimensions, and its size is their product times the size of an element, as a word of 32
-- bits.
pub array_of-get_shape :
    (t : Ty) (n : ℕ) (ns : List ℕ)
    → IsElement t
    → (c : Ty) × (array_of t (n ∷ ns) ≡ some (array c n))
      × (get_shape (array c n) ≡ n ∷ ns)
      × (get_size (array c n) ≡ get_size t * product (n ∷ ns) % 2 ^ 32)
unfolding get_shape get_size
array_of-get_shape t n [] e =
    let (valid, flat) = element_lem t e in
    (
      t,
      rw valid refl,
      ap (λ l. n ∷ l) flat,
      ap (λ (k : ℕ). get_size t * k % 2 ^ 32) (sym (one-mul n)),
    )
array_of-get_shape t n (m ∷ ns) e =
    let (c, built, shape, size) = array_of-get_shape t m ns e in
    (
      array c m,
      rw built refl,
      ap (λ l. n ∷ l) shape,
      ap (λ (k : ℕ). k * n % 2 ^ 32) size
          ∙ mul-mod-mod_left (get_size t * product (m ∷ ns)) n (2 ^ 32)
          ∙ ap (λ (k : ℕ). k % 2 ^ 32) (mul_assoc (get_size t) (product (m ∷ ns)) n),
    )
