-- ===== src/Types.antt =====
-- src/MIR_new/Type.cc: the types of the intermediate language, the checks of their constructors,
-- sizes and shapes. A size is the 32-bit word of the `int` that the source returns.
mod Shapes
mod Tests
use poly_cminus.Prelude.{
  ℕ, ◌*◌, ◌/◌, ◌%◌, ◌^◌, ltb, ◌&&◌, ◌||◌, Bool, true, false, if◌then◌else◌, Option, none, some,
  List, [], ◌∷◌, ◌>>=◌,
}

mutual
  pub data Ty : Type 0 where
    void : Ty
    label : Ty
    integer : ℕ → Ty
    function : Ty → Tys → Ty
    array : Ty → ℕ → Ty
    pointer : Ty → Ty
    float : Ty
    struct : Tys → Ty

  pub data Tys : Type 0 where
    none_left : Tys
    next : Ty → Tys → Tys

abbrev pub is_void_type : Ty → Bool
is_void_type void = true
is_void_type t = false

abbrev pub is_integer_type : Ty → Bool
is_integer_type (integer n) = true
is_integer_type t = false

abbrev pub is_array_type : Ty → Bool
is_array_type (array t n) = true
is_array_type t = false

abbrev pub is_pointer_type : Ty → Bool
is_pointer_type (pointer t) = true
is_pointer_type t = false

abbrev pub is_float_type : Ty → Bool
is_float_type float = true
is_float_type t = false

abbrev pub get_pointer_element_type : Ty → Option Ty
get_pointer_element_type (pointer t) = some t
get_pointer_element_type t = none

abbrev pub get_array_element_type : Ty → Option Ty
get_array_element_type (array t n) = some t
get_array_element_type t = none

-- `bits > 0 ? bits : 1`
abbrev pub bytes : ℕ → ℕ
bytes bits = if ltb 0 (bits / 8) then bits / 8 else 1

unfoldable pub get_size : Ty → ℕ
get_size (integer n) = bytes n
get_size (array t n) = get_size t * n % 2 ^ 32
get_size (pointer t) = let size = get_size t in if is_array_type t then size else 4
get_size float = 4
get_size void = 0
get_size label = 0
get_size (function t ts) = 0
get_size (struct ts) = 0

-- The loop of `get_shape` from the current type.
unfoldable pub get_shape : Ty → List ℕ
get_shape (array t n) = n ∷ get_shape t
get_shape (integer n) = []
get_shape (pointer t) = []
get_shape float = []
get_shape void = []
get_shape label = []
get_shape (function t ts) = []
get_shape (struct ts) = []

abbrev pub is_valid_return_type : Ty → Bool
is_valid_return_type t = is_integer_type t || (is_void_type t || is_float_type t)

abbrev pub is_valid_argument_type : Ty → Bool
is_valid_argument_type t = is_integer_type t || (is_pointer_type t || is_float_type t)

abbrev pub are_valid_argument_types : Tys → Bool
are_valid_argument_types none_left = true
are_valid_argument_types (next t ts) = is_valid_argument_type t && are_valid_argument_types ts

abbrev pub is_valid_element_type : Ty → Bool
is_valid_element_type t = is_integer_type t || (is_array_type t || is_float_type t)

-- The constructors, with `exit` as `none`.
abbrev pub function_type : Ty → Tys → Option Ty
function_type result params =
    if is_valid_return_type result && are_valid_argument_types params
    then some (function result params)
    else none

abbrev pub array_type : Ty → ℕ → Option Ty
array_type contained num_elements =
    if is_valid_element_type contained then some (array contained num_elements) else none
