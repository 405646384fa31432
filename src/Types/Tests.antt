-- ===== src/Types/Tests.antt =====
-- Sizes and shapes at types of src/MIR_new/Type.cc.
use poly_cminus.Prelude.{◌*◌, ◌%◌, ◌^◌, some, none, [], ◌∷◌, ◌≡◌, refl}
use poly_cminus.Types.{
  Ty, integer, array, pointer, label, float, void, next, none_left, get_size, get_shape,
  function_type,
}
use poly_cminus.Types.Shapes.{product, array_of, array_of-get_shape}

get_size-pointer_to_array : get_size (pointer (array (integer 32) 10)) ≡ 40
unfolding get_size
get_size-pointer_to_array = refl

get_size-bool : get_size (integer 1) ≡ 1
unfolding get_size
get_size-bool = refl

function_type-label : function_type void (next float (next label none_left)) ≡ none
function_type-label = refl

array_of-get_shape_example :
    (c : Ty) × (array_of (integer 32) (3 ∷ 4 ∷ []) ≡ some (array c 3))
    × (get_shape (array c 3) ≡ 3 ∷ 4 ∷ [])
    × (get_size (array c 3) ≡ get_size (integer 32) * product (3 ∷ 4 ∷ []) % 2 ^ 32)
array_of-get_shape_example = array_of-get_shape (integer 32) 3 (4 ∷ []) refl
