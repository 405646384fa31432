-- ===== src/FuncInfo/Sample.antt =====
-- A module for the tests of passes on functions: 0 is `main`, which calls 1 and 3; 1 is pure, 2
-- stores to the global variable 7, 3 calls 2. 8 is a constant.
use poly_cminus.Prelude.{ℕ, lookup, none, some, List, [], ◌∷◌, true, false}
use poly_cminus.Uses.{Use}
use poly_cminus.Types.{Ty}
use poly_cminus.IrCheck.Values.{Kind, Class, Module}
use poly_cminus.FuncInfo.{Program}

abbrev pub uses_of : List (ℕ × List Use)
uses_of =
    (1, record { user = 20; arg_no = 0 } ∷ [])
    ∷ (2, record { user = 28; arg_no = 0 } ∷ [])
    ∷ (3, record { user = 21; arg_no = 0 } ∷ [])
    ∷ (7, record { user = 26; arg_no = 1 } ∷ [])
    ∷ (
      8,
      record { user = 22; arg_no = 1 }
          ∷ record { user = 23; arg_no = 0 }
          ∷ record { user = 26; arg_no = 0 }
          ∷ [],
    )
    ∷ (20, record { user = 22; arg_no = 0 } ∷ [])
    ∷ (24, record { user = 25; arg_no = 0 } ∷ [])
    ∷ []

abbrev pub sample : Module
sample = record {
  globals = 7 ∷ [];
  functions = 0 ∷ 1 ∷ 2 ∷ 3 ∷ [];
  args = λ f. [];
  basic_blocks = lookup [] ((0, 10 ∷ []) ∷ (1, 11 ∷ []) ∷ (2, 12 ∷ []) ∷ (3, 13 ∷ []) ∷ []);
  instructions = lookup [] (
      (10, 20 ∷ 21 ∷ 22 ∷ 23 ∷ [])
      ∷ (11, 24 ∷ 25 ∷ [])
      ∷ (12, 26 ∷ 27 ∷ [])
      ∷ (13, 28 ∷ 29 ∷ [])
      ∷ []);
  class_of = lookup Class.instruction (
      (0, Class.function)
      ∷ (1, Class.function)
      ∷ (2, Class.function)
      ∷ (3, Class.function)
      ∷ (7, Class.global)
      ∷ (8, Class.constant)
      ∷ []);
  kind = lookup Kind.other (
      (20, Kind.call)
      ∷ (21, Kind.call)
      ∷ (23, Kind.ret)
      ∷ (25, Kind.ret)
      ∷ (26, Kind.store)
      ∷ (27, Kind.ret)
      ∷ (28, Kind.call)
      ∷ (29, Kind.ret)
      ∷ []);
  parent = λ v. none;
  graph = record { pre = λ b. []; succ = λ b. [] };
  store = record {
    operands = lookup [] (
        (20, some 1 ∷ [])
        ∷ (21, some 3 ∷ [])
        ∷ (22, some 20 ∷ some 8 ∷ [])
        ∷ (23, some 8 ∷ [])
        ∷ (25, some 24 ∷ [])
        ∷ (26, some 8 ∷ some 7 ∷ [])
        ∷ (28, some 2 ∷ [])
        ∷ []);
    use_list = lookup [] uses_of;
  };
}

abbrev pub program : Program
program = record {
  values = sample;
  type_of = λ v. Ty.integer 32;
  params = lookup [] ((1, Ty.integer 32 ∷ []) ∷ []);
  is_main = lookup false ((0, true) ∷ []);
  get_function = lookup 0 ((24, 1) ∷ (25, 1) ∷ (26, 2) ∷ (27, 2) ∷ (28, 3) ∷ (29, 3) ∷ []);
}
