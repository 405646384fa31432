-- ===== src/Dominators/Search.antt =====
-- `visit_block` and `visit_function` of src/Optimize/Dominators.cc: the depth-first search, and the
-- removal of the blocks that it does not reach.
use poly_cminus.Prelude.{
  ℕ, zero, suc, ◌==◌, ◌||◌, length, Bool, true, false, if◌then◌else◌, Option, none, some, ◌>>=◌,
  List, [], ◌∷◌, ◌++◌,
}
use poly_cminus.Uses.{put}
use poly_cminus.RemoveUselessBr.{Graph}

abbrev pub has : List ℕ → ℕ → Bool
has [] x = false
has (y ∷ ys) x = x == y || has ys x

-- The blocks of a function, the entry first, and their edges.
pub record Func : Type 0 where
  pub blocks : List ℕ
  pub graph : Graph

pub record Visit : Type 0 where
  pub visited : ℕ → Bool
  pub visit_index : ℕ → ℕ
  pub visit_order : List ℕ

abbrev pub mark_visited : ℕ → Visit → Visit
mark_visited b s = record s { visited = put s.visited b true }

abbrev pub number : ℕ → Visit → Visit
number b s = record s {
  visit_index = put s.visit_index b (length s.visit_order);
  visit_order = s.visit_order ++ b ∷ [];
}

-- The loop over the blocks ahead, with the recursive call.
abbrev pub visit_each : (ℕ → Visit → Option Visit) → List ℕ → Visit → Option Visit
visit_each go [] s = some s
visit_each go (b ∷ bs) s = (if s.visited b then some s else go b s) >>= visit_each go bs

unfoldable pub visit_block : (ℕ → List ℕ) → ℕ → ℕ → Visit → Option Visit
visit_block ahead zero b s = none
visit_block ahead (suc fuel) b s =
    visit_each (visit_block ahead fuel) (ahead b) (mark_visited b s) >>= λ s'. some (number b s')

abbrev pub unvisited : Visit
unvisited = record { visited = λ b. false; visit_index = λ b. 0; visit_order = [] }

-- `remove` of a list.
abbrev pub without : List ℕ → ℕ → List ℕ
without [] b = []
without (x ∷ xs) b = let rest = without xs b in if x == b then rest else x ∷ rest

abbrev pub forget : ℕ → List ℕ → (ℕ → List ℕ) → ℕ → List ℕ
forget b [] lists = lists
forget b (x ∷ xs) lists = forget b xs (put lists x (without (lists x) b))

-- `Function::remove_unreachable_basic_block`, as the blocks and the edges show it.
abbrev pub remove_unreachable_basic_block : ℕ → Func → Func
remove_unreachable_basic_block b f =
    let pre' = forget b (f.graph.succ b) f.graph.pre in
    record {
      blocks = without f.blocks b;
      graph = record { pre = pre'; succ = forget b (pre' b) f.graph.succ };
    }

abbrev pub remove_each : List ℕ → (ℕ → Bool) → Func → Func
remove_each [] visited f = f
remove_each (b ∷ bs) visited f =
    remove_each bs visited (if visited b then f else remove_unreachable_basic_block b f)

abbrev pub reversed : List ℕ → List ℕ → List ℕ
reversed [] acc = acc
reversed (x ∷ xs) acc = reversed xs (x ∷ acc)

pub record Order : Type 0 where
  pub func : Func
  pub visit_index : ℕ → ℕ
  pub visit_order : List ℕ

-- `visit_function`, from the entry or the exit.
unfoldable pub visit_function : (ℕ → List ℕ) → ℕ → ℕ → Func → Option Order
visit_function ahead fuel root f = visit_block ahead fuel root unvisited >>= λ s.
    let f' = remove_each f.blocks s.visited f in
    if length s.visit_order == length f'.blocks
    then some
        (record { func = f'; visit_index = s.visit_index; visit_order = reversed s.visit_order [] })
    else none
