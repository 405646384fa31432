-- ===== src/ParallelMov.antt =====
-- topo_sort of src/codegen_new/codegen.cc, which puts the moves between registers of `parallel_mov`
-- into an order, and the loop that emits them. Registers are their numbers.
pub mod Moves
pub mod Once
pub mod Nodes
pub mod Finish
pub mod Search
pub mod Acyclic
pub mod Emit
mod Tests
use poly_cminus.Prelude.{
  ℕ, zero, suc, ◌==◌, ◌||◌, ◌&&◌, ltb, leb, length, Bool, true, false, if◌then◌else◌, Option, none,
  some, ◌>>=◌, List, [], ◌∷◌, ◌++◌,
}
use poly_cminus.Uses.{put}
use poly_cminus.Dominators.Search.{without}

pub data MoveType : Type 0 where
  ireg freg : MoveType

-- A move, an edge of the graph.
pub record Edge : Type 0 where
  pub from : ℕ
  pub to : ℕ

-- `visited`: 0, 1 and 2.
pub data Mark : Type 0 where
  unseen on_path finished : Mark

abbrev pub is_finished : Mark → Bool
is_finished finished = true
is_finished m = false

abbrev pub is_on_path : Mark → Bool
is_on_path on_path = true
is_on_path m = false

-- `nodes` in falling and `temp_pool` in rising order, `edges` in the order of their insertion.
pub record Sorting : Type 0 where
  pub visited : ℕ → Mark
  pub nodes : List ℕ
  pub edges : List Edge
  pub temp_pool : List ℕ
  pub nret : List Edge

-- `set.insert`, by an order.
abbrev pub insert_by : (ℕ → ℕ → Bool) → ℕ → List ℕ → List ℕ
insert_by before x [] = x ∷ []
insert_by before x (y ∷ ys) =
    if x == y then y ∷ ys else if before x y then x ∷ y ∷ ys else y ∷ insert_by before x ys

abbrev pub falling : ℕ → ℕ → Bool
falling x y = ltb y x

abbrev pub insert_node : ℕ → List ℕ → List ℕ
insert_node = insert_by falling

abbrev pub insert_temp : ℕ → List ℕ → List ℕ
insert_temp = insert_by ltb

-- `edges.equal_range(n)`
abbrev pub edges_of : ℕ → List Edge → List Edge
edges_of n [] = []
edges_of n (e ∷ es) = if e.from == n then e ∷ edges_of n es else edges_of n es

-- `edges.erase(n)`
abbrev pub erase : ℕ → List Edge → List Edge
erase n [] = []
erase n (e ∷ es) = if e.from == n then erase n es else e ∷ erase n es

abbrev pub is_spare : MoveType → ℕ → Bool
is_spare ireg n = leb 10 n
is_spare freg n = leb 30 n

abbrev pub first_pool : MoveType → List ℕ
first_pool ireg = 22 ∷ 23 ∷ 24 ∷ 25 ∷ 26 ∷ 27 ∷ []
first_pool freg = 30 ∷ 31 ∷ []

-- The node in a cycle, if one was met.
pub record Found : Type 0 where
  pub state : Sorting
  pub cycle : Option ℕ

abbrev pub has_move : List Edge → Edge → Bool
has_move [] e = false
has_move (f ∷ fs) e = (e.from == f.from && e.to == f.to) || has_move fs e

-- `set_ret`, by its size.
abbrev pub set_of_moves : List Edge → List Edge
set_of_moves [] = []
set_of_moves (e ∷ es) = let rest = set_of_moves es in if has_move es e then rest else e ∷ rest

module _ (kind : MoveType) where
  abbrev pub set_visited : ℕ → Mark → Sorting → Sorting
  set_visited n m s = record s { visited = put s.visited n m }

  -- The end of a node whose edges lead to no cycle.
  abbrev pub finish : ℕ → Sorting → Sorting
  finish n s = record s {
    visited = put s.visited n finished;
    nodes = without s.nodes n;
    temp_pool = if is_spare kind n then insert_temp n s.temp_pool else s.temp_pool;
    nret = s.nret ++ edges_of n s.edges;
  }

  abbrev pub dfs_next : (Sorting → Option Found) → ℕ → Found → Option Found
  dfs_next rest n r = elim (r.cycle) [
    | none ↦ rest r.state
    | some c ↦ some (record { state = set_visited n unseen r.state; cycle = some c })
  ]

  abbrev pub dfs_each : (ℕ → Sorting → Option Found) → ℕ → List Edge → Sorting → Option Found
  dfs_each go n [] s = some (record { state = finish n s; cycle = none })
  dfs_each go n (e ∷ es) s = go e.to s >>= dfs_next (dfs_each go n es) n

  unfoldable pub dfs : ℕ → ℕ → Sorting → Option Found
  dfs zero n s = none
  dfs (suc fuel) n s =
      if is_finished (s.visited n)
      then some (record { state = s; cycle = none })
      else if is_on_path (s.visited n)
      then some (record { state = set_visited n unseen s; cycle = some n })
      else dfs_each (dfs fuel) n (edges_of n s.edges) (set_visited n on_path s)

  abbrev pub moved_to : ℕ → List Edge → List Edge
  moved_to temp [] = []
  moved_to temp (e ∷ es) = record { from = temp; to = e.to } ∷ moved_to temp es

  -- A register of the pool takes the value of a node in a cycle, and its edges.
  abbrev pub break_cycle : ℕ → List ℕ → Sorting → Option Sorting
  break_cycle c [] s = none
  break_cycle c (temp ∷ pool) s =
      let edges = erase temp s.edges in
      some (record {
        visited = put s.visited temp unseen;
        nodes = insert_node temp s.nodes;
        edges = erase c edges ++ moved_to temp (edges_of c edges);
        temp_pool = pool;
        nret = s.nret ++ record { from = c; to = temp } ∷ [];
      })

  abbrev pub after_dfs : Found → Option Sorting
  after_dfs r = elim (r.cycle) [
    | none ↦ some r.state
    | some c ↦ break_cycle c r.state.temp_pool r.state
  ]

  -- The body of the loop `while (not nodes.empty())`; a node that was visited is met again and again.
  abbrev pub sort_step : ℕ → ℕ → Sorting → Option Sorting
  sort_step depth n s = elim (s.visited n) [ unseen ↦ dfs depth n s >>= after_dfs | _ ↦ some s ]

  unfoldable pub sort_nodes : ℕ → ℕ → Sorting → Option Sorting
  sort_nodes zero depth s = elim (s.nodes) [ [] ↦ some s | n ∷ ns ↦ none ]
  sort_nodes (suc rounds) depth s = elim (s.nodes) [
    | [] ↦ some s
    | n ∷ ns ↦ sort_step depth n s >>= sort_nodes rounds depth
  ]

  -- `nodes.insert({from.id, to.id})` for every move.
  abbrev pub nodes_of : List Edge → List ℕ
  nodes_of [] = []
  nodes_of (e ∷ es) = insert_node e.from (insert_node e.to (nodes_of es))

  abbrev pub start : List Edge → Sorting
  start edges = record {
    visited = λ n. unseen;
    nodes = nodes_of edges;
    edges = edges;
    temp_pool = first_pool kind;
    nret = [];
  }

  -- `topo_sort`, whose assertion fails where a move is in the result twice.
  abbrev pub topo_sort : ℕ → ℕ → List Edge → Option (List Edge)
  topo_sort rounds depth edges = sort_nodes rounds depth (start edges) >>= λ s.
      if length (set_of_moves s.nret) == length s.nret then some s.nret else none

-- The moves that are emitted, on a register file.
abbrev pub run_moves : {V : Type 0} → List Edge → (ℕ → V) → ℕ → V
run_moves [] r = r
run_moves (e ∷ es) r = run_moves es (put r e.to (r e.from))
