-- ===== src/Map/PathFinding.antt =====
-- The search for a way on the map: AStarNodes, Map::canWalkTo and Map::getPathTo of
-- source 7.6/map.h and map.cpp. Search has getPathTo. A node is known by its index in the array. A coordinate is an
-- integer; f, g and h are never negative in the code and are numbers, which do not overflow here.
pub mod Search
pub mod Nodes
pub mod Progress
pub mod Links
pub mod Way
pub mod Ends
pub mod Arrives
mod Tests
use jamera_server.Base.{
  ℕ, zero, suc, ◌+◌, ◌-◌, ◌*◌, Bool, true, false, not, ◌&&◌, ◌||◌, Option, none, some, ltb, leb,
  ◌==◌, if◌then◌else◌, List, [], ◌∷◌,
}
use jamera_server.Base.Int.{ℤ, pos, negsuc, pos_part, neg_part, ◌+ℤ◌, ◌-ℤ◌}

-- Two ints are the same.
abbrev pub eq_ℤ : ℤ → ℤ → Bool
eq_ℤ a b = pos_part a + neg_part b == pos_part b + neg_part a

-- std::abs(a - b)
abbrev pub abs_sub : ℤ → ℤ → ℕ
abs_sub a b = pos_part (a -ℤ b) + neg_part (a -ℤ b)

pub data Direction : Type 0 where
  north : Direction
  east : Direction
  south : Direction
  west : Direction
  southwest : Direction
  southeast : Direction
  northwest : Direction
  northeast : Direction

-- A row of neighbourOrderList is named by the direction it leads to; these are its two columns.
abbrev pub offset_x : Direction → ℤ
offset_x north = pos 0
offset_x east = pos 1
offset_x south = pos 0
offset_x west = negsuc 0
offset_x southwest = negsuc 0
offset_x southeast = pos 1
offset_x northwest = negsuc 0
offset_x northeast = pos 1

abbrev pub offset_y : Direction → ℤ
offset_y north = negsuc 0
offset_y east = pos 0
offset_y south = pos 1
offset_y west = pos 0
offset_y southwest = pos 1
offset_y southeast = pos 1
offset_y northwest = negsuc 0
offset_y northeast = negsuc 0

abbrev pub neighbour_order_list : List Direction
neighbour_order_list =
    west ∷ south ∷ east ∷ north ∷ northwest ∷ northeast ∷ southeast ∷ southwest ∷ []

pub record AStarNode : Type 0 where
  pub x : ℤ
  pub y : ℤ
  pub parent : Option ℕ
  pub f : ℕ
  pub g : ℕ
  pub h : ℕ

pub record AStarNodes : Type 0 where
  pub nodes : ℕ → AStarNode
  pub open_nodes : ℕ → Bool
  pub cur_node : ℕ

-- What the search asks of the creature and of the tiles, with the arguments x, y and z of a
-- position: getPosition, getWalkCache, the pointer getTile of the creature, Map::getTile,
-- __queryAdd with RET_NOERROR, whether creatures stand on a tile, whether it has a field that the
-- creature is not immune to; and maxSearchDist, none for -1.
pub record Walker : Type 0 where
  pub at_x : ℤ
  pub at_y : ℤ
  pub at_z : ℤ
  pub walk_cache : ℤ → ℤ → ℤ → ℕ
  pub own_tile : Option ℕ
  pub get_tile : ℤ → ℤ → ℤ → Option ℕ
  pub query_add : ℕ → Bool
  pub has_creatures : ℕ → Bool
  pub has_field : ℕ → Bool
  pub max_search_dist : Option ℕ

abbrev pub set_open : ℕ → Bool → (ℕ → Bool) → ℕ → Bool
set_open i b o j = if i == j then b else o j

-- AStarNodes::createOpenNode
unfoldable pub create_open_node : AStarNodes → Option (ℕ × AStarNodes)
create_open_node s =
    if leb 512 s.cur_node
    then none
    else some (
      s.cur_node,
      record s { cur_node = suc s.cur_node; open_nodes = set_open s.cur_node true s.open_nodes },
    )

-- The loop of getBestNode, with the numbers of nodes left, i, best_node_f, and the node found.
unfoldable pub best_from : AStarNodes → ℕ → ℕ → ℕ → Option ℕ → Option ℕ
best_from s zero i best_node_f best_node = best_node
best_from s (suc left) i best_node_f best_node =
    let better = ltb (s.nodes i).f best_node_f && s.open_nodes i in
    best_from s left (suc i) (if better then (s.nodes i).f else best_node_f)
      (if better then some i else best_node)

-- AStarNodes::getBestNode
abbrev pub get_best_node : AStarNodes → Option ℕ
get_best_node s = best_from s s.cur_node 0 100000 none

-- AStarNodes::closeNode
abbrev pub close_node : ℕ → AStarNodes → AStarNodes
close_node i s = if leb 512 i then s else record s { open_nodes = set_open i false s.open_nodes }

-- AStarNodes::openNode
abbrev pub open_node : ℕ → AStarNodes → AStarNodes
open_node i s = if leb 512 i then s else record s { open_nodes = set_open i true s.open_nodes }

-- AStarNodes::countClosedNodes and countOpenNodes, over the first nodes
unfoldable pub count_nodes : (ℕ → Bool) → ℕ → ℕ
count_nodes p zero = 0
count_nodes p (suc i) = (if p i then 1 else 0) + count_nodes p i

abbrev pub count_closed_nodes : AStarNodes → ℕ
count_closed_nodes s = count_nodes (λ i. not (s.open_nodes i)) s.cur_node

abbrev pub count_open_nodes : AStarNodes → ℕ
count_open_nodes s = count_nodes s.open_nodes s.cur_node

-- The loop of getNodeInList.
unfoldable pub node_from : AStarNodes → ℤ → ℤ → ℕ → ℕ → Option ℕ
node_from s x y zero i = none
node_from s x y (suc left) i =
    let rest = node_from s x y left (suc i) in
    if eq_ℤ (s.nodes i).x x && eq_ℤ (s.nodes i).y y then some i else rest

-- AStarNodes::getNodeInList
abbrev pub get_node_in_list : AStarNodes → ℤ → ℤ → Option ℕ
get_node_in_list s x y = node_from s x y s.cur_node 0

-- AStarNodes::getMapWalkCost
unfoldable pub get_map_walk_cost : AStarNode → ℤ → ℤ → ℕ
get_map_walk_cost n x y = if abs_sub n.x x == abs_sub n.y y then 25 else 10

-- AStarNodes::getTileWalkCost
unfoldable pub get_tile_walk_cost : Walker → ℕ → ℕ
get_tile_walk_cost w tile =
    (if w.has_creatures tile then 10 * 3 else 0) + (if w.has_field tile then 10 * 3 else 0)

-- AStarNodes::getEstimatedDistance
unfoldable pub get_estimated_distance : ℤ → ℤ → ℤ → ℤ → ℕ
get_estimated_distance x y x_goal y_goal =
    let a = abs_sub x x_goal in
    let b = abs_sub y y_goal in
    let h_diagonal = if ltb b a then b else a in
    let h_straight = a + b in 25 * h_diagonal + 10 * (h_straight - 2 * h_diagonal)

abbrev pub same_tile : Option ℕ → Option ℕ → Bool
same_tile none none = true
same_tile (some a) (some b) = a == b
same_tile a b = false

abbrev pub may_enter : Walker → Option ℕ → Bool
may_enter w none = false
may_enter w (some tile) = w.query_add tile

-- Map::canWalkTo
unfoldable pub can_walk_to : Walker → ℤ → ℤ → ℤ → Option ℕ
can_walk_to w x y z =
    let tile = w.get_tile x y z in
    if w.walk_cache x y z == 0
    then none
    else if w.walk_cache x y z == 1
    then tile
    else if same_tile w.own_tile tile
    then tile
    else if may_enter w tile
    then tile
    else none
