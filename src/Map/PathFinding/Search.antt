-- ===== src/Map/PathFinding/Search.antt =====
-- Map::getPathTo of source 7.6/map.cpp. Its loop runs on fuel, and so does the one that follows
-- the parents of the node found; this one gets what the cost g of the node allows.
use jamera_server.Base.{
  ℕ, zero, suc, ◌+◌, Bool, true, false, not, ◌&&◌, ◌||◌, Option, none, some, ltb, leb, ◌==◌,
  if◌then◌else◌, List, [], ◌∷◌,
}
use jamera_server.Base.Int.{ℤ, pos, negsuc, ◌+ℤ◌, ◌-ℤ◌}
use jamera_server.Map.PathFinding.{
  AStarNode, AStarNodes, Direction, Walker, abs_sub, can_walk_to, close_node, count_closed_nodes,
  create_open_node, east, eq_ℤ, get_best_node, get_estimated_distance, get_map_walk_cost,
  get_node_in_list, get_tile_walk_cost, neighbour_order_list, north, northeast, northwest, offset_x,
  offset_y, open_node, set_open, south, southeast, southwest, west,
}

-- outOfRange
unfoldable pub out_of_range : Walker → ℤ → ℤ → Bool
out_of_range w x y = elim w.max_search_dist [
  | none ↦ false
  | some d ↦ ltb d (abs_sub w.at_x x) || ltb d (abs_sub w.at_y y)
]

abbrev pub write : ℕ → AStarNode → AStarNodes → AStarNodes
write i a s = record s { nodes = λ j. if i == j then a else s.nodes j }

-- The node that is written for a neighbour.
abbrev pub node_at : Walker → ℤ → ℤ → Option ℕ → ℕ → AStarNode
node_at w x y parent g =
    let h = get_estimated_distance x y w.at_x w.at_y in
    record { x = x; y = y; parent = parent; f = g + h; g = g; h = h }

-- A neighbour that can be walked to, at the cost newg by way of n: none if the nodes ran out.
unfoldable pub reach : Walker → ℕ → ℤ → ℤ → ℕ → AStarNodes → Option AStarNodes
reach w n x y newg s = elim (get_node_in_list s x y) [
  | some i ↦
      if leb (s.nodes i).g newg
      then some s
      else some (write i (node_at w x y (some n) newg) (open_node i s))
  | none ↦ elim (create_open_node s) [
    | none ↦ none
    | some (i, made) ↦ some (write i (node_at w x y (some n) newg) made)
  ]
]

-- One turn of the loop over the neighbours of n.
unfoldable pub try_neighbour : Walker → ℤ → ℕ → Direction → AStarNodes → Option AStarNodes
try_neighbour w z n d s =
    let x = (s.nodes n).x +ℤ offset_x d in
    let y = (s.nodes n).y +ℤ offset_y d in
    if out_of_range w x y then some s else elim (can_walk_to w x y z) [
      | none ↦ some s
      | some tile ↦
          reach w n x y
            ((s.nodes n).g + get_map_walk_cost (s.nodes n) x y + get_tile_walk_cost w tile) s
    ]

unfoldable pub try_neighbours : Walker → ℤ → ℕ → List Direction → AStarNodes → Option AStarNodes
try_neighbours w z n [] s = some s
try_neighbours w z n (d ∷ ds) s = elim (try_neighbour w z n d s) [
  | none ↦ none
  | some after ↦ try_neighbours w z n ds after
]

-- How the search ends: without a way, or with the node found and the nodes then.
pub data Search : Type 0 where
  out_of_fuel : Search
  no_path : Search
  found : ℕ → AStarNodes → Search

-- The condition of the loop: maxSearchDist != -1 || nodes.countClosedNodes() < 100
abbrev pub goes_on : Walker → AStarNodes → Bool
goes_on w s = elim w.max_search_dist [ none ↦ ltb (count_closed_nodes s) 100 | some d ↦ true ]

abbrev pub is_there : Walker → AStarNode → Bool
is_there w n = eq_ℤ n.x w.at_x && eq_ℤ n.y w.at_y

unfoldable pub search_from : ℕ → Walker → ℤ → AStarNodes → Search
search_from zero w z s = out_of_fuel
search_from (suc fuel) w z s = if not (goes_on w s) then no_path else elim (get_best_node s) [
  | none ↦ no_path
  | some n ↦
      if is_there w (s.nodes n)
      then found n s
      else elim (try_neighbours w z n neighbour_order_list s) [
        | none ↦ no_path
        | some after ↦ search_from fuel w z (close_node n after)
      ]
]

-- What is pushed for dx and dy.
abbrev pub direction_of : ℤ → ℤ → Option Direction
direction_of dx dy =
    if eq_ℤ dx (negsuc 0) && eq_ℤ dy (negsuc 0)
    then some northwest
    else if eq_ℤ dx (pos 1) && eq_ℤ dy (negsuc 0)
    then some northeast
    else if eq_ℤ dx (negsuc 0) && eq_ℤ dy (pos 1)
    then some southwest
    else if eq_ℤ dx (pos 1) && eq_ℤ dy (pos 1)
    then some southeast
    else if eq_ℤ dx (negsuc 0)
    then some west
    else if eq_ℤ dx (pos 1)
    then some east
    else if eq_ℤ dy (negsuc 0)
    then some north
    else if eq_ℤ dy (pos 1)
    then some south
    else none

abbrev pub push_direction : Option Direction → List Direction → List Direction
push_direction none l = l
push_direction (some d) l = d ∷ l

-- while(found): none if the fuel ran out.
unfoldable pub follow : ℕ → AStarNodes → Option ℕ → ℤ → ℤ → Option (List Direction)
follow zero s at prevx prevy = none
follow (suc fuel) s none prevx prevy = some []
follow (suc fuel) s (some i) prevx prevy =
    let n = s.nodes i in
    elim (follow fuel s n.parent n.x n.y) [
      | none ↦ none
      | some l ↦ some (push_direction (direction_of (n.x -ℤ prevx) (n.y -ℤ prevy)) l)
    ]

-- The first node, at the destination.
abbrev pub start_nodes : (ℕ → AStarNode) → Walker → ℤ → ℤ → AStarNodes
start_nodes raw w x y = record {
  nodes = λ j. if 0 == j then node_at w x y none 0 else raw j;
  open_nodes = set_open 0 true (λ i. false);
  cur_node = 1;
}

-- What getPathTo returns: false, or true with listDir.
pub data PathTo : Type 0 where
  no_fuel : PathTo
  returns_false : PathTo
  returns_true : List Direction → PathTo

abbrev pub path_to : Option (List Direction) → PathTo
path_to none = no_fuel
path_to (some []) = returns_false
path_to (some (d ∷ ds)) = returns_true (d ∷ ds)

-- What is done with the node found.
unfoldable pub path_of : Walker → Search → PathTo
path_of w out_of_fuel = no_fuel
path_of w no_path = returns_false
path_of w (found n s) = path_to (follow (suc (suc (s.nodes n).g)) s (some n) w.at_x w.at_y)

-- Map::getPathTo, for the position destPos
unfoldable pub get_path_to : ℕ → (ℕ → AStarNode) → Walker → ℤ → ℤ → ℤ → PathTo
get_path_to fuel raw w x y z = elim (can_walk_to w x y z) [
  | none ↦ returns_false
  | some tile ↦
      if eq_ℤ z w.at_z
      then path_of w (search_from fuel w z (start_nodes raw w x y))
      else returns_false
]
