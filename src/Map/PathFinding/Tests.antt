-- ===== src/Map/PathFinding/Tests.antt =====
-- Tests of the search for a way, with a concrete input for the theorem about it.
use jamera_server.Base.{
  ℕ, ◌+◌, ◌*◌, ◌≡◌, refl, Option, none, some, true, false, not, ◌&&◌, ltb, ◌==◌, if◌then◌else◌, [],
  ◌∷◌,
}
use jamera_server.Base.Int.{ℤ, pos, negsuc, ◌+ℤ◌, ◌-ℤ◌}
use jamera_server.Map.PathFinding.{
  AStarNode, Walker, east, south, northeast, can_walk_to, best_from, node_from, create_open_node,
  get_map_walk_cost, get_tile_walk_cost, get_estimated_distance, count_nodes,
}
use jamera_server.Map.PathFinding.Search.{
  get_path_to, returns_true, returns_false, path_of, follow, search_from, try_neighbours,
  try_neighbour, out_of_range, reach,
}
use jamera_server.Map.PathFinding.Arrives.{Arrives, get_path_to-Arrives}

-- A floor of 3 by 3 tiles with a wall at (1, 0).
abbrev tile_at : ℤ → ℤ → ℤ → Option ℕ
tile_at (pos x) (pos y) z =
    if ltb x 3 && ltb y 3 && not (x == 1 && y == 0) then some (10 * x + y) else none
tile_at (pos x) (negsuc y) z = none
tile_at (negsuc x) y z = none

abbrev creature : Walker
creature = record {
  at_x = pos 0;
  at_y = pos 0;
  at_z = pos 7;
  walk_cache = λ x y z. 2;
  own_tile = some 0;
  get_tile = tile_at;
  query_add = λ tile. true;
  has_creatures = λ tile. tile == 21;
  has_field = λ tile. false;
  max_search_dist = none;
}

abbrev raw_node : ℕ → AStarNode
raw_node i = record { x = pos 0; y = pos 0; parent = none; f = 0; g = 0; h = 0 }

-- The way round the wall, and none to a tile where no creature can go.
round_the_wall :
    get_path_to 30 raw_node creature (pos 2) (pos 0) (pos 7)
    ≡ returns_true (south ∷ east ∷ northeast ∷ [])
unfolding get_path_to can_walk_to path_of follow search_from best_from try_neighbours try_neighbour
    out_of_range reach node_from create_open_node get_map_walk_cost get_tile_walk_cost
    get_estimated_distance count_nodes ◌+ℤ◌ ◌-ℤ◌
round_the_wall = refl

into_the_wall : get_path_to 30 raw_node creature (pos 1) (pos 0) (pos 7) ≡ returns_false
unfolding get_path_to can_walk_to
into_the_wall = refl

get_path_to-Arrives_example :
    (fuel : ℕ) × ((k : ℕ)
      → Arrives creature
          (pos 2)
          (pos 0)
          (pos 7)
          (get_path_to (k + fuel) raw_node creature (pos 2) (pos 0) (pos 7)))
get_path_to-Arrives_example = get_path_to-Arrives raw_node creature (pos 2) (pos 0) (pos 7)
