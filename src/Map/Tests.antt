-- ===== src/Map/Tests.antt =====
-- Tests of the map, with a concrete input for each theorem about it.
use jamera_server.Base.{
  ℕ, ◌+◌, ◌^◌, ◌<◌, ◌≡◌, refl, true, false, Option, some, none, arith, List, [], ◌∷◌,
}
use jamera_server.Map.{
  Map, get_tile, get_leaf, set_tile, create_leaf, empty_map, link_leaf, put_tile, remember,
}
use jamera_server.Map.Refine.{Call, set_tiles, first, set_tiles-first, set_tiles-links}

-- Two tiles beside each other on different leaves, a second one for a position, and one that is
-- on no floor.
abbrev calls : List Call
calls =
    record {
      now = 1;
      x = 103;
      y = 50;
      z = 7;
      tile = record { pointer = 1; refresh = false; down_items = [] };
    }
    ∷ record {
      now = 2;
      x = 104;
      y = 50;
      z = 7;
      tile = record { pointer = 2; refresh = true; down_items = 5 ∷ [] };
    }
    ∷ record {
      now = 3;
      x = 103;
      y = 50;
      z = 7;
      tile = record { pointer = 3; refresh = false; down_items = [] };
    }
    ∷ record {
      now = 4;
      x = 103;
      y = 50;
      z = 16;
      tile = record { pointer = 4; refresh = false; down_items = [] };
    }
    ∷ []

abbrev clone : ℕ → ℕ
clone item = item + 100

abbrev map_of : Option Map → Map
map_of none = empty_map
map_of (some m) = m

first_tile : get_tile (map_of (set_tiles clone calls empty_map)) 103 50 7 ≡ some 1
unfolding get_tile get_leaf set_tile create_leaf link_leaf put_tile remember
first_tile = refl

east_leaf : ((map_of (set_tiles clone calls empty_map)).leaves 0).leaf_e ≡ some 1
unfolding get_tile get_leaf set_tile create_leaf link_leaf put_tile remember
east_leaf = refl

set_tiles-first_example :
    (m : Map) × (set_tiles clone calls empty_map ≡ some m)
    × ((x y z : ℕ) → x < 2 ^ 16 → y < 2 ^ 16 → get_tile m x y z ≡ first calls x y z)
set_tiles-first_example = set_tiles-first clone calls (omega arith)

set_tiles-links_example :
    (m : Map) × (set_tiles clone calls empty_map ≡ some m)
    × ((x y l : ℕ)
        → get_leaf m.root x y ≡ some l
        → ((m.leaves l).leaf_s ≡ get_leaf m.root x (y + 8))
          × ((m.leaves l).leaf_e ≡ get_leaf m.root (x + 8) y))
set_tiles-links_example = set_tiles-links clone calls (omega arith)
