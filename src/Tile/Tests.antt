-- ===== src/Tile/Tests.antt =====
-- Tests of a tile, with a concrete input for each theorem about it.
use jamera_server.Base.{Bool, ◌≡◌, refl, ◌↔◌, true, false, some, ◌==◌, [], ◌∷◌, count, ◌*◌}
use jamera_server.Tile.{
  Items, ItemType, Things, World, get_thing, get_index_of_thing, get_top_thing, stack,
}
use jamera_server.Tile.Flags.{add_flags, has_property, set_flags}
use jamera_server.Tile.Operations.{add_thing, remove_thing}
use jamera_server.Tile.Query.{query_remove, query_add_item, no_error, not_enough_room}
use jamera_server.Tile.Places.{Placed, part, by_parts}
use jamera_server.Tile.Counting.{Counted}
use jamera_server.Tile.Apart.{Apart}
use jamera_server.Tile.Reach.{
  Absent, Reach, here, next, adds, empty_world, Reach-Placed, Reach-index,
}
use jamera_server.Tile.Removal.{Taken, query_remove-Taken}

abbrev plain : ItemType
plain = record {
  ground_tile = false;
  splash = false;
  magic_field = false;
  bed = false;
  always_on_top = false;
  always_on_top_order = 0;
  stackable = true;
  moveable = true;
  pickupable = true;
  allow_pickupable = false;
  replaceable = false;
  block_solid = false;
  has_height = false;
  block_projectile = false;
  block_path_find = false;
  is_vertical = false;
  is_horizontal = false;
  is_hangable = false;
  floor_change_down = false;
  floor_change_north = false;
  floor_change_south = false;
  floor_change_east = false;
  floor_change_west = false;
}

-- Id 100 is a ground, 200 a wall on top, everything else coins.
abbrev items : Items
items id = record plain {
  ground_tile = id == 100;
  always_on_top = id == 200;
  always_on_top_order = 2;
  stackable = id == 300;
  block_solid = id == 200;
}

-- Pointer 1 is a ground, 2 a wall, 3 coins and 4 a creature.
abbrev things : Things
things = record {
  creature = λ x. x == 4;
  id = λ x. x * 100;
  unique_id = λ x. 0;
  item_count = λ x. 10;
  field = λ x. false;
  teleport = λ x. false;
  here = λ x. false;
  freed = [];
}

abbrev grounded : World
grounded = add_thing items 1 (empty_world things)

abbrev walled : World
walled = add_thing items 2 grounded

abbrev full : World
full = add_thing items 3 (add_thing items 4 walled)

stacked : stack full.tile ≡ 1 ∷ 2 ∷ 4 ∷ 3 ∷ []
unfolding add_thing add_flags
stacked = refl

top_thing : get_top_thing full.tile ≡ some 4
unfolding add_thing add_flags get_top_thing
top_thing = refl

wall_blocks : full.tile.flags 15 ≡ true
unfolding add_thing add_flags has_property set_flags
wall_blocks = refl

no_room_for_coins : query_add_item items 3 false false walled ≡ not_enough_room
unfolding query_add_item add_thing add_flags
no_room_for_coins = refl

new_1 : Absent 1 (empty_world things)
new_1 = by_parts (λ k. count 1 (part k (empty_world things).tile) ≡ 0) refl refl refl refl

new_2 : Absent 2 grounded
unfolding add_thing add_flags
new_2 = by_parts (λ k. count 2 (part k grounded.tile) ≡ 0) refl refl refl refl

new_4 : Absent 4 walled
unfolding add_thing add_flags
new_4 = by_parts (λ k. count 4 (part k walled.tile) ≡ 0) refl refl refl refl

new_3 : Absent 3 (add_thing items 4 walled)
unfolding add_thing add_flags
new_3 = by_parts (λ k. count 3 (part k (add_thing items 4 walled).tile) ≡ 0) refl refl refl refl

full-Reach : (keeps : Bool) → Reach items keeps (empty_world things) full
full-Reach keeps =
    next
      (next (next (next here (adds 1 (empty_world things) new_1)) (adds 2 grounded new_2))
        (adds 4 walled new_4))
      (adds 3 (add_thing items 4 walled) new_3)

Reach-Placed_example : Placed items full × Apart full × Counted full
Reach-Placed_example = Reach-Placed items things full (full-Reach true)

Reach-index_example : (get_index_of_thing full.tile 3 ≡ some 3) ↔ (get_thing full.tile 3 ≡ some 3)
Reach-index_example = Reach-index items things full (full-Reach false) 3 3

full-Placed : Placed items full
full-Placed = (Reach-Placed items things full (full-Reach true)).0

coins_agreed : query_remove items 3 4 false full ≡ no_error
unfolding query_remove add_thing add_flags get_index_of_thing
coins_agreed = refl

query_remove-Taken_example : Taken items 3 4 full (remove_thing items 3 4 full)
query_remove-Taken_example = query_remove-Taken items 3 4 false full full-Placed coins_agreed
