-- ===== src/Tile/Flags.antt =====
-- The properties of items and the flags of a tile: hasProperty of source 7.6/item.cpp and
-- updateTileFlags of source 7.6/tile.cpp.
use jamera_server.Base.{ℕ, Bool, true, false, not, ◌&&◌, ◌||◌, ◌==◌, if◌then◌else◌, List, [], ◌∷◌}
use jamera_server.Tile.{Items, ItemType, Things, Tile, World, type_of, ground_list}

pub data ItemProperty : Type 0 where
  block_solid : ItemProperty
  has_height : ItemProperty
  block_projectile : ItemProperty
  block_path : ItemProperty
  is_vertical : ItemProperty
  is_horizontal : ItemProperty
  moveable : ItemProperty
  immovable_block_solid : ItemProperty
  immovable_block_path : ItemProperty
  immovable_no_field_block_path : ItemProperty
  no_field_block_path : ItemProperty
  support_hangable : ItemProperty

-- !it.moveable || getUniqueId() != 0
abbrev pub fixed : ItemType → ℕ → Bool
fixed it unique_id = not it.moveable || not (unique_id == 0)

-- Item::hasProperty, for the type of the item and its uniqueId
unfoldable pub has_property : ItemType → ℕ → ItemProperty → Bool
has_property it unique_id block_solid = it.block_solid
has_property it unique_id has_height = it.has_height
has_property it unique_id block_projectile = it.block_projectile
has_property it unique_id block_path = it.block_path_find
has_property it unique_id is_vertical = it.is_vertical
has_property it unique_id is_horizontal = it.is_horizontal
has_property it unique_id moveable = it.moveable && unique_id == 0
has_property it unique_id immovable_block_solid = it.block_solid && fixed it unique_id
has_property it unique_id immovable_block_path = it.block_path_find && fixed it unique_id
has_property it unique_id immovable_no_field_block_path =
    not it.magic_field && it.block_path_find && fixed it unique_id
has_property it unique_id no_field_block_path = not it.magic_field && it.block_path_find
has_property it unique_id support_hangable = it.is_horizontal || it.is_vertical

abbrev pub item_has : Items → Things → ℕ → ItemProperty → Bool
item_has items s x p = has_property (type_of items s x) (s.unique_id x) p

abbrev pub any_has : Items → Things → ItemProperty → List ℕ → Bool
any_has items s p [] = false
any_has items s p (x ∷ xs) = item_has items s x p || any_has items s p xs

abbrev pub any_other_has : Items → Things → ItemProperty → ℕ → List ℕ → Bool
any_other_has items s p exclude [] = false
any_other_has items s p exclude (x ∷ xs) =
    not (x == exclude) && item_has items s x p || any_other_has items s p exclude xs

-- Tile::hasProperty(prop) and Tile::hasProperty(exclude, prop)
unfoldable pub tile_has_property : Items → Things → ItemProperty → Tile → Bool
tile_has_property items s p t =
    any_has items s p (ground_list t.ground)
    || any_has items s p t.top_items
    || any_has items s p t.down_items

unfoldable pub tile_has_other : Items → Things → ItemProperty → ℕ → Tile → Bool
tile_has_other items s p exclude t =
    any_other_has items s p exclude (ground_list t.ground)
    || any_other_has items s p exclude t.top_items
    || any_other_has items s p exclude t.down_items

-- setFlag and resetFlag of flags, each where its condition holds
unfoldable pub set_flags : List (ℕ × Bool) → (ℕ → Bool) → ℕ → Bool
set_flags [] m k = m k
set_flags ((flag, b) ∷ rest) m k = set_flags rest (λ j. if b && flag == j then true else m j) k

unfoldable pub reset_flags : List (ℕ × Bool) → (ℕ → Bool) → ℕ → Bool
reset_flags [] m k = m k
reset_flags ((flag, b) ∷ rest) m k = reset_flags rest (λ j. if b && flag == j then false else m j) k

-- TILESTATE_FLOORCHANGE is bit 7, the flags for down and the four sides are bits 8 to 12.
abbrev pub floor_flags : ItemType → List (ℕ × Bool)
floor_flags it =
    (7, it.floor_change_down)
    ∷ (8, it.floor_change_down)
    ∷ (7, it.floor_change_north)
    ∷ (9, it.floor_change_north)
    ∷ (7, it.floor_change_south)
    ∷ (10, it.floor_change_south)
    ∷ (7, it.floor_change_east)
    ∷ (11, it.floor_change_east)
    ∷ (7, it.floor_change_west)
    ∷ (12, it.floor_change_west)
    ∷ []

-- POSITIONCHANGE, MAGICFIELD, BLOCKSOLID, IMMOVABLEBLOCKSOLID, BLOCKPATH, NOFIELDBLOCKPATH and
-- IMMOVABLENOFIELDBLOCKPATH: those that an item sets
abbrev pub item_flags : Items → Things → ℕ → List (ℕ × Bool)
item_flags items s x =
    (13, s.teleport x)
    ∷ (14, s.field x)
    ∷ (15, item_has items s x block_solid)
    ∷ (17, item_has items s x immovable_block_solid)
    ∷ (16, item_has items s x block_path)
    ∷ (20, item_has items s x no_field_block_path)
    ∷ (19, item_has items s x immovable_no_field_block_path)
    ∷ []

-- An item has a property that no other item of the tile has.
abbrev pub alone : Items → Things → Tile → ℕ → ItemProperty → Bool
alone items s t x p = item_has items s x p && not (tile_has_other items s p x t)

-- Those that an item resets, with IMMOVABLEBLOCKPATH
abbrev pub lost_flags : Items → Things → Tile → ℕ → List (ℕ × Bool)
lost_flags items s t x =
    (13, s.teleport x)
    ∷ (14, s.field x)
    ∷ (15, alone items s t x block_solid)
    ∷ (17, alone items s t x immovable_block_solid)
    ∷ (16, alone items s t x block_path)
    ∷ (20, alone items s t x no_field_block_path)
    ∷ (18, alone items s t x immovable_block_path)
    ∷ (19, alone items s t x immovable_no_field_block_path)
    ∷ []

-- Tile::updateTileFlags, with removing false and true
unfoldable pub add_flags : Items → ℕ → World → World
add_flags items x w =
    let s = w.things in
    let floors = if w.tile.flags 7 then [] else floor_flags (type_of items s x) in
    record w {
      tile = record w.tile {
        flags = set_flags (item_flags items s x) (set_flags floors w.tile.flags);
      };
    }

unfoldable pub remove_flags : Items → ℕ → World → World
remove_flags items x w =
    let s = w.things in
    record w {
      tile = record w.tile {
        flags =
            reset_flags (lost_flags items s w.tile x)
              (reset_flags (floor_flags (type_of items s x)) w.tile.flags);
      };
    }
