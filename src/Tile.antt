-- ===== src/Tile.antt =====
-- The things on a tile: source 7.6/tile.h and tile.cpp, with the types of items of items.h and the
-- properties of source 7.6/item.cpp. A thing is the number of its pointer. What spectators are told
-- and the movement scripts are left out.
pub mod Flags
pub mod Operations
pub mod Query
pub mod Stack
pub mod Places
pub mod Adding
pub mod Counting
pub mod Replacing
pub mod Removal
pub mod Apart
pub mod Reach
mod Tests
use jamera_server.Base.{
  ℕ, zero, suc, ◌+◌, ◌-◌, ◌%◌, ◌^◌, Bool, true, false, not, ◌&&◌, ◌||◌, Option, none, some, ltb,
  ◌==◌, if◌then◌else◌, List, [], ◌∷◌, ◌++◌, length, get_elem?,
}

-- ItemType: the groups are three of the values of its group.
pub record ItemType : Type 0 where
  pub ground_tile : Bool
  pub splash : Bool
  pub magic_field : Bool
  pub bed : Bool
  pub always_on_top : Bool
  pub always_on_top_order : ℕ
  pub stackable : Bool
  pub moveable : Bool
  pub pickupable : Bool
  pub allow_pickupable : Bool
  pub replaceable : Bool
  pub block_solid : Bool
  pub has_height : Bool
  pub block_projectile : Bool
  pub block_path_find : Bool
  pub is_vertical : Bool
  pub is_horizontal : Bool
  pub is_hangable : Bool
  pub floor_change_down : Bool
  pub floor_change_north : Bool
  pub floor_change_south : Bool
  pub floor_change_east : Bool
  pub floor_change_west : Bool

abbrev pub Items : Type 0
Items = ℕ → ItemType

-- What is known of each pointer: whether it is a creature; for an item its id, its uniqueId, its
-- count and its charges, whether it is a MagicField or a Teleport by its class; whether its parent
-- is the tile; and the things given to FreeThing.
pub record Things : Type 0 where
  pub creature : ℕ → Bool
  pub id : ℕ → ℕ
  pub unique_id : ℕ → ℕ
  pub item_count : ℕ → ℕ
  pub field : ℕ → Bool
  pub teleport : ℕ → Bool
  pub here : ℕ → Bool
  pub freed : List ℕ

-- A flag is the number of its bit in m_flags.
pub record Tile : Type 0 where
  pub ground : Option ℕ
  pub top_items : List ℕ
  pub creatures : List ℕ
  pub down_items : List ℕ
  pub thing_count : ℕ
  pub flags : ℕ → Bool

pub record World : Type 0 where
  pub tile : Tile
  pub things : Things

abbrev pub type_of : Items → Things → ℕ → ItemType
type_of items s x = items (s.id x)

-- The place of a thing in a list, counted from n.
abbrev pub index_in : ℕ → ℕ → List ℕ → Option ℕ
index_in n x [] = none
index_in n x (y ∷ ys) = if y == x then some n else index_in (suc n) x ys

abbrev pub or_else : Option ℕ → Option ℕ → Option ℕ
or_else none o = o
or_else (some i) o = some i

-- The lists of Tile::__getIndexOfThing, from n on.
abbrev pub index_of_listed : ℕ → Tile → ℕ → Option ℕ
index_of_listed n t x = or_else (index_in n x t.top_items) (
    or_else (index_in (n + length t.top_items) x t.creatures)
      (index_in (n + length t.top_items + length t.creatures) x t.down_items))

-- Tile::__getIndexOfThing: none for -1
unfoldable pub get_index_of_thing : Tile → ℕ → Option ℕ
get_index_of_thing t x = elim t.ground [
  | none ↦ index_of_listed 0 t x
  | some g ↦ if g == x then some 0 else index_of_listed 1 t x
]

abbrev pub listed_thing : Tile → ℕ → Option ℕ
listed_thing t index =
    let in_creatures = index - length t.top_items in
    let in_down = in_creatures - length t.creatures in
    if ltb index (length t.top_items)
    then get_elem? t.top_items index
    else if ltb in_creatures (length t.creatures)
    then get_elem? t.creatures in_creatures
    else if ltb in_down (length t.down_items)
    then get_elem? t.down_items in_down
    else none

-- Tile::__getThing
unfoldable pub get_thing : Tile → ℕ → Option ℕ
get_thing t index = elim t.ground [
  | none ↦ listed_thing t index
  | some g ↦ if index == 0 then some g else listed_thing t (index - 1)
]

abbrev pub head : List ℕ → Option ℕ
head [] = none
head (x ∷ xs) = some x

abbrev pub last : List ℕ → Option ℕ
last [] = none
last (x ∷ xs) = or_else (last xs) (some x)

-- Tile::getTopCreature, getTopDownItem and getTopTopItem
abbrev pub get_top_creature : Tile → Option ℕ
get_top_creature t = head t.creatures

abbrev pub get_top_down_item : Tile → Option ℕ
get_top_down_item t = head t.down_items

abbrev pub get_top_top_item : Tile → Option ℕ
get_top_top_item t = last t.top_items

-- Tile::getTopThing
unfoldable pub get_top_thing : Tile → Option ℕ
get_top_thing t =
    or_else (get_top_creature t)
      (or_else (get_top_down_item t) (or_else (get_top_top_item t) t.ground))

-- The last of the items from the back is the first, Tile::getItemByTopOrder.
unfoldable pub item_by_top_order : Items → Things → ℕ → List ℕ → Option ℕ
item_by_top_order items s order [] = none
item_by_top_order items s order (x ∷ xs) =
    or_else (item_by_top_order items s order xs)
      (if (type_of items s x).always_on_top_order == order then some x else none)

-- ++thingCount and --thingCount
abbrev pub increment : ℕ → ℕ
increment n = (n + 1) % 2 ^ 32

abbrev pub decrement : ℕ → ℕ
decrement n = (n + 2 ^ 32 - 1) % 2 ^ 32

-- The things in the order in which __getThing gives them.
abbrev pub ground_list : Option ℕ → List ℕ
ground_list none = []
ground_list (some g) = g ∷ []

abbrev pub stack : Tile → List ℕ
stack t = ground_list t.ground ++ (t.top_items ++ (t.creatures ++ t.down_items))
