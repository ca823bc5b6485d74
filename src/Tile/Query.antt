-- ===== src/Tile/Query.antt =====
-- What may be done with a thing on a tile: the __query functions of source 7.6/tile.cpp, __queryAdd
-- for items. A loop over __getThing goes through the stack.
use jamera_server.Base.{
  ℕ, Bool, true, false, not, ◌&&◌, ◌||◌, none, some, ltb, ◌==◌, if◌then◌else◌, List, [], ◌∷◌,
  is_empty,
}
use jamera_server.Tile.{Items, ItemType, Things, World, type_of, get_index_of_thing, stack}

pub data ReturnValue : Type 0 where
  no_error : ReturnValue
  not_possible : ReturnValue
  not_enough_room : ReturnValue
  not_moveable : ReturnValue
  need_exchange : ReturnValue

-- Tile::__queryMaxCount
unfoldable pub query_max_count : ℕ → ℕ
query_max_count count = if ltb 1 count then count else 1

-- Tile::__queryRemove, with whether FLAG_IGNORENOTMOVEABLE is set
unfoldable pub query_remove : Items → ℕ → ℕ → Bool → World → ReturnValue
query_remove items x count ignore_not_moveable w =
    let it = type_of items w.things x in
    elim (get_index_of_thing w.tile x) [
      | none ↦ not_possible
      | some index ↦
          if w.things.creature x
          then not_possible
          else if count == 0 || it.stackable && ltb (w.things.item_count x) count
          then not_possible
          else if not it.moveable && not ignore_not_moveable
          then not_moveable
          else no_error
    ]

-- An item on the tile leaves no room for the one that is to be added.
abbrev pub in_the_way : ItemType → ItemType → Bool
in_the_way it other =
    if it.is_hangable && (other.is_horizontal || other.is_vertical)
    then false
    else other.block_solid
      && (if it.pickupable
          then not other.allow_pickupable && (not other.has_height || other.pickupable || other.bed)
          else true)

-- The loop over the things, and whether an item and a support to hang it on have been met.
abbrev pub query_things : Items → Things → ItemType → Bool → Bool → List ℕ → ReturnValue
query_things items s it hangable support [] =
    if it.is_hangable && hangable && support then need_exchange else no_error
query_things items s it hangable support (x ∷ xs) =
    let other = type_of items s x in
    let rest =
      query_things items s it (hangable || not (s.creature x) && other.is_hangable)
        (support || not (s.creature x) && (other.is_horizontal || other.is_vertical)) xs in
    if not (s.creature x) && in_the_way it other then not_enough_room else rest

-- Tile::__queryAdd for an item, with whether FLAG_NOLIMIT and FLAG_IGNOREBLOCKCREATURE are set
unfoldable pub query_add_item : Items → ℕ → Bool → Bool → World → ReturnValue
query_add_item items x no_limit ignore_block_creature w =
    let it = type_of items w.things x in
    if no_limit
    then no_error
    else if (elim w.tile.ground [ none ↦ true | some g ↦ false ]) && not it.is_hangable
    then not_possible
    else if not (is_empty w.tile.creatures) && it.block_solid && not ignore_block_creature
    then not_enough_room
    else query_things items w.things it false false (stack w.tile)
