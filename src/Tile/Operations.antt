-- ===== src/Tile/Operations.antt =====
-- The operations of a tile as a Cylinder that change it: source 7.6/tile.cpp.
use jamera_server.Base.{
  ℕ, zero, suc, ◌-◌, Bool, true, false, not, ◌&&◌, Option, none, some, ltb, leb, ◌==◌, get_elem?,
  if◌then◌else◌, List, [], ◌∷◌, length, contains, erase,
}
use jamera_server.Tile.{
  Items, Things, Tile, World, type_of, get_index_of_thing, increment, decrement,
}
use jamera_server.Tile.Flags.{add_flags, remove_flags}

abbrev pub set_here : ℕ → Bool → Things → Things
set_here x b s = record s { here = λ y. if x == y then b else s.here y }

-- setParent(NULL) and FreeThing
abbrev pub free_thing : ℕ → World → World
free_thing x w = record w {
  things = record (set_here x false w.things) { freed = x ∷ w.things.freed };
}

-- What onAddTileItem, onRemoveTileItem and onUpdateTileItem change.
abbrev pub on_add_tile_item : Items → ℕ → World → World
on_add_tile_item items x w = add_flags items x w

abbrev pub on_remove_tile_item : Items → ℕ → World → World
on_remove_tile_item items x w = remove_flags items x w

abbrev pub on_update_tile_item : Items → ℕ → ℕ → World → World
on_update_tile_item items old x w = add_flags items x (remove_flags items old w)

abbrev pub lose : World → Tile → ℕ → World
lose w t x = record {
  tile = record t { thing_count = decrement t.thing_count };
  things = set_here x false w.things;
}

-- The stack of an item with other units left: setItemCount(max(0, getItemCount() - count))
abbrev pub lower : ℕ → ℕ → World → World
lower x count w = record w {
  things = record w.things {
    item_count = λ y. if x == y then w.things.item_count x - count else w.things.item_count y;
  };
}

abbrev pub is_ground : Option ℕ → ℕ → Bool
is_ground none x = false
is_ground (some g) x = x == g

-- The end of __removeThing, for an item that is on the tile.
abbrev pub remove_item : Items → ℕ → ℕ → World → World
remove_item items x count w =
    let t = w.tile in
    if is_ground t.ground x
    then on_remove_tile_item items x (lose w (record t { ground = none }) x)
    else if (type_of items w.things x).always_on_top
    then if contains x t.top_items
      then on_remove_tile_item items x (lose w (record t { top_items = erase x t.top_items }) x)
      else w
    else if contains x t.down_items
    then if (type_of items w.things x).stackable && not (count == w.things.item_count x)
      then on_update_tile_item items x x (lower x count w)
      else on_remove_tile_item items x (lose w (record t { down_items = erase x t.down_items }) x)
    else w

-- Tile::__removeThing
unfoldable pub remove_thing : Items → ℕ → ℕ → World → World
remove_thing items x count w =
    let t = w.tile in
    if w.things.creature x
    then if contains x t.creatures
      then record w {
        tile = record t { creatures = erase x t.creatures; thing_count = decrement t.thing_count };
      }
      else w
    else elim (get_index_of_thing t x) [ none ↦ w | some index ↦ remove_item items x count w ]

-- The first splash among the top items, and the first field among the others.
abbrev pub find_splash : Items → Things → List ℕ → Option ℕ
find_splash items s [] = none
find_splash items s (x ∷ xs) = if (type_of items s x).splash then some x else find_splash items s xs

abbrev pub find_field : Things → List ℕ → Option ℕ
find_field s [] = none
find_field s (x ∷ xs) = if s.field x then some x else find_field s xs

abbrev pub remove_old : Items → ℕ → World → World
remove_old items old w = free_thing old (remove_thing items old 1 w)

abbrev pub remove_found : Items → Option ℕ → World → World
remove_found items none w = w
remove_found items (some old) w = remove_old items old w

abbrev pub remove_old_splash : Items → World → World
remove_old_splash items w = remove_found items (find_splash items w.things w.tile.top_items) w

-- A top item goes in front of the first one whose order is not below its own; __internalAddThing
-- asks for an order above its own.
abbrev pub put_top : Items → Things → ℕ → List ℕ → List ℕ
put_top items s x [] = x ∷ []
put_top items s x (y ∷ ys) =
    if leb (type_of items s x).always_on_top_order (type_of items s y).always_on_top_order
    then x ∷ y ∷ ys
    else y ∷ put_top items s x ys

abbrev pub put_top_after : Items → Things → ℕ → List ℕ → List ℕ
put_top_after items s x [] = x ∷ []
put_top_after items s x (y ∷ ys) =
    if ltb (type_of items s x).always_on_top_order (type_of items s y).always_on_top_order
    then x ∷ y ∷ ys
    else y ∷ put_top_after items s x ys

abbrev pub gain : World → Tile → World
gain w t = record w { tile = record t { thing_count = increment t.thing_count } }

abbrev pub add_creature : ℕ → World → World
add_creature x w = gain w (record w.tile { creatures = x ∷ w.tile.creatures })

-- A ground takes the place of the old one.
abbrev pub add_ground : Items → ℕ → Option ℕ → World → World
add_ground items x none w = on_add_tile_item items x (gain w (record w.tile { ground = some x }))
add_ground items x (some old) w =
    on_update_tile_item items old x
      (record (free_thing old w) { tile = record w.tile { ground = some x } })

abbrev pub add_top_item : Items → ℕ → World → World
add_top_item items x w =
    on_add_tile_item items x
      (gain w (record w.tile { top_items = put_top items w.things x w.tile.top_items }))

abbrev pub add_down_item : Items → ℕ → World → World
add_down_item items x w =
    on_add_tile_item items x (gain w (record w.tile { down_items = x ∷ w.tile.down_items }))

-- A field takes the place of the first field, or goes if that cannot be replaced.
abbrev pub add_field : Items → ℕ → Option ℕ → World → World
add_field items x none w = add_down_item items x w
add_field items x (some old) w =
    if (type_of items w.things old).replaceable
    then add_down_item items x (remove_old items old w)
    else free_thing x w

-- Tile::__addThing
unfoldable pub add_thing : Items → ℕ → World → World
add_thing items x w₀ =
    let w = record w₀ { things = set_here x true w₀.things } in
    let it = type_of items w.things x in
    if w.things.creature x
    then add_creature x w
    else if it.ground_tile
    then add_ground items x w.tile.ground w
    else if it.always_on_top
    then add_top_item items x (if it.splash then remove_old_splash items w else w)
    else if it.magic_field
    then add_field items x (find_field w.things w.tile.down_items) w
    else add_down_item items x w

-- Tile::__updateThing; what setSubType makes of an item is its count.
unfoldable pub update_thing : Items → ℕ → ℕ → ℕ → World → World
update_thing items x item_id count w = elim (get_index_of_thing w.tile x) [
  | none ↦ w
  | some index ↦
      if w.things.creature x
      then w
      else on_update_tile_item items x x (record w {
        things = record w.things {
          id = λ y. if x == y then item_id else w.things.id y;
          item_count = λ y. if x == y then count else w.things.item_count y;
        };
      })
]

abbrev pub set : List ℕ → ℕ → ℕ → List ℕ
set [] index x = []
set (y ∷ ys) zero x = x ∷ ys
set (y ∷ ys) (suc index) x = y ∷ set ys index x

-- What follows once the new item stands in the place of the old one.
abbrev pub replaced : Items → Option ℕ → ℕ → Tile → World → World
replaced items none x t w = w
replaced items (some old) x t w =
    let placed : World = record { tile = t; things = set_here x true w.things } in
    let told = on_update_tile_item items old x placed in
    record told { things = set_here old false told.things }

abbrev pub replace_listed : Items → ℕ → ℕ → World → World
replace_listed items index x w =
    let t = w.tile in
    let in_creatures = index - length t.top_items in
    let in_down = in_creatures - length t.creatures in
    if ltb index (length t.top_items)
    then replaced items (get_elem? t.top_items index) x
        (record t { top_items = set t.top_items index x }) w
    else if ltb in_creatures (length t.creatures)
    then w
    else if ltb in_down (length t.down_items)
    then replaced items (get_elem? t.down_items in_down) x
        (record t { down_items = set t.down_items in_down x }) w
    else w

abbrev pub replace_from : Items → Option ℕ → ℕ → ℕ → World → World
replace_from items none index x w = replace_listed items index x w
replace_from items (some g) index x w =
    if index == 0
    then replaced items (some g) x (record w.tile { ground = some x }) w
    else replace_listed items (index - 1) x w

-- Tile::__replaceThing
unfoldable pub replace_thing : Items → ℕ → ℕ → World → World
replace_thing items index x w =
    if w.things.creature x then w else replace_from items w.tile.ground index x w

abbrev pub first_ground : ℕ → Option ℕ → World → World
first_ground x none w = gain w (record w.tile { ground = some x })
first_ground x (some old) w = w

-- Tile::__internalAddThing, for the things of a map that is loaded
unfoldable pub internal_add_thing : Items → ℕ → World → World
internal_add_thing items x w₀ =
    let w = record w₀ { things = set_here x true w₀.things } in
    let it = type_of items w.things x in
    if w.things.creature x
    then add_creature x w
    else if it.ground_tile
    then add_flags items x (first_ground x w.tile.ground w)
    else if it.always_on_top
    then add_flags items x
        (gain w (record w.tile { top_items = put_top_after items w.things x w.tile.top_items }))
    else add_flags items x (gain w (record w.tile { down_items = x ∷ w.tile.down_items }))
