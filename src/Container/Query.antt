-- ===== src/Container/Query.antt =====
-- The questions a move asks of a container before it changes one, source 7.6/container.cpp.
-- The thing of a question is an item; the containers and the tile around this one are known by
-- their handles, and the answer of the outermost one, which may be a tile or a player, is the
-- argument `top`, absent when this container is the outermost.
use jamera_server.Base.{
  ℕ, ◌+◌, ◌-◌, ◌*◌, ◌%◌, ◌^◌, Bool, true, false, ◌&&◌, ◌||◌, not, Option, none, some, List, [], ◌∷◌,
  ltb, leb, ◌==◌, if◌then◌else◌,
}
use Prim.Native.Nat.{max}
use jamera_server.Base.Int.{ℤ, pos, negsuc}
use jamera_server.Container.{
  Items, Item, Container, size, capacity, get_index_of_thing, get_item, get_thing,
}

-- The answers that a container gives; `other` is a code that only its outermost parent gives.
pub data ReturnValue : Type 0 where
  noerror notpossible containernotenoughroom cannotpickup thisisimpossible notmoveable : ReturnValue
  other : ℕ → ReturnValue

-- The bits of `flags` that containers read: FLAG_NOLIMIT, FLAG_CHILDISOWNER and
-- FLAG_IGNORENOTMOVEABLE.
pub record Flags : Type 0 where
  pub no_limit : Bool
  pub child_is_owner : Bool
  pub ignore_not_moveable : Bool

-- INDEX_WHEREEVER
abbrev pub whereever : ℤ
whereever = negsuc 0

abbrev pub is_whereever : ℤ → Bool
is_whereever (pos n) = false
is_whereever (negsuc n) = n == 0

-- The loop over the parents of __queryAdd.
unfoldable pub is_parent : ℕ → List ℕ → Bool
is_parent thing [] = false
is_parent thing (p ∷ ps) = if p == thing then true else is_parent thing ps

-- __queryAdd of the container with the handle `this`
unfoldable pub query_add :
    Items
    → ℕ
    → List ℕ
    → Option (ℤ → Item → ℕ → Flags → ReturnValue)
    → Container
    → ℤ
    → Item
    → ℕ
    → Flags
    → ReturnValue
unfolding is_parent
query_add items this parents top c index item count flags =
    if flags.child_is_owner
    then noerror
    else if not (items item.id).pickupable
    then cannotpickup
    else if item.handle == this
    then thisisimpossible
    else if is_parent item.handle parents
    then thisisimpossible
    else if is_whereever index && not flags.no_limit && leb (capacity c) (size c)
    then containernotenoughroom
    else elim top [
      | none ↦ noerror
      | some query ↦ query whereever item count (record flags { child_is_owner = true })
    ]

-- What still fits on the item at the index, in __queryMaxCount: an unsigned 32-bit number, so that
-- a count above 100 wraps around.
unfoldable pub fits_on : ℤ → Item → Container → ℕ
unfolding get_thing
fits_on (negsuc n) item c = 0
fits_on (pos index) item c = elim (get_thing index c) [
  | none ↦ 0
  | some dest ↦ if dest.id == item.id then (100 + 2 ^ 32 - dest.count) % 2 ^ 32 else 0
]

-- __queryMaxCount, with maxQueryCount as the second part of the answer
unfoldable pub query_max_count : Items → Container → ℤ → Item → ℕ → Flags → ReturnValue × ℕ
query_max_count items c index item count flags =
    if flags.no_limit
    then (noerror, max 1 count)
    else (let free_slots = capacity c - size c in
        if (items item.id).stackable
        then (let most = (free_slots * 100 + fits_on index item c) % 2 ^ 32 in
            (if ltb most count then containernotenoughroom else noerror, most))
        else (if free_slots == 0 then containernotenoughroom else noerror, free_slots))

-- __queryRemove
unfoldable pub query_remove : Items → Container → ℕ → ℕ → Flags → ReturnValue
query_remove items c thing count flags = elim (get_index_of_thing thing c.itemlist) [
  | none ↦ notpossible
  | some index ↦ elim (get_item index c.itemlist) [
    | none ↦ notpossible
    | some item ↦
        if count == 0 || ((items item.id).stackable && ltb item.count count)
        then notpossible
        else if not (items item.id).moveable && not flags.ignore_not_moveable
        then notmoveable
        else noerror
  ]
]

-- __queryDestination: this container, the one around it, or the container at the index; with the
-- index and the item that the thing would be put on.
pub data Destination : Type 0 where
  this_container parent_container : Destination
  sub_container : ℕ → Destination

-- The item at an index, else what *destItem was.
found_item : ℕ → Container → Option Item → Option Item
found_item index c dest = elim (get_thing index c) [ none ↦ dest | some item ↦ some item ]

-- The last part of __queryDestination, on what *destItem is by then.
into_item : (ℕ → Bool) → ℤ → Option Item → Destination × ℤ × Option Item
into_item is_cylinder index none = (this_container, index, none)
into_item is_cylinder index (some item) =
    if is_cylinder item.handle
    then (sub_container item.handle, whereever, none)
    else (this_container, index, some item)

-- `parent_is_container` tells whether getParent() is a container, and `is_cylinder` which handles
-- are those of containers.
unfoldable pub query_destination :
    Bool → (ℕ → Bool) → Container → ℤ → Option Item → Destination × ℤ × Option Item
unfolding found_item into_item
query_destination parent_is_container is_cylinder c (negsuc n) dest =
    if n == 0 then (this_container, whereever, dest) else into_item is_cylinder (negsuc n) dest
query_destination parent_is_container is_cylinder c (pos index) dest =
    if index == 254
    then (if parent_is_container then parent_container else this_container, whereever, none)
    else if index == 255
    then (this_container, whereever, none)
    else if leb (capacity c) index
    then (this_container, whereever, dest)
    else into_item is_cylinder (pos index) (found_item index c dest)
