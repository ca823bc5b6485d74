-- ===== src/Container.antt =====
-- Containers, source 7.6/container.h and container.cpp, with what they use of item.h and item.cpp.
-- A pointer to an item is its handle. One container is modelled with the totals of the containers
-- around it, innermost first, since these are all that its operations change elsewhere; what the
-- operations send to clients is left out. Weights are exact integers, where the source has doubles.
-- The table Item::items is the parameter `items` of the definitions that read it.
pub mod Query
pub mod Weight
pub mod Room
pub mod Index
pub mod Iterator
mod Tests
use jamera_server.Base.{
  ℕ, zero, suc, ◌+◌, ◌-◌, ◌*◌, ◌%◌, ◌^◌, Bool, true, false, ◌&&◌, ◌||◌, not, Option, none, some,
  List, [], ◌∷◌, ◌++◌, ltb, leb, ◌==◌, if◌then◌else◌, length,
}
use Prim.Native.Nat.{max}
use jamera_server.Base.Int.{ℤ, pos, negsuc, ◌+ℤ◌, ◌-ℤ◌}

-- The fields of an ItemType that containers read; `fluid` is isFluidContainer() || isSplash().
pub record ItemType : Type 0 where
  pub weight : ℕ
  pub stackable : Bool
  pub pickupable : Bool
  pub moveable : Bool
  pub rune : Bool
  pub fluid : Bool
  pub charges : ℕ

abbrev pub Items : Type 0
Items = ℕ → ItemType

-- An item: `content` is the total_weight of an item that is a container, and 0 otherwise.
pub record Item : Type 0 where
  pub handle : ℕ
  pub id : ℕ
  pub count : ℕ
  pub charges : ℕ
  pub fluid_type : ℕ
  pub content : ℤ

-- Container: maxSize, total_weight, itemlist, whether it has a parent at all, and the
-- total_weight of each enclosing container, the parent's first.
pub record Container : Type 0 where
  pub max_size : ℕ
  pub total_weight : ℤ
  pub itemlist : List Item
  pub has_parent : Bool
  pub ancestors : List ℤ

-- size and capacity
abbrev pub size : Container → ℕ
size c = length c.itemlist

abbrev pub capacity : Container → ℕ
capacity c = c.max_size

-- Item::getWeight and Container::getWeight, of weights that are integers, not double
pub get_weight : Items → Item → ℤ
get_weight items item =
    pos (
      if (items item.id).stackable
      then (items item.id).weight * max 1 item.count
      else (items item.id).weight)
    +ℤ item.content

-- Item::getSubType, and Item::setSubType of an uint16_t, where the count is an uint8_t
pub get_sub_type : Items → Item → ℕ
get_sub_type items item =
    if (items item.id).fluid
    then item.fluid_type
    else if (items item.id).charges == 0
    then item.count
    else item.charges

pub set_sub_type : Items → ℕ → Item → Item
set_sub_type items n item =
    if (items item.id).fluid
    then record item { fluid_type = n % 2 ^ 16 }
    else if (items item.id).charges == 0
    then record item { count = n % 2 ^ 8 }
    else record item { charges = n % 2 ^ 16 }

-- updateItemWeight, called on the parent container: each enclosing total changes.
pub update_item_weight : ℤ → List ℤ → List ℤ
update_item_weight diff [] = []
update_item_weight diff (total ∷ totals) = (total +ℤ diff) ∷ update_item_weight diff totals

-- addItem, with which the map loader and clone fill a container: no weight is added.
pub add_item : Item → Container → Container
add_item item c = record c { itemlist = c.itemlist ++ item ∷ [] }

-- A change of the container's total and of all around it.
abbrev pub weigh : ℤ → Container → Container
weigh diff c = record c {
  total_weight = c.total_weight +ℤ diff;
  ancestors = update_item_weight diff c.ancestors;
}

-- __internalAddThing
pub internal_add_thing : Items → Item → Container → Container
internal_add_thing items item c =
    weigh (get_weight items item) (record c { itemlist = item ∷ c.itemlist })

-- __addThing at an index; a negative index (INDEX_WHEREEVER) passes the test.
pub add_thing : Items → ℤ → Item → Container → Container
unfolding internal_add_thing
add_thing items (negsuc n) item c = internal_add_thing items item c
add_thing items (pos index) item c =
    if leb (capacity c) index then c else internal_add_thing items item c

-- __getIndexOfThing; `none` is -1.
pub get_index_of_thing : ℕ → List Item → Option ℕ
get_index_of_thing thing [] = none
get_index_of_thing thing (i ∷ is) = elim (i.handle == thing) [
  | true ↦ some 0
  | false ↦ elim (get_index_of_thing thing is) [ none ↦ none | some n ↦ some (suc n) ]
]

-- The loop of __getThing and getItem.
pub get_item : ℕ → List Item → Option Item
get_item index [] = none
get_item zero (i ∷ is) = some i
get_item (suc index) (i ∷ is) = get_item index is

-- __getThing
pub get_thing : ℕ → Container → Option Item
unfolding get_item
get_thing index c = if ltb (size c) index then none else get_item index c.itemlist

-- The item at an index is changed in place, or taken out.
pub set_item : ℕ → Item → List Item → List Item
set_item index item [] = []
set_item zero item (i ∷ is) = item ∷ is
set_item (suc index) item (i ∷ is) = i ∷ set_item index item is

pub erase_item : ℕ → List Item → List Item
erase_item index [] = []
erase_item zero (i ∷ is) = is
erase_item (suc index) (i ∷ is) = i ∷ erase_item index is

-- __updateThing on the item at an index, which has the new id and sub type afterwards.
pub update_item : Items → ℕ → ℕ → Item → Item
unfolding set_sub_type
update_item items item_id count item = set_sub_type items count (record item { id = item_id })

pub update_thing : Items → ℕ → ℕ → ℕ → Container → Container
unfolding get_index_of_thing get_item set_item
update_thing items thing item_id count c = elim (get_index_of_thing thing c.itemlist) [
  | none ↦ c
  | some index ↦ elim (get_item index c.itemlist) [
    | none ↦ c
    | some old ↦
        let new = update_item items item_id count old in
        weigh (get_weight items new -ℤ get_weight items old)
          (record c { itemlist = set_item index new c.itemlist })
  ]
]

-- __replaceThing
pub replace_thing : Items → ℕ → Item → Container → Container
replace_thing items index item c = elim (get_item index c.itemlist) [
  | none ↦ c
  | some old ↦
      weigh (get_weight items item -ℤ get_weight items old)
        (record c { itemlist = set_item index item c.itemlist })
]

-- __removeThing on the item at an index. Both branches reach the enclosing containers only if there
-- is a parent, which is so for every container that stands in another.
pub remove_item : Items → ℕ → ℕ → Item → Container → Container
remove_item items index count item c =
    if (items item.id).stackable && not (count == item.count)
    then (let left = record item { count = item.count - count } in
        let diff = get_weight items left -ℤ get_weight items item in
        record c {
          total_weight = c.total_weight +ℤ diff;
          itemlist = set_item index left c.itemlist;
          ancestors = if c.has_parent then update_item_weight diff c.ancestors else c.ancestors;
        })
    else (let diff = pos 0 -ℤ get_weight items item in
        record c {
          total_weight = c.total_weight +ℤ diff;
          itemlist = erase_item index c.itemlist;
          ancestors = if c.has_parent then update_item_weight diff c.ancestors else c.ancestors;
        })

-- __removeThing
pub remove_thing : Items → ℕ → ℕ → Container → Container
remove_thing items thing count c = elim (get_index_of_thing thing c.itemlist) [
  | none ↦ c
  | some index ↦ elim (get_item index c.itemlist) [
    | none ↦ c
    | some item ↦ remove_item items index count item c
  ]
]

-- What one item adds to __getItemTypeCount; `none` for sub_type is -1.
pub item_type_count : Items → ℕ → Option ℕ → Bool → Item → ℕ
unfolding get_sub_type
item_type_count items item_id sub_type item_count item =
    if item.id == item_id && elim sub_type [ none ↦ true | some s ↦ s == get_sub_type items item ]
    then (if item_count
        then item.count
        else if (items item.id).rune
        then item.charges
        else item.count)
    else 0

-- __getItemTypeCount
pub get_item_type_count : Items → ℕ → Option ℕ → Bool → List Item → ℕ
unfolding item_type_count
get_item_type_count items item_id sub_type item_count [] = 0
get_item_type_count items item_id sub_type item_count (i ∷ is) =
    item_type_count items item_id sub_type item_count i
    + get_item_type_count items item_id sub_type item_count is
