-- ===== src/Container/Tests.antt =====
-- Containers at concrete inputs: gold that stacks, a sword, and a bag in a backpack.
use jamera_server.Base.{
  arith, ◌≡◌, ◌≢◌, ◌≤◌, refl, inl, true, false, none, [], ◌∷◌, ◌==◌, if◌then◌else◌,
}
use jamera_server.Base.Int.{pos, ◌+ℤ◌, ◌-ℤ◌}
use jamera_server.Container.{
  Items, Item, Container, get_weight, add_thing, remove_thing, remove_item, update_item_weight,
  get_index_of_thing, get_item, size, capacity,
}
use jamera_server.Container.Weight.{Weighs, Balanced, remove, apply, apply-Balanced}
use jamera_server.Container.Query.{noerror, Flags, whereever, query_add}
use jamera_server.Container.Iterator.{
  Nest, nil, item, begin, get_item_holding_count, is_holding_item, holding_lem,
}
use jamera_server.Container.Room.{query_add-room}

abbrev items : Items
items id = record {
  weight = if id == 1 then 10 else 3500;
  stackable = id == 1;
  pickupable = true;
  moveable = true;
  rune = false;
  fluid = false;
  charges = 0;
}

abbrev gold : Item
gold = record { handle = 7; id = 1; count = 60; charges = 0; fluid_type = 0; content = pos 0 }

abbrev sword : Item
sword = record { handle = 8; id = 2; count = 1; charges = 0; fluid_type = 0; content = pos 0 }

-- A bag of two slots with the gold, in a backpack that weighs 600 with it.
abbrev bag : Container
bag = record {
  max_size = 2;
  total_weight = pos 600;
  itemlist = gold ∷ [];
  has_parent = true;
  ancestors = pos 600 ∷ [];
}

abbrev flags : Flags
flags = record { no_limit = false; child_is_owner = false; ignore_not_moveable = false }

bag-Weighs : Weighs items bag
unfolding get_weight ◌+ℤ◌
bag-Weighs = refl

apply-Balanced_example : Balanced items bag (apply items (remove 7 25) bag)
apply-Balanced_example = apply-Balanced items (remove 7 25) bag (inl refl) bag-Weighs

removed_gold : (remove_thing items 7 25 bag).ancestors ≡ pos 350 ∷ []
unfolding remove_thing remove_item update_item_weight get_weight ◌+ℤ◌ ◌-ℤ◌ get_index_of_thing
    get_item
removed_gold = refl

sword_is_heavy : get_weight items sword ≢ pos 0
unfolding get_weight ◌+ℤ◌
sword_is_heavy = λ e. cc

has_room : query_add items 5 (3 ∷ []) none bag whereever sword 1 flags ≡ noerror
unfolding query_add
has_room = refl

query_add-room_example :
    size (add_thing items whereever sword bag) ≤ capacity (add_thing items whereever sword bag)
query_add-room_example = query_add-room items 5 (3 ∷ []) none bag sword 1 flags refl refl has_room

-- A bag with an item and another bag, which holds two items, one of them an empty bag.
abbrev nest : Nest
nest = item 1 nil (item 2 (item 3 nil (item 4 nil nil)) nil)

holding_lem_example :
    (get_item_holding_count 6 (begin nest) ≡ 4) × (is_holding_item 6 4 (begin nest) ≡ true)
holding_lem_example = holding_lem 6 4 nest (omega arith)
