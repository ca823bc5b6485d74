-- ===== src/Container/Index.antt =====
-- Positions of items in a container, and how many of a kind it holds.
use jamera_server.Base.{
  ℕ, zero, suc, ◌+◌, ◌-◌, ◌<◌, ◌≡◌, refl, inl, inr, true, false, ◌&&◌, none, some, List, [], ◌∷◌,
  ltb, ◌==◌, if◌then◌else◌, length, Bool-cases, Option-cases, arith,
}
use jamera_server.Container.{
  Items, Item, Container, get_index_of_thing, get_item, get_thing, set_item, erase_item,
  remove_item, remove_thing, item_type_count, get_item_type_count,
}
use jamera_server.Container.Query.{noerror, Flags, query_remove}

get_item-index :
    (thing n : ℕ) (l : List Item)
    → get_index_of_thing thing l ≡ some n
    → (item : Item) × (get_item n l ≡ some item) × (item.handle ≡ thing) × (n < length l)
unfolding get_index_of_thing get_item
get_item-index thing n [] e = cc
get_item-index thing zero (i ∷ is) e = elim (Bool-cases (i.handle == thing)) [
  | inl t ↦ (i, refl, ground arith, ground arith)
  | inr f ↦ elim (Option-cases (get_index_of_thing thing is)) [
    | inl e' ↦ ground arith
    | inr (m, e') ↦ ground arith
  ]
]
get_item-index thing (suc n) (i ∷ is) e = elim (Bool-cases (i.handle == thing)) [
  | inl t ↦ ground arith
  | inr f ↦ elim (Option-cases (get_index_of_thing thing is)) [
    | inl e' ↦ ground arith
    | inr (m, e') ↦
        let same : get_index_of_thing thing is ≡ some n = ground arith in
        let (item, at, h, lt) = get_item-index thing n is same in (item, at, h, omega arith)
  ]
]

-- The item at the index that __getIndexOfThing gives for a thing is that thing.
pub get_thing-get_index_of_thing :
    (thing n : ℕ) (c : Container)
    → get_index_of_thing thing c.itemlist ≡ some n
    → (item : Item) × (get_thing n c ≡ some item) × (item.handle ≡ thing)
unfolding get_thing
get_thing-get_index_of_thing thing n c e =
    let (item, at, h, lt) = get_item-index thing n c.itemlist e in (item, ground (arith, at, lt), h)

count-set_item :
    (items : Items) (id index : ℕ) (old new : Item) (l : List Item)
    → get_item index l ≡ some old
    → get_item_type_count items id none true (set_item index new l)
        + item_type_count items id none true old
      ≡ get_item_type_count items id none true l + item_type_count items id none true new
unfolding get_item set_item get_item_type_count
count-set_item items id zero old new [] e = cc
count-set_item items id (suc n) old new [] e = cc
count-set_item items id zero old new (i ∷ is) e =
    let same : i ≡ old = ground arith in rw same (omega arith)
count-set_item items id (suc n) old new (i ∷ is) e =
    let rest = count-set_item items id n old new is e in omega arith

count-erase_item :
    (items : Items) (id index : ℕ) (old : Item) (l : List Item)
    → get_item index l ≡ some old
    → get_item_type_count items id none true (erase_item index l)
        + item_type_count items id none true old
      ≡ get_item_type_count items id none true l
unfolding get_item erase_item get_item_type_count
count-erase_item items id zero old [] e = cc
count-erase_item items id (suc n) old [] e = cc
count-erase_item items id zero old (i ∷ is) e =
    let same : i ≡ old = ground arith in rw same (omega arith)
count-erase_item items id (suc n) old (i ∷ is) e =
    let rest = count-erase_item items id n old is e in omega arith

-- How many of the items with an id go when a count of one item is removed.
abbrev pub removed : Items → ℕ → Item → ℕ → ℕ
removed items id item count =
    if item.id == id then (if (items item.id).stackable then count else item.count) else 0

remove_item-count :
    (items : Items) (id index count : ℕ) (item : Item) (c : Container)
    → get_item index c.itemlist ≡ some item
    → ((items item.id).stackable && ltb item.count count) ≡ false
    → get_item_type_count items id none true (remove_item items index count item c).itemlist
        + removed items id item count
      ≡ get_item_type_count items id none true c.itemlist
unfolding remove_item item_type_count
remove_item-count items id index count item c e h =
    let left = record item { count = item.count - count } in
    let set = count-set_item items id index item left c.itemlist e in
    let erase = count-erase_item items id index item c.itemlist e in ground arith

-- If __queryRemove answers RET_NOERROR for a thing and a count, the thing is an item of the
-- container, and __removeThing lowers the number of items with its id by exactly the count when
-- it is stackable, by its own count otherwise, and leaves the number with any other id as it was.
pub query_remove-count :
    (items : Items) (c : Container) (thing count id : ℕ) (flags : Flags)
    → query_remove items c thing count flags ≡ noerror
    → (item : Item) × (item.handle ≡ thing)
      × (get_item_type_count items id none true (remove_thing items thing count c).itemlist
            + removed items id item count
          ≡ get_item_type_count items id none true c.itemlist)
unfolding query_remove remove_thing
query_remove-count items c thing count id flags e =
    elim (Option-cases (get_index_of_thing thing c.itemlist)) [
      | inl e' ↦ ground arith
      | inr (index, e') ↦
          let (item, at, h, lt) = get_item-index thing index c.itemlist e' in
          let fits : ((items item.id).stackable && ltb item.count count) ≡ false = ground arith in
          (
            item,
            h,
            rw (e', at, remove_thing) (remove_item-count items id index count item c at fits),
          )
    ]
