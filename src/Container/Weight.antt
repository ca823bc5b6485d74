-- ===== src/Container/Weight.antt =====
-- The total weight of a container, and of the containers around it.
use jamera_server.Base.{
  ℕ, zero, suc, ◌-◌, ◌≡◌, ◌≢◌, refl, sym, ap, ◌∙◌, ◌⊎◌, inl, inr, true, not, ◌&&◌, some, List, [],
  ◌∷◌, ◌++◌, leb, ◌==◌, if◌then◌else◌, Bool-cases, Option-cases, arith,
}
use jamera_server.Base.Int.{ℤ, pos, negsuc, ◌+ℤ◌, ◌-ℤ◌, int_laws, pos_part, neg_part}
use jamera_server.Container.{
  Items, Item, Container, get_weight, update_item_weight, add_item, weigh, add_thing,
  internal_add_thing, get_index_of_thing, get_item, set_item, erase_item, update_item, update_thing,
  replace_thing, remove_item, remove_thing,
}

abbrev pub sum_weights : Items → List Item → ℤ
sum_weights items [] = pos 0
sum_weights items (i ∷ is) = get_weight items i +ℤ sum_weights items is

-- The total is the sum of the weights of the items.
abbrev pub Weighs : Items → Container → Type 0
Weighs items c = c.total_weight ≡ sum_weights items c.itemlist

-- Between two states of a container its total, and that of every container around it, changes by
-- one and the same difference.
abbrev pub Shifts : Container → Container → Type 0
Shifts c c' =
    (diff : ℤ) × (c'.total_weight ≡ c.total_weight +ℤ diff)
    × (c'.ancestors ≡ update_item_weight diff c.ancestors)

-- What an operation has to keep.
abbrev pub Balanced : Items → Container → Container → Type 0
Balanced items c c' = Weighs items c' × Shifts c c'

sum_weights-set_item :
    (items : Items) (index : ℕ) (old new : Item) (l : List Item)
    → get_item index l ≡ some old
    → sum_weights items (set_item index new l)
      ≡ sum_weights items l +ℤ (get_weight items new -ℤ get_weight items old)
unfolding get_item set_item
sum_weights-set_item items zero old new [] e = cc
sum_weights-set_item items (suc n) old new [] e = cc
sum_weights-set_item items zero old new (i ∷ is) e =
    let same : get_weight items i ≡ get_weight items old = ap (get_weight items) (ground arith) in
    rw same (omega int_laws)
sum_weights-set_item items (suc n) old new (i ∷ is) e =
    rw (sum_weights-set_item items n old new is e) (omega int_laws)

sum_weights-erase_item :
    (items : Items) (index : ℕ) (old : Item) (l : List Item)
    → get_item index l ≡ some old
    → sum_weights items (erase_item index l)
      ≡ sum_weights items l +ℤ (pos 0 -ℤ get_weight items old)
unfolding get_item erase_item
sum_weights-erase_item items zero old [] e = cc
sum_weights-erase_item items (suc n) old [] e = cc
sum_weights-erase_item items zero old (i ∷ is) e =
    let same : get_weight items i ≡ get_weight items old = ap (get_weight items) (ground arith) in
    rw same (omega int_laws)
sum_weights-erase_item items (suc n) old (i ∷ is) e =
    rw (sum_weights-erase_item items n old is e) (omega int_laws)

update_item_weight-zero : (ts : List ℤ) → update_item_weight (pos 0) ts ≡ ts
unfolding update_item_weight
update_item_weight-zero [] = refl
update_item_weight-zero (t ∷ ts) =
    let e : t +ℤ pos 0 ≡ t = omega int_laws in rw (e, update_item_weight-zero ts)

unchanged-Balanced : (items : Items) (c : Container) → Weighs items c → Balanced items c c
unchanged-Balanced items c w =
    (w, (pos 0, omega int_laws, sym (update_item_weight-zero c.ancestors)))

-- The change of both totals by the difference of the sums.
weigh-Balanced :
    (items : Items) (diff : ℤ) (l : List Item) (c : Container)
    → Weighs items c
    → sum_weights items l ≡ sum_weights items c.itemlist +ℤ diff
    → Balanced items c (weigh diff (record c { itemlist = l }))
weigh-Balanced items diff l c w e = (rw (w, e), (diff, refl, refl))

add_thing-Balanced :
    (items : Items) (index : ℤ) (item : Item) (c : Container)
    → Weighs items c
    → Balanced items c (add_thing items index item c)
unfolding add_thing
add_thing-Balanced items (negsuc n) item c w =
    weigh-Balanced items (get_weight items item) (item ∷ c.itemlist) c w (omega int_laws)
add_thing-Balanced items (pos n) item c w = elim (Bool-cases (leb c.max_size n)) [
  | inl full ↦ rw full (unchanged-Balanced items c w)
  | inr room ↦
      rw room
        (weigh-Balanced items (get_weight items item) (item ∷ c.itemlist) c w (omega int_laws))
]

internal_add_thing-Balanced :
    (items : Items) (item : Item) (c : Container)
    → Weighs items c
    → Balanced items c (internal_add_thing items item c)
unfolding internal_add_thing
internal_add_thing-Balanced items item c w =
    weigh-Balanced items (get_weight items item) (item ∷ c.itemlist) c w (omega int_laws)

replace_thing-Balanced :
    (items : Items) (index : ℕ) (item : Item) (c : Container)
    → Weighs items c
    → Balanced items c (replace_thing items index item c)
unfolding replace_thing
replace_thing-Balanced items index item c w = elim (Option-cases (get_item index c.itemlist)) [
  | inl e ↦ rw (e, replace_thing) (unchanged-Balanced items c w)
  | inr (old, e) ↦
      rw (e, replace_thing)
        (weigh-Balanced items _ _ c w (sum_weights-set_item items index old item c.itemlist e))
]

update_thing-Balanced :
    (items : Items) (thing item_id count : ℕ) (c : Container)
    → Weighs items c
    → Balanced items c (update_thing items thing item_id count c)
unfolding update_thing
update_thing-Balanced items thing item_id count c w =
    elim (Option-cases (get_index_of_thing thing c.itemlist)) [
      | inl e ↦ rw (e, update_thing) (unchanged-Balanced items c w)
      | inr (index, e) ↦ elim (Option-cases (get_item index c.itemlist)) [
        | inl e' ↦ rw (e, e', update_thing) (unchanged-Balanced items c w)
        | inr (old, e') ↦
            rw (e, e', update_thing)
              (weigh-Balanced items _ _ c w (
                sum_weights-set_item items index old (update_item items item_id count old)
                  c.itemlist e'))
      ]
    ]

-- Every container that has one around it has a parent.
abbrev pub HasParents : Container → Type 0
HasParents c = (c.has_parent ≡ true) ⊎ (c.ancestors ≡ [])

guarded_update :
    (diff : ℤ) (c : Container)
    → HasParents c
    → (if c.has_parent then update_item_weight diff c.ancestors else c.ancestors)
      ≡ update_item_weight diff c.ancestors
unfolding update_item_weight
guarded_update diff c (inl e) = rw e refl
guarded_update diff c (inr e) = elim (Bool-cases c.has_parent) [
  | inl h ↦ rw h refl
  | inr h ↦ rw h (rw e refl)
]

remove_item-Balanced :
    (items : Items) (index count : ℕ) (item : Item) (c : Container)
    → HasParents c
    → Weighs items c
    → get_item index c.itemlist ≡ some item
    → Balanced items c (remove_item items index count item c)
unfolding remove_item
remove_item-Balanced items index count item c h w e =
    elim (Bool-cases ((items item.id).stackable && not (count == item.count))) [
      | inl s ↦
          let left = record item { count = item.count - count } in
          let diff = get_weight items left -ℤ get_weight items item in
          rw (s, remove_item)
            (
              rw (w, sum_weights-set_item items index item left c.itemlist e),
              (diff, refl, guarded_update diff c h),
            )
      | inr s ↦
          let diff = pos 0 -ℤ get_weight items item in
          rw (s, remove_item)
            (
              rw (w, sum_weights-erase_item items index item c.itemlist e),
              (diff, refl, guarded_update diff c h),
            )
    ]

remove_thing-Balanced :
    (items : Items) (thing count : ℕ) (c : Container)
    → HasParents c
    → Weighs items c
    → Balanced items c (remove_thing items thing count c)
unfolding remove_thing
remove_thing-Balanced items thing count c h w =
    elim (Option-cases (get_index_of_thing thing c.itemlist)) [
      | inl e ↦ rw (e, remove_thing) (unchanged-Balanced items c w)
      | inr (index, e) ↦ elim (Option-cases (get_item index c.itemlist)) [
        | inl e' ↦ rw (e, e', remove_thing) (unchanged-Balanced items c w)
        | inr (old, e') ↦
            rw (e, e', remove_thing) (remove_item-Balanced items index count old c h w e')
      ]
    ]

-- The changes of a container that a script, a player or the decay of an item brings about.
pub data Change : Type 0 where
  add : ℤ → Item → Change
  internal_add : Item → Change
  update : ℕ → ℕ → ℕ → Change
  replace : ℕ → Item → Change
  remove : ℕ → ℕ → Change

pub apply : Items → Change → Container → Container
apply items (add index item) c = add_thing items index item c
apply items (internal_add item) c = internal_add_thing items item c
apply items (update thing item_id count) c = update_thing items thing item_id count c
apply items (replace index item) c = replace_thing items index item c
apply items (remove thing count) c = remove_thing items thing count c

-- With weights that are integers, each call of __addThing, __internalAddThing, __updateThing,
-- __replaceThing and __removeThing, at any index and for any item, keeps the total of a container
-- equal to the sum of the weights of its items, if it was so, and changes the totals of all the
-- containers around it by the same difference as its own; addItem is no such call. The container
-- must have a parent if any container is around it.
pub apply-Balanced :
    (items : Items) (change : Change) (c : Container)
    → HasParents c
    → Weighs items c
    → Balanced items c (apply items change c)
unfolding apply
apply-Balanced items (add index item) c h w = add_thing-Balanced items index item c w
apply-Balanced items (internal_add item) c h w = internal_add_thing-Balanced items item c w
apply-Balanced items (update thing item_id count) c h w =
    update_thing-Balanced items thing item_id count c w
apply-Balanced items (replace index item) c h w = replace_thing-Balanced items index item c w
apply-Balanced items (remove thing count) c h w = remove_thing-Balanced items thing count c h w

sum_weights-snoc :
    (items : Items) (item : Item) (l : List Item)
    → sum_weights items (l ++ item ∷ []) ≡ sum_weights items l +ℤ get_weight items item
sum_weights-snoc items item [] = omega int_laws
sum_weights-snoc items item (i ∷ is) = rw (sum_weights-snoc items item is) (omega int_laws)

cancel : (a b c : ℤ) → a +ℤ c ≡ b → a ≡ b → c ≡ pos 0
cancel a b c e e' =
    let p : pos_part (a +ℤ c) ≡ pos_part a = ap pos_part (e ∙ sym e') in
    let n : neg_part (a +ℤ c) ≡ neg_part a = ap neg_part (e ∙ sym e') in omega int_laws

-- After addItem, which clone and the loading of a container from the map use, a container whose
-- total was the sum of its weights has a total that is short of the sum by the weight of the item,
-- unless the item weighs nothing.
pub add_item-short :
    (items : Items) (item : Item) (c : Container)
    → Weighs items c
    → get_weight items item ≢ pos 0
    → ((add_item item c).total_weight +ℤ get_weight items item
        ≡ sum_weights items (add_item item c).itemlist)
      × (¬ Weighs items (add_item item c))
unfolding add_item
add_item-short items item c w n =
    let e : c.total_weight +ℤ get_weight items item ≡ sum_weights items (c.itemlist ++ item ∷ []) =
      rw (w, sum_weights-snoc items item c.itemlist) in
    (e, λ same. n (cancel _ _ _ e same))
