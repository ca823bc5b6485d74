-- ===== src/Tile/Removal.antt =====
-- What __removeThing of source 7.6/tile.cpp does after __queryRemove has agreed.
use jamera_server.Base.{
  ℕ, ◌+◌, ◌-◌, ◌≤◌, ◌<◌, ◌≡◌, refl, ◌∙◌, Bool, true, false, not, ◌&&◌, ◌||◌, ◌⊎◌, Option, none,
  some, ltb, ◌==◌, if◌then◌else◌, List, [], ◌∷◌, ◌++◌, count, count-append, contains,
  contains-count, erase, arith, Bool-cases, Option-cases, inl, inr, sym,
}
use jamera_server.Tile.{Items, World, type_of, get_index_of_thing, ground_list, stack}
use jamera_server.Tile.Flags.{add_flags, remove_flags}
use jamera_server.Tile.Operations.{
  remove_thing, remove_item, is_ground, lower, lose, on_remove_tile_item, on_update_tile_item,
}
use jamera_server.Tile.Query.{query_remove, no_error, not_possible}
use jamera_server.Tile.Stack.{get_index_of_thing-stack, index_in-get_elem?, get_elem?-count}
use jamera_server.Tile.Places.{on_ground, on_top, living, down, Placed}

erase-append :
    (x : ℕ) (xs ys : List ℕ)
    → erase x (xs ++ ys) ≡ (if contains x xs then erase x xs ++ ys else xs ++ erase x ys)
erase-append x [] ys = refl
erase-append x (z ∷ zs) ys = ground (arith, erase-append x zs ys)

-- What remove_thing makes of w: units are taken off a stack of x, or x is gone.
pub data Taken (items : Items) (x n : ℕ) (w w' : World) : Type 0 where
  part_of :
      (type_of items w.things x).stackable ≡ true
      → n < w.things.item_count x
      → stack w'.tile ≡ stack w.tile
      → ((y : ℕ)
          → w'.things.item_count y
            ≡ (if x == y then w.things.item_count x - n else w.things.item_count y))
      → Taken items x n w w'
  whole :
      ((type_of items w.things x).ground_tile || (type_of items w.things x).always_on_top ≡ true)
        ⊎ ((type_of items w.things x).stackable && not (n == w.things.item_count x) ≡ false)
      → stack w'.tile ≡ erase x (stack w.tile)
      → w'.things.item_count ≡ w.things.item_count
      → Taken items x n w w'

module _ (items : Items) (x n : ℕ) (w : World) where
  told_remove : (w' : World) → Taken items x n w w' → Taken items x n w (remove_flags items x w')
  unfolding remove_flags
  told_remove w' (part_of a b c d) = part_of a b c d
  told_remove w' (whole u a b) = whole u a b

  told_add : (w' : World) → Taken items x n w w' → Taken items x n w (add_flags items x w')
  unfolding add_flags
  told_add w' (part_of a b c d) = part_of a b c d
  told_add w' (whole u a b) = whole u a b

  -- What __queryRemove says of the item.
  record Agreed : Type 0 where
    item : w.things.creature x ≡ false
    there : 1 ≤ count x (stack w.tile)
    index : (i : ℕ) × (get_index_of_thing w.tile x ≡ some i)
    units : ((type_of items w.things x).stackable && ltb (w.things.item_count x) n) ≡ false

  agreed : (ignore : Bool) → query_remove items x n ignore w ≡ no_error → Agreed
  unfolding query_remove
  agreed ignore h = elim (Option-cases (get_index_of_thing w.tile x)) [
    | inl e ↦ let bad : not_possible ≡ no_error = rw (e, query_remove) at h in cc
    | inr (i, e) ↦
        let said = rw (e, query_remove) at h in
        record {
          item = ground arith;
          there =
              get_elem?-count (stack w.tile) i x (
                index_in-get_elem? x i (stack w.tile)
                  (sym (get_index_of_thing-stack w.tile x) ∙ e));
          index = (i, e);
          units = ground arith;
        }
  ]

  module _ (p : Placed items w) (a : Agreed) where
    all_parts :
        count x (stack w.tile)
        ≡ count x (ground_list w.tile.ground)
          + (count x w.tile.top_items + (count x w.tile.creatures + count x w.tile.down_items))
    all_parts = ground (
      arith,
      count-append x (ground_list w.tile.ground)
          (w.tile.top_items ++ (w.tile.creatures ++ w.tile.down_items)),
      count-append x w.tile.top_items (w.tile.creatures ++ w.tile.down_items),
      count-append x w.tile.creatures w.tile.down_items,
    )

    none_living : count x w.tile.creatures ≡ 0
    none_living = (let item = a.item in ground (arith, p.home living x))

    contains_of : (l : List ℕ) → 1 ≤ count x l → contains x l ≡ true
    contains_of l h = contains-count x l ∙ ground arith

    contains_not : (l : List ℕ) → count x l ≡ 0 → contains x l ≡ false
    contains_not l h = contains-count x l ∙ ground arith

    not_ground : (g : Option ℕ) → is_ground g x ≡ false → count x (ground_list g) ≡ 0
    not_ground none e = refl
    not_ground (some g) e = ground arith

    ground_first :
        (g : Option ℕ) (rest : List ℕ)
        → is_ground g x ≡ true
        → rest ≡ erase x (ground_list g ++ rest)
    ground_first none rest e = cc
    ground_first (some g) rest e = ground arith

    is_ground-count : (g : Option ℕ) → is_ground g x ≡ true → 0 < count x (ground_list g)
    is_ground-count none e = cc
    is_ground-count (some g) e = ground arith

    grounded :
        is_ground w.tile.ground x ≡ true
        → (type_of items w.things x).ground_tile || (type_of items w.things x).always_on_top ≡ true
    grounded e = let home = p.home on_ground x (is_ground-count w.tile.ground e) in ground arith

    module _ (other : is_ground w.tile.ground x ≡ false) where
      erase_listed :
          (rest : List ℕ)
          → erase x (ground_list w.tile.ground ++ rest) ≡ ground_list w.tile.ground ++ erase x rest
      erase_listed rest =
          erase-append x (ground_list w.tile.ground) rest
          ∙ rw (contains_not (ground_list w.tile.ground) (not_ground w.tile.ground other)) refl

      top-Taken :
          (type_of items w.things x).always_on_top ≡ true
          → Taken items x n w (remove_item items x n w)
      top-Taken top =
          let no_ground = not_ground w.tile.ground other in
          let no_down : count x w.tile.down_items ≡ 0 = ground (arith, p.home down x) in
          let there =
            contains_of w.tile.top_items
              (let t = a.there in omega (arith, all_parts, none_living)) in
          rw (other, top, there)
            (told_remove (lose w (record w.tile { top_items = erase x w.tile.top_items }) x) (
              whole (inl (ground arith))
                (sym (
                  erase_listed (w.tile.top_items ++ (w.tile.creatures ++ w.tile.down_items))
                  ∙ rw
                      (
                        erase-append x w.tile.top_items (w.tile.creatures ++ w.tile.down_items),
                        there,
                      )
                      refl))
                refl))

      erase_down :
          count x w.tile.top_items ≡ 0
          → ground_list w.tile.ground
              ++ (w.tile.top_items ++ (w.tile.creatures ++ erase x w.tile.down_items))
            ≡ erase x (stack w.tile)
      erase_down no_top = sym (
          erase_listed (w.tile.top_items ++ (w.tile.creatures ++ w.tile.down_items))
          ∙ rw
              (
                erase-append x w.tile.top_items (w.tile.creatures ++ w.tile.down_items),
                contains_not w.tile.top_items no_top,
                erase-append x w.tile.creatures w.tile.down_items,
                contains_not w.tile.creatures none_living,
              )
              refl)

      some_or_all :
          count x w.tile.top_items ≡ 0
          → Taken items x n w (
              if (type_of items w.things x).stackable && not (n == w.things.item_count x)
              then on_update_tile_item items x x (lower x n w)
              else on_remove_tile_item items x
                  (lose w (record w.tile { down_items = erase x w.tile.down_items }) x))
      some_or_all no_top =
          elim (Bool-cases
            ((type_of items w.things x).stackable && not (n == w.things.item_count x))) [
              | inl e ↦
                  let units = a.units in
                  rw e (
                    told_add (remove_flags items x (lower x n w)) (
                      told_remove (lower x n w)
                        (part_of (ground arith) (ground arith) refl (λ y. refl))))
              | inr e ↦ rw e (
                  told_remove (lose w (record w.tile { down_items = erase x w.tile.down_items }) x)
                    (whole (inr e) (erase_down no_top) refl))
            ]

      down-Taken :
          (type_of items w.things x).always_on_top ≡ false
          → Taken items x n w (remove_item items x n w)
      down-Taken low =
          let no_ground = not_ground w.tile.ground other in
          let no_top : count x w.tile.top_items ≡ 0 = ground (arith, p.home on_top x) in
          let there =
            contains_of w.tile.down_items
              (let t = a.there in omega (arith, all_parts, none_living)) in
          rw (other, low, there) (some_or_all no_top)

    remove_item-Taken : Taken items x n w (remove_item items x n w)
    remove_item-Taken = elim (Bool-cases (is_ground w.tile.ground x)) [
      | inl e ↦ rw e (
          told_remove (lose w (record w.tile { ground = none }) x) (
            whole (inl (grounded e))
              (ground_first w.tile.ground
                (w.tile.top_items ++ (w.tile.creatures ++ w.tile.down_items)) e)
              refl))
      | inr e ↦ elim (Bool-cases (type_of items w.things x).always_on_top) [
        | inl top ↦ top-Taken e top
        | inr low ↦ down-Taken e low
      ]
    ]

    remove_thing-Taken : Taken items x n w (remove_thing items x n w)
    unfolding remove_thing
    remove_thing-Taken = rw (a.item, a.index.1, remove_thing) remove_item-Taken

-- Where each thing of a tile stands where it belongs, and __queryRemove answers RET_NOERROR for a
-- thing and a count, then __removeThing either takes count units off the item, which is stackable
-- and has more, and leaves the things on the tile and their order and all other counts as they
-- were; or it takes just that item away, and leaves the order of the others and every item's
-- count. The latter happens only to a ground or an item that is always on top, to one that is not
-- stackable, or if the count is all its units.
pub query_remove-Taken :
    (items : Items) (x n : ℕ) (ignore : Bool) (w : World)
    → Placed items w
    → query_remove items x n ignore w ≡ no_error
    → Taken items x n w (remove_thing items x n w)
query_remove-Taken items x n ignore w p h =
    remove_thing-Taken items x n w p (agreed items x n w ignore h)
