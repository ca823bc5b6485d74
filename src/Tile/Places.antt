-- ===== src/Tile/Places.antt =====
-- Where the operations of a tile, source 7.6/tile.cpp, put things.
use jamera_server.Base.{
  ℕ, ◌≤◌, ◌<◌, ◌≡◌, refl, ◌∙◌, Bool, true, false, not, ◌&&◌, none, ◌==◌, if◌then◌else◌, List, count,
  count-erase, contains, erase, arith, Bool-cases, Option-cases, inl, inr,
}
use jamera_server.Tile.{
  Items, ItemType, Things, Tile, World, type_of, ground_list, get_index_of_thing, decrement,
}
use jamera_server.Tile.Flags.{add_flags, remove_flags}
use jamera_server.Tile.Operations.{
  remove_thing, remove_item, is_ground, lose, lower, on_update_tile_item, on_remove_tile_item,
  set_here,
}

-- The four parts of a tile.
pub data Part : Type 0 where
  on_ground : Part
  on_top : Part
  living : Part
  down : Part

abbrev pub part : Part → Tile → List ℕ
part on_ground t = ground_list t.ground
part on_top t = t.top_items
part living t = t.creatures
part down t = t.down_items

pub by_parts : (P : Part → Type 0) → P on_ground → P on_top → P living → P down → (k : Part) → P k
by_parts P g t c d on_ground = g
by_parts P g t c d on_top = t
by_parts P g t c d living = c
by_parts P g t c d down = d

abbrev Below : Tile → Tile → Part → Type 0
Below t t' k = (x : ℕ) → count x (part k t') ≤ count x (part k t)

-- A thing belongs into a part.
abbrev pub belongs : Part → Bool → ItemType → Bool
belongs on_ground c it = not c && it.ground_tile
belongs on_top c it = not c && not it.ground_tile && it.always_on_top
belongs living c it = c
belongs down c it = not c && not it.ground_tile && not it.always_on_top

abbrev pub at_home : Items → Things → Part → ℕ → Bool
at_home items s k x = belongs k (s.creature x) (type_of items s x)

count-erase_le : (x y : ℕ) (l : List ℕ) → count y (erase x l) ≤ count y l
count-erase_le x y l = (let e = count-erase x y l in ground arith)

module _ (items : Items) where
  -- Each thing stands in the part where it belongs, and once.
  pub record Placed (w : World) : Type 0 where
    pub home : (k : Part) (x : ℕ) → 0 < count x (part k w.tile) → at_home items w.things k x ≡ true
    pub once : (k : Part) (x : ℕ) → count x (part k w.tile) ≤ 1

  -- No part has a thing more often than before, and what is known of the things stays.
  pub record Fewer (w w' : World) : Type 0 where
    pub parts : (k : Part) (x : ℕ) → count x (part k w'.tile) ≤ count x (part k w.tile)
    pub creature : w'.things.creature ≡ w.things.creature
    pub id : w'.things.id ≡ w.things.id
    pub unique_id : w'.things.unique_id ≡ w.things.unique_id

  pub Fewer-refl : (w : World) → Fewer w w
  Fewer-refl w = record { parts = λ k x. omega arith; creature = refl; id = refl; unique_id = refl }

  pub Fewer-home :
      (w w' : World) (k : Part) (x : ℕ) (b : Bool)
      → Fewer w w'
      → at_home items w.things k x ≡ b
      → at_home items w'.things k x ≡ b
  Fewer-home w w' k x b f h = rw (f.creature, f.id) h

  pub Fewer-trans : (w w' w'' : World) → Fewer w w' → Fewer w' w'' → Fewer w w''
  Fewer-trans w w' w'' f g = record {
    parts = λ k x. (let a = f.parts k x in let b = g.parts k x in omega arith);
    creature = g.creature ∙ f.creature;
    id = g.id ∙ f.id;
    unique_id = g.unique_id ∙ f.unique_id;
  }

  pub Fewer-Placed : (w w' : World) → Fewer w w' → Placed w → Placed w'
  Fewer-Placed w w' f p = record {
    home = λ k x h. (let le = f.parts k x in rw (f.creature, f.id) (p.home k x (omega arith)));
    once = λ k x. (let le = f.parts k x in let one = p.once k x in omega arith);
  }

  pub told_remove : (x : ℕ) (w w' : World) → Fewer w w' → Fewer w (remove_flags items x w')
  unfolding remove_flags
  told_remove x w w' f = record {
    parts =
        by_parts (Below w.tile (remove_flags items x w').tile) (f.parts on_ground) (f.parts on_top)
          (f.parts living) (f.parts down);
    creature = f.creature;
    id = f.id;
    unique_id = f.unique_id;
  }

  pub told_add : (x : ℕ) (w w' : World) → Fewer w w' → Fewer w (add_flags items x w')
  unfolding add_flags
  told_add x w w' f = record {
    parts =
        by_parts (Below w.tile (add_flags items x w').tile) (f.parts on_ground) (f.parts on_top)
          (f.parts living) (f.parts down);
    creature = f.creature;
    id = f.id;
    unique_id = f.unique_id;
  }

  -- A tile of which each part is at most what it was, with any count and flags.
  Fewer-tile :
      (w : World) (t : Tile) (s : Things)
      → ((x : ℕ) → count x (ground_list t.ground) ≤ count x (ground_list w.tile.ground))
      → ((x : ℕ) → count x t.top_items ≤ count x w.tile.top_items)
      → ((x : ℕ) → count x t.creatures ≤ count x w.tile.creatures)
      → ((x : ℕ) → count x t.down_items ≤ count x w.tile.down_items)
      → s.creature ≡ w.things.creature
      → s.id ≡ w.things.id
      → s.unique_id ≡ w.things.unique_id
      → Fewer w (record { tile = t; things = s })
  Fewer-tile w t s g tp c d e i u = record {
    parts = by_parts (Below w.tile t) g tp c d;
    creature = e;
    id = i;
    unique_id = u;
  }

  module _ (x n : ℕ) (w : World) where
    same_count : (l : List ℕ) (y : ℕ) → count y l ≤ count y l
    same_count l y = omega arith

    lowered-Fewer : Fewer w (lower x n w)
    lowered-Fewer =
        Fewer-tile w w.tile (lower x n w).things (same_count (ground_list w.tile.ground))
          (same_count w.tile.top_items) (same_count w.tile.creatures) (same_count w.tile.down_items)
          refl refl refl

    down_item-Fewer : Fewer w (
        if (type_of items w.things x).stackable && not (n == w.things.item_count x)
        then on_update_tile_item items x x (lower x n w)
        else on_remove_tile_item items x
            (lose w (record w.tile { down_items = erase x w.tile.down_items }) x))
    down_item-Fewer =
        elim (Bool-cases
          ((type_of items w.things x).stackable && not (n == w.things.item_count x))) [
            | inl some_left ↦ rw some_left (
                told_add x w (remove_flags items x (lower x n w))
                  (told_remove x w (lower x n w) lowered-Fewer))
            | inr all ↦ rw all (
                told_remove x w
                  (lose w (record w.tile { down_items = erase x w.tile.down_items }) x)
                  (Fewer-tile w
                    (record w.tile {
                      down_items = erase x w.tile.down_items;
                      thing_count = decrement w.tile.thing_count;
                    })
                    (set_here x false w.things) (same_count (ground_list w.tile.ground))
                    (same_count w.tile.top_items) (same_count w.tile.creatures)
                    (λ y. count-erase_le x y w.tile.down_items) refl refl refl))
          ]

    remove_item-Fewer : Fewer w (remove_item items x n w)
    remove_item-Fewer = elim (Bool-cases (is_ground w.tile.ground x)) [
      | inl e ↦ rw e (
          told_remove x w (lose w (record w.tile { ground = none }) x) (
            Fewer-tile w
              (record w.tile { ground = none; thing_count = decrement w.tile.thing_count })
              (set_here x false w.things) (λ y. omega arith) (same_count w.tile.top_items)
              (same_count w.tile.creatures) (same_count w.tile.down_items) refl refl refl))
      | inr e ↦ elim (Bool-cases (type_of items w.things x).always_on_top) [
        | inl top ↦ elim (Bool-cases (contains x w.tile.top_items)) [
          | inl there ↦
              rw (e, top, there)
                (told_remove x w (lose w (record w.tile { top_items = erase x w.tile.top_items }) x)
                  (Fewer-tile w
                    (record w.tile {
                      top_items = erase x w.tile.top_items;
                      thing_count = decrement w.tile.thing_count;
                    })
                    (set_here x false w.things) (same_count (ground_list w.tile.ground))
                    (λ y. count-erase_le x y w.tile.top_items) (same_count w.tile.creatures)
                    (same_count w.tile.down_items) refl refl refl))
          | inr gone ↦ rw (e, top, gone) (Fewer-refl w)
        ]
        | inr low ↦ elim (Bool-cases (contains x w.tile.down_items)) [
          | inr gone ↦ rw (e, low, gone) (Fewer-refl w)
          | inl there ↦ rw (e, low, there) (down_item-Fewer)
        ]
      ]
    ]

    pub remove_thing-Fewer : Fewer w (remove_thing items x n w)
    unfolding remove_thing
    remove_thing-Fewer = elim (Bool-cases (w.things.creature x)) [
      | inl e ↦ elim (Bool-cases (contains x w.tile.creatures)) [
        | inl there ↦
            rw (e, there, remove_thing)
              (Fewer-tile w
                (record w.tile {
                  creatures = erase x w.tile.creatures;
                  thing_count = decrement w.tile.thing_count;
                })
                w.things (same_count (ground_list w.tile.ground)) (same_count w.tile.top_items)
                (λ y. count-erase_le x y w.tile.creatures) (same_count w.tile.down_items) refl refl
                refl)
        | inr gone ↦ rw (e, gone, remove_thing) (Fewer-refl w)
      ]
      | inr e ↦ elim (Option-cases (get_index_of_thing w.tile x)) [
        | inl q ↦ rw (e, q, remove_thing) (Fewer-refl w)
        | inr (i, q) ↦ rw (e, q, remove_thing) remove_item-Fewer
      ]
    ]
