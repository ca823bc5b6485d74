-- ===== src/Tile/Counting.antt =====
-- The field thingCount of source 7.6/tile.cpp.
use jamera_server.Base.{
  ℕ, zero, suc, ◌+◌, ◌-◌, ◌%◌, ◌^◌, ◌≡◌, refl, Bool, true, false, Option, none, some, ltb, ◌==◌,
  if◌then◌else◌, List, [], ◌∷◌, get_elem?, contains, length, erase, arith, if_both,
}
use jamera_server.Tile.{Items, Things, Tile, World, type_of, ground_list}
use jamera_server.Tile.Flags.{add_flags, remove_flags}
use jamera_server.Tile.Operations.{
  put_top, put_top_after, set, add_thing, internal_add_thing, add_ground, add_top_item,
  add_down_item, add_field, remove_old, remove_old_splash, find_splash, find_field, free_thing,
  set_here, remove_thing, remove_item, is_ground, lose, remove_found, replaced, replace_listed,
  replace_from, replace_thing, update_thing,
}

abbrev pub size : Tile → ℕ
size t =
    length (ground_list t.ground) + length t.top_items + length t.creatures + length t.down_items

-- thingCount is the number of things, as far as 32 bits go.
abbrev pub Counted : World → Type 0
Counted w = w.tile.thing_count ≡ size w.tile % 2 ^ 32

length-erase : (x : ℕ) (l : List ℕ) → contains x l ≡ true → suc (length (erase x l)) ≡ length l
length-erase x [] h = cc
length-erase x (y ∷ ys) h = ground (arith, length-erase x ys)

told_remove : (items : Items) (x : ℕ) (w : World) → Counted w → Counted (remove_flags items x w)
unfolding remove_flags
told_remove items x w h = h

told_add : (items : Items) (x : ℕ) (w : World) → Counted w → Counted (add_flags items x w)
unfolding add_flags
told_add items x w h = h

module _ (items : Items) (x n : ℕ) (w : World) (h : Counted w) where
  lose_ground :
      is_ground w.tile.ground x ≡ true → Counted (lose w (record w.tile { ground = none }) x)
  lose_ground e = ground arith

  remove_item-Counted : Counted (remove_item items x n w)
  unfolding add_flags remove_flags
  remove_item-Counted =
      ground (arith, lose_ground, length-erase x w.tile.top_items, length-erase x w.tile.down_items)

  pub remove_thing-Counted : Counted (remove_thing items x n w)
  unfolding remove_thing
  remove_thing-Counted = ground (arith, remove_item-Counted, length-erase x w.tile.creatures)

length-put_top :
    (items : Items) (s : Things) (x : ℕ) (l : List ℕ)
    → length (put_top items s x l) ≡ suc (length l)
length-put_top items s x [] = refl
length-put_top items s x (z ∷ zs) = ground (arith, length-put_top items s x zs)

length-put_top_after :
    (items : Items) (s : Things) (x : ℕ) (l : List ℕ)
    → length (put_top_after items s x l) ≡ suc (length l)
length-put_top_after items s x [] = refl
length-put_top_after items s x (z ∷ zs) = ground (arith, length-put_top_after items s x zs)

length-set : (l : List ℕ) (i x : ℕ) → length (set l i x) ≡ length l
length-set [] i x = refl
length-set (y ∷ ys) zero x = refl
length-set (y ∷ ys) (suc i) x = omega (arith, length-set ys i x)

module _ (items : Items) (x : ℕ) where
  add_ground-Counted :
      (g : Option ℕ) (w : World) → g ≡ w.tile.ground → Counted w → Counted (add_ground items x g w)
  unfolding add_flags remove_flags
  add_ground-Counted none w e h = ground arith
  add_ground-Counted (some old) w e h = ground arith

  add_top_item-Counted : (w : World) → Counted w → Counted (add_top_item items x w)
  unfolding add_flags
  add_top_item-Counted w h = ground (arith, length-put_top items w.things x w.tile.top_items)

  add_down_item-Counted : (w : World) → Counted w → Counted (add_down_item items x w)
  unfolding add_flags
  add_down_item-Counted w h = ground arith

  add_field-Counted : (o : Option ℕ) (w : World) → Counted w → Counted (add_field items x o w)
  add_field-Counted none w h = add_down_item-Counted w h
  add_field-Counted (some old) w h =
      if_both Counted (type_of items w.things old).replaceable
        (add_down_item items x (remove_old items old w)) (free_thing x w)
        (add_down_item-Counted (remove_old items old w) (remove_thing-Counted items old 1 w h)) h

  remove_found-Counted : (o : Option ℕ) (w : World) → Counted w → Counted (remove_found items o w)
  remove_found-Counted none w h = h
  remove_found-Counted (some old) w h = remove_thing-Counted items old 1 w h

  add_splash-Counted :
      (b : Bool) (w : World)
      → Counted w
      → Counted (add_top_item items x (if b then remove_old_splash items w else w))
  add_splash-Counted false w h = add_top_item-Counted w h
  add_splash-Counted true w h =
      add_top_item-Counted (remove_old_splash items w)
        (remove_found-Counted (find_splash items w.things w.tile.top_items) w h)

  pub add_thing-Counted : (w : World) → Counted w → Counted (add_thing items x w)
  unfolding add_thing
  add_thing-Counted w₀ h =
      let w : World = record w₀ { things = set_here x true w₀.things } in
      let it = type_of items w.things x in
      if_both Counted (w.things.creature x) _ _ (ground arith) (
        if_both Counted it.ground_tile _ _ (add_ground-Counted w.tile.ground w refl h) (
          if_both Counted it.always_on_top _ _ (add_splash-Counted it.splash w h) (
            if_both Counted it.magic_field _ _
              (add_field-Counted (find_field w.things w.tile.down_items) w h)
              (add_down_item-Counted w h))))

  pub internal_add_thing-Counted : (w : World) → Counted w → Counted (internal_add_thing items x w)
  unfolding internal_add_thing add_flags
  internal_add_thing-Counted w h =
      ground (arith, length-put_top_after items w.things x w.tile.top_items)

  pub update_thing-Counted :
      (id n : ℕ) (w : World) → Counted w → Counted (update_thing items x id n w)
  unfolding update_thing add_flags remove_flags
  update_thing-Counted id n w h = ground arith

  replaced-Counted :
      (o : Option ℕ) (t : Tile) (w : World)
      → Counted w
      → t.thing_count ≡ size t % 2 ^ 32
      → Counted (replaced items o x t w)
  unfolding add_flags remove_flags
  replaced-Counted none t w h k = h
  replaced-Counted (some old) t w h k = k

  replace_listed-Counted : (i : ℕ) (w : World) → Counted w → Counted (replace_listed items i x w)
  replace_listed-Counted i w h =
      let t = w.tile in
      let in_creatures = i - length t.top_items in
      let in_down = in_creatures - length t.creatures in
      if_both Counted (ltb i (length t.top_items)) _ _
        (replaced-Counted (get_elem? t.top_items i) (record t { top_items = set t.top_items i x }) w
          h (rw (length-set t.top_items i x) h))
        (if_both Counted (ltb in_creatures (length t.creatures)) _ _ h (
          if_both Counted (ltb in_down (length t.down_items)) _ _
            (replaced-Counted (get_elem? t.down_items in_down)
              (record t { down_items = set t.down_items in_down x }) w h
              (rw (length-set t.down_items in_down x) h))
            h))

  replace_from-Counted :
      (g : Option ℕ) (i : ℕ) (w : World)
      → g ≡ w.tile.ground
      → Counted w
      → Counted (replace_from items g i x w)
  replace_from-Counted none i w e h = replace_listed-Counted i w h
  replace_from-Counted (some g) i w e h =
      if_both Counted (i == 0) _ _
        (replaced-Counted (some g) (record w.tile { ground = some x }) w h (ground arith))
        (replace_listed-Counted (i - 1) w h)

  pub replace_thing-Counted : (i : ℕ) (w : World) → Counted w → Counted (replace_thing items i x w)
  unfolding replace_thing
  replace_thing-Counted i w h =
      if_both Counted (w.things.creature x) _ _ h (replace_from-Counted w.tile.ground i w refl h)
