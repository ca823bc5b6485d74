-- ===== src/Tile/Adding.antt =====
-- A thing that is added to a tile, by the operations of source 7.6/tile.cpp.
use jamera_server.Base.{
  ℕ, ◌+◌, ◌≤◌, ◌<◌, ◌≡◌, refl, ◌∙◌, Bool, true, false, ◌&&◌, Option, none, some, ◌==◌, ==_iff,
  if◌then◌else◌, List, [], ◌∷◌, count, arith, Bool-cases, inl, inr, sym,
}
use jamera_server.Tile.{Items, Things, Tile, World, type_of, increment}
use jamera_server.Tile.Flags.{add_flags, remove_flags}
use jamera_server.Tile.Operations.{
  put_top, put_top_after, add_thing, internal_add_thing, gain, add_creature, add_ground,
  add_top_item, add_down_item, add_field, remove_old, remove_found, remove_old_splash, first_ground,
  find_splash, find_field, free_thing, set_here, remove_thing,
}
use jamera_server.Tile.Places.{
  Part, on_ground, on_top, living, down, part, by_parts, at_home, Placed, Fewer, Fewer-refl,
  Fewer-trans, Fewer-home, remove_thing-Fewer,
}

count-put_top :
    (items : Items) (s : Things) (x y : ℕ) (l : List ℕ)
    → count y (put_top items s x l) ≡ (if x == y then 1 else 0) + count y l
count-put_top items s x y [] = refl
count-put_top items s x y (z ∷ zs) = ground (arith, count-put_top items s x y zs)

count-put_top_after :
    (items : Items) (s : Things) (x y : ℕ) (l : List ℕ)
    → count y (put_top_after items s x l) ≡ (if x == y then 1 else 0) + count y l
count-put_top_after items s x y [] = refl
count-put_top_after items s x y (z ∷ zs) = ground (arith, count-put_top_after items s x y zs)

module _ (items : Items) (x : ℕ) where
  abbrev pub own : World → Part → ℕ → ℕ
  own w k y = if x == y && at_home items w.things k x then 1 else 0

  -- At most x is added, and to the part where it belongs.
  pub record Adds (w w' : World) : Type 0 where
    pub parts : (k : Part) (y : ℕ) → count y (part k w'.tile) ≤ count y (part k w.tile) + own w k y
    pub creature : w'.things.creature ≡ w.things.creature
    pub id : w'.things.id ≡ w.things.id
    pub unique_id : w'.things.unique_id ≡ w.things.unique_id

  own_home :
      (w w' : World)
      → ((k : Part) → count x (part k w.tile) ≡ 0)
      → Adds w w'
      → (k : Part) → 0 < count x (part k w'.tile)
      → at_home items w.things k x ≡ true
  own_home w w' new a k h = (let le = a.parts k x in let z = new k in ground arith)

  pub Adds-Placed :
      (w w' : World)
      → ((k : Part) → count x (part k w.tile) ≡ 0)
      → Adds w w'
      → Placed items w
      → Placed items w'
  Adds-Placed w w' new a p = record {
    home = λ k y h. elim (Bool-cases (x == y)) [
      | inl e ↦
          (let same : x ≡ y = (==_iff x y).0 e in
            rw (a.creature, a.id, sym same) (own_home w w' new a k (rw (sym same) at h)))
      | inr e ↦ (let le = a.parts k y in rw (a.creature, a.id) (p.home k y (ground arith)))
    ];
    once = λ k y.
        (let le = a.parts k y in
          let one = p.once k y in
          let z = new k in
          elim (Bool-cases (x == y)) [
            | inl e ↦
                (let same : x ≡ y = (==_iff x y).0 e in
                  let none_yet : count y (part k w.tile) ≡ 0 = rw same at z in ground arith)
            | inr e ↦ ground arith
          ]);
  }

  Adds-after : (w w' w'' : World) → Fewer items w w' → Adds w' w'' → Adds w w''
  Adds-after w w' w'' f a = record {
    parts = λ k y.
        (let le = f.parts k y in let up = rw (f.creature, f.id) at (a.parts k y) in omega arith);
    creature = a.creature ∙ f.creature;
    id = a.id ∙ f.id;
    unique_id = a.unique_id ∙ f.unique_id;
  }

  abbrev pub Up : World → Tile → Part → Type 0
  Up w t k = (y : ℕ) → count y (part k t) ≤ count y (part k w.tile) + own w k y

  pub kept :
      (w : World) (k : Part) (y : ℕ) → count y (part k w.tile) ≤ count y (part k w.tile) + own w k y
  kept w k y = omega arith

  put :
      (w : World) (k : Part)
      → at_home items w.things k x ≡ true
      → (y : ℕ) → count y (x ∷ part k w.tile) ≤ count y (part k w.tile) + own w k y
  put w k home y = rw home (ground arith)

  told_Adds : (z : ℕ) (w w' : World) → Adds w w' → Adds w (add_flags items z w')
  unfolding add_flags
  told_Adds z w w' f = record {
    parts =
        by_parts (Up w (add_flags items z w').tile) (f.parts on_ground) (f.parts on_top)
          (f.parts living) (f.parts down);
    creature = f.creature;
    id = f.id;
    unique_id = f.unique_id;
  }

  told_lost_Adds : (z : ℕ) (w w' : World) → Adds w w' → Adds w (remove_flags items z w')
  unfolding remove_flags
  told_lost_Adds z w w' f = record {
    parts =
        by_parts (Up w (remove_flags items z w').tile) (f.parts on_ground) (f.parts on_top)
          (f.parts living) (f.parts down);
    creature = f.creature;
    id = f.id;
    unique_id = f.unique_id;
  }

  abbrev with_top : World → List ℕ → World
  with_top w l = gain w (record w.tile { top_items = l })

  module _ (w : World) where
    add_creature-Adds : w.things.creature x ≡ true → Adds w (add_creature x w)
    add_creature-Adds c = record {
      parts =
          by_parts (Up w (add_creature x w).tile) (kept w on_ground) (kept w on_top)
            (put w living c) (kept w down);
      creature = refl;
      id = refl;
      unique_id = refl;
    }

    put_top-Adds :
        at_home items w.things on_top x ≡ true
        → (l : List ℕ)
        → ((y : ℕ) → count y l ≡ (if x == y then 1 else 0) + count y w.tile.top_items)
        → Adds w (with_top w l)
    put_top-Adds home l e = record {
      parts =
          by_parts (Up w (with_top w l).tile) (kept w on_ground)
            (λ y. rw home (let q = e y in ground arith)) (kept w living) (kept w down);
      creature = refl;
      id = refl;
      unique_id = refl;
    }

    put_down-Adds :
        at_home items w.things down x ≡ true
        → Adds w (gain w (record w.tile { down_items = x ∷ w.tile.down_items }))
    put_down-Adds home = record {
      parts =
          by_parts (Up w (gain w (record w.tile { down_items = x ∷ w.tile.down_items })).tile)
            (kept w on_ground) (kept w on_top) (kept w living) (put w down home);
      creature = refl;
      id = refl;
      unique_id = refl;
    }

    put_ground-Adds :
        at_home items w.things on_ground x ≡ true
        → (s : Things) (n : ℕ) → s.creature ≡ w.things.creature
        → s.id ≡ w.things.id
        → s.unique_id ≡ w.things.unique_id
        → Adds w (record { tile = record w.tile { ground = some x; thing_count = n }; things = s })
    put_ground-Adds home s n c i u = record {
      parts =
          by_parts (Up w (record w.tile { ground = some x; thing_count = n }))
            (λ y. rw home (ground arith)) (kept w on_top) (kept w living) (kept w down);
      creature = c;
      id = i;
      unique_id = u;
    }

    add_down_item-Adds : at_home items w.things down x ≡ true → Adds w (add_down_item items x w)
    add_down_item-Adds home =
        told_Adds x w (gain w (record w.tile { down_items = x ∷ w.tile.down_items }))
          (put_down-Adds home)

    add_top_item-Adds : at_home items w.things on_top x ≡ true → Adds w (add_top_item items x w)
    add_top_item-Adds home =
        told_Adds x w (with_top w (put_top items w.things x w.tile.top_items)) (
          put_top-Adds home (put_top items w.things x w.tile.top_items)
            (λ y. count-put_top items w.things x y w.tile.top_items))

    add_ground-Adds :
        (g : Option ℕ) → at_home items w.things on_ground x ≡ true → Adds w (add_ground items x g w)
    add_ground-Adds none home =
        told_Adds x w (gain w (record w.tile { ground = some x }))
          (put_ground-Adds home w.things (increment w.tile.thing_count) refl refl refl)
    add_ground-Adds (some old) home =
        let placed : World = record (free_thing old w) {
          tile = record w.tile { ground = some x };
        } in
        told_Adds x w (remove_flags items old placed) (
          told_lost_Adds old w placed
            (put_ground-Adds home (free_thing old w).things w.tile.thing_count refl refl refl))

  freed-Fewer : (z : ℕ) (w : World) → Fewer items w (free_thing z w)
  freed-Fewer z w = record {
    parts = λ k y. omega arith;
    creature = refl;
    id = refl;
    unique_id = refl;
  }

  remove_old-Fewer : (old : ℕ) (w : World) → Fewer items w (remove_old items old w)
  remove_old-Fewer old w =
      Fewer-trans items w (remove_thing items old 1 w) (remove_old items old w)
        (remove_thing-Fewer items old 1 w) (freed-Fewer old (remove_thing items old 1 w))

  remove_found-Fewer : (o : Option ℕ) (w : World) → Fewer items w (remove_found items o w)
  remove_found-Fewer none w = Fewer-refl items w
  remove_found-Fewer (some old) w = remove_old-Fewer old w

  pub Adds-Fewer : (w w' : World) → Fewer items w w' → Adds w w'
  Adds-Fewer w w' f = record {
    parts = λ k y. (let le = f.parts k y in omega arith);
    creature = f.creature;
    id = f.id;
    unique_id = f.unique_id;
  }

  add_field-Adds :
      (o : Option ℕ) (w : World)
      → at_home items w.things down x ≡ true
      → Adds w (add_field items x o w)
  add_field-Adds none w home = add_down_item-Adds w home
  add_field-Adds (some old) w home = elim (Bool-cases (type_of items w.things old).replaceable) [
    | inr e ↦ rw e (Adds-Fewer w (free_thing x w) (freed-Fewer x w))
    | inl e ↦
        let f = remove_old-Fewer old w in
        rw e (
          Adds-after w (remove_old items old w) (add_down_item items x (remove_old items old w)) f (
            add_down_item-Adds (remove_old items old w)
              (Fewer-home items w (remove_old items old w) down x true f home)))
  ]

  add_splash-Adds :
      (b : Bool) (w : World)
      → at_home items w.things on_top x ≡ true
      → Adds w (add_top_item items x (if b then remove_old_splash items w else w))
  add_splash-Adds false w home = add_top_item-Adds w home
  add_splash-Adds true w home =
      let f : Fewer items w (remove_old_splash items w) =
        remove_found-Fewer (find_splash items w.things w.tile.top_items) w in
      Adds-after w (remove_old_splash items w) (add_top_item items x (remove_old_splash items w)) f
        (add_top_item-Adds (remove_old_splash items w)
          (Fewer-home items w (remove_old_splash items w) on_top x true f home))

  -- The tile with x as its child.
  abbrev entered : World → World
  entered w = record w { things = set_here x true w.things }

  entered-Fewer : (w : World) → Fewer items w (entered w)
  entered-Fewer w = record {
    parts = λ k y. omega arith;
    creature = refl;
    id = refl;
    unique_id = refl;
  }

  pub add_thing-Adds : (w : World) → Adds w (add_thing items x w)
  unfolding add_thing
  add_thing-Adds w₀ =
      let w = entered w₀ in
      Adds-after w₀ w (add_thing items x w₀) (entered-Fewer w₀)
        (elim (Bool-cases (w.things.creature x)) [
          | inl c ↦ rw (c, add_thing) (add_creature-Adds w c)
          | inr c ↦ elim (Bool-cases (type_of items w.things x).ground_tile) [
            | inl g ↦ rw (c, g, add_thing) (add_ground-Adds w w.tile.ground (rw (c, g) refl))
            | inr g ↦ elim (Bool-cases (type_of items w.things x).always_on_top) [
              | inl t ↦
                  rw (c, g, t, add_thing)
                    (add_splash-Adds (type_of items w.things x).splash w (rw (c, g, t) refl))
              | inr t ↦ elim (Bool-cases (type_of items w.things x).magic_field) [
                | inl m ↦
                    rw (c, g, t, m, add_thing)
                      (add_field-Adds (find_field w.things w.tile.down_items) w (rw (c, g, t) refl))
                | inr m ↦ rw (c, g, t, m, add_thing) (add_down_item-Adds w (rw (c, g, t) refl))
              ]
            ]
          ]
        ])

  first_ground-Adds :
      (g : Option ℕ) (w : World)
      → at_home items w.things on_ground x ≡ true
      → Adds w (first_ground x g w)
  first_ground-Adds none w home =
      put_ground-Adds w home w.things (increment w.tile.thing_count) refl refl refl
  first_ground-Adds (some old) w home = Adds-Fewer w w (Fewer-refl items w)

  pub internal_add_thing-Adds : (w : World) → Adds w (internal_add_thing items x w)
  unfolding internal_add_thing
  internal_add_thing-Adds w₀ =
      let w = entered w₀ in
      Adds-after w₀ w (internal_add_thing items x w₀) (entered-Fewer w₀)
        (elim (Bool-cases (w.things.creature x)) [
          | inl c ↦ rw (c, internal_add_thing) (add_creature-Adds w c)
          | inr c ↦ elim (Bool-cases (type_of items w.things x).ground_tile) [
            | inl g ↦
                rw (c, g, internal_add_thing)
                  (told_Adds x w (first_ground x w.tile.ground w)
                    (first_ground-Adds w.tile.ground w (rw (c, g) refl)))
            | inr g ↦ elim (Bool-cases (type_of items w.things x).always_on_top) [
              | inl t ↦
                  let l = put_top_after items w.things x w.tile.top_items in
                  rw (c, g, t, internal_add_thing)
                    (told_Adds x w (with_top w l) (
                      put_top-Adds w (rw (c, g, t) refl) l
                        (λ y. count-put_top_after items w.things x y w.tile.top_items)))
              | inr t ↦ rw (c, g, t, internal_add_thing) (add_down_item-Adds w (rw (c, g, t) refl))
            ]
          ]
        ])
