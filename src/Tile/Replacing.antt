-- ===== src/Tile/Replacing.antt =====
-- A thing in the place of another one, and a thing with another id, on a tile of source 7.6/tile.cpp.
use jamera_server.Base.{
  ℕ, zero, suc, ◌+◌, ◌-◌, ◌≡◌, refl, ◌∙◌, true, Option, none, some, ltb, ◌==◌, ==_iff,
  if◌then◌else◌, List, [], ◌∷◌, get_elem?, count, length, arith, Bool-cases, Option-cases, inl, inr,
  sym,
}
use jamera_server.Tile.{Items, Tile, World, get_thing, listed_thing, get_index_of_thing}
use jamera_server.Tile.Flags.{add_flags, remove_flags}
use jamera_server.Tile.Operations.{
  set, replaced, replace_listed, replace_from, replace_thing, update_thing,
}
use jamera_server.Tile.Stack.{get_elem?-count}
use jamera_server.Tile.Places.{
  Part, on_ground, on_top, living, down, part, by_parts, at_home, belongs, Placed, Fewer-refl,
  Fewer-Placed, told_add, told_remove,
}
use jamera_server.Tile.Adding.{Adds, Adds-Fewer, Up, kept}

pub count-set :
    (l : List ℕ) (i x y old : ℕ)
    → get_elem? l i ≡ some old
    → (if old == y then 1 else 0) + count y (set l i x) ≡ (if x == y then 1 else 0) + count y l
count-set [] i x y old h = cc
count-set (z ∷ zs) zero x y old h = ground arith
count-set (z ∷ zs) (suc i) x y old h = (let r = count-set zs i x y old h in ground arith)

module _ (items : Items) (x : ℕ) where
  -- The thing at an index belongs where x does.
  abbrev pub SameHome : World → ℕ → Type 0
  SameHome w old = (k : Part) → at_home items w.things k old ≡ at_home items w.things k x

  replaced-Adds :
      (w : World) (old : ℕ) (t : Tile)
      → Adds items x w (record { tile = t; things = w.things })
      → Adds items x w (replaced items (some old) x t w)
  unfolding add_flags remove_flags
  replaced-Adds w old t a = record {
    parts =
        by_parts (Up items x w (replaced items (some old) x t w).tile) (a.parts on_ground)
          (a.parts on_top) (a.parts living) (a.parts down);
    creature = refl;
    id = refl;
    unique_id = refl;
  }

  module _ (w : World) (p : Placed items w) where
    abbrev with_top : List ℕ → Tile
    with_top l = record w.tile { top_items = l }

    abbrev with_down : List ℕ → Tile
    with_down l = record w.tile { down_items = l }

    -- Where the old thing stood, x belongs.
    home_of :
        (k : Part) (i old : ℕ)
        → get_elem? (part k w.tile) i ≡ some old
        → SameHome w old
        → at_home items w.things k x ≡ true
    home_of k i old e same =
        sym (same k) ∙ p.home k old (omega (arith, get_elem?-count (part k w.tile) i old e))

    set_top-Adds :
        (i old : ℕ)
        → get_elem? w.tile.top_items i ≡ some old
        → SameHome w old
        → Adds items x w (record { tile = with_top (set w.tile.top_items i x); things = w.things })
    set_top-Adds i old e same = record {
      parts =
          by_parts (Up items x w (with_top (set w.tile.top_items i x))) (kept items x w on_ground)
            (λ y.
              rw (home_of on_top i old e same)
                (let q = count-set w.tile.top_items i x y old e in ground arith))
            (kept items x w living) (kept items x w down);
      creature = refl;
      id = refl;
      unique_id = refl;
    }

    set_down-Adds :
        (i old : ℕ)
        → get_elem? w.tile.down_items i ≡ some old
        → SameHome w old
        → Adds items x w
            (record { tile = with_down (set w.tile.down_items i x); things = w.things })
    set_down-Adds i old e same = record {
      parts =
          by_parts (Up items x w (with_down (set w.tile.down_items i x))) (kept items x w on_ground)
            (kept items x w on_top) (kept items x w living)
            (λ y.
              rw (home_of down i old e same)
                (let q = count-set w.tile.down_items i x y old e in ground arith));
      creature = refl;
      id = refl;
      unique_id = refl;
    }

    replace_listed-Adds :
        (i : ℕ)
        → ((old : ℕ) → listed_thing w.tile i ≡ some old → SameHome w old)
        → Adds items x w (replace_listed items i x w)
    replace_listed-Adds i same =
        let t = w.tile in
        let in_creatures = i - length t.top_items in
        let in_down = in_creatures - length t.creatures in
        elim (Bool-cases (ltb i (length t.top_items))) [
          | inl e ↦ elim (Option-cases (get_elem? t.top_items i)) [
            | inl q ↦ rw (e, q) (Adds-Fewer items x w w (Fewer-refl items w))
            | inr (old, q) ↦
                rw (e, q)
                  (replaced-Adds w old (with_top (set t.top_items i x))
                    (set_top-Adds i old q (same old (rw e q))))
          ]
          | inr e ↦ elim (Bool-cases (ltb in_creatures (length t.creatures))) [
            | inl c ↦ rw (e, c) (Adds-Fewer items x w w (Fewer-refl items w))
            | inr c ↦ elim (Bool-cases (ltb in_down (length t.down_items))) [
              | inr d ↦ rw (e, c, d) (Adds-Fewer items x w w (Fewer-refl items w))
              | inl d ↦ elim (Option-cases (get_elem? t.down_items in_down)) [
                | inl q ↦ rw (e, c, d, q) (Adds-Fewer items x w w (Fewer-refl items w))
                | inr (old, q) ↦
                    rw (e, c, d, q)
                      (replaced-Adds w old (with_down (set t.down_items in_down x))
                        (set_down-Adds in_down old q (same old (rw (e, c, d) q))))
              ]
            ]
          ]
        ]

    set_ground-Adds :
        at_home items w.things on_ground x ≡ true
        → Adds items x w (record { tile = record w.tile { ground = some x }; things = w.things })
    set_ground-Adds home = record {
      parts =
          by_parts (Up items x w (record w.tile { ground = some x })) (λ y. rw home (ground arith))
            (kept items x w on_top) (kept items x w living) (kept items x w down);
      creature = refl;
      id = refl;
      unique_id = refl;
    }

    replace_from-Adds :
        (g : Option ℕ) (i : ℕ)
        → w.tile.ground ≡ g
        → ((old : ℕ) → get_thing w.tile i ≡ some old → SameHome w old)
        → Adds items x w (replace_from items g i x w)
    unfolding get_thing
    replace_from-Adds none i e same =
        replace_listed-Adds i (λ old q. same old (rw (e, get_thing) q))
    replace_from-Adds (some g) i e same = elim (Bool-cases (i == 0)) [
      | inl z ↦ rw z (
          replaced-Adds w g (record w.tile { ground = some x })
            (set_ground-Adds (
              sym (same g (rw (e, get_thing) (rw z refl)) on_ground)
              ∙ p.home on_ground g (rw e (ground arith)))))
      | inr z ↦ rw z (replace_listed-Adds (i - 1) (λ old q. same old (rw (e, get_thing) (rw z q))))
    ]

    pub replace_thing-Adds :
        (i : ℕ)
        → ((old : ℕ) → get_thing w.tile i ≡ some old → SameHome w old)
        → Adds items x w (replace_thing items i x w)
    unfolding replace_thing
    replace_thing-Adds i same = elim (Bool-cases (w.things.creature x)) [
      | inl e ↦ rw (e, replace_thing) (Adds-Fewer items x w w (Fewer-refl items w))
      | inr e ↦ rw (e, replace_thing) (replace_from-Adds w.tile.ground i refl same)
    ]

    abbrev changed : ℕ → ℕ → World
    changed id n = record w {
      things = record w.things {
        id = λ y. if x == y then id else w.things.id y;
        item_count = λ y. if x == y then n else w.things.item_count y;
      };
    }

    changed-Placed :
        (id n : ℕ)
        → ((k : Part) → belongs k (w.things.creature x) (items id) ≡ at_home items w.things k x)
        → Placed items (changed id n)
    changed-Placed id n same = record {
      home = λ k y h. elim (Bool-cases (x == y)) [
        | inl e ↦
            let z : x ≡ y = (==_iff x y).0 e in
            rw (e, sym z) (same k ∙ p.home k x (rw (sym z) at h))
        | inr e ↦ rw e (p.home k y h)
      ];
      once = p.once;
    }

    -- With an id whose type belongs where the old one did, everything stays at home.
    pub update_thing-Placed :
        (id n : ℕ)
        → ((k : Part) → belongs k (w.things.creature x) (items id) ≡ at_home items w.things k x)
        → Placed items (update_thing items x id n w)
    unfolding update_thing
    update_thing-Placed id n same = elim (Option-cases (get_index_of_thing w.tile x)) [
      | inl e ↦ rw (e, update_thing) p
      | inr (i, e) ↦ elim (Bool-cases (w.things.creature x)) [
        | inl c ↦ rw (e, c, update_thing) p
        | inr c ↦
            let w' = changed id n in
            rw (e, c, update_thing)
              (Fewer-Placed items w' (add_flags items x (remove_flags items x w'))
                (told_add items x w' (remove_flags items x w')
                  (told_remove items x w' w' (Fewer-refl items w')))
                (changed-Placed id n same))
      ]
    ]
