-- ===== src/Tile/Apart.antt =====
-- No operation of a tile, source 7.6/tile.cpp, puts a thing on it twice, whatever its type is.
use jamera_server.Base.{
  ℕ, ◌+◌, ◌-◌, ◌≤◌, ◌≡◌, Option, none, some, ltb, ◌==◌, ==_iff, if◌then◌else◌, ◌++◌, get_elem?,
  count, count-append, length, arith, Bool-cases, Option-cases, inl, inr,
}
use jamera_server.Tile.{Items, Tile, World, get_index_of_thing, ground_list, stack}
use jamera_server.Tile.Flags.{add_flags, remove_flags}
use jamera_server.Tile.Operations.{
  set, replaced, replace_listed, replace_from, replace_thing, update_thing,
}
use jamera_server.Tile.Places.{on_ground, on_top, living, down, Fewer}
use jamera_server.Tile.Adding.{Adds}
use jamera_server.Tile.Replacing.{count-set}

pub stack_parts :
    (t : Tile) (y : ℕ)
    → count y (stack t)
      ≡ count y (ground_list t.ground)
        + (count y t.top_items + (count y t.creatures + count y t.down_items))
stack_parts t y = ground (
  arith,
  count-append y (ground_list t.ground) (t.top_items ++ (t.creatures ++ t.down_items)),
  count-append y t.top_items (t.creatures ++ t.down_items),
  count-append y t.creatures t.down_items,
)

-- No thing is on the tile twice.
abbrev pub Apart : World → Type 0
Apart w = (y : ℕ) → count y (stack w.tile) ≤ 1

-- Between two states the tile gets x at most once more, and nothing else.
abbrev pub Grows : ℕ → World → Tile → Type 0
Grows x w t = (y : ℕ) → count y (stack t) ≤ count y (stack w.tile) + (if x == y then 1 else 0)

pub Apart-Fewer : (items : Items) (w w' : World) → Fewer items w w' → Apart w → Apart w'
Apart-Fewer items w w' f a y =
    let g = f.parts on_ground y in
    let t = f.parts on_top y in
    let c = f.parts living y in
    let d = f.parts down y in omega (arith, a y, stack_parts w.tile y, stack_parts w'.tile y)

module _ (items : Items) (x : ℕ) (w : World) where
  pub Adds-Grows : (w' : World) → Adds items x w w' → Grows x w w'.tile
  Adds-Grows w' a y =
      let g = a.parts on_ground y in
      let t = a.parts on_top y in
      let c = a.parts living y in
      let d = a.parts down y in ground (arith, stack_parts w.tile y, stack_parts w'.tile y)

  pub Grows-Apart :
      (w' : World) → count x (stack w.tile) ≡ 0 → Grows x w w'.tile → Apart w → Apart w'
  Grows-Apart w' new g a y =
      let up = g y in
      let one = a y in
      elim (Bool-cases (x == y)) [
        | inl e ↦
            let same : x ≡ y = (==_iff x y).0 e in
            let none_yet : count y (stack w.tile) ≡ 0 = rw same at new in ground arith
        | inr e ↦ ground arith
      ]

  same-Grows : Grows x w w.tile
  same-Grows y = omega arith

  replaced-Grows :
      (old : ℕ) (t : Tile) → Grows x w t → Grows x w (replaced items (some old) x t w).tile
  unfolding add_flags remove_flags
  replaced-Grows old t g = g

  set_top-Grows :
      (i old : ℕ)
      → get_elem? w.tile.top_items i ≡ some old
      → Grows x w (record w.tile { top_items = set w.tile.top_items i x })
  set_top-Grows i old e y =
      let t = record w.tile { top_items = set w.tile.top_items i x } in
      let q = count-set w.tile.top_items i x y old e in
      omega (arith, stack_parts w.tile y, stack_parts t y)

  set_down-Grows :
      (i old : ℕ)
      → get_elem? w.tile.down_items i ≡ some old
      → Grows x w (record w.tile { down_items = set w.tile.down_items i x })
  set_down-Grows i old e y =
      let t = record w.tile { down_items = set w.tile.down_items i x } in
      let q = count-set w.tile.down_items i x y old e in
      omega (arith, stack_parts w.tile y, stack_parts t y)

  set_ground-Grows : Grows x w (record w.tile { ground = some x })
  set_ground-Grows y =
      let t = record w.tile { ground = some x } in
      ground (arith, stack_parts w.tile y, stack_parts t y)

  replace_listed-Grows : (i : ℕ) → Grows x w (replace_listed items i x w).tile
  replace_listed-Grows i =
      let t = w.tile in
      let in_creatures = i - length t.top_items in
      let in_down = in_creatures - length t.creatures in
      elim (Bool-cases (ltb i (length t.top_items))) [
        | inl e ↦ elim (Option-cases (get_elem? t.top_items i)) [
          | inl q ↦ rw (e, q) same-Grows
          | inr (old, q) ↦
              rw (e, q)
                (replaced-Grows old (record t { top_items = set t.top_items i x })
                  (set_top-Grows i old q))
        ]
        | inr e ↦ elim (Bool-cases (ltb in_creatures (length t.creatures))) [
          | inl c ↦ rw (e, c) same-Grows
          | inr c ↦ elim (Bool-cases (ltb in_down (length t.down_items))) [
            | inr d ↦ rw (e, c, d) same-Grows
            | inl d ↦ elim (Option-cases (get_elem? t.down_items in_down)) [
              | inl q ↦ rw (e, c, d, q) same-Grows
              | inr (old, q) ↦
                  rw (e, c, d, q)
                    (replaced-Grows old (record t { down_items = set t.down_items in_down x })
                      (set_down-Grows in_down old q))
            ]
          ]
        ]
      ]

  replace_from-Grows : (g : Option ℕ) (i : ℕ) → Grows x w (replace_from items g i x w).tile
  replace_from-Grows none i = replace_listed-Grows i
  replace_from-Grows (some g) i = elim (Bool-cases (i == 0)) [
    | inl z ↦ rw z (replaced-Grows g (record w.tile { ground = some x }) set_ground-Grows)
    | inr z ↦ rw z (replace_listed-Grows (i - 1))
  ]

  pub replace_thing-Grows : (i : ℕ) → Grows x w (replace_thing items i x w).tile
  unfolding replace_thing
  replace_thing-Grows i = elim (Bool-cases (w.things.creature x)) [
    | inl e ↦ rw (e, replace_thing) same-Grows
    | inr e ↦ rw (e, replace_thing) (replace_from-Grows w.tile.ground i)
  ]

  pub update_thing-Apart : (id n : ℕ) → Apart w → Apart (update_thing items x id n w)
  unfolding update_thing add_flags remove_flags
  update_thing-Apart id n a = elim (Option-cases (get_index_of_thing w.tile x)) [
    | inl e ↦ rw (e, update_thing) a
    | inr (i, e) ↦ elim (Bool-cases (w.things.creature x)) [
      | inl c ↦ rw (e, c, update_thing) a
      | inr c ↦ rw (e, c, update_thing) a
    ]
  ]
