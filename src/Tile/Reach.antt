-- ===== src/Tile/Reach.antt =====
-- A tile through any calls of its operations in source 7.6/tile.cpp.
use jamera_server.Base.{
  ℕ, ◌≡◌, refl, ◌∙◌, Bool, true, false, none, some, [], count, arith, ◌↔◌, sym,
}
use jamera_server.Tile.{Items, Things, Tile, World, get_thing, get_index_of_thing, stack}
use jamera_server.Tile.Operations.{
  add_thing, internal_add_thing, remove_thing, replace_thing, update_thing,
}
use jamera_server.Tile.Stack.{
  get_index_of_thing-stack, get_thing-stack, index_in-get_elem?, get_elem?-index_in,
}
use jamera_server.Tile.Places.{
  Part, on_ground, on_top, living, down, part, at_home, belongs, Placed, Fewer-Placed,
  remove_thing-Fewer,
}
use jamera_server.Tile.Adding.{Adds-Placed, add_thing-Adds, internal_add_thing-Adds}
use jamera_server.Tile.Replacing.{SameHome, replace_thing-Adds, update_thing-Placed}
use jamera_server.Tile.Apart.{
  Apart, Apart-Fewer, stack_parts, Grows-Apart, Adds-Grows, replace_thing-Grows, update_thing-Apart,
}
use jamera_server.Tile.Counting.{
  Counted, add_thing-Counted, internal_add_thing-Counted, remove_thing-Counted,
  replace_thing-Counted, update_thing-Counted,
}

-- A thing that is nowhere on the tile.
abbrev pub Absent : ℕ → World → Type 0
Absent x w = (k : Part) → count x (part k w.tile) ≡ 0

-- A call on the tile. A thing that is added, or put in the place of another, is not there already.
-- Where `keeps` is true, what takes the place of a thing, and the new type of a thing, belong where
-- the old one did.
pub data Step (items : Items) (keeps : Bool) : World → World → Type 0 where
  adds : (x : ℕ) (w : World) → Absent x w → Step items keeps w (add_thing items x w)
  loads : (x : ℕ) (w : World) → Absent x w → Step items keeps w (internal_add_thing items x w)
  removes : (x n : ℕ) (w : World) → Step items keeps w (remove_thing items x n w)
  replaces :
      (i x : ℕ) (w : World)
      → Absent x w
      → (keeps ≡ true → (old : ℕ) → get_thing w.tile i ≡ some old → SameHome items x w old)
      → Step items keeps w (replace_thing items i x w)
  updates :
      (x id n : ℕ) (w : World)
      → (keeps ≡ true
          → (k : Part) → belongs k (w.things.creature x) (items id) ≡ at_home items w.things k x)
      → Step items keeps w (update_thing items x id n w)

pub data Reach (items : Items) (keeps : Bool) (s : World) : World → Type 0 where
  here : Reach items keeps s s
  next : {w w' : World} → Reach items keeps s w → Step items keeps w w' → Reach items keeps s w'

abbrev pub empty_tile : Tile
empty_tile = record {
  ground = none;
  top_items = [];
  creatures = [];
  down_items = [];
  thing_count = 0;
  flags = λ k. false;
}

-- An empty tile, whatever things there are.
abbrev pub empty_world : Things → World
empty_world s = record { tile = empty_tile; things = s }

module _ (items : Items) where
  Step-Placed : {w w' : World} → Step items true w w' → Placed items w → Placed items w'
  Step-Placed (adds x w a) p =
      Adds-Placed items x w (add_thing items x w) a (add_thing-Adds items x w) p
  Step-Placed (loads x w a) p =
      Adds-Placed items x w (internal_add_thing items x w) a (internal_add_thing-Adds items x w) p
  Step-Placed (removes x n w) p =
      Fewer-Placed items w (remove_thing items x n w) (remove_thing-Fewer items x n w) p
  Step-Placed (replaces i x w a same) p =
      Adds-Placed items x w (replace_thing items i x w) a
        (replace_thing-Adds items x w p i (same refl)) p
  Step-Placed (updates x id n w same) p = update_thing-Placed items x w p id n (same refl)

  Absent-stack : (x : ℕ) (w : World) → Absent x w → count x (stack w.tile) ≡ 0
  Absent-stack x w a = omega (arith, stack_parts w.tile x, a on_ground, a on_top, a living, a down)

  module _ (keeps : Bool) where
    Step-Apart : {w w' : World} → Step items keeps w w' → Apart w → Apart w'
    Step-Apart (adds x w a) p =
        let w' = add_thing items x w in
        Grows-Apart items x w w' (Absent-stack x w a)
          (Adds-Grows items x w w' (add_thing-Adds items x w)) p
    Step-Apart (loads x w a) p =
        let w' = internal_add_thing items x w in
        Grows-Apart items x w w' (Absent-stack x w a)
          (Adds-Grows items x w w' (internal_add_thing-Adds items x w)) p
    Step-Apart (removes x n w) p =
        Apart-Fewer items w (remove_thing items x n w) (remove_thing-Fewer items x n w) p
    Step-Apart (replaces i x w a same) p =
        Grows-Apart items x w (replace_thing items i x w) (Absent-stack x w a)
          (replace_thing-Grows items x w i) p
    Step-Apart (updates x id n w same) p = update_thing-Apart items x w id n p

    Step-Counted : {w w' : World} → Step items keeps w w' → Counted w → Counted w'
    Step-Counted (adds x w a) h = add_thing-Counted items x w h
    Step-Counted (loads x w a) h = internal_add_thing-Counted items x w h
    Step-Counted (removes x n w) h = remove_thing-Counted items x n w h
    Step-Counted (replaces i x w a same) h = replace_thing-Counted items x i w h
    Step-Counted (updates x id n w same) h = update_thing-Counted items x id n w h

    Reach-Apart : {s w : World} → Reach items keeps s w → Apart s × Counted s → Apart w × Counted w
    Reach-Apart here h = h
    Reach-Apart (next r st) h = let q = Reach-Apart r h in (Step-Apart st q.0, Step-Counted st q.1)

  nothing : (k : Part) (x : ℕ) → count x (part k empty_tile) ≡ 0
  nothing on_ground x = refl
  nothing on_top x = refl
  nothing living x = refl
  nothing down x = refl

  empty_world-Placed : (s : Things) → Placed items (empty_world s)
  empty_world-Placed s = record {
    home = λ k x h. absurd (omega (arith, nothing k x));
    once = λ k x. omega (arith, nothing k x);
  }

  empty_world-Apart : (s : Things) → Apart (empty_world s)
  empty_world-Apart s y = omega arith

  Reach-homes : {s w : World} → Reach items true s w → Placed items s → Placed items w
  Reach-homes here p = p
  Reach-homes (next r st) p = Step-Placed st (Reach-homes r p)

  -- However a tile that was empty has been changed, as long as nothing is added that is on it
  -- already, and what takes the place of a thing, or a thing's new type, belongs where the old one
  -- did: each thing on it stands where its type belongs (ground, top items, creatures or other
  -- items), no thing is on it twice, and thingCount is the number of things, modulo 2^32.
  pub Reach-Placed :
      (s : Things) (w : World)
      → Reach items true (empty_world s) w
      → Placed items w × Apart w × Counted w
  Reach-Placed s w r =
      let q = Reach-Apart true r (empty_world-Apart s, refl) in
      (Reach-homes r (empty_world-Placed s), q.0, q.1)

  -- However a tile that was empty has been changed, as long as nothing is added that is on it
  -- already, and whatever types things are replaced by or get, __getIndexOfThing gives an index
  -- for a thing exactly when __getThing gives the thing for that index.
  pub Reach-index :
      (s : Things) (w : World)
      → Reach items false (empty_world s) w
      → (x i : ℕ) → (get_index_of_thing w.tile x ≡ some i) ↔ (get_thing w.tile i ≡ some x)
  Reach-index s w r x i = (
    λ h.
        get_thing-stack w.tile i
        ∙ index_in-get_elem? x i (stack w.tile) (sym (get_index_of_thing-stack w.tile x) ∙ h),
    λ h.
        get_index_of_thing-stack w.tile x
        ∙ get_elem?-index_in x i (stack w.tile) (sym (get_thing-stack w.tile i) ∙ h)
            ((Reach-Apart false r (empty_world-Apart s, refl)).0 x),
  )
