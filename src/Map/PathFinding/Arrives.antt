-- ===== src/Map/PathFinding/Arrives.antt =====
-- What Map::getPathTo of source 7.6/map.cpp returns.
use jamera_server.Base.{
  ℕ, ◌+◌, ◌<◌, ◌≡◌, refl, true, some, arith, inl, inr, Bool-cases, Option-cases, List, [], ◌∷◌,
}
use jamera_server.Base.Int.{ℤ}
use jamera_server.Map.PathFinding.{AStarNode, AStarNodes, Walker, can_walk_to, eq_ℤ, Direction}
use jamera_server.Map.PathFinding.Search.{
  found, search_from, get_path_to, path_of, path_to, start_nodes, is_there, Search, PathTo,
  returns_true, returns_false,
}
use jamera_server.Map.PathFinding.Nodes.{eq_ℤ→eq}
use jamera_server.Map.PathFinding.Links.{Inv}
use jamera_server.Map.PathFinding.Way.{Walks, found_way}
use jamera_server.Map.PathFinding.Ends.{Outcome, no_way, at, search-Ended}

-- What getPathTo is to return: false, or a way that is not empty.
pub data Arrives (w : Walker) (x y z : ℤ) : PathTo → Type 0 where
  no : Arrives w x y z returns_false
  yes :
      (d : Direction)
      → (ds : List Direction) → Walks w z w.at_x w.at_y (d ∷ ds) x y
      → Arrives w x y z (returns_true (d ∷ ds))

start_nodes-Inv :
    (raw : ℕ → AStarNode)
    → (w : Walker) → (x y z : ℤ) → (tile : ℕ) → can_walk_to w x y z ≡ some tile
    → Inv w z x y (start_nodes raw w x y)
start_nodes-Inv raw w x y z tile walk = record {
  walkable = λ j h. (let e : j ≡ 0 = omega arith in rw e (tile, walk));
  linked = λ j h.
      (let e : j ≡ 0 = omega arith in
        rw e (inl record { parent = refl; at_x = refl; at_y = refl }));
  bounded = omega arith;
}

module _ (w : Walker) (x y z : ℤ) where
  path_to-Arrives :
      (l : List Direction) → Walks w z w.at_x w.at_y l x y → Arrives w x y z (path_to (some l))
  path_to-Arrives [] h = no
  path_to-Arrives (d ∷ ds) h = yes d ds h

  found-Arrives :
      (i : ℕ)
      → (s : AStarNodes) → Inv w z x y s
      → i < s.cur_node
      → is_there w (s.nodes i) ≡ true
      → Arrives w x y z (path_of w (found i s))
  unfolding path_of
  found-Arrives i s inv h there =
      let at_x : (s.nodes i).x ≡ w.at_x = eq_ℤ→eq (s.nodes i).x w.at_x (ground arith) in
      let at_y : (s.nodes i).y ≡ w.at_y = eq_ℤ→eq (s.nodes i).y w.at_y (ground arith) in
      let r = rw (at_x, at_y) at (found_way w z x y s inv i h) in rw r.1 (path_to-Arrives r.0 r.2)

  path_of-Arrives : (t : Search) → Outcome w z x y t → Arrives w x y z (path_of w t)
  unfolding path_of
  path_of-Arrives t no_way = no
  path_of-Arrives t (at i s inv h there) = found-Arrives i s inv h there

-- From some fuel on, getPathTo ends: it returns false, or a list of directions that is not empty
-- and leads, step by step over tiles that canWalkTo allows, from the position of the creature to
-- the destination. This holds whatever the array of nodes holds at first.
pub get_path_to-Arrives :
    (raw : ℕ → AStarNode)
    → (w : Walker) → (x y z : ℤ)
    → (fuel : ℕ) × ((k : ℕ) → Arrives w x y z (get_path_to (k + fuel) raw w x y z))
unfolding get_path_to
get_path_to-Arrives raw w x y z = elim (Option-cases (can_walk_to w x y z)) [
  | inl e ↦ (0, λ k. rw (e, get_path_to) no)
  | inr (tile, e) ↦ elim (Bool-cases (eq_ℤ z w.at_z)) [
    | inr floor ↦ (0, λ k. rw (e, floor, get_path_to) no)
    | inl floor ↦
        let r = search-Ended w z x y (start_nodes raw w x y) (start_nodes-Inv raw w x y z tile e) in
        (
          r.0,
          λ k.
              rw (e, floor, get_path_to)
                (path_of-Arrives w x y z (search_from (k + r.0) w z (start_nodes raw w x y))
                  (r.1 k)),
        )
  ]
]
