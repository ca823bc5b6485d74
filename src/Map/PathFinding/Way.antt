-- ===== src/Map/PathFinding/Way.antt =====
-- The loop of getPathTo in source 7.6/map.cpp that follows the parents of the node found.
use jamera_server.Base.{
  ℕ, zero, suc, ◌+◌, ◌<◌, ◌≡◌, refl, some, arith, ◌⊎◌, inl, inr, List, [], ◌∷◌,
}
use jamera_server.Base.Int.{ℤ, ◌+ℤ◌, ◌-ℤ◌, pos, int_laws, eq_of_parts, pos_part, neg_part}
use jamera_server.Map.PathFinding.{
  AStarNode, AStarNodes, Walker, Direction, north, east, south, west, southwest, southeast,
  northwest, northeast, offset_x, offset_y, can_walk_to,
}
use jamera_server.Map.PathFinding.Search.{direction_of, follow}
use jamera_server.Map.PathFinding.Links.{Inv, Link, Linked, First}

abbrev opposite : Direction → Direction
opposite north = south
opposite east = west
opposite south = north
opposite west = east
opposite southwest = northeast
opposite southeast = northwest
opposite northwest = southeast
opposite northeast = southwest

sub_sum : (a b : ℤ) → a -ℤ (a +ℤ b) ≡ pos 0 -ℤ b
sub_sum a b = eq_of_parts (a -ℤ (a +ℤ b)) (pos 0 -ℤ b) (omega int_laws)

sub_self : (a : ℤ) → a -ℤ a ≡ pos 0
sub_self a = eq_of_parts (a -ℤ a) (pos 0) (omega int_laws)

sum_back : (a b c : ℤ) → pos_part b + pos_part c ≡ neg_part b + neg_part c → (a +ℤ b) +ℤ c ≡ a
sum_back a b c h = eq_of_parts ((a +ℤ b) +ℤ c) a (omega int_laws)

cancel_x :
    (d : Direction)
    → pos_part (offset_x d) + pos_part (offset_x (opposite d))
      ≡ neg_part (offset_x d) + neg_part (offset_x (opposite d))
cancel_x north = refl
cancel_x east = refl
cancel_x south = refl
cancel_x west = refl
cancel_x southwest = refl
cancel_x southeast = refl
cancel_x northwest = refl
cancel_x northeast = refl

cancel_y :
    (d : Direction)
    → pos_part (offset_y d) + pos_part (offset_y (opposite d))
      ≡ neg_part (offset_y d) + neg_part (offset_y (opposite d))
cancel_y north = refl
cancel_y east = refl
cancel_y south = refl
cancel_y west = refl
cancel_y southwest = refl
cancel_y southeast = refl
cancel_y northwest = refl
cancel_y northeast = refl

back_x : (a : ℤ) (d : Direction) → (a +ℤ offset_x d) +ℤ offset_x (opposite d) ≡ a
back_x a d = sum_back a (offset_x d) (offset_x (opposite d)) (cancel_x d)

back_y : (a : ℤ) (d : Direction) → (a +ℤ offset_y d) +ℤ offset_y (opposite d) ≡ a
back_y a d = sum_back a (offset_y d) (offset_y (opposite d)) (cancel_y d)

back_direction :
    (d : Direction) → direction_of (pos 0 -ℤ offset_x d) (pos 0 -ℤ offset_y d) ≡ some (opposite d)
unfolding ◌-ℤ◌
back_direction north = refl
back_direction east = refl
back_direction south = refl
back_direction west = refl
back_direction southwest = refl
back_direction southeast = refl
back_direction northwest = refl
back_direction northeast = refl

module _ (a b : AStarNode) (l : Link a b) where
  Link-back_x : b.x +ℤ offset_x (opposite l.by) ≡ a.x
  Link-back_x = rw l.step_x (back_x a.x l.by)

  Link-back_y : b.y +ℤ offset_y (opposite l.by) ≡ a.y
  Link-back_y = rw l.step_y (back_y a.y l.by)

  Link-direction : direction_of (a.x -ℤ b.x) (a.y -ℤ b.y) ≡ some (opposite l.by)
  Link-direction =
      rw (l.step_x, l.step_y, sub_sum a.x (offset_x l.by), sub_sum a.y (offset_y l.by))
        (back_direction l.by)

-- From x and y the directions lead over tiles that can be walked to, to the position to_x and to_y.
abbrev pub Walks : Walker → ℤ → ℤ → ℤ → List Direction → ℤ → ℤ → Type 0
Walks w z x y [] to_x to_y = (x ≡ to_x) × (y ≡ to_y)
Walks w z x y (d ∷ ds) to_x to_y =
    ((tile : ℕ) × (can_walk_to w (x +ℤ offset_x d) (y +ℤ offset_y d) z ≡ some tile))
    × Walks w z (x +ℤ offset_x d) (y +ℤ offset_y d) ds to_x to_y

module _ (w : Walker) (z x0 y0 : ℤ) (s : AStarNodes) (inv : Inv w z x0 y0 s) where
  -- What follow gives for the parent of b.
  record Way (fuel : ℕ) (b : AStarNode) : Type 0 where
    dirs : List Direction
    done : follow fuel s b.parent b.x b.y ≡ some dirs
    walks : Walks w z b.x b.y dirs x0 y0

  step-Way :
      (fuel : ℕ) (b : AStarNode) (l : Linked s b) → Way fuel (s.nodes l.via) → Way (suc fuel) b
  unfolding follow
  step-Way fuel b l rest =
      let d = l.link.by in
      record {
        dirs = opposite d ∷ rest.dirs;
        done = rw (l.parent, follow) (rw (rest.done, Link-direction (s.nodes l.via) b l.link) refl);
        walks =
            rw (Link-back_x (s.nodes l.via) b l.link, Link-back_y (s.nodes l.via) b l.link)
              (inv.walkable l.via l.in_list, rest.walks);
      }

  way : (fuel : ℕ) (b : AStarNode) → First x0 y0 b ⊎ Linked s b → b.g < fuel → Way fuel b
  unfolding follow
  way zero b at h = ground arith
  way (suc fuel) b (inl first) h = record {
    dirs = [];
    done = rw first.parent refl;
    walks = (first.at_x, first.at_y);
  }
  way (suc fuel) b (inr l) h =
      step-Way fuel b l
        (way fuel (s.nodes l.via) (inv.linked l.via l.in_list) (omega (arith, l.link.lower, h)))

  found_follow :
      (i : ℕ)
      → (r : Way (suc (s.nodes i).g) (s.nodes i))
      → follow (suc (suc (s.nodes i).g)) s (some i) (s.nodes i).x (s.nodes i).y ≡ some r.dirs
  unfolding follow
  found_follow i r = rw (r.done, follow) (rw (sub_self (s.nodes i).x, sub_self (s.nodes i).y) refl)

  -- The node found gives a way from where it is.
  pub found_way :
      (i : ℕ)
      → i < s.cur_node
      → (l : List Direction) × (follow
            (suc (suc (s.nodes i).g))
            s
            (some i)
            (s.nodes i).x
            (s.nodes i).y
          ≡ some l)
        × Walks w z (s.nodes i).x (s.nodes i).y l x0 y0
  found_way i h =
      let r = way (suc (s.nodes i).g) (s.nodes i) (inv.linked i h) (omega arith) in
      (r.dirs, found_follow i r, r.walks)
