-- ===== src/Map/PathFinding/Progress.antt =====
-- How the nodes of the search in source 7.6/map.cpp change from turn to turn.
use jamera_server.Base.{
  ℕ, zero, suc, ◌+◌, ◌<◌, ◌≤◌, ◌≡◌, sym, ◌==◌, ==_iff, if◌then◌else◌, arith, ◌⊎◌, inl, inr,
  Bool-cases,
}
use jamera_server.Map.PathFinding.{AStarNode, AStarNodes}

-- The sum of the costs g of the first nodes.
pub sum_g : (ℕ → AStarNode) → ℕ → ℕ
sum_g nodes zero = 0
sum_g nodes (suc i) = (nodes i).g + sum_g nodes i

-- There are more nodes than before, or as many that cost less.
pub data Less (s s' : AStarNodes) : Type 0 where
  more : s.cur_node < s'.cur_node → Less s s'
  cheaper :
      s.cur_node ≡ s'.cur_node → sum_g s'.nodes s'.cur_node < sum_g s.nodes s.cur_node → Less s s'

pub sum_g-write :
    (nodes : ℕ → AStarNode) (i k : ℕ) (a : AStarNode)
    → a.g < (nodes i).g
    → sum_g (λ j. if i == j then a else nodes j) k ≤ sum_g nodes k
      × (i < k → sum_g (λ j. if i == j then a else nodes j) k < sum_g nodes k)
unfolding sum_g
sum_g-write nodes i zero a h = (omega arith, λ q. omega arith)
sum_g-write nodes i (suc k) a h =
    let rest = sum_g-write nodes i k a h in
    elim (Bool-cases (i == k)) [
      | inl e ↦
          let same : i ≡ k = (==_iff i k).0 e in
          let low : a.g < (nodes k).g = rw same at h in
          rw e (omega (arith, rest.0, low), λ q. omega (arith, rest.0, low))
      | inr e ↦
          let other : ¬ (i ≡ k) = λ q. ground arith in
          rw e (
            omega (arith, rest.0),
            λ q. (let r = rest.1 (omega (arith, other)) in omega (arith, r)),
          )
    ]

pub Less-trans : (s s' s'' : AStarNodes) → Less s s' → Less s' s'' → Less s s''
Less-trans s s' s'' (more h) (more k) = more (omega arith)
Less-trans s s' s'' (more h) (cheaper e k) = more (omega arith)
Less-trans s s' s'' (cheaper e h) (more k) = more (omega arith)
Less-trans s s' s'' (cheaper e h) (cheaper e' k) = cheaper (omega arith) (omega arith)

pub Progress-trans :
    (s s' s'' : AStarNodes)
    → (s ≡ s') ⊎ Less s s'
    → (s' ≡ s'') ⊎ Less s' s''
    → (s ≡ s'') ⊎ Less s s''
Progress-trans s s' s'' (inl e) p = rw e p
Progress-trans s s' s'' (inr l) (inl e) = inr (rw (sym e) l)
Progress-trans s s' s'' (inr l) (inr k) = inr (Less-trans s s' s'' l k)
