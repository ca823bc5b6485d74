-- ===== src/Container/Iterator.antt =====
-- The walk through a container and all containers in it, source 7.6/container.h and container.cpp:
-- class ContainerIterator with the two loops over it, getItemHoldingCount and isHoldingItem.
use jamera_server.Base.{
  ℕ, zero, suc, ◌+◌, ◌≤◌, ◌≡◌, refl, Bool, true, false, inl, inr, List, [], ◌∷◌, ◌++◌, ltb, ◌==◌,
  if◌then◌else◌, Bool-cases, arith,
}

-- The items of a container with their handles: an item, the items in it (none if it is no
-- container), and the items behind it.
pub data Nest : Type 0 where
  nil : Nest
  item : ℕ → Nest → Nest → Nest

-- The queue `over`, each container in it as the items that are still to come: all of them, but for
-- the first container, whose items begin at `cur`. The iterator is at its end when the queue is
-- empty.
abbrev pub ContainerIterator : Type 0
ContainerIterator = List Nest

-- The test for an empty item list in front of a push.
abbrev pub push : ContainerIterator → Nest → ContainerIterator
push over nil = over
push over (item h c r) = over ++ item h c r ∷ []

-- begin
pub begin : Nest → ContainerIterator
begin nest = push [] nest

-- operator++: the rest of the first container, or the containers behind it.
abbrev pub advance : Nest → ContainerIterator → ContainerIterator
advance nil over = over
advance (item h c r) over = item h c r ∷ over

pub next : ContainerIterator → ContainerIterator
next [] = []
next (nil ∷ over) = over
next (item handle content rest ∷ over) = advance rest (push over content)

-- getItemHoldingCount, on fuel of one unit for each item.
unfoldable pub get_item_holding_count : ℕ → ContainerIterator → ℕ
unfolding next
get_item_holding_count zero iter = 0
get_item_holding_count (suc fuel) [] = 0
get_item_holding_count (suc fuel) (front ∷ over) =
    suc (get_item_holding_count fuel (next (front ∷ over)))

-- *cur == item
abbrev pub is_at : ℕ → Nest → Bool
is_at thing nil = false
is_at thing (item handle content rest) = handle == thing

-- isHoldingItem, on the same fuel.
pub is_holding_item : ℕ → ℕ → ContainerIterator → Bool
unfolding next
is_holding_item zero thing iter = false
is_holding_item (suc fuel) thing [] = false
is_holding_item (suc fuel) thing (front ∷ over) = elim (is_at thing front) [
  | true ↦ true
  | false ↦ is_holding_item fuel thing (next (front ∷ over))
]

-- How many items there are, at any depth, and how many of them are a given one.
abbrev pub total : Nest → ℕ
total nil = 0
total (item handle content rest) = 1 + total content + total rest

abbrev pub occurs : ℕ → Nest → ℕ
occurs thing nil = 0
occurs thing (item handle content rest) =
    (if handle == thing then 1 else 0) + occurs thing content + occurs thing rest

-- The same for what an iterator has before it; no container in the queue is at its end.
abbrev sum : (Nest → ℕ) → ContainerIterator → ℕ
sum f [] = 0
sum f (n ∷ ns) = f n + sum f ns

abbrev AllItems : ContainerIterator → Type 0
AllItems [] = Unit
AllItems (nil ∷ over) = ⊥
AllItems (item h c r ∷ over) = AllItems over

sum-snoc :
    (f : Nest → ℕ) (over : ContainerIterator) (n : Nest) → sum f (over ++ n ∷ []) ≡ sum f over + f n
sum-snoc f [] n = omega arith
sum-snoc f (m ∷ ms) n = omega (arith, sum-snoc f ms n)

sum-push :
    (f : Nest → ℕ) (over : ContainerIterator) (n : Nest)
    → f nil ≡ 0
    → sum f (push over n) ≡ sum f over + f n
sum-push f over nil e = omega arith
sum-push f over (item h c r) e = sum-snoc f over (item h c r)

sum-advance :
    (f : Nest → ℕ) (n : Nest) (over : ContainerIterator)
    → f nil ≡ 0
    → sum f (advance n over) ≡ f n + sum f over
sum-advance f nil over e = omega arith
sum-advance f (item h c r) over e = refl

push-AllItems : (over : ContainerIterator) (n : Nest) → AllItems over → AllItems (push over n)
push-AllItems over nil a = a
push-AllItems [] (item h c r) a = tt
push-AllItems (nil ∷ over) (item h c r) a = a
push-AllItems (item h' c' r' ∷ over) (item h c r) a = push-AllItems over (item h c r) a

next-AllItems :
    (h : ℕ) (c r : Nest) (over : ContainerIterator)
    → AllItems over
    → AllItems (next (item h c r ∷ over))
unfolding next
next-AllItems h c nil over a = push-AllItems over c a
next-AllItems h c (item h' c' r') over a = push-AllItems over c a

sum-next :
    (f : Nest → ℕ) (h : ℕ) (c r : Nest) (over : ContainerIterator)
    → f nil ≡ 0
    → sum f (next (item h c r ∷ over)) ≡ f r + f c + sum f over
unfolding next
sum-next f h c r over e = omega (arith, sum-advance f r (push over c) e, sum-push f over c e)

count_all :
    (k : ℕ) (iter : ContainerIterator)
    → AllItems iter
    → sum total iter ≤ k
    → get_item_holding_count k iter ≡ sum total iter
unfolding get_item_holding_count
count_all zero [] a le = refl
count_all zero (nil ∷ over) a le = elim a [ ]
count_all zero (item h c r ∷ over) a le = omega arith
count_all (suc k) [] a le = refl
count_all (suc k) (nil ∷ over) a le = elim a [ ]
count_all (suc k) (item h c r ∷ over) a le =
    let smaller = sum-next total h c r over refl in
    let rest = count_all k (next (item h c r ∷ over)) (next-AllItems h c r over a) (omega arith) in
    omega arith

hold_all :
    (k thing : ℕ) (iter : ContainerIterator)
    → AllItems iter
    → sum total iter ≤ k
    → is_holding_item k thing iter ≡ ltb 0 (sum (occurs thing) iter)
unfolding is_holding_item
hold_all zero thing [] a le = refl
hold_all zero thing (nil ∷ over) a le = elim a [ ]
hold_all zero thing (item h c r ∷ over) a le = ground arith
hold_all (suc k) thing [] a le = refl
hold_all (suc k) thing (nil ∷ over) a le = elim a [ ]
hold_all (suc k) thing (item h c r ∷ over) a le =
    let smaller = sum-next total h c r over refl in
    let fewer = sum-next (occurs thing) h c r over refl in
    let rest =
      hold_all k thing (next (item h c r ∷ over)) (next-AllItems h c r over a) (omega arith) in
    elim (Bool-cases (h == thing)) [ inl e ↦ ground arith | inr e ↦ ground arith ]

begin-AllItems : (nest : Nest) → AllItems (begin nest)
unfolding begin
begin-AllItems nil = tt
begin-AllItems (item h c r) = tt

get_item_holding_count_lem :
    (k : ℕ) (nest : Nest) → total nest ≤ k → get_item_holding_count k (begin nest) ≡ total nest
unfolding begin
get_item_holding_count_lem k nil le = count_all k [] tt le
get_item_holding_count_lem k (item h c r) le =
    let all = count_all k (item h c r ∷ []) tt (omega arith) in omega arith

is_holding_item_lem :
    (k thing : ℕ) (nest : Nest)
    → total nest ≤ k
    → is_holding_item k thing (begin nest) ≡ ltb 0 (occurs thing nest)
unfolding begin
is_holding_item_lem k thing nil le = hold_all k thing [] tt le
is_holding_item_lem k thing (item h c r) le =
    let all = hold_all k thing (item h c r ∷ []) tt (omega arith) in ground arith

-- With as much fuel as a container has items at any depth, or more, getItemHoldingCount is their
-- number, so that the walk meets each of them once, and isHoldingItem tells whether an item is in the
-- container or in one of the containers in it, at any depth.
pub holding_lem :
    (k thing : ℕ) (nest : Nest)
    → total nest ≤ k
    → (get_item_holding_count k (begin nest) ≡ total nest)
      × (is_holding_item k thing (begin nest) ≡ ltb 0 (occurs thing nest))
holding_lem k thing nest le =
    (get_item_holding_count_lem k nest le, is_holding_item_lem k thing nest le)
