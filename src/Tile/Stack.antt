-- ===== src/Tile/Stack.antt =====
-- __getThing and __getIndexOfThing of source 7.6/tile.cpp against the list of all things.
use jamera_server.Base.{
  ℕ, zero, suc, ◌+◌, ◌-◌, ◌≤◌, ◌≡◌, refl, ◌∙◌, none, some, ltb, ◌==◌, ==_iff, if◌then◌else◌, List,
  [], ◌∷◌, ◌++◌, length, get_elem?, count, arith, false, Bool-cases, inl, inr, Option-cases, sym,
}
use jamera_server.Tile.{
  Tile, get_index_of_thing, get_thing, index_in, index_of_listed, or_else, stack, listed_thing,
}

index_in-append :
    (n x : ℕ) (xs ys : List ℕ)
    → index_in n x (xs ++ ys) ≡ or_else (index_in n x xs) (index_in (n + length xs) x ys)
index_in-append n x [] ys = rw (let e : n + 0 ≡ n = omega arith in e) refl
index_in-append n x (y ∷ ys') ys = elim (Bool-cases (y == x)) [
  | inl e ↦ rw e refl
  | inr e ↦
      let q : n + suc (length ys') ≡ suc n + length ys' = omega arith in
      rw (e, q) (index_in-append (suc n) x ys' ys)
]

index_of_listed-rest :
    (n : ℕ) (t : Tile) (x : ℕ)
    → index_of_listed n t x ≡ index_in n x (t.top_items ++ (t.creatures ++ t.down_items))
index_of_listed-rest n t x = sym (
    index_in-append n x t.top_items (t.creatures ++ t.down_items)
    ∙ rw (index_in-append (n + length t.top_items) x t.creatures t.down_items) refl)

-- The index of a thing is its place among all things.
pub get_index_of_thing-stack : (t : Tile) (x : ℕ) → get_index_of_thing t x ≡ index_in 0 x (stack t)
unfolding get_index_of_thing
get_index_of_thing-stack t x = elim (Option-cases t.ground) [
  | inl e ↦ rw (e, get_index_of_thing) (index_of_listed-rest 0 t x)
  | inr (g, e) ↦ elim (Bool-cases (g == x)) [
    | inl q ↦ rw (e, get_index_of_thing) (rw q refl)
    | inr q ↦ rw (e, get_index_of_thing) (rw q (index_of_listed-rest 1 t x))
  ]
]

pub get_elem?-append :
    (xs ys : List ℕ) (i : ℕ)
    → get_elem? (xs ++ ys) i
      ≡ (if ltb i (length xs) then get_elem? xs i else get_elem? ys (i - length xs))
get_elem?-append [] ys i = ground arith
get_elem?-append (x ∷ xs) ys zero = ground arith
get_elem?-append (x ∷ xs) ys (suc i) = ground (arith, get_elem?-append xs ys i)

get_elem?-above : (xs : List ℕ) (i : ℕ) → length xs ≤ i → get_elem? xs i ≡ none
get_elem?-above [] i h = refl
get_elem?-above (x ∷ xs) zero h = ground arith
get_elem?-above (x ∷ xs) (suc i) h = get_elem?-above xs i (omega arith)

get_elem?-guard :
    (xs : List ℕ) (i : ℕ) → (if ltb i (length xs) then get_elem? xs i else none) ≡ get_elem? xs i
get_elem?-guard xs i = elim (Bool-cases (ltb i (length xs))) [
  | inl e ↦ rw e refl
  | inr e ↦ rw e (sym (get_elem?-above xs i (ground arith)))
]

listed_thing-rest :
    (t : Tile) (i : ℕ)
    → listed_thing t i ≡ get_elem? (t.top_items ++ (t.creatures ++ t.down_items)) i
listed_thing-rest t i = sym (
    get_elem?-append t.top_items (t.creatures ++ t.down_items) i
    ∙ rw
        (
          get_elem?-append t.creatures t.down_items (i - length t.top_items),
          get_elem?-guard t.down_items (i - length t.top_items - length t.creatures),
        )
        refl)

cons_at :
    (g : ℕ) (l : List ℕ) (i : ℕ) → (i == 0) ≡ false → get_elem? l (i - 1) ≡ get_elem? (g ∷ l) i
cons_at g l zero h = ground arith
cons_at g l (suc i) h = rw (let e : suc i - 1 ≡ i = omega arith in e) refl

-- What __getThing gives for an index is the thing at that place among all things.
pub get_thing-stack : (t : Tile) (i : ℕ) → get_thing t i ≡ get_elem? (stack t) i
unfolding get_thing
get_thing-stack t i = elim (Option-cases t.ground) [
  | inl e ↦ rw (e, get_thing) (listed_thing-rest t i)
  | inr (g, e) ↦ elim (Bool-cases (i == 0)) [
    | inl q ↦ rw (e, get_thing) (let z : i ≡ 0 = (==_iff i 0).0 q in rw z refl)
    | inr q ↦
        rw (e, get_thing)
          (rw q (
            listed_thing-rest t (i - 1)
            ∙ cons_at g (t.top_items ++ (t.creatures ++ t.down_items)) i q))
  ]
]

pub index_in-at :
    (n x i : ℕ) (l : List ℕ) → index_in n x l ≡ some i → n ≤ i × (get_elem? l (i - n) ≡ some x)
index_in-at n x i [] h = cc
index_in-at n x i (y ∷ ys) h = elim (Bool-cases (y == x)) [
  | inl e ↦
      let same : some n ≡ some i = rw e at h in
      let z : n ≡ i = cc in
      let y_x : y ≡ x = (==_iff y x).0 e in
      rw (sym z, (let q : n - n ≡ 0 = omega arith in q), y_x) (omega arith, refl)
  | inr e ↦
      let r = index_in-at (suc n) x i ys (rw e at h) in
      let q : i - n ≡ suc (i - suc n) = omega (arith, r.0) in rw q (omega (arith, r.0), r.1)
]

pub get_elem?-count : (l : List ℕ) (i x : ℕ) → get_elem? l i ≡ some x → 1 ≤ count x l
get_elem?-count [] i x h = cc
get_elem?-count (y ∷ ys) zero x h = ground arith
get_elem?-count (y ∷ ys) (suc i) x h = omega (arith, get_elem?-count ys i x h)

pub index_in-only :
    (n x i : ℕ) (l : List ℕ)
    → get_elem? l i ≡ some x
    → count x l ≤ 1
    → index_in n x l ≡ some (n + i)
index_in-only n x i [] h k = cc
index_in-only n x zero (y ∷ ys) h k = ground arith
index_in-only n x (suc i) (y ∷ ys) h k = elim (Bool-cases (y == x)) [
  | inl e ↦ let some_left = get_elem?-count ys i x h in ground arith
  | inr e ↦
      let q : n + suc i ≡ suc n + i = omega arith in
      rw (e, q) (index_in-only (suc n) x i ys h (ground arith))
]

pub index_in-get_elem? : (x i : ℕ) (l : List ℕ) → index_in 0 x l ≡ some i → get_elem? l i ≡ some x
index_in-get_elem? x i l h = let e : i - 0 ≡ i = omega arith in rw e at ((index_in-at 0 x i l h).1)

pub get_elem?-index_in :
    (x i : ℕ) (l : List ℕ) → get_elem? l i ≡ some x → count x l ≤ 1 → index_in 0 x l ≡ some i
get_elem?-index_in x i l h one =
    let e : 0 + i ≡ i = omega arith in rw e at (index_in-only 0 x i l h one)
