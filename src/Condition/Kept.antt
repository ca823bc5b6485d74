-- ===== src/Condition/Kept.antt =====
-- Which calls keep a condition of a creature in its list, up to the end of its time.
use jamera_server.Base.{
  Bool-cases, ℕ, ◌+◌, ◌^◌, ◌≤◌, ◌<◌, ◌≡◌, ◌⊎◌, inl, inr, refl, ◌∙◌, Bool, true, false, ◌&&◌, none,
  some, leb, ◌==◌, if◌then◌else◌, List, [], ◌∷◌, All, arith,
}
use jamera_server.Condition.{minus_one}
use jamera_server.Condition.Course.{is_less, minus}
use jamera_server.Condition.Generic.{
  ConditionGeneric, execute_generic, merge, take_up, has_equal, add_condition, on_add_condition,
  remove_type, execute_conditions, remove_condition, has_condition,
}

-- ConditionGeneric's constructor
abbrev pub generic : ℕ → ℕ → ℕ → ConditionGeneric
generic id condition_type ticks = record {
  id = id;
  ticks = ticks;
  end_time = 0;
  condition_type = condition_type;
}

abbrev pub has_key : ℕ → ℕ → ConditionGeneric → Bool
has_key condition_type id c = c.condition_type == condition_type && c.id == id

-- The first condition of this type and id ends no earlier than then, and its ticks are counted.
abbrev pub Lasts : ℕ → ℕ → ℕ → List ConditionGeneric → Type 0
Lasts condition_type id until [] = 1 ≤ 0
Lasts condition_type id until (c ∷ cs) =
    ((has_key condition_type id c ≡ true) × (until ≤ c.end_time) × (c.ticks < 2 ^ 31))
    ⊎ ((has_key condition_type id c ≡ false) × Lasts condition_type id until cs)

-- Neither CONDITION_HASTE nor CONDITION_PARALYZE
abbrev pub NoSpeed : ℕ → Type 0
NoSpeed condition_type = ((2 ^ 4 == condition_type) ≡ false) × ((2 ^ 5 == condition_type) ≡ false)

abbrev pub Counted : ConditionGeneric → Type 0
Counted c = c.ticks < 2 ^ 31

module _ (condition_type id : ℕ) where
  merge-Lasts :
      (now until : ℕ) (added c : ConditionGeneric)
      → has_key condition_type id c ≡ true
      → has_key added.condition_type added.id c ≡ true
      → added.ticks < 2 ^ 31
      → c.ticks < 2 ^ 31
      → (until ≤ now + added.ticks) ⊎ (until ≤ c.end_time)
      → let after = merge now added c in
        (has_key condition_type id after ≡ true) × (until ≤ after.end_time) × (after.ticks < 2 ^ 31)
  merge-Lasts now until added c k s t h l =
      let finite : (c.ticks == minus_one) ≡ false = ground arith in
      let positive : is_less added.ticks 0 ≡ false = ground arith in ground arith

  merge-key :
      (now : ℕ) (added c : ConditionGeneric)
      → has_key condition_type id (merge now added c) ≡ has_key condition_type id c
  merge-key now added c = ground arith

  execute-cases :
      (now interval : ℕ) (c : ConditionGeneric)
      → (execute_generic now interval c ≡ none)
        ⊎ ((c' : ConditionGeneric) × (execute_generic now interval c ≡ some c')
            × (has_key condition_type id c' ≡ has_key condition_type id c))
  execute-cases now interval c = elim (Bool-cases (c.ticks == minus_one)) [
    | inl e ↦ rw (e) (inr (c, refl, refl))
    | inr e ↦ elim (Bool-cases (leb now c.end_time)) [
      | inl f ↦ rw (e, f) (inr (_, refl, refl))
      | inr f ↦ rw (e, f) (inl refl)
    ]
  ]

  execute-Good :
      (now interval until : ℕ) (c : ConditionGeneric)
      → now ≤ until
      → until ≤ c.end_time
      → c.ticks < 2 ^ 31
      → interval < 2 ^ 31
      → (c' : ConditionGeneric) × (execute_generic now interval c ≡ some c')
        × (has_key condition_type id c' ≡ has_key condition_type id c)
        × (until ≤ c'.end_time)
        × (c'.ticks < 2 ^ 31)
  execute-Good now interval until c n e h i =
      let left : ℕ = minus c.ticks interval in
      (record c { ticks = if is_less 0 left then left else 0 }, ground arith, refl, e, ground arith)

  pub taken-Lasts :
      (now ticks : ℕ) (cs : List ConditionGeneric)
      → 0 < ticks
      → ticks < 2 ^ 31
      → All Counted cs
      → Lasts condition_type id (now + ticks) (take_up now (generic id condition_type ticks) cs)
  unfolding take_up
  taken-Lasts now ticks [] p t a =
      let positive : is_less 0 ticks ≡ true = ground arith in inl (ground arith)
  taken-Lasts now ticks (c ∷ cs) p t (h, a) = elim (Bool-cases (has_key condition_type id c)) [
    | inl k ↦ rw (k) (
        inl (
          merge-Lasts now (now + ticks) (generic id condition_type ticks) c k k t h
            (inl (omega arith))))
    | inr k ↦ rw (k) (inr (k, taken-Lasts now ticks cs p t a))
  ]

  pub take_up-Lasts :
      (now until : ℕ) (added : ConditionGeneric) (cs : List ConditionGeneric)
      → added.ticks < 2 ^ 31
      → Lasts condition_type id until cs
      → Lasts condition_type id until (take_up now added cs)
  unfolding take_up
  take_up-Lasts now until added [] t l = absurd (omega arith)
  take_up-Lasts now until added (c ∷ cs) t (inl (k, e, h)) =
      elim (Bool-cases (has_key added.condition_type added.id c)) [
        | inl s ↦ rw (s) (inl (merge-Lasts now until added c k s t h (inr e)))
        | inr s ↦ rw (s) (inl (k, e, h))
      ]
  take_up-Lasts now until added (c ∷ cs) t (inr (k, l)) =
      elim (Bool-cases (has_key added.condition_type added.id c)) [
        | inl s ↦ rw (s) (inr (merge-key now added c ∙ k, l))
        | inr s ↦ rw (s) (inr (k, take_up-Lasts now until added cs t l))
      ]

  pub execute-Lasts :
      (now interval until : ℕ) (cs : List ConditionGeneric)
      → now ≤ until
      → interval < 2 ^ 31
      → Lasts condition_type id until cs
      → Lasts condition_type id until (execute_conditions now interval cs)
  unfolding execute_conditions
  execute-Lasts now interval until [] n i l = absurd (omega arith)
  execute-Lasts now interval until (c ∷ cs) n i (inl (k, e, h)) =
      let (c', some_c, key, e', h') = execute-Good now interval until c n e h i in
      rw (some_c) (inl (key ∙ k, e', h'))
  execute-Lasts now interval until (c ∷ cs) n i (inr (k, l)) = elim (execute-cases now interval c) [
    | inl gone ↦ rw (gone) (execute-Lasts now interval until cs n i l)
    | inr (c', some_c, key) ↦ rw (some_c) (inr (key ∙ k, execute-Lasts now interval until cs n i l))
  ]

  pub remove-Lasts :
      (type' id' until : ℕ) (cs : List ConditionGeneric)
      → (type' == condition_type && id' == id) ≡ false
      → Lasts condition_type id until cs
      → Lasts condition_type id until (remove_condition type' id' cs)
  unfolding remove_condition
  remove-Lasts type' id' until [] d l = absurd (omega arith)
  remove-Lasts type' id' until (c ∷ cs) d (inl (k, e, h)) =
      let other : has_key type' id' c ≡ false = ground arith in rw (other) (inl (k, e, h))
  remove-Lasts type' id' until (c ∷ cs) d (inr (k, l)) = elim (Bool-cases (has_key type' id' c)) [
    | inl s ↦ rw (s) (remove-Lasts type' id' until cs d l)
    | inr s ↦ rw (s) (inr (k, remove-Lasts type' id' until cs d l))
  ]

  pub has_condition-Lasts :
      (now until : ℕ) (cs : List ConditionGeneric)
      → now ≤ until
      → Lasts condition_type id until cs
      → has_condition now false condition_type cs ≡ true
  unfolding has_condition
  has_condition-Lasts now until [] n l = absurd (omega arith)
  has_condition-Lasts now until (c ∷ cs) n (inl (k, e, h)) = ground arith
  has_condition-Lasts now until (c ∷ cs) n (inr (k, l)) =
      ground (arith, has_condition-Lasts now until cs n l)

  pub remove_type-Lasts :
      (type' until : ℕ) (cs : List ConditionGeneric)
      → (type' == condition_type) ≡ false
      → Lasts condition_type id until cs
      → Lasts condition_type id until (remove_type type' cs)
  unfolding remove_type
  remove_type-Lasts type' until [] d l = absurd (omega arith)
  remove_type-Lasts type' until (c ∷ cs) d (inl (k, e, h)) =
      let other : (c.condition_type == type') ≡ false = ground arith in rw (other) (inl (k, e, h))
  remove_type-Lasts type' until (c ∷ cs) d (inr (k, l)) =
      elim (Bool-cases (c.condition_type == type')) [
        | inl s ↦ rw (s) (remove_type-Lasts type' until cs d l)
        | inr s ↦ rw (s) (inr (k, remove_type-Lasts type' until cs d l))
      ]

  on_add_condition-Lasts :
      (now until : ℕ) (suppressed : ℕ → Bool) (type' : ℕ) (cs : List ConditionGeneric)
      → NoSpeed condition_type
      → Lasts condition_type id until cs
      → Lasts condition_type id until (on_add_condition now suppressed type' cs)
  unfolding on_add_condition
  on_add_condition-Lasts now until suppressed type' cs (haste, paralyze) l =
      elim (Bool-cases (type' == 2 ^ 5 && has_condition now (suppressed (2 ^ 4)) (2 ^ 4) cs)) [
        | inl s ↦ rw (s) (remove_type-Lasts (2 ^ 4) until cs haste l)
        | inr s ↦
            elim (Bool-cases
              (type' == 2 ^ 4 && has_condition now (suppressed (2 ^ 5)) (2 ^ 5) cs)) [
                | inl t ↦ rw (s, t) (remove_type-Lasts (2 ^ 5) until cs paralyze l)
                | inr t ↦ rw (s, t) l
              ]
      ]

  pub add_condition-Lasts :
      (now until : ℕ) (suppressed : ℕ → Bool) (added : ConditionGeneric)
      (cs : List ConditionGeneric)
      → NoSpeed condition_type
      → Lasts condition_type id until (take_up now added cs)
      → Lasts condition_type id until (add_condition now suppressed added cs)
  unfolding add_condition
  add_condition-Lasts now until suppressed added cs n l = elim (Bool-cases (has_equal added cs)) [
    | inl s ↦ rw (s) l
    | inr s ↦ rw (s) (on_add_condition-Lasts now until suppressed added.condition_type _ n l)
  ]
