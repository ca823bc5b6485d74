-- ===== src/Player/Gain.antt =====
-- A player's level and strength through addExperience of source 7.6/player.cpp.
use jamera_server.Base.{
  ℕ, zero, suc, ◌+◌, ◌*◌, ◌%◌, ◌^◌, ◌<◌, ◌≤◌, ◌≡◌, refl, sym, false, Option, some, leb, ltb, ltb→lt,
  leb→le, ◌⊎◌, inl, inr, Bool-cases, arith,
}
use jamera_server.Player.{
  Formula, Vocation, Player, get_exp_for_level, gained, plus, advance, add_experience, original,
}
use jamera_server.Player.Required.{original_le_next, original_lt}

-- The player has the experience of his level, unless it is the first, and not that of the next.
pub record AtLevel (f : Formula) (p : Player) : Type 0 where
  pub first : 1 ≤ p.level
  pub below : p.experience < get_exp_for_level f (suc p.level)
  pub reached : (p.level ≡ 1) ⊎ (get_exp_for_level f p.level ≤ p.experience)

-- The maximal health and mana are what level n gives: hp and mana_base, and the gain of the vocation for each
-- level above the first.
pub record Strong (v : Vocation) (hp mana_base n : ℕ) (p : Player) : Type 0 where
  pub health : p.health_max + v.hp_gain ≡ hp + v.hp_gain * n
  pub magic : p.mana_max + v.mana_gain ≡ mana_base + v.mana_gain * n

pub times_suc : (g n : ℕ) → g * suc n ≡ g * n + g
times_suc g n = grind arith

pub times_le_times : (g m n : ℕ) → m ≤ n → g * m ≤ g * n
times_le_times zero m n h = omega arith
times_le_times (suc g) m n h = let e = times_le_times g m n h in omega arith

-- The health and the mana of level `top` are int32_t.
pub record FitsLevel (v : Vocation) (hp mana_base top : ℕ) : Type 0 where
  pub health : hp + v.hp_gain * top < 2 ^ 31
  pub magic : mana_base + v.mana_gain * top < 2 ^ 31

-- A sum that has the strength of level n before the gain is no larger than that of `top`.
pub plus-fits :
    (base g n top a : ℕ)
    → base + g * top < 2 ^ 31
    → n ≤ top
    → a + g ≡ base + g * n
    → (plus a g ≡ a + g) × (a + g < 2 ^ 31)
plus-fits base g n top a h le e = let m = times_le_times g n top le in (omega arith, omega arith)

gained-Strong :
    (v : Vocation) (hp mana_base n top : ℕ) (p : Player)
    → FitsLevel v hp mana_base top
    → n ≤ top
    → Strong v hp mana_base n p
    → Strong v hp mana_base (suc n) (gained v p)
gained-Strong v hp mana_base n top p fits le s =
    let health = plus-fits hp v.hp_gain n top p.health_max fits.health le s.health in
    let magic = plus-fits mana_base v.mana_gain n top p.mana_max fits.magic le s.magic in
    record {
      health = (let h = s.health in omega (arith, health.0, times_suc v.hp_gain n));
      magic = (let h = s.magic in omega (arith, magic.0, times_suc v.mana_gain n));
    }

module _ (f : Formula) (v : Vocation) (hp mana_base : ℕ) where
  pub record Advanced (top : ℕ) (p : Player) (o : Option Player) : Type 0 where
    pub after : Player
    pub done : o ≡ some after
    pub experience : after.experience ≡ p.experience
    pub at_level : AtLevel f after
    pub low : after.level < top
    pub strong : Strong v hp mana_base after.level after
    pub skill_loss : after.skill_loss ≡ p.skill_loss
    pub loss_percent : after.loss_percent ≡ p.loss_percent

  below_top :
      (n top : ℕ) (p : Player)
      → n < top
      → get_exp_for_level f (suc n) ≤ p.experience
      → p.experience < get_exp_for_level f top
      → suc n < top
  below_top n top p b more d = elim (Bool-cases (ltb (suc n) top)) [
    | inl e ↦ ltb→lt (suc n) top e
    | inr e ↦
        let same : suc n ≡ top = ground arith in
        let less : get_exp_for_level f (suc n) ≤ p.experience = more in
        let rest : p.experience < get_exp_for_level f (suc n) = rw (sym same) at d in
        absurd (omega arith)
  ]

  advance-Advanced :
      (fuel n top : ℕ) (p : Player)
      → FitsLevel v hp mana_base top
      → 1 ≤ n
      → n < top
      → top ≤ n + fuel
      → p.experience < get_exp_for_level f top
      → (n ≡ 1) ⊎ (get_exp_for_level f n ≤ p.experience)
      → Strong v hp mana_base n p
      → Advanced top p (advance fuel f v n p)
  unfolding advance
  advance-Advanced zero n top p fits a b c d e s = absurd (omega arith)
  advance-Advanced (suc fuel) n top p fits a b c d e s =
      elim (Bool-cases (leb (get_exp_for_level f (suc n)) p.experience)) [
        | inr stops ↦ rw stops (record {
          after = record p { level = n };
          done = refl;
          experience = refl;
          at_level = record { first = a; below = ground arith; reached = e };
          low = b;
          strong = record { health = s.health; magic = s.magic };
          skill_loss = refl;
          loss_percent = refl;
        })
        | inl on ↦
            let more = leb→le (get_exp_for_level f (suc n)) p.experience on in
            let r =
              advance-Advanced fuel (suc n) top (gained v p) fits (omega arith)
                (below_top n top p b more d) (omega arith) d (inr more)
                (gained-Strong v hp mana_base n top p fits (omega arith) s) in
            rw on (record {
              after = r.after;
              done = r.done;
              experience = r.experience;
              at_level = r.at_level;
              low = r.low;
              strong = r.strong;
              skill_loss = r.skill_loss;
              loss_percent = r.loss_percent;
            })
      ]

-- The level up to which the formula `original` is looked at.
abbrev pub top_level : ℕ
top_level = 2 ^ 19

module _ (v : Vocation) (hp mana_base fuel exp : ℕ) (p : Player)
    (fits : FitsLevel v hp mana_base top_level) (enough : top_level ≤ fuel)
    (at_level : AtLevel original p) (strong : Strong v hp mana_base p.level p)
    (room : p.experience + exp < get_exp_for_level original top_level)
    (low : p.level < top_level) where
  no_wrap : (p.experience + exp) % 2 ^ 64 ≡ p.experience + exp
  no_wrap = omega (arith, original_lt top_level)

  still_reached :
      (p.level ≡ 1) ⊎ (get_exp_for_level original p.level ≤ p.experience)
      → (p.level ≡ 1) ⊎ (get_exp_for_level original p.level ≤ p.experience + exp)
  still_reached (inl e) = inl e
  still_reached (inr h) = inr (omega arith)

  pub add_experience-Advanced :
      Advanced original v hp mana_base top_level
        (record p { experience = p.experience + exp })
        (add_experience fuel original v exp p)
  unfolding add_experience
  add_experience-Advanced =
      let rises = original_le_next p.level at_level.first low in
      let no_end : ltb (get_exp_for_level original (suc p.level))
            (get_exp_for_level original p.level)
          ≡ false =
        ground arith in
      rw (no_end, no_wrap)
        (advance-Advanced original v hp mana_base fuel p.level top_level
          (record p { experience = p.experience + exp }) fits at_level.first low (omega arith) room
          (still_reached at_level.reached)
          (record { health = strong.health; magic = strong.magic }))
