-- ===== src/Player/Level.antt =====
-- A player's level and strength through any gains and deaths, source 7.6/player.cpp.
use jamera_server.Base.{
  ℕ, zero, suc, ◌+◌, ◌-◌, ◌*◌, ◌%◌, ◌^◌, ◌<◌, ◌≤◌, ◌≡◌, refl, ◌&&◌, ◌||◌, leb, true, Option, none,
  some, ltb, ◌==◌, inl, inr, Bool-cases, List, [], ◌∷◌, arith,
}
use jamera_server.Player.{
  Vocation, Player, get_exp_for_level, get_lost_experience, minus_to_zero, lowered, fall, pre_save,
  add_experience, original,
}
use jamera_server.Player.Required.{original_lt}
use jamera_server.Player.Gain.{
  AtLevel, Strong, FitsLevel, times_le_times, add_experience-Advanced, top_level, times_suc,
}

-- What holds of a player: his level and strength are those of his experience.
pub record Sound (v : Vocation) (hp mana_base : ℕ) (p : Player) : Type 0 where
  pub at_level : AtLevel original p
  pub strong : Strong v hp mana_base p.level p
  pub low : p.level < top_level
  pub fair : p.loss_percent ≤ 100

lowered-fits :
    (base g n a : ℕ)
    → base + g * top_level < 2 ^ 31
    → suc (suc n) ≤ top_level
    → a + g ≡ base + g * suc (suc n)
    → minus_to_zero a g + g ≡ base + g * suc n
lowered-fits base g n a h le e =
    let m = times_le_times g (suc (suc n)) top_level le in
    let less : g ≤ a = omega (arith, times_suc g (suc n), times_suc g n) in
    let d : (a + (2 ^ 32 - g % 2 ^ 32)) % 2 ^ 32 ≡ a - g = omega arith in
    let low : ltb (a - g) (2 ^ 31) ≡ true = ground arith in
    rw (d, low) (omega (arith, times_suc g (suc n)))

module _ (v : Vocation) (hp mana_base : ℕ) (fits : FitsLevel v hp mana_base top_level) where
  lowered-Strong :
      (n : ℕ) (p : Player)
      → suc (suc n) ≤ top_level
      → Strong v hp mana_base (suc (suc n)) p
      → Strong v hp mana_base (suc n) (lowered v p)
  lowered-Strong n p le s =
      let health = lowered-fits hp v.hp_gain n p.health_max fits.health le s.health in
      let magic = lowered-fits mana_base v.mana_gain n p.mana_max fits.magic le s.magic in
      record { health = health; magic = magic }

  fall-Sound :
      (n : ℕ) (p : Player)
      → p.experience < get_exp_for_level original (suc (suc n))
      → Strong v hp mana_base (suc n) p
      → suc n < top_level
      → p.loss_percent ≤ 100
      → Sound v hp mana_base (fall original v (suc n) p)
        × ((fall original v (suc n) p).experience ≡ p.experience)
  unfolding fall
  fall-Sound zero p e s low fair = (
    record {
      at_level = record { first = omega arith; below = e; reached = inl refl };
      strong = record { health = s.health; magic = s.magic };
      low = low;
      fair = fair;
    },
    refl,
  )
  fall-Sound (suc n) p e s low fair =
      elim (Bool-cases
        (ltb 0 (suc n) && ltb p.experience (get_exp_for_level original (suc (suc n))))) [
          | inl falls ↦ rw falls (
              fall-Sound n (lowered v p) (ground arith) (lowered-Strong n p (omega arith) s)
                (omega arith) fair)
          | inr stays ↦ rw stays (
            record {
              at_level = record { first = omega arith; below = e; reached = inr (ground arith) };
              strong = record { health = s.health; magic = s.magic };
              low = low;
              fair = fair;
            },
            refl,
          )
        ]

  fall_level-Sound :
      (n : ℕ) (p : Player)
      → 1 ≤ n
      → p.experience < get_exp_for_level original (suc n)
      → Strong v hp mana_base n p
      → n < top_level
      → p.loss_percent ≤ 100
      → Sound v hp mana_base (fall original v n p)
        × ((fall original v n p).experience ≡ p.experience)
  fall_level-Sound zero p one e s low fair = absurd (omega arith)
  fall_level-Sound (suc n) p one e s low fair = fall-Sound n p e s low fair

  times_le : (a b : ℕ) → b ≤ 100 → a * b ≤ a * 100
  times_le a b h = grind arith

  lost_le : (p : Player) → p.loss_percent ≤ 100 → get_lost_experience p ≤ p.experience
  unfolding get_lost_experience
  lost_le p fair = (let h = times_le p.experience p.loss_percent fair in ground arith)

  healed :
      (p : Player)
      → Sound v hp mana_base p
      → (h m : ℕ) → Sound v hp mana_base (record p { health = h; mana = m })
  healed p s h m = record {
    at_level = record {
      first = s.at_level.first;
      below = s.at_level.below;
      reached = s.at_level.reached;
    };
    strong = record { health = s.strong.health; magic = s.strong.magic };
    low = s.low;
    fair = s.fair;
  }

  pre_save-Sound :
      (p : Player)
      → Sound v hp mana_base p
      → Sound v hp mana_base (pre_save original v p)
        × ((pre_save original v p).experience ≤ p.experience)
  unfolding pre_save
  pre_save-Sound p s = elim (Bool-cases (p.health == 0 || leb (2 ^ 31) p.health)) [
    | inr alive ↦ rw alive (s, omega arith)
    | inl dead ↦
        let le = lost_le p s.fair in
        let lt = original_lt (suc p.level) in
        let below = s.at_level.below in
        let rest : (p.experience + 2 ^ 64 - get_lost_experience p) % 2 ^ 64
            ≡ p.experience - get_lost_experience p =
          omega arith in
        let q = record p { experience = p.experience - get_lost_experience p } in
        let r =
          fall_level-Sound p.level q s.at_level.first (omega arith)
            (record { health = s.strong.health; magic = s.strong.magic }) s.low s.fair in
        rw (dead, rest)
          (
            healed (fall original v p.level q) r.0 (fall original v p.level q).health_max
                (fall original v p.level q).mana_max,
            omega (arith, r.1),
          )
  ]

-- A player gains experience, his health changes, or preSave is called.
pub data Call : Type 0 where
  gains : ℕ → Call
  has_health : ℕ → Call
  saves : Call

abbrev pub gain_of : Call → ℕ
gain_of (gains exp) = exp
gain_of (has_health h) = 0
gain_of saves = 0

abbrev pub call : ℕ → Vocation → Call → Player → Option Player
call fuel v (gains exp) p = add_experience fuel original v exp p
call fuel v (has_health h) p = some (record p { health = h })
call fuel v saves p = some (pre_save original v p)

abbrev pub calls : ℕ → Vocation → List Call → Player → Option Player
calls fuel v [] p = some p
calls fuel v (c ∷ cs) p = elim (call fuel v c p) [ none ↦ none | some q ↦ calls fuel v cs q ]

abbrev pub gains_of : List Call → ℕ
gains_of [] = 0
gains_of (c ∷ cs) = gain_of c + gains_of cs

module _ (v : Vocation) (hp mana_base fuel : ℕ) (fits : FitsLevel v hp mana_base top_level)
    (enough : top_level ≤ fuel) where
  record Kept (room : ℕ) (o : Option Player) : Type 0 where
    after : Player
    done : o ≡ some after
    sound : Sound v hp mana_base after
    below : after.experience ≤ room

  call-Kept :
      (c : Call) (p : Player)
      → Sound v hp mana_base p
      → p.experience + gain_of c < get_exp_for_level original top_level
      → Kept (p.experience + gain_of c) (call fuel v c p)
  call-Kept (gains exp) p s h =
      let r =
        add_experience-Advanced v hp mana_base fuel exp p fits enough s.at_level s.strong h s.low in
      record {
        after = r.after;
        done = r.done;
        sound = record {
          at_level = r.at_level;
          strong = r.strong;
          low = r.low;
          fair = rw r.loss_percent s.fair;
        };
        below = rw r.experience (omega arith);
      }
  call-Kept (has_health n) p s h = record {
    after = record p { health = n };
    done = refl;
    sound = healed v hp mana_base fits p s n p.mana;
    below = omega arith;
  }
  call-Kept saves p s h =
      let r = pre_save-Sound v hp mana_base fits p s in
      record { after = pre_save original v p; done = refl; sound = r.0; below = omega (arith, r.1) }

  -- With fuel for all levels below 2^19, for a vocation whose gains keep the maximal health and
  -- mana of level 2^19 within an int32_t, whatever experience a player gains, as long as it stays
  -- below what that level wants by the formula original, and however often he dies and loses
  -- experience, the calls come to an end, and then his level is the one that his experience is
  -- enough for, and not enough for the next, and his maximal health and mana are those that the
  -- gains of his vocation give for that level. This must hold of him at the start, and he loses at
  -- most all his experience at once.
  pub calls-Sound :
      (cs : List Call) (p : Player)
      → Sound v hp mana_base p
      → p.experience + gains_of cs < get_exp_for_level original top_level
      → (after : Player) × (calls fuel v cs p ≡ some after) × Sound v hp mana_base after
  calls-Sound [] p s h = (p, refl, s)
  calls-Sound (c ∷ cs) p s h =
      let k = call-Kept c p s (omega arith) in
      let below = k.below in
      let r = calls-Sound cs k.after k.sound (omega arith) in (r.0, rw (k.done, calls) r.1, r.2)
