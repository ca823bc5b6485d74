-- ===== src/Player/Tests.antt =====
-- Tests of players, with a concrete input for each theorem about them.
use jamera_server.Base.{ℕ, ◌≡◌, refl, ◌<◌, true, Option, none, some, List, [], ◌∷◌, arith, inl}
use jamera_server.Player.{
  Vocation, Player, original, get_exp_for_level, add_experience, advance, pre_save, fall,
  get_lost_experience,
}
use jamera_server.Player.Gain.{top_level, FitsLevel}
use jamera_server.Player.Level.{Sound, Call, gains, has_health, saves, calls, calls-Sound}
use jamera_server.Player.Vip.{VipPlayer, Inv, adds, removes, add_vip, remove_vip, calls-Inv}
use jamera_server.Player.Vip

abbrev knight : Vocation
knight = record { hp_gain = 15; mana_gain = 5; cap_gain = 25 }

abbrev newcomer : Player
newcomer = record {
  experience = 0;
  level = 1;
  health = 150;
  health_max = 150;
  mana = 0;
  mana_max = 0;
  capacity = 400;
  skill_loss = true;
  loss_percent = 10;
}

level_8 : get_exp_for_level original 8 ≡ 4200
unfolding get_exp_for_level
level_8 = refl

abbrev level_of : Option Player → ℕ
level_of none = 0
level_of (some p) = p.level

abbrev deeds : List Call
deeds = gains 4200 ∷ has_health 0 ∷ saves ∷ gains 100 ∷ []

-- Up to level 8, and back to level 7 by a death.
level_lost : level_of (calls 10 knight deeds newcomer) ≡ 7
unfolding get_exp_for_level add_experience advance pre_save fall get_lost_experience
level_lost = refl

knight-FitsLevel : FitsLevel knight 150 0 top_level
knight-FitsLevel = record { health = omega arith; magic = omega arith }

newcomer-Sound : Sound knight 150 0 newcomer
unfolding get_exp_for_level
newcomer-Sound = record {
  at_level = record { first = omega arith; below = omega arith; reached = inl refl };
  strong = record { health = omega arith; magic = omega arith };
  low = omega arith;
  fair = omega arith;
}

room : 4300 < get_exp_for_level original top_level
unfolding get_exp_for_level
room = omega arith

calls-Sound_example :
    (after : Player) × (calls top_level knight deeds newcomer ≡ some after)
    × Sound knight 150 0 after
calls-Sound_example =
    calls-Sound knight 150 0 top_level knight-FitsLevel (omega arith) deeds newcomer newcomer-Sound
      room

abbrev buddy_list : VipPlayer
buddy_list = record { guid = 7; max_vip_limit = 1; vip_list = [] }

abbrev wishes : List Vip.Call
wishes = adds 3 ∷ adds 7 ∷ adds 3 ∷ adds 2 ∷ adds 9 ∷ []

-- The limit of one entry lets two in.
one_more : (Vip.calls wishes buddy_list).vip_list ≡ 2 ∷ 3 ∷ []
unfolding add_vip
one_more = refl

buddy_list-Inv : Inv 1 7 buddy_list
buddy_list-Inv = record {
  limited = refl;
  own = refl;
  once = λ k. omega arith;
  not_own = refl;
  short = omega arith;
}

calls-Inv_example : Inv 1 7 (Vip.calls wishes buddy_list)
calls-Inv_example = calls-Inv 1 7 wishes buddy_list buddy_list-Inv
