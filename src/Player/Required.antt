-- ===== src/Player/Required.antt =====
-- The formula `original` of getExpForLevel in source 7.6/player.h.
use jamera_server.Base.{ℕ, zero, suc, ◌+◌, ◌-◌, ◌*◌, ◌/◌, ◌^◌, ◌<◌, ◌≤◌, ◌≡◌, arith}
use jamera_server.Player.{get_exp_for_level, original}

square_suc : (l : ℕ) → suc l * suc l ≡ l * l + 2 * l + 1
square_suc l = grind arith

cube_suc : (l : ℕ) → suc l * suc l * suc l ≡ l * l * l + 3 * (l * l) + 3 * l + 1
cube_suc l = grind arith

square_lt : (l : ℕ) → l < 2 ^ 19 → l * l < 2 ^ 38
square_lt l h = grind arith

cube_lt : (l : ℕ) → l < 2 ^ 19 → l * l * l < 2 ^ 57
cube_lt l h = (let q = square_lt l h in grind arith)

le_square : (l : ℕ) → l ≤ l * l
le_square l = grind arith

square_le_cube : (l : ℕ) → 150 * (l * l) ≤ 50 * (l * l * l) + 400 * l
square_le_cube zero = omega arith
square_le_cube (suc zero) = omega arith
square_le_cube (suc (suc zero)) = omega arith
square_le_cube (suc (suc (suc l))) = grind arith

cube_fifty : (l : ℕ) → 50 * l * l * l ≡ 50 * (l * l * l)
cube_fifty l = grind arith

square_hundred_fifty : (l : ℕ) → 150 * l * l ≡ 150 * (l * l)
square_hundred_fifty l = grind arith

-- Below level 2^19 nothing wraps around.
plain :
    (l : ℕ)
    → l < 2 ^ 19
    → get_exp_for_level original (suc l) ≡ (50 * (l * l * l) + 400 * l - 150 * (l * l)) / 3
unfolding get_exp_for_level
plain l h =
    let e : suc l - 1 ≡ l = omega arith in
    rw (e, cube_fifty l, square_hundred_fifty l)
      (omega (arith, square_lt l h, cube_lt l h, square_le_cube l))

-- With the formula `original` a higher level wants at least as much experience.
pub original_rises :
    (l : ℕ)
    → suc l < 2 ^ 19
    → get_exp_for_level original (suc l) ≤ get_exp_for_level original (suc (suc l))
original_rises l h =
    rw (plain l (omega arith), plain (suc l) h, cube_suc l, square_suc l)
      (omega (arith, le_square l, square_le_cube l))

pub original_le_next :
    (n : ℕ) → 1 ≤ n → n < 2 ^ 19 → get_exp_for_level original n ≤ get_exp_for_level original (suc n)
original_le_next zero a h = absurd (omega arith)
original_le_next (suc l) a h = original_rises l h

pub original_lt : (n : ℕ) → get_exp_for_level original n < 2 ^ 64
unfolding get_exp_for_level
original_lt n = omega arith
