-- ===== src/Map/Key.antt =====
-- The way through the quad tree is given by the bits 15 to 3 of both coordinates.
use jamera_server.Base.{
  ℕ, zero, suc, ◌+◌, ◌*◌, ◌/◌, ◌%◌, ◌^◌, ◌≤◌, ◌<◌, ◌≡◌, refl, Bool, true, ◌&&◌, ◌==◌, if◌then◌else◌,
  arith, Bool-cases, inl, inr,
}
use jamera_server.Map.{twice}

-- Whether two coordinates go the same way for a number of levels.
unfoldable pub same_way : ℕ → ℕ → ℕ → Bool
same_way zero x x' = true
same_way (suc d) x x' = (x / 2 ^ 15 % 2 == x' / 2 ^ 15 % 2) && same_way d (twice x) (twice x')

-- The bits on the way as a number, and how large it can be.
abbrev pow : ℕ → ℕ
pow zero = 1
pow (suc d) = pow d + pow d

unfoldable bits : ℕ → ℕ → ℕ
bits zero x = 0
bits (suc d) x = if x / 2 ^ 15 % 2 == 0 then bits d (twice x) else pow d + bits d (twice x)

bits_lt : (d x : ℕ) → bits d x < pow d
unfolding bits
bits_lt zero x = omega arith
bits_lt (suc d) x = ground (arith, bits_lt d (twice x))

same_way-bits : (d x x' : ℕ) → same_way d x x' ≡ (bits d x == bits d x')
unfolding bits same_way
same_way-bits zero x x' = refl
same_way-bits (suc d) x x' =
    ground (arith, same_way-bits d (twice x) (twice x'), bits_lt d (twice x), bits_lt d (twice x'))

Between : ℕ → ℕ → ℕ → Type 0
Between b p x = (b * p ≤ x % 2 ^ 16) × (x % 2 ^ 16 < b * p + p)

bits-Between : (d p x : ℕ) → pow d * p ≡ 2 ^ 16 → Between (bits d x) p x
unfolding bits Between
bits-Between zero p x h = (omega arith, omega (arith, h))
bits-Between (suc d) p x h =
    let rest = bits-Between d (p + p) (twice x) (omega (arith, h)) in
    let double : bits d (twice x) * (p + p) ≡ 2 * (bits d (twice x) * p) = omega arith in
    let high : pow d * p ≡ 2 ^ 15 = omega (arith, h) in
    let sum : (pow d + bits d (twice x)) * p ≡ 2 ^ 15 + bits d (twice x) * p =
      omega (arith, high) in
    elim (Bool-cases (x / 2 ^ 15 % 2 == 0)) [
      | inl e ↦
          let low : x / 2 ^ 15 % 2 ≡ 0 = ground arith in
          rw e (omega (arith, low, rest, double), omega (arith, low, rest, double))
      | inr e ↦
          let set : x / 2 ^ 15 % 2 ≡ 1 = ground arith in
          rw e (omega (arith, set, rest, double, sum), omega (arith, set, rest, double, sum))
    ]

-- Two coordinates lead to the same leaf when their bits 15 to 3 agree.
pub same_way_lem : (x x' : ℕ) → same_way 13 x x' ≡ (x / 8 % 2 ^ 13 == x' / 8 % 2 ^ 13)
unfolding Between
same_way_lem x x' =
    let h = bits-Between 13 8 x refl in
    let h' = bits-Between 13 8 x' refl in
    let a : bits 13 x ≡ x / 8 % 2 ^ 13 = omega (arith, h) in
    let a' : bits 13 x' ≡ x' / 8 % 2 ^ 13 = omega (arith, h') in
    ground (arith, same_way-bits 13 x x')
