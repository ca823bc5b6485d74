-- ===== src/Base/Bytes.antt =====
-- Little-endian words as bytes, the memory layout of the machines the server is built for, and
-- byte arrays.
use Prim.Native.Nat.{ℕ, zero, suc, ◌+◌, ◌*◌, ◌/◌, ◌%◌, ◌^◌, ◌<◌, ◌≤◌}
use mathlib.Core.Path.{◌≡◌, refl, ap}
use mathlib.Core.List.{List, [], ◌∷◌, ◌++◌}
use native.Mathlib.Omega.{arith}
use jamera_server.Base.Tests.{◌==◌, if◌then◌else◌}
use jamera_server.Base.Lists.{length, take, drop}

-- The n bytes of an unsigned integer, lowest first; higher bytes are lost.
abbrev pub le_bytes : ℕ → ℕ → List ℕ
le_bytes zero v = []
le_bytes (suc n) v = v % 256 ∷ le_bytes n (v / 256)

abbrev pub from_le : List ℕ → ℕ
from_le [] = 0
from_le (b ∷ bs) = b + 256 * from_le bs

pub from_le-byte : (v : ℕ) → v < 2 ^ 8 → from_le (le_bytes 1 v) ≡ v
from_le-byte v h = omega arith

pub from_le-u16 : (v : ℕ) → v < 2 ^ 16 → from_le (le_bytes 2 v) ≡ v
from_le-u16 v h = omega arith

pub from_le-u32 : (v : ℕ) → v < 2 ^ 32 → from_le (le_bytes 4 v) ≡ v
from_le-u32 v h = omega arith

pub length-le_bytes : (n v : ℕ) → length (le_bytes n v) ≡ n
length-le_bytes zero v = refl
length-le_bytes (suc n) v = ap suc (length-le_bytes n (v / 256))

module _ {ℓ} {A : Type ℓ} where
  pub take-append : (xs ys : List A) → take (length xs) (xs ++ ys) ≡ xs
  take-append [] ys = refl
  take-append (x ∷ xs) ys = ap (◌∷◌ x) (take-append xs ys)

  pub drop-append : (xs ys : List A) → drop (length xs) (xs ++ ys) ≡ ys
  drop-append [] ys = refl
  drop-append (x ∷ xs) ys = drop-append xs ys

-- Memory: what stands at each address.
abbrev pub Memory : Type 0
Memory = ℕ → ℕ

abbrev pub store : Memory → ℕ → ℕ → Memory
store m p b q = if p == q then b else m q

-- memcpy to the address p, and n bytes from there.
unfoldable pub write_bytes : Memory → ℕ → List ℕ → Memory
write_bytes m p [] = m
write_bytes m p (b ∷ bs) = store (write_bytes m (p + 1) bs) p b

unfoldable pub read_bytes : Memory → ℕ → ℕ → List ℕ
read_bytes m p zero = []
read_bytes m p (suc n) = m p ∷ read_bytes m (p + 1) n

pub read_bytes-store :
    (m : Memory) (p b q n : ℕ) → p < q → read_bytes (store m p b) q n ≡ read_bytes m q n
unfolding read_bytes
read_bytes-store m p b q zero h = refl
read_bytes-store m p b q (suc n) h = ground (arith, read_bytes-store m p b (q + 1) n)

-- What was written is read back.
pub read_bytes-write_bytes :
    (m : Memory) (p : ℕ) (bs : List ℕ) → read_bytes (write_bytes m p bs) p (length bs) ≡ bs
unfolding read_bytes write_bytes
read_bytes-write_bytes m p [] = refl
read_bytes-write_bytes m p (b ∷ bs) = ground (
  arith,
  read_bytes-store (write_bytes m (p + 1) bs) p b (p + 1) (length bs),
  read_bytes-write_bytes m (p + 1) bs,
)

-- A write leaves alone what stands in front of it.
pub write_bytes-before : (m : Memory) (p q : ℕ) (bs : List ℕ) → q < p → write_bytes m p bs q ≡ m q
unfolding write_bytes
write_bytes-before m p q [] h = refl
write_bytes-before m p q (b ∷ bs) h = ground (arith, write_bytes-before m (p + 1) q bs)

pub read_bytes-before :
    (m : Memory) (p q n : ℕ) (bs : List ℕ)
    → q + n ≤ p
    → read_bytes (write_bytes m p bs) q n ≡ read_bytes m q n
unfolding read_bytes
read_bytes-before m p q zero bs h = refl
read_bytes-before m p q (suc n) bs h =
    ground (arith, write_bytes-before m p q bs, read_bytes-before m p (q + 1) n bs)
