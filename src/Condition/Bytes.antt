-- ===== src/Condition/Bytes.antt =====
-- The bytes of the stored conditions, which serialize and the loop of savePlayer write.
use mathlib.Core.List.{append-nil}
use jamera_server.Base.{ℕ, ◌≡◌, refl, sym, List, [], ◌∷◌, ◌++◌, if◌then◌else◌, arith}
use jamera_server.Base.Bytes.{le_bytes}
use jamera_server.PropStream.{PropWriteStream, add_uchar}
use jamera_server.PropStream.RoundTrip.{add_ulong-buffer, add_uchar-buffer}
use jamera_server.Condition.{
  IntervalInfo, ConditionDamage, is_persistent, serialize_base, add_interval, serialize_list,
  serialize, save,
}

-- The bytes of a list of intervals, of a condition, and of a player's conditions, before others
abbrev pub interval_bytes : IntervalInfo → List ℕ → List ℕ
interval_bytes i rest =
    10 ∷ (le_bytes 4 i.time_left ++ (le_bytes 4 i.value ++ (le_bytes 4 i.interval ++ rest)))

unfoldable pub list_bytes : List IntervalInfo → List ℕ → List ℕ
list_bytes [] rest = rest
list_bytes (i ∷ is) rest = interval_bytes i (list_bytes is rest)

unfoldable pub own_bytes : ConditionDamage → List ℕ → List ℕ
own_bytes c rest =
    8
    ∷ (le_bytes 1 (if c.delayed then 1 else 0)
        ++ 25
          ∷ (le_bytes 4 c.period_damage
              ++ (9 ∷ (le_bytes 4 c.owner ++ list_bytes c.damage_list rest))))

unfoldable pub base_bytes : ConditionDamage → List ℕ → List ℕ
base_bytes c rest =
    1
    ∷ (le_bytes 4 c.condition_type ++ (2 ∷ (le_bytes 4 c.id ++ (3 ∷ (le_bytes 4 c.ticks ++ rest)))))

unfoldable pub all_bytes : List ConditionDamage → List ℕ
all_bytes [] = []
all_bytes (c ∷ cs) =
    let rest = all_bytes cs in
    if is_persistent c then base_bytes c (own_bytes c (254 ∷ rest)) else rest

serialize_list-buffer :
    (is : List IntervalInfo) (w : PropWriteStream) (rest : List ℕ)
    → (serialize_list is w).buffer ++ rest ≡ w.buffer ++ list_bytes is rest
unfolding serialize_list list_bytes
serialize_list-buffer [] w rest = refl
serialize_list-buffer (i ∷ is) w rest =
    rw
      (
        serialize_list-buffer is (add_interval i (add_uchar 10 w)) rest,
        add_ulong-buffer,
        add_ulong-buffer,
        add_ulong-buffer,
        add_uchar-buffer,
      )
      refl

serialize-buffer :
    (c : ConditionDamage) (w : PropWriteStream) (rest : List ℕ)
    → (serialize c w).buffer ++ rest ≡ w.buffer ++ base_bytes c (own_bytes c rest)
unfolding serialize serialize_base base_bytes own_bytes
serialize-buffer c w rest =
    rw
      (
        serialize_list-buffer, add_ulong-buffer, add_uchar-buffer, add_ulong-buffer,
        add_uchar-buffer, add_uchar-buffer, add_uchar-buffer, add_ulong-buffer, add_uchar-buffer,
        add_ulong-buffer, add_uchar-buffer, add_ulong-buffer, add_uchar-buffer,
      )
      refl

pub save-buffer :
    (cs : List ConditionDamage) (w : PropWriteStream)
    → (save cs w).buffer ≡ w.buffer ++ all_bytes cs
unfolding save all_bytes
save-buffer [] w = sym (append-nil w.buffer)
save-buffer (c ∷ cs) w = ground (
  arith,
  save-buffer cs (add_uchar 254 (serialize c w)),
  save-buffer cs w,
  add_uchar-buffer 254 (serialize c w) (all_bytes cs),
  serialize-buffer c w (254 ∷ all_bytes cs),
)
