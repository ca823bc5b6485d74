-- ===== src/WaitList/Login.antt =====
-- What clientLogin answers, and where a refused client stands afterwards.
use jamera_server.Base.{
  ℕ, zero, suc, ◌+◌, ◌-◌, ◌*◌, ◌^◌, ◌≤◌, ◌<◌, ◌≡◌, ◌≢◌, refl, sym, ap, ◌∙◌, Bool, true, false,
  if◌then◌else◌, none, some, List, [], ◌∷◌, arith, Bool-cases, Option-cases, ◌⊎◌, inl, inr, length,
}
use mathlib.Core.Path.{subst}
use jamera_server.Base.Int.{pos, negsuc}
use jamera_server.WaitList.{
  Wait, Player, Status, same_name, deadline, find_client, erase_at, set_timeout_at, get_time,
  get_time_out, clean_up_list, insert_premium, push_back, enqueue, admit_waiting, client_login,
  get_client_slot, login_or_wait, client_login_cases,
}
use jamera_server.WaitList.Places.{Holds, find_client_from}

length-clean_up_list : (now : ℕ) (l : List Wait) → length (clean_up_list now l) ≤ length l
unfolding clean_up_list
length-clean_up_list now [] = omega arith
length-clean_up_list now (w ∷ ws) = ground (arith, length-clean_up_list now ws)

admit_waiting-true :
    (st : Status) (now slot : ℕ) (m : List Wait)
    → st.players_online + slot < 2 ^ 32
    → (admit_waiting st now slot m).0 ≡ true
    → (st.players_online + slot ≤ st.max_players_online)
      × ((admit_waiting st now slot m).1 ≡ erase_at (slot - 1) m)
unfolding admit_waiting
admit_waiting-true st now slot m small ok = ground arith

login_or_wait-true :
    (st : Status) (now : ℕ) (p : Player) (m : List Wait)
    → st.players_online + length m < 2 ^ 32
    → (login_or_wait st now p m).0 ≡ true
    → (slot : ℕ) × (find_client p 1 m ≡ some slot)
      × (st.players_online + slot ≤ st.max_players_online)
      × ((login_or_wait st now p m).1 ≡ erase_at (slot - 1) m)
unfolding login_or_wait
login_or_wait-true st now p m small ok = elim (Option-cases (find_client p 1 m)) [
  | inl e ↦ absurd (ground arith)
  | inr (slot, e) ↦
      let room = admit_waiting-true st now slot m in
      let in_list = find_client_from p 1 slot m e in
      (slot, e, ground (arith, room, in_list), ground (arith, room, in_list))
]

-- A client without CanAlwaysLogin is let in only if the queue is empty and the server has room, or
-- if it stands in the queue and the server has room for all up to its slot; then its entry goes.
pub client_login-has_room :
    (st : Status) (now : ℕ) (p : Player) (l : List Wait)
    → p.can_always_login ≡ false
    → st.players_online + length l < 2 ^ 32
    → (client_login st now p l).0 ≡ true
    → ((l ≡ []) × (st.players_online < st.max_players_online) × ((client_login st now p l).1 ≡ []))
      ⊎ ((slot : ℕ) × (find_client p 1 (clean_up_list now l) ≡ some slot)
          × (st.players_online + slot ≤ st.max_players_online)
          × ((client_login st now p l).1 ≡ erase_at (slot - 1) (clean_up_list now l)))
unfolding client_login
client_login-has_room st now p [] flag small ok = inl (refl, ground arith, ground arith)
client_login-has_room st now p (w ∷ ws) flag small ok = inr (
    rw flag (
      login_or_wait-true st now p _ (omega (arith, length-clean_up_list now (w ∷ ws)))
        (ground arith)))

-- The client's own entry after a refusal.
Holds-set_timeout_at_self :
    (p : Player) (t u i j : ℕ) (l : List Wait)
    → find_client p j l ≡ some (i + j)
    → t < u
    → (Holds p (suc i) t (set_timeout_at i u l))
      × (find_client p j (set_timeout_at i u l) ≡ some (i + j))
unfolding set_timeout_at find_client
Holds-set_timeout_at_self p t u zero j [] e h = cc
Holds-set_timeout_at_self p t u (suc i) j [] e h = cc
Holds-set_timeout_at_self p t u zero j (w ∷ ws) e h =
    ground (arith, find_client_from p (j + 1) j ws)
Holds-set_timeout_at_self p t u (suc i) j (w ∷ ws) e h =
    ground (arith, Holds-set_timeout_at_self p t u i (j + 1) ws)

same_name_refl : (a : List ℕ) → same_name a a ≡ true
same_name_refl [] = refl
same_name_refl (x ∷ a) = ground (arith, same_name_refl a)

-- The slot at which push_back puts a client's entry: behind everybody.
push_back_self :
    (p : Player) (now t j : ℕ) (l : List Wait)
    → find_client p j l ≡ none
    → t < deadline now (j + length l)
    → (find_client p j (push_back now p j l) ≡ some (j + length l))
      × Holds p (suc (length l)) t (push_back now p j l)
unfolding push_back find_client
push_back_self p now t j [] e h = ground (arith, same_name_refl p.name)
push_back_self p now t j (w ∷ ws) e h = ground (arith, push_back_self p now t (j + 1) ws)

-- Some free account waits, so that a premium client finds a place in front of it.
abbrev pub has_free : List Wait → Bool
has_free [] = false
has_free (w ∷ ws) = if w.premium then has_free ws else true

insert_premium_self :
    (p : Player) (now j : ℕ) (l : List Wait)
    → find_client p j l ≡ none
    → has_free l ≡ true
    → (i : ℕ) × (find_client p j (insert_premium now p j l) ≡ some (i + j))
      × ((t : ℕ) → t < deadline now (i + j) → Holds p (suc i) t (insert_premium now p j l))
unfolding insert_premium find_client
insert_premium_self p now j [] e f = cc
insert_premium_self p now j (w ∷ ws) e f = elim (Bool-cases w.premium) [
  | inl prem ↦
      let (i, found, holds) = insert_premium_self p now (j + 1) ws (ground arith) (ground arith) in
      (suc i, ground arith, λ t h. ground (arith, holds t))
  | inr free ↦
      (0, ground (arith, same_name_refl p.name), λ t h. ground (arith, same_name_refl p.name))
]

insert_premium_none :
    (p : Player) (now j : ℕ) (l : List Wait) → has_free l ≡ false → insert_premium now p j l ≡ l
unfolding insert_premium
insert_premium_none p now j [] f = refl
insert_premium_none p now j (w ∷ ws) f = ground (arith, insert_premium_none p now (j + 1) ws)

-- Its slot, and a place there up to 15 seconds after the time at which it is told to come back.
abbrev pub HasPlace : Player → ℕ → List Wait → Type 0
HasPlace p now l =
    (slot : ℕ) × (get_client_slot p l ≡ pos slot)
    × Holds p slot (now + get_time (pos slot) * 1000 + 14_999) l

deadline_lem : (now slot : ℕ) → now + get_time (pos slot) * 1000 + 14_999 < deadline now slot
unfolding get_time_out
deadline_lem now slot = omega arith

get_client_slot_lem :
    (p : Player) (slot : ℕ) (l : List Wait)
    → find_client p 1 l ≡ some slot
    → get_client_slot p l ≡ pos slot
unfolding get_client_slot
get_client_slot_lem p slot l e = rw (e, get_client_slot)

HasPlace-push_back :
    (p : Player) (now : ℕ) (m : List Wait)
    → find_client p 1 m ≡ none
    → HasPlace p now (push_back now p 1 m)
HasPlace-push_back p now m e =
    let slot : ℕ = suc (length m) in
    let eq : 1 + length m ≡ slot = omega arith in
    let place =
      push_back_self p now (now + get_time (pos slot) * 1000 + 14_999) 1 m e
        (rw eq (deadline_lem now slot)) in
    (slot, get_client_slot_lem p slot _ (place.0 ∙ ap some eq), place.1)

HasPlace-insert_premium :
    (p : Player) (now : ℕ) (m : List Wait)
    → find_client p 1 m ≡ none
    → has_free m ≡ true
    → HasPlace p now (insert_premium now p 1 m)
HasPlace-insert_premium p now m e f =
    let (i, found, holds) = insert_premium_self p now 1 m e f in
    let eq : i + 1 ≡ suc i = omega arith in
    (
      suc i,
      get_client_slot_lem p (suc i) _ (found ∙ ap some eq),
      holds _ (rw eq (deadline_lem now (suc i))),
    )

enqueue_cases :
    (p : Player) (now : ℕ) (m : List Wait)
    → ((p.is_premium ≡ true) × (enqueue now p m ≡ insert_premium now p 1 m))
      ⊎ ((p.is_premium ≡ false) × (enqueue now p m ≡ push_back now p 1 m))
unfolding enqueue
enqueue_cases p now m = ground arith

HasPlace-enqueue :
    (p : Player) (now : ℕ) (m : List Wait)
    → find_client p 1 m ≡ none
    → (p.is_premium ≡ false) ⊎ (has_free m ≡ true)
    → HasPlace p now (enqueue now p m)
HasPlace-enqueue p now m e c = elim (enqueue_cases p now m) [
  | inl (prem, eq) ↦
      subst (HasPlace p now) (sym eq) (HasPlace-insert_premium p now m e (ground arith))
  | inr (free, eq) ↦ subst (HasPlace p now) (sym eq) (HasPlace-push_back p now m e)
]

HasPlace-admit_waiting :
    (st : Status) (p : Player) (now slot : ℕ) (m : List Wait)
    → find_client p 1 m ≡ some slot
    → (admit_waiting st now slot m).0 ≡ false
    → HasPlace p now (admit_waiting st now slot m).1
unfolding admit_waiting
HasPlace-admit_waiting st p now zero m e no_room =
    absurd (omega (arith, (find_client_from p 1 0 m e).0))
HasPlace-admit_waiting st p now (suc i) m e no_room =
    let eq : i + 1 ≡ suc i = omega arith in
    let less : suc i - 1 ≡ i = omega arith in
    let (holds, found) =
      Holds-set_timeout_at_self p _ _ i 1 m (e ∙ ap some (sym eq)) (deadline_lem now (suc i)) in
    let after : (admit_waiting st now (suc i) m).1 ≡ set_timeout_at i (deadline now (suc i)) m =
      ground arith in
    subst (HasPlace p now) (sym after)
      (suc i, get_client_slot_lem p (suc i) _ (found ∙ ap some eq), holds)

-- A refused client has a place in the queue, which it keeps for 15 seconds beyond the time that
-- it is told to wait, unless it is a premium client that has no entry while no free account waits.
pub client_login-HasPlace :
    (st : Status) (now : ℕ) (p : Player) (l : List Wait)
    → (client_login st now p l).0 ≡ false
    → (p.is_premium ≡ false)
      ⊎ ((has_free (clean_up_list now l) ≡ true) ⊎ (find_client p 1 (clean_up_list now l) ≢ none))
    → HasPlace p now (client_login st now p l).1
client_login-HasPlace st now p l =
    client_login_cases
      (λ r.
        r.0 ≡ false
        → (p.is_premium ≡ false)
          ⊎ ((has_free (clean_up_list now l) ≡ true)
              ⊎ (find_client p 1 (clean_up_list now l) ≢ none))
        → HasPlace p now r.1)
      st now p l (λ refused c. cc)
      (λ slot e refused c. HasPlace-admit_waiting st p now slot _ e refused)
      (λ e refused c. HasPlace-enqueue p now _ e (ground arith))

-- A premium client that has no entry, and that is refused while no free account waits, gets none:
-- the queue is left as cleanUpList made it, and getClientSlot answers -1.
pub client_login-premium_lost :
    (st : Status) (now : ℕ) (p : Player) (l : List Wait)
    → p.is_premium ≡ true
    → has_free (clean_up_list now l) ≡ false
    → find_client p 1 (clean_up_list now l) ≡ none
    → (client_login st now p l).0 ≡ false
    → ((client_login st now p l).1 ≡ clean_up_list now l)
      × (get_client_slot p (client_login st now p l).1 ≡ negsuc 0)
unfolding get_client_slot
client_login-premium_lost st now p l prem alone e refused =
    let left =
      client_login_cases (λ r. r.0 ≡ false → r.1 ≡ clean_up_list now l) st now p l (λ entered. cc)
        (λ slot e' _. absurd (ground arith))
        (λ _ _. ground (
          arith,
          enqueue_cases p now (clean_up_list now l),
          insert_premium_none p now 1 (clean_up_list now l),
        ))
        refused in
    (left, rw (left, e, get_client_slot))
