-- ===== src/WaitList.antt =====
-- The login queue, source 7.6/waitlist.h and waitlist.cpp: who has to wait while the server is
-- full. `priorityWaitList` is declared in the source and never used. OTSYS_TIME() is an argument of
-- each call (one reading for the whole call), and so are the two counts of Status.
pub mod Order
pub mod Clients
pub mod Places
pub mod Login
mod Tests
use jamera_server.Base.{
  ℕ, zero, suc, ◌+◌, ◌-◌, ◌*◌, ◌%◌, ◌^◌, Bool, true, false, ◌&&◌, Option, none, some, List, [], ◌∷◌,
  ltb, leb, ◌==◌, if◌then◌else◌, is_empty, ◌≡◌, inl, inr, Option-cases, arith,
}
use jamera_server.Base.Int.{ℤ, pos, negsuc, ltb_ℤ}

-- struct Wait; a name is its bytes, the timeout is a time in milliseconds.
pub record Wait : Type 0 where
  pub acc : ℕ
  pub ip : ℕ
  pub name : List ℕ
  pub premium : Bool
  pub timeout : ℕ

-- What the queue reads of a Player: getAccount(), getIP(), getName(), isPremium() and
-- hasFlag(PlayerFlag_CanAlwaysLogin).
pub record Player : Type 0 where
  pub account : ℕ
  pub ip : ℕ
  pub name : List ℕ
  pub is_premium : Bool
  pub can_always_login : Bool

-- Status::getPlayersOnline() and Status::getMaxPlayersOnline(), both uint32_t.
pub record Status : Type 0 where
  pub players_online : ℕ
  pub max_players_online : ℕ

-- strcasecmp(a, b) == 0 in the C locale.
abbrev pub to_lower : ℕ → ℕ
to_lower c = if leb b'A' c && leb c b'Z' then c + 32 else c

abbrev pub same_name : List ℕ → List ℕ → Bool
same_name [] [] = true
same_name [] (b ∷ bs) = false
same_name (a ∷ as') [] = false
same_name (a ∷ as') (b ∷ bs) = to_lower a == to_lower b && same_name as' bs

-- The test of findClient.
abbrev pub same_client : Player → Wait → Bool
same_client p w = w.acc == p.account && (w.ip == p.ip && same_name w.name p.name)

-- findClient: the slot, counted from `slot`, of the client's entry. `none` is waitList.end().
pub find_client : Player → ℕ → List Wait → Option ℕ
find_client p slot [] = none
find_client p slot (w ∷ ws) = if same_client p w then some slot else find_client p (slot + 1) ws

-- The iterator that findClient returns with a slot stands at the entry slot - 1.
pub erase_at : ℕ → List Wait → List Wait
erase_at i [] = []
erase_at zero (w ∷ ws) = ws
erase_at (suc i) (w ∷ ws) = w ∷ erase_at i ws

pub set_timeout_at : ℕ → ℕ → List Wait → List Wait
set_timeout_at i t [] = []
set_timeout_at zero t (w ∷ ws) = record w { timeout = t } ∷ ws
set_timeout_at (suc i) t (w ∷ ws) = w ∷ set_timeout_at i t ws

-- getTime: the seconds that a client is told to wait before it tries again.
pub get_time : ℤ → ℕ
get_time slot =
    if ltb_ℤ slot (pos 5)
    then 5
    else if ltb_ℤ slot (pos 10)
    then 10
    else if ltb_ℤ slot (pos 20)
    then 20
    else if ltb_ℤ slot (pos 50)
    then 60
    else 120

-- getTimeOut
pub get_time_out : ℤ → ℕ
unfolding get_time
get_time_out slot = get_time slot + 15

-- OTSYS_TIME() + getTimeOut(slot) * 1000
abbrev pub deadline : ℕ → ℕ → ℕ
deadline now slot = now + get_time_out (pos slot) * 1000

-- cleanUpList: `timeout - now <= 0` removes the entry.
pub clean_up_list : ℕ → List Wait → List Wait
clean_up_list now [] = []
clean_up_list now (w ∷ ws) =
    if leb w.timeout now then clean_up_list now ws else w ∷ clean_up_list now ws

-- The entry that clientLogin fills in, with the slot that it was given.
abbrev pub new_wait : ℕ → Player → ℕ → Wait
new_wait now p slot = record {
  acc = p.account;
  ip = p.ip;
  name = p.name;
  premium = p.is_premium;
  timeout = deadline now slot;
}

-- The loop for a premium client: in front of the first free account, counting slots. Where the
-- loop runs out, nothing has been inserted.
pub insert_premium : ℕ → Player → ℕ → List Wait → List Wait
insert_premium now p slot [] = []
insert_premium now p slot (w ∷ ws) =
    if w.premium then w ∷ insert_premium now p (slot + 1) ws else new_wait now p slot ∷ w ∷ ws

-- push_back, and slot = size().
pub push_back : ℕ → Player → ℕ → List Wait → List Wait
push_back now p slot [] = new_wait now p slot ∷ []
push_back now p slot (w ∷ ws) = w ∷ push_back now p (slot + 1) ws

-- A client that is not in the queue yet.
pub enqueue : ℕ → Player → List Wait → List Wait
unfolding insert_premium push_back
enqueue now p l = if p.is_premium then insert_premium now p 1 l else push_back now p 1 l

-- A client whose entry stands at `slot`. The sum is taken in uint32_t.
pub admit_waiting : Status → ℕ → ℕ → List Wait → Bool × List Wait
unfolding erase_at set_timeout_at
admit_waiting st now slot l =
    if leb ((st.players_online + slot) % 2 ^ 32) st.max_players_online
    then (true, erase_at (slot - 1) l)
    else (false, set_timeout_at (slot - 1) (deadline now slot) l)

-- clientLogin after cleanUpList.
pub login_or_wait : Status → ℕ → Player → List Wait → Bool × List Wait
unfolding find_client admit_waiting enqueue
login_or_wait st now p l = elim (find_client p 1 l) [
  | some slot ↦ admit_waiting st now slot l
  | none ↦ (false, enqueue now p l)
]

-- clientLogin: whether the client may enter, and the queue after the call.
pub client_login : Status → ℕ → Player → List Wait → Bool × List Wait
unfolding clean_up_list login_or_wait
client_login st now p l =
    if p.can_always_login
    then (true, l)
    else if is_empty l && ltb st.players_online st.max_players_online
    then (true, l)
    else login_or_wait st now p (clean_up_list now l)

-- getClientSlot: -1 for a client without an entry.
pub get_client_slot : Player → List Wait → ℤ
unfolding find_client
get_client_slot p l = elim (find_client p 1 l) [ some slot ↦ pos slot | none ↦ negsuc 0 ]

-- The three ways that a login attempt ends, for any property of its result.
client_login_cases {ℓ} :
    (P : Bool × List Wait → Type ℓ) (st : Status) (now : ℕ) (p : Player) (l : List Wait)
    → P (true, l)
    → ((slot : ℕ)
        → find_client p 1 (clean_up_list now l) ≡ some slot
        → P (admit_waiting st now slot (clean_up_list now l)))
    → (find_client p 1 (clean_up_list now l) ≡ none
        → P (false, enqueue now p (clean_up_list now l)))
    → P (client_login st now p l)
unfolding client_login
client_login_cases P st now p l enters found absent =
    elim (Option-cases (find_client p 1 (clean_up_list now l))) [
      | inl e ↦ ground (arith, absent e)
      | inr (slot, e) ↦ ground (arith, found slot e)
    ]
