-- ===== src/WaitList/Clients.antt =====
-- Whose entry is whose: a client has at most one entry in the queue.
use jamera_server.Base.{
  ℕ, zero, suc, ◌+◌, ◌-◌, ◌≤◌, ◌≡◌, refl, Bool, true, ◌&&◌, ◌==◌, if◌then◌else◌, none, List, [],
  ◌∷◌, arith,
}
use jamera_server.WaitList.{
  Wait, Player, Status, deadline, same_name, same_client, find_client, erase_at, set_timeout_at,
  clean_up_list, insert_premium, push_back, enqueue, admit_waiting, client_login,
  client_login_cases,
}

pub same_name_trans :
    (a b c : List ℕ) → same_name a b ≡ true → same_name c b ≡ true → same_name a c ≡ true
same_name_trans [] [] [] h k = refl
same_name_trans [] [] (x ∷ c) h k = cc
same_name_trans [] (x ∷ b) c h k = cc
same_name_trans (x ∷ a) [] c h k = cc
same_name_trans (x ∷ a) (y ∷ b) [] h k = cc
same_name_trans (x ∷ a) (y ∷ b) (z ∷ c) h k = ground (arith, same_name_trans a b c)

pub same_name_swap : (a b : List ℕ) → same_name a b ≡ true → same_name b a ≡ true
same_name_swap [] [] h = refl
same_name_swap [] (y ∷ b) h = cc
same_name_swap (x ∷ a) [] h = cc
same_name_swap (x ∷ a) (y ∷ b) h = ground (arith, same_name_swap a b)

-- Two players that findClient takes for one client.
abbrev pub same_player : Player → Player → Bool
same_player p q = q.account == p.account && (q.ip == p.ip && same_name q.name p.name)

-- Clients that share an entry are one client.
pub same_client-same_player :
    (p q : Player) (w : Wait)
    → same_client p w ≡ true
    → same_client q w ≡ true
    → same_player p q ≡ true
same_client-same_player p q w h k = ground (
  arith,
  same_name_swap w.name p.name,
  same_name_swap w.name q.name,
  same_name_trans q.name w.name p.name,
)

pub same_player-same_client :
    (p q : Player) (w : Wait)
    → same_player p q ≡ true
    → same_client p w ≡ true
    → same_client q w ≡ true
same_player-same_client p q w h k = ground (arith, same_name_trans w.name p.name q.name)

abbrev pub count_client : Player → List Wait → ℕ
count_client p [] = 0
count_client p (w ∷ ws) = (if same_client p w then 1 else 0) + count_client p ws

count_client-erase_at :
    (p : Player) (i : ℕ) (l : List Wait) → count_client p (erase_at i l) ≤ count_client p l
unfolding erase_at
count_client-erase_at p zero [] = omega arith
count_client-erase_at p (suc i) [] = omega arith
count_client-erase_at p zero (w ∷ ws) = omega arith
count_client-erase_at p (suc i) (w ∷ ws) = omega (arith, count_client-erase_at p i ws)

count_client-set_timeout_at :
    (p : Player) (i t : ℕ) (l : List Wait)
    → count_client p (set_timeout_at i t l) ≡ count_client p l
unfolding set_timeout_at
count_client-set_timeout_at p zero t [] = refl
count_client-set_timeout_at p (suc i) t [] = refl
count_client-set_timeout_at p zero t (w ∷ ws) = refl
count_client-set_timeout_at p (suc i) t (w ∷ ws) =
    omega (arith, count_client-set_timeout_at p i t ws)

count_client-clean_up_list :
    (p : Player) (now : ℕ) (l : List Wait) → count_client p (clean_up_list now l) ≤ count_client p l
unfolding clean_up_list
count_client-clean_up_list p now [] = omega arith
count_client-clean_up_list p now (w ∷ ws) = ground (arith, count_client-clean_up_list p now ws)

-- A client that findClient misses has no entry, whoever asks for it.
count_client-find_client :
    (p q : Player) (k : ℕ) (l : List Wait)
    → same_player p q ≡ true
    → find_client q k l ≡ none
    → count_client p l ≡ 0
unfolding find_client
count_client-find_client p q k [] s e = refl
count_client-find_client p q k (w ∷ ws) s e =
    ground (arith, same_player-same_client p q w s, count_client-find_client p q (k + 1) ws s)

abbrev counted : Player → Player → ℕ
counted p q = if same_player p q then 1 else 0

count_client-push_back :
    (p q : Player) (now k : ℕ) (l : List Wait)
    → count_client p (push_back now q k l) ≤ count_client p l + counted p q
unfolding push_back
count_client-push_back p q now k [] = ground arith
count_client-push_back p q now k (w ∷ ws) = omega (arith, count_client-push_back p q now (k + 1) ws)

count_client-insert_premium :
    (p q : Player) (now k : ℕ) (l : List Wait)
    → count_client p (insert_premium now q k l) ≤ count_client p l + counted p q
unfolding insert_premium
count_client-insert_premium p q now k [] = omega arith
count_client-insert_premium p q now k (w ∷ ws) =
    ground (arith, count_client-insert_premium p q now (k + 1) ws)

count_client-enqueue :
    (p q : Player) (now : ℕ) (l : List Wait)
    → count_client p (enqueue now q l) ≤ count_client p l + counted p q
unfolding enqueue
count_client-enqueue p q now l =
    ground (arith, count_client-insert_premium p q now 1 l, count_client-push_back p q now 1 l)

count_client-admit_waiting :
    (st : Status) (now slot : ℕ) (p : Player) (l : List Wait)
    → count_client p (admit_waiting st now slot l).1 ≤ count_client p l
unfolding admit_waiting
count_client-admit_waiting st now slot p l = ground (
  arith,
  count_client-erase_at p (slot - 1) l,
  count_client-set_timeout_at p (slot - 1) (deadline now slot) l,
)

-- No login attempt gives a client a second entry.
pub client_login-count_client :
    (st : Status) (now : ℕ) (p q : Player) (l : List Wait)
    → count_client p l ≤ 1
    → count_client p (client_login st now q l).1 ≤ 1
client_login-count_client st now p q l h =
    client_login_cases (λ r. count_client p r.1 ≤ 1) st now q l h
      (λ slot _.
        omega (arith, cleaned, count_client-admit_waiting st now slot p (clean_up_list now l)))
      (λ e. ground (
        arith,
        count_client-enqueue p q now (clean_up_list now l),
        count_client-find_client p q 1 (clean_up_list now l),
        cleaned,
      ))
  where
    cleaned : count_client p (clean_up_list now l) ≤ 1
    cleaned = omega (arith, count_client-clean_up_list p now l)
