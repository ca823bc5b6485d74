-- ===== src/WaitList/Places.antt =====
-- A client keeps its place: what other clients' login attempts do to an entry in the queue.
use jamera_server.Base.{
  ℕ, zero, suc, ◌+◌, ◌-◌, ◌≤◌, ◌<◌, ◌≡◌, false, if◌then◌else◌, some, List, [], ◌∷◌, arith, length,
}
use jamera_server.WaitList.{
  Wait, Player, Status, deadline, same_client, find_client, erase_at, set_timeout_at, clean_up_list,
  insert_premium, push_back, enqueue, admit_waiting, client_login, client_login_cases,
}
use jamera_server.WaitList.Clients.{same_player, same_client-same_player}

-- The client's entry is among the first k, and it times out after t.
abbrev pub Holds : Player → ℕ → ℕ → List Wait → Type 0
Holds p zero t l = ⊥
Holds p (suc k) t [] = ⊥
Holds p (suc k) t (w ∷ ws) = if same_client p w then t < w.timeout else Holds p k t ws

pub Holds-suc : (p : Player) (k t : ℕ) (l : List Wait) → Holds p k t l → Holds p (suc k) t l
Holds-suc p zero t l h = elim h [ ]
Holds-suc p (suc k) t [] h = elim h [ ]
Holds-suc p (suc k) t (w ∷ ws) h = ground (arith, Holds-suc p k t ws)

Holds-clean_up_list :
    (p : Player) (k t now : ℕ) (l : List Wait)
    → now ≤ t
    → Holds p k t l
    → Holds p k t (clean_up_list now l)
unfolding clean_up_list
Holds-clean_up_list p zero t now l le h = elim h [ ]
Holds-clean_up_list p (suc k) t now [] le h = elim h [ ]
Holds-clean_up_list p (suc k) t now (w ∷ ws) le h =
    ground (arith, Holds-clean_up_list p k t now ws le, Holds-suc p k t (clean_up_list now ws))

pub find_client_from :
    (q : Player) (j s : ℕ) (l : List Wait)
    → find_client q j l ≡ some s
    → (j ≤ s) × (s < j + length l)
unfolding find_client
find_client_from q j s [] e = cc
find_client_from q j s (w ∷ ws) e = ground (arith, find_client_from q (j + 1) s ws)

-- Another client's entry goes, or gets a new timeout.
Holds-erase_at :
    (p q : Player) (k t i j : ℕ) (l : List Wait)
    → same_player p q ≡ false
    → find_client q j l ≡ some (i + j)
    → Holds p k t l
    → Holds p k t (erase_at i l)
unfolding erase_at find_client
Holds-erase_at p q zero t i j l d e h = elim h [ ]
Holds-erase_at p q (suc k) t zero j [] d e h = elim h [ ]
Holds-erase_at p q (suc k) t (suc i) j [] d e h = elim h [ ]
Holds-erase_at p q (suc k) t zero j (w ∷ ws) d e h =
    ground
      (arith, same_client-same_player p q w, find_client_from q (j + 1) j ws, Holds-suc p k t ws)
Holds-erase_at p q (suc k) t (suc i) j (w ∷ ws) d e h =
    ground (arith, Holds-erase_at p q k t i (j + 1) ws d, Holds-suc p k t (erase_at i ws))

Holds-set_timeout_at :
    (p q : Player) (k t u i j : ℕ) (l : List Wait)
    → same_player p q ≡ false
    → find_client q j l ≡ some (i + j)
    → Holds p k t l
    → Holds p k t (set_timeout_at i u l)
unfolding set_timeout_at find_client
Holds-set_timeout_at p q zero t u i j l d e h = elim h [ ]
Holds-set_timeout_at p q (suc k) t u zero j [] d e h = elim h [ ]
Holds-set_timeout_at p q (suc k) t u (suc i) j [] d e h = elim h [ ]
Holds-set_timeout_at p q (suc k) t u zero j (w ∷ ws) d e h =
    ground (arith, same_client-same_player p q w, find_client_from q (j + 1) j ws)
Holds-set_timeout_at p q (suc k) t u (suc i) j (w ∷ ws) d e h =
    ground (arith, Holds-set_timeout_at p q k t u i (j + 1) ws d)

Holds-admit_waiting :
    (st : Status) (p q : Player) (k t now slot : ℕ) (l : List Wait)
    → same_player p q ≡ false
    → find_client q 1 l ≡ some slot
    → Holds p k t l
    → Holds p k t (admit_waiting st now slot l).1
unfolding admit_waiting
Holds-admit_waiting st p q k t now slot l d e h =
    let from : 1 ≤ slot = (find_client_from q 1 slot l e).0 in
    let at : find_client q 1 l ≡ some (slot - 1 + 1) = ground arith in
    ground (
      arith,
      Holds-erase_at p q k t (slot - 1) 1 l d at h,
      Holds-set_timeout_at p q k t (deadline now slot) (slot - 1) 1 l d at h,
    )

Holds-push_back :
    (p q : Player) (k t now slot : ℕ) (l : List Wait)
    → Holds p k t l
    → Holds p k t (push_back now q slot l)
unfolding push_back
Holds-push_back p q zero t now slot l h = elim h [ ]
Holds-push_back p q (suc k) t now slot [] h = elim h [ ]
Holds-push_back p q (suc k) t now slot (w ∷ ws) h =
    ground (arith, Holds-push_back p q k t now (slot + 1) ws)

-- A premium client that comes in steps in front of at most this entry.
Holds-insert_premium :
    (p q : Player) (k t now slot : ℕ) (l : List Wait)
    → same_player p q ≡ false
    → Holds p k t l
    → Holds p (suc k) t (insert_premium now q slot l)
unfolding insert_premium
Holds-insert_premium p q zero t now slot l d h = elim h [ ]
Holds-insert_premium p q (suc k) t now slot [] d h = elim h [ ]
Holds-insert_premium p q (suc k) t now slot (w ∷ ws) d h =
    ground (arith, Holds-insert_premium p q k t now (slot + 1) ws d)

-- How far a login attempt may push the others back: a premium client's by one place, a free one's
-- by none.
abbrev pub pushed : Player → ℕ → ℕ
pushed q k = if q.is_premium then suc k else k

Holds-enqueue :
    (p q : Player) (k t now : ℕ) (l : List Wait)
    → same_player p q ≡ false
    → Holds p k t l
    → Holds p (pushed q k) t (enqueue now q l)
unfolding enqueue
Holds-enqueue p q k t now l d h =
    ground (arith, Holds-insert_premium p q k t now 1 l d h, Holds-push_back p q k t now 1 l h)

-- Until its timeout a client stays in the queue through the login attempts of other clients, and
-- one attempt puts it back by at most one place, or by none if the other client is no premium one.
pub client_login-Holds :
    (st : Status) (p q : Player) (k t now : ℕ) (l : List Wait)
    → same_player p q ≡ false
    → now ≤ t
    → Holds p k t l
    → Holds p (pushed q k) t (client_login st now q l).1
client_login-Holds st p q k t now l d le h =
    client_login_cases (λ r. Holds p (pushed q k) t r.1) st now q l
      (ground (arith, Holds-suc p k t l))
      (λ slot e.
        let kept = Holds-admit_waiting st p q k t now slot _ d e cleaned in
        ground (arith, kept, Holds-suc p k t (admit_waiting st now slot (clean_up_list now l)).1))
      (λ _. Holds-enqueue p q k t now _ d cleaned)
  where
    cleaned : Holds p k t (clean_up_list now l)
    cleaned = Holds-clean_up_list p k t now l le h
