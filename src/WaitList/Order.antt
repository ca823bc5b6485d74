-- ===== src/WaitList/Order.antt =====
-- Premium accounts stand in front of free ones.
use jamera_server.Base.{
  ℕ, zero, suc, ◌+◌, ◌-◌, ◌≡◌, true, false, List, [], ◌∷◌, All, arith, Bool-cases, inl, inr,
}
use jamera_server.WaitList.{
  Wait, Player, Status, deadline, erase_at, set_timeout_at, clean_up_list, insert_premium,
  push_back, enqueue, admit_waiting, client_login, client_login_cases,
}

abbrev pub FreeOnly : List Wait → Type 0
FreeOnly = All (λ w. w.premium ≡ false)

abbrev pub IsSorted : List Wait → Type 0
IsSorted [] = Unit
IsSorted (w ∷ ws) = (w.premium ≡ false → FreeOnly ws) × IsSorted ws

erase_at-FreeOnly : (i : ℕ) (l : List Wait) → FreeOnly l → FreeOnly (erase_at i l)
unfolding erase_at
erase_at-FreeOnly zero [] h = tt
erase_at-FreeOnly (suc i) [] h = tt
erase_at-FreeOnly zero (w ∷ ws) h = h.1
erase_at-FreeOnly (suc i) (w ∷ ws) h = (h.0, erase_at-FreeOnly i ws h.1)

erase_at-IsSorted : (i : ℕ) (l : List Wait) → IsSorted l → IsSorted (erase_at i l)
unfolding erase_at
erase_at-IsSorted zero [] h = tt
erase_at-IsSorted (suc i) [] h = tt
erase_at-IsSorted zero (w ∷ ws) h = h.1
erase_at-IsSorted (suc i) (w ∷ ws) h =
    (λ e. erase_at-FreeOnly i ws (h.0 e), erase_at-IsSorted i ws h.1)

set_timeout_at-FreeOnly : (i t : ℕ) (l : List Wait) → FreeOnly l → FreeOnly (set_timeout_at i t l)
unfolding set_timeout_at
set_timeout_at-FreeOnly zero t [] h = tt
set_timeout_at-FreeOnly (suc i) t [] h = tt
set_timeout_at-FreeOnly zero t (w ∷ ws) h = h
set_timeout_at-FreeOnly (suc i) t (w ∷ ws) h = (h.0, set_timeout_at-FreeOnly i t ws h.1)

set_timeout_at-IsSorted : (i t : ℕ) (l : List Wait) → IsSorted l → IsSorted (set_timeout_at i t l)
unfolding set_timeout_at
set_timeout_at-IsSorted zero t [] h = tt
set_timeout_at-IsSorted (suc i) t [] h = tt
set_timeout_at-IsSorted zero t (w ∷ ws) h = h
set_timeout_at-IsSorted (suc i) t (w ∷ ws) h =
    (λ e. set_timeout_at-FreeOnly i t ws (h.0 e), set_timeout_at-IsSorted i t ws h.1)

clean_up_list-FreeOnly : (now : ℕ) (l : List Wait) → FreeOnly l → FreeOnly (clean_up_list now l)
unfolding clean_up_list
clean_up_list-FreeOnly now [] h = tt
clean_up_list-FreeOnly now (w ∷ ws) h = ground (arith, clean_up_list-FreeOnly now ws h.1)

clean_up_list-IsSorted : (now : ℕ) (l : List Wait) → IsSorted l → IsSorted (clean_up_list now l)
unfolding clean_up_list
clean_up_list-IsSorted now [] h = tt
clean_up_list-IsSorted now (w ∷ ws) h = ground (
  arith,
  clean_up_list-IsSorted now ws h.1,
  λ (e : w.premium ≡ false). clean_up_list-FreeOnly now ws (h.0 e),
)

push_back-FreeOnly :
    (now : ℕ) (p : Player) (k : ℕ) (l : List Wait)
    → p.is_premium ≡ false
    → FreeOnly l
    → FreeOnly (push_back now p k l)
unfolding push_back
push_back-FreeOnly now p k [] e h = (e, tt)
push_back-FreeOnly now p k (w ∷ ws) e h = (h.0, push_back-FreeOnly now p (k + 1) ws e h.1)

push_back-IsSorted :
    (now : ℕ) (p : Player) (k : ℕ) (l : List Wait)
    → p.is_premium ≡ false
    → IsSorted l
    → IsSorted (push_back now p k l)
unfolding push_back
push_back-IsSorted now p k [] e h = (λ _. tt, tt)
push_back-IsSorted now p k (w ∷ ws) e h =
    (λ f. push_back-FreeOnly now p (k + 1) ws e (h.0 f), push_back-IsSorted now p (k + 1) ws e h.1)

insert_premium-IsSorted :
    (now : ℕ) (p : Player) (k : ℕ) (l : List Wait)
    → p.is_premium ≡ true
    → IsSorted l
    → IsSorted (insert_premium now p k l)
unfolding insert_premium
insert_premium-IsSorted now p k [] e h = tt
insert_premium-IsSorted now p k (w ∷ ws) e h =
    ground (arith, insert_premium-IsSorted now p (k + 1) ws e h.1)

enqueue-IsSorted : (now : ℕ) (p : Player) (l : List Wait) → IsSorted l → IsSorted (enqueue now p l)
unfolding enqueue
enqueue-IsSorted now p l h = elim (Bool-cases p.is_premium) [
  | inl e ↦ simp e (insert_premium-IsSorted now p 1 l e h)
  | inr e ↦ simp e (push_back-IsSorted now p 1 l e h)
]

admit_waiting-IsSorted :
    (st : Status) (now slot : ℕ) (l : List Wait)
    → IsSorted l
    → IsSorted (admit_waiting st now slot l).1
unfolding admit_waiting
admit_waiting-IsSorted st now slot l h = ground (
  arith,
  erase_at-IsSorted (slot - 1) l h,
  set_timeout_at-IsSorted (slot - 1) (deadline now slot) l h,
)

-- Whatever a login attempt does, the queue keeps its premium clients in front of its free ones.
pub client_login-IsSorted :
    (st : Status) (now : ℕ) (p : Player) (l : List Wait)
    → IsSorted l
    → IsSorted (client_login st now p l).1
client_login-IsSorted st now p l h =
    client_login_cases (λ r. IsSorted r.1) st now p l h
      (λ slot _. admit_waiting-IsSorted st now slot _ (clean_up_list-IsSorted now l h))
      (λ _. enqueue-IsSorted now p _ (clean_up_list-IsSorted now l h))
