-- ===== src/Ban/Connections.antt =====
-- The limit on connections: one a second from each address.
use jamera_server.Base.{
  ◌⊎◌, inl, inr, ℕ, ◌+◌, ◌^◌, ◌≤◌, ◌<◌, ◌≡◌, ◌≢◌, true, false, none, some, List, [], ◌∷◌,
  if◌then◌else◌, arith, All, inl, inr,
}
use jamera_server.Base.Dict.{lookup, lookup-insert}
use jamera_server.Ban.{BanManager, accept_connection}

-- The times at which an address is let in, over its attempts at the times of the list.
pub accepted : ℕ → List ℕ → BanManager → List ℕ
accepted ip [] b = []
accepted ip (t ∷ ts) b =
    let rest = accepted ip ts (accept_connection t ip b).1 in
    if (accept_connection t ip b).0 then t ∷ rest else rest

-- Attempts come in the order of time, from `t` on, before the clock's end.
abbrev pub Ascending : ℕ → List ℕ → Type 0
Ascending t [] = t < 2 ^ 64
Ascending t (u ∷ us) = (t ≤ u) × Ascending u us

-- Each is at least a second after the one before.
abbrev pub Spaced : List ℕ → Type 0
Spaced [] = Unit
Spaced (t ∷ ts) = All (λ u. t + 1000 ≤ u) ts × Spaced ts

Ascending-lt : (t : ℕ) (us : List ℕ) → Ascending t us → t < 2 ^ 64
Ascending-lt t [] a = a
Ascending-lt t (u ∷ us) a = omega (arith, Ascending-lt u us a.1)

All-later : (a b : ℕ) (ts : List ℕ) → a ≤ b → All (λ u. b ≤ u) ts → All (λ u. a ≤ u) ts
All-later a b [] le h = tt
All-later a b (t ∷ ts) le h = (omega arith, All-later a b ts le h.1)

accept_known :
    (now ip last : ℕ) (b : BanManager)
    → ip ≢ 0
    → lookup ip b.ip_connect_map ≡ some last
    → last ≤ now
    → now < 2 ^ 64
    → ((now < last + 1000) × (accept_connection now ip b ≡ (false, b)))
      ⊎ ((last + 1000 ≤ now)
          × ((accept_connection now ip b).0 ≡ true)
          × (lookup ip (accept_connection now ip b).1.ip_connect_map ≡ some now))
unfolding accept_connection
accept_known now ip last b nz e le end' = ground (arith, lookup-insert ip ip now b.ip_connect_map)

accept_new :
    (now ip : ℕ) (b : BanManager)
    → ip ≢ 0
    → lookup ip b.ip_connect_map ≡ none
    → ((accept_connection now ip b).0 ≡ true)
      × (lookup ip (accept_connection now ip b).1.ip_connect_map ≡ some now)
unfolding accept_connection
accept_new now ip b nz e = ground (arith, lookup-insert ip ip now b.ip_connect_map)

-- What is accepted after the address was let in at `last`.
accepted-Spaced_from :
    (ip last t : ℕ) (ts : List ℕ) (b : BanManager)
    → ip ≢ 0
    → lookup ip b.ip_connect_map ≡ some last
    → last ≤ t
    → Ascending t ts
    → All (λ u. last + 1000 ≤ u) (accepted ip ts b) × Spaced (accepted ip ts b)
unfolding accepted
accepted-Spaced_from ip last t [] b nz e le a = (tt, tt)
accepted-Spaced_from ip last t (u ∷ ts) b nz e le a =
    elim (accept_known u ip last b nz e (omega arith) (Ascending-lt u ts a.1)) [
      | inl (soon, eq) ↦ rw eq (accepted-Spaced_from ip last u ts b nz e (omega arith) a.1)
      | inr (late, eq, e') ↦
          let rest =
            accepted-Spaced_from ip u u ts (accept_connection u ip b).1 nz e' (omega arith) a.1 in
          rw eq ((late, All-later (last + 1000) (u + 1000) _ (omega arith) rest.0), rest)
    ]

-- Of the connections that one address attempts in the order of time, those that are let in are at
-- least a second apart.
pub accepted-Spaced :
    (ip t : ℕ) (ts : List ℕ) (b : BanManager)
    → ip ≢ 0
    → lookup ip b.ip_connect_map ≡ none
    → Ascending t ts
    → Spaced (accepted ip ts b)
unfolding accepted
accepted-Spaced ip t [] b nz e a = tt
accepted-Spaced ip t (u ∷ ts) b nz e a =
    let (eq, e') = accept_new u ip b nz e in
    rw eq (accepted-Spaced_from ip u u ts (accept_connection u ip b).1 nz e' (omega arith) a.1)
