-- ===== src/Chat/Parts.antt =====
-- The normal and the private channels in the list of Chat::getChannelList.
use jamera_server.Base.{
  ℕ, ◌≡◌, refl, true, ◌||◌, some, List, [], ◌∷◌, ◌++◌, ◌==◌, if_both, arith, Bool-cases, inl, inr,
  All, All-append,
}
use jamera_server.Base.Dict.{Dict, lookup}
use jamera_server.Chat.{
  Player, ChatChannel, Chat, Pointer, normal, private, guild, dummy_private, is_invited,
  get_channel,
}
use jamera_server.Chat.Sound.{AtMostOne}
use jamera_server.Chat.Logout.{Readable, later}
use jamera_server.Chat.Leave.{listed, Ordered}
use jamera_server.Chat.Rooms.{normal_part, private_part, is_some, is_open}

module _ (players : ℕ → Player) (u : ℕ) where
  abbrev pub p : Player
  p = players u

  pub normal_part-listed :
      (chat : Chat) (k : ℕ) (m : Dict ChatChannel) (c : ChatChannel)
      → lookup k m ≡ some c
      → is_some (get_channel p k chat) ≡ true
      → listed (normal k) (normal_part p chat m) ≡ true
  unfolding lookup
  normal_part-listed chat k [] c h a = cc
  normal_part-listed chat k (entry ∷ rest) c h a =
      let cond = is_open entry.0 || is_some (get_channel p entry.0 chat) in
      let tail = normal_part p chat rest in
      elim (Bool-cases (entry.0 == k)) [
        | inl e ↦
            let q : entry.0 ≡ k = ground arith in
            let here : cond ≡ true = rw q (ground (arith, a)) in rw here (rw e refl)
        | inr e ↦
            let ih = normal_part-listed chat k rest c (rw (e, lookup) at h) a in
            if_both (λ l. listed (normal k) l ≡ true) cond (normal entry.0 ∷ tail) tail
              (ground (arith, ih)) ih
      ]

  pub private_part-listed :
      (k : ℕ) (m : Dict ChatChannel) (c : ChatChannel)
      → lookup k m ≡ some c
      → is_invited p c ≡ true
      → listed (private k) (private_part p m) ≡ true
  unfolding lookup
  private_part-listed k [] c h a = cc
  private_part-listed k (entry ∷ rest) c h a =
      let tail = private_part p rest in
      elim (Bool-cases (entry.0 == k)) [
        | inl e ↦
            let both : some entry.1 ≡ some c = rw (e, lookup) at h in
            let q : entry.1 ≡ c = cc in
            let here : is_invited p entry.1 ≡ true = rw q a in rw here (rw e refl)
        | inr e ↦
            let ih = private_part-listed k rest c (rw (e, lookup) at h) a in
            if_both (λ l. listed (private k) l ≡ true) (is_invited p entry.1)
              (private entry.0 ∷ tail) tail (ground (arith, ih)) ih
      ]

  -- What is found in the rest of a list is found in the list.
  module _ (full : Chat) (at_key : ℕ → Pointer) where
    abbrev Finds : Dict ChatChannel → Type 0
    Finds m = (k : ℕ) (c : ChatChannel) → lookup k m ≡ some c → Readable full (at_key k)

    rest-Finds :
        (entry : ℕ × ChatChannel) (rest : Dict ChatChannel) → Finds (entry ∷ rest) → Finds rest
    unfolding lookup
    rest-Finds entry rest h k c e = elim (Bool-cases (entry.0 == k)) [
      | inl q ↦ h k entry.1 (rw (q, lookup) refl)
      | inr q ↦ h k c (rw (q, lookup) e)
    ]

    first-Finds :
        (entry : ℕ × ChatChannel) (rest : Dict ChatChannel)
        → Finds (entry ∷ rest)
        → Readable full (at_key entry.0)
    unfolding lookup
    first-Finds entry rest h =
        let self : (entry.0 == entry.0) ≡ true = ground arith in
        h entry.0 entry.1 (rw (self, lookup) refl)

  normal_part-Readable :
      (chat full : Chat) (m : Dict ChatChannel)
      → Finds full normal m
      → All (Readable full) (normal_part p chat m)
  normal_part-Readable chat full [] h = tt
  normal_part-Readable chat full (entry ∷ rest) h =
      let ih = normal_part-Readable chat full rest (rest-Finds full normal entry rest h) in
      if_both (All (Readable full)) (is_open entry.0 || is_some (get_channel p entry.0 chat))
        (normal entry.0 ∷ normal_part p chat rest) (normal_part p chat rest)
        (first-Finds full normal entry rest h, ih) ih

  private_part-Readable :
      (full : Chat) (m : Dict ChatChannel)
      → Finds full private m
      → All (Readable full) (private_part p m)
  private_part-Readable full [] h = tt
  private_part-Readable full (entry ∷ rest) h =
      let ih = private_part-Readable full rest (rest-Finds full private entry rest h) in
      if_both (All (Readable full)) (is_invited p entry.1) (private entry.0 ∷ private_part p rest)
        (private_part p rest) (first-Finds full private entry rest h, ih) ih

  private_part-Ordered : (m : Dict ChatChannel) → AtMostOne m → Ordered (private_part p m)
  private_part-Ordered [] h = tt
  private_part-Ordered (entry ∷ []) h =
      if_both Ordered (is_invited p entry.1) (private entry.0 ∷ []) [] (tt, tt) tt
  private_part-Ordered (entry ∷ next ∷ rest) h = absurd h

  later-normal : (ptr : Pointer) (k : ℕ) → later ptr (normal k) ≡ true
  later-normal dummy_private k = refl
  later-normal (normal j) k = refl
  later-normal (guild j) k = refl
  later-normal (private j) k = refl

  normal_part-later :
      (ptr : Pointer) (chat : Chat) (m : Dict ChatChannel)
      → All (λ q. later ptr q ≡ true) (normal_part p chat m)
  normal_part-later ptr chat [] = tt
  normal_part-later ptr chat (entry ∷ rest) =
      let ih = normal_part-later ptr chat rest in
      if_both (All (λ q. later ptr q ≡ true))
        (is_open entry.0 || is_some (get_channel p entry.0 chat))
        (normal entry.0 ∷ normal_part p chat rest) (normal_part p chat rest)
        (later-normal ptr entry.0, ih) ih

  private_part-later :
      (ptr : Pointer)
      → ((k : ℕ) → later ptr (private k) ≡ true)
      → (m : Dict ChatChannel) → All (λ q. later ptr q ≡ true) (private_part p m)
  private_part-later ptr h [] = tt
  private_part-later ptr h (entry ∷ rest) =
      let ih = private_part-later ptr h rest in
      if_both (All (λ q. later ptr q ≡ true)) (is_invited p entry.1)
        (private entry.0 ∷ private_part p rest) (private_part p rest) (h entry.0, ih) ih

  abbrev pub rooms_of : Chat → List Pointer
  rooms_of chat = normal_part p chat chat.normal_channels ++ private_part p chat.private_channels

  pub rooms_of-later :
      (ptr : Pointer)
      → ((k : ℕ) → later ptr (private k) ≡ true)
      → (chat : Chat) → All (λ q. later ptr q ≡ true) (rooms_of chat)
  rooms_of-later ptr h chat =
      All-append (λ q. later ptr q ≡ true) (normal_part p chat chat.normal_channels)
        (private_part p chat.private_channels) (normal_part-later ptr chat chat.normal_channels)
        (private_part-later ptr h chat.private_channels)

  pub normal_part-Ordered :
      (chat : Chat) (m privates : Dict ChatChannel)
      → AtMostOne privates
      → Ordered (normal_part p chat m ++ private_part p privates)
  normal_part-Ordered chat [] privates h = private_part-Ordered privates h
  normal_part-Ordered chat (entry ∷ rest) privates h =
      let ih = normal_part-Ordered chat rest privates h in
      let tail = private_part p privates in
      if_both (λ l. Ordered (l ++ tail)) (is_open entry.0 || is_some (get_channel p entry.0 chat))
        (normal entry.0 ∷ normal_part p chat rest) (normal_part p chat rest)
        (
          All-append (λ q. later (normal entry.0) q ≡ true) (normal_part p chat rest) tail
              (normal_part-later (normal entry.0) chat rest)
              (private_part-later (normal entry.0) (λ k. refl) privates),
          ih,
        )
        ih

  pub rooms_of-Readable : (chat : Chat) → All (Readable chat) (rooms_of chat)
  rooms_of-Readable chat =
      All-append (Readable chat) (normal_part p chat chat.normal_channels)
        (private_part p chat.private_channels)
        (normal_part-Readable chat chat chat.normal_channels (λ k c e. (c, e)))
        (private_part-Readable chat chat.private_channels (λ k c e. (c, e)))
