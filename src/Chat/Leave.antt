-- ===== src/Chat/Leave.antt =====
-- The loop of Chat::removeUserFromAllChannels takes a player off every channel of a list.
use jamera_server.Base.{
  ◌++◌, ℕ, ◌≡◌, refl, ◌∙◌, ap, Bool, true, false, ◌||◌, some, List, [], ◌∷◌, count, arith,
  Bool-cases, inl, inr, All,
}
use jamera_server.Chat.{Player, ChatChannel, Chat, Pointer, read}
use jamera_server.Chat.Pointers.{same, same-eq}
use jamera_server.Chat.Sound.{Sound}
use jamera_server.Chat.Logout.{Readable, later, step, Shrinks}
use jamera_server.Chat.Rooms.{remove_user_from_each}

abbrev pub listed : Pointer → List Pointer → Bool
listed other [] = false
listed other (ptr ∷ rest) = same ptr other || listed other rest

pub listed-append :
    (other : Pointer) (xs ys : List Pointer)
    → listed other (xs ++ ys) ≡ (listed other xs || listed other ys)
listed-append other [] ys = refl
listed-append other (x ∷ xs) ys = ground (arith, listed-append other xs ys)

-- No pointer is hit by what happens at one in front of it.
abbrev pub Ordered : List Pointer → Type 0
Ordered [] = Unit
Ordered (ptr ∷ rest) = All (λ q. later ptr q ≡ true) rest × Ordered rest

module _ (players : ℕ → Player) (u : ℕ) (id : (players u).id ≡ u) where
  pub record Cleared (list : List Pointer) (chat : Chat) : Type 0 where
    pub after : Chat
    pub done : remove_user_from_each (players u) list chat ≡ some after
    pub sound : Sound players after
    pub shrinks : Shrinks players u id chat after
    pub clean :
        (other : Pointer) (c : ChatChannel)
        → listed other list ≡ true
        → read other after ≡ some c
        → count u c.users ≡ 0

  still-All :
      (ptr : Pointer) (chat after : Chat) (rest : List Pointer)
      → ((other : Pointer) → later ptr other ≡ true → Readable chat other → Readable after other)
      → All (λ q. later ptr q ≡ true) rest
      → All (Readable chat) rest
      → All (Readable after) rest
  still-All ptr chat after [] still l r = tt
  still-All ptr chat after (q ∷ rest) still l r =
      (still q l.0 r.0, still-All ptr chat after rest still l.1 r.1)

  pub clear :
      (list : List Pointer) (chat : Chat)
      → Ordered list
      → All (Readable chat) list
      → Sound players chat
      → Cleared list chat
  unfolding remove_user_from_each
  clear [] chat o r s = record {
    after = chat;
    done = refl;
    sound = s;
    shrinks = λ other c h. (c, h, λ v. omega arith);
    clean = λ other c l h. cc;
  }
  clear (ptr ∷ rest) chat o r s =
      let st = step players u id ptr chat r.0.0 r.0.1 s in
      let cl =
        clear rest st.after o.1 (still-All ptr chat st.after rest st.still o.0 r.1) st.sound in
      record {
        after = cl.after;
        done = rw (st.done, remove_user_from_each) cl.done;
        sound = cl.sound;
        shrinks = λ other c h.
            (let (b, e, le) = cl.shrinks other c h in
              let (a, f, le') = st.shrinks other b e in (a, f, λ v. omega (arith, le v, le' v)));
        clean = λ other c l h.
            (let (b, e, le) = cl.shrinks other c h in
              elim (Bool-cases (same ptr other)) [
                | inl q ↦
                    let here : read ptr st.after ≡ some b =
                      ap (λ x. read x st.after) (same-eq ptr other q) ∙ e in
                    omega (arith, le u, st.clean b here)
                | inr q ↦ cl.clean other c (rw q at l) h
              ]);
      }
