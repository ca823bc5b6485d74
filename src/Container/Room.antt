-- ===== src/Container/Room.antt =====
-- The answers of a container and what its operations then do.
use jamera_server.Base.{ℕ, ◌≤◌, ◌<◌, ◌≡◌, ◌⊎◌, inl, inr, false, Option, List, arith}
use jamera_server.Base.Int.{ℤ, pos, negsuc}
use jamera_server.Container.{Items, Item, Container, size, capacity, internal_add_thing, add_thing}
use jamera_server.Container.Query.{
  ReturnValue, noerror, Flags, whereever, query_add, fits_on, query_max_count,
}

size-add_thing :
    (items : Items) (index : ℤ) (item : Item) (c : Container)
    → size c < capacity c
    → size (add_thing items index item c) ≤ capacity (add_thing items index item c)
unfolding add_thing internal_add_thing
size-add_thing items (negsuc n) item c h = ground arith
size-add_thing items (pos n) item c h = ground arith

-- If a container, or the outermost one for it, has answered that an item may be added wherever
-- there is room, and neither FLAG_NOLIMIT nor FLAG_CHILDISOWNER was set, then with the item added
-- it holds no more items than its capacity.
pub query_add-room :
    (items : Items) (this : ℕ) (parents : List ℕ)
    (top : Option (ℤ → Item → ℕ → Flags → ReturnValue)) (c : Container) (item : Item) (count : ℕ)
    (flags : Flags)
    → flags.no_limit ≡ false
    → flags.child_is_owner ≡ false
    → query_add items this parents top c whereever item count flags ≡ noerror
    → size (add_thing items whereever item c) ≤ capacity (add_thing items whereever item c)
unfolding query_add
query_add-room items this parents top c item count flags l o e =
    size-add_thing items whereever item c (ground arith)

-- If __queryMaxCount answers RET_NOERROR without FLAG_NOLIMIT, and the item is not stackable, or is
-- stackable and one or more of it are to go wherever there is room, then with an item added at any
-- index the container holds no more items than its capacity.
pub query_max_count-room :
    (items : Items) (c : Container) (index : ℤ) (item : Item) (count : ℕ) (flags : Flags)
    → flags.no_limit ≡ false
    → ((items item.id).stackable ≡ false) ⊎ ((index ≡ whereever) × (0 < count))
    → (query_max_count items c index item count flags).0 ≡ noerror
    → size (add_thing items index item c) ≤ capacity (add_thing items index item c)
unfolding query_max_count fits_on
query_max_count-room items c index item count flags l (inl s) e =
    size-add_thing items index item c (ground arith)
query_max_count-room items c index item count flags l (inr (w, p)) e =
    size-add_thing items index item c (ground arith)
