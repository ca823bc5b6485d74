-- ===== src/PropStream/RoundTrip.antt =====
-- What is written to a PropWriteStream is what a PropStream reads, and the buffer is large enough.
use mathlib.Core.List.{append_assoc}
use jamera_server.Base.{
  ℕ, suc, ◌%◌, ◌^◌, ◌≤◌, ◌<◌, ◌≡◌, refl, sym, ap, ◌∙◌, none, some, List, [], ◌∷◌, ◌++◌, length,
  length-append, take, arith,
}
use jamera_server.Base.Bytes.{
  le_bytes, from_le, from_le-byte, from_le-u16, from_le-u32, take-append, drop-append,
}
use jamera_server.PropStream.{
  PropWriteStream, init, overruns, reads, get_value, get_ulong, get_ushort, get_uchar, get_nstring,
  get_string, get_lstring, append_bytes, add_value, add_ulong, add_ushort, add_uchar, add_string,
  add_lstring,
}

pub get_value-append :
    (bs rest : List ℕ) → get_value (length bs) (bs ++ rest) ≡ some (from_le bs, rest)
unfolding get_value
get_value-append bs rest =
    ground (arith, length-append bs rest, take-append bs rest, drop-append bs rest)

-- What an integer's write puts into the buffer, in front of what follows
pub add_ulong-buffer :
    (v : ℕ) (w : PropWriteStream) (rest : List ℕ)
    → (add_ulong v w).buffer ++ rest ≡ w.buffer ++ (le_bytes 4 v ++ rest)
unfolding add_ulong
add_ulong-buffer v w rest = append_assoc w.buffer (le_bytes 4 v) rest

pub add_uchar-buffer :
    (v : ℕ) (w : PropWriteStream) (rest : List ℕ)
    → (add_uchar v w).buffer ++ rest ≡ w.buffer ++ (le_bytes 1 v ++ rest)
unfolding add_uchar
add_uchar-buffer v w rest = append_assoc w.buffer (le_bytes 1 v) rest

pub buffer-init : init.buffer ≡ []
unfolding init
buffer-init = refl

pub get_uchar-empty : get_uchar [] ≡ none
unfolding get_uchar
get_uchar-empty = refl

get_nstring-append : (bs rest : List ℕ) → get_nstring (length bs) (bs ++ rest) ≡ some (bs, rest)
unfolding get_nstring
get_nstring-append bs rest =
    ground (arith, length-append bs rest, take-append bs rest, drop-append bs rest)

length-take_le : {A : Type 0} (n : ℕ) (xs : List A) → n ≤ length xs → length (take n xs) ≡ n
length-take_le ℕ.zero xs h = refl
length-take_le (ℕ.suc n) [] h = elim h [ ]
length-take_le (ℕ.suc n) (x ∷ xs) h = ap suc (length-take_le n xs (omega arith))

take_all : {A : Type 0} (xs : List A) → take (length xs) xs ≡ xs
take_all [] = refl
take_all (x ∷ xs) = ap (◌∷◌ x) (take_all xs)

get_ushort-append :
    (v : ℕ) (rest : List ℕ) → v < 2 ^ 16 → get_ushort (le_bytes 2 v ++ rest) ≡ some (v, rest)
unfolding get_ushort
get_ushort-append v rest h =
    get_value-append (le_bytes 2 v) rest ∙ ap (λ n. some (n, rest)) (from_le-u16 v h)

pub get_ulong-append :
    (v : ℕ) (rest : List ℕ) → v < 2 ^ 32 → get_ulong (le_bytes 4 v ++ rest) ≡ some (v, rest)
unfolding get_ulong
get_ulong-append v rest h =
    get_value-append (le_bytes 4 v) rest ∙ ap (λ n. some (n, rest)) (from_le-u32 v h)

pub get_uchar-append :
    (v : ℕ) (rest : List ℕ) → v < 2 ^ 8 → get_uchar (le_bytes 1 v ++ rest) ≡ some (v, rest)
unfolding get_uchar
get_uchar-append v rest h =
    get_value-append (le_bytes 1 v) rest ∙ ap (λ n. some (n, rest)) (from_le-byte v h)

-- Integers come back: GET_UCHAR, GET_USHORT and GET_ULONG undo ADD_UCHAR, ADD_USHORT and ADD_ULONG
-- on what these put behind the bytes that were there, if the values fit.
pub get-add_integers :
    (b h l : ℕ) (w : PropWriteStream)
    → b < 2 ^ 8
    → h < 2 ^ 16
    → l < 2 ^ 32
    → (bytes s1 s2 : List ℕ) × ((add_ulong l (add_ushort h (add_uchar b w))).buffer
        ≡ w.buffer ++ bytes)
      × (get_uchar bytes ≡ some (b, s1))
      × (get_ushort s1 ≡ some (h, s2))
      × (get_ulong s2 ≡ some (l, []))
unfolding add_ulong add_ushort add_uchar
get-add_integers b h l w hb hh hl = (
  le_bytes 1 b ++ (le_bytes 2 h ++ le_bytes 4 l),
  le_bytes 2 h ++ le_bytes 4 l,
  le_bytes 4 l,
  append_assoc (w.buffer ++ le_bytes 1 b) (le_bytes 2 h) (le_bytes 4 l)
      ∙ append_assoc w.buffer (le_bytes 1 b) (le_bytes 2 h ++ le_bytes 4 l),
  get_uchar-append b _ hb,
  get_ushort-append h _ hh,
  get_ulong-append l [] hl,
)

abbrev cut : ℕ → List ℕ → List ℕ
cut n s = take (length s % n) s

length-cut : (n : ℕ) (s : List ℕ) → length s % n ≤ length s → length (cut n s) ≡ length s % n
length-cut n s h = length-take_le (length s % n) s h

-- A string comes back, cut to its length modulo 2^16.
pub get_string-add_string_cut :
    (s rest : List ℕ) (w : PropWriteStream)
    → (bytes : List ℕ) × ((add_string s w).buffer ≡ w.buffer ++ bytes)
      × (get_string (bytes ++ rest) ≡ some (take (length s % 2 ^ 16) s, rest))
unfolding add_string get_string add_ushort
get_string-add_string_cut s rest w =
    let n : ℕ = length s % 2 ^ 16 in
    let len : length (take n s) ≡ n = length-cut (2 ^ 16) s (omega arith) in
    let read : get_nstring n (take n s ++ rest) ≡ some (take n s, rest) =
      ap (λ k. get_nstring k (take n s ++ rest)) (sym len) ∙ get_nstring-append (take n s) rest in
    (
      le_bytes 2 n ++ take n s,
      append_assoc w.buffer (le_bytes 2 n) (take n s),
      rw (get_ushort-append n (take n s ++ rest) (omega arith), get_string) read,
    )

-- A long string comes back, if it is shorter than 2^32.
pub get_lstring-add_lstring :
    (s rest : List ℕ) (w : PropWriteStream)
    → length s < 2 ^ 32
    → (bytes : List ℕ) × ((add_lstring s w).buffer ≡ w.buffer ++ bytes)
      × (get_lstring (bytes ++ rest) ≡ reads s rest)
unfolding add_lstring get_lstring add_ulong
get_lstring-add_lstring s rest w h =
    let e : length s % 2 ^ 32 ≡ length s = omega arith in
    (
      le_bytes 4 (length s % 2 ^ 32) ++ take (length s % 2 ^ 32) s,
      append_assoc w.buffer (le_bytes 4 (length s % 2 ^ 32)) (take (length s % 2 ^ 32) s),
      rw (e, take_all s, get_ulong-append (length s) (s ++ rest) h, get_lstring)
          (ground (arith, length-append s rest, take-append s rest, drop-append s rest)),
    )

-- A length of 2^31 and more in front of a shorter rest makes GET_LSTRING read beyond the buffer.
pub get_lstring-overruns :
    (n : ℕ) (rest : List ℕ)
    → 2 ^ 31 ≤ n
    → n < 2 ^ 32
    → length rest < n
    → get_lstring (le_bytes 4 n ++ rest) ≡ overruns
unfolding get_lstring
get_lstring-overruns n rest big h short = rw (get_ulong-append n rest h, get_lstring) (ground arith)

-- The bytes written never go beyond the buffer.
abbrev pub Fits : PropWriteStream → Type 0
Fits w = length w.buffer ≤ w.buffer_size

append_bytes-Fits : (bs : List ℕ) (w : PropWriteStream) → Fits w → Fits (append_bytes bs w)
unfolding append_bytes
append_bytes-Fits bs w f = ground (arith, length-append w.buffer bs)

-- Every write leaves the bytes within the buffer, by its growth before the copy.
pub add-Fits :
    (n v : ℕ) (s : List ℕ) (w : PropWriteStream)
    → Fits w
    → Fits (add_value n v w) × Fits (add_string s w) × Fits (add_lstring s w)
unfolding add_value add_string add_lstring add_ushort add_ulong
add-Fits n v s w f = (
  append_bytes-Fits _ w f,
  append_bytes-Fits _ _ (append_bytes-Fits _ w f),
  append_bytes-Fits _ _ (append_bytes-Fits _ w f),
)
