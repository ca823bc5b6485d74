-- ===== src/PropStream.antt =====
-- The property streams of source 7.6/fileloader.h: class PropStream, which reads typed values from
-- a buffer, and class PropWriteStream, which writes them to a growing one. Both are used for the
-- attributes of items in the map, and in the saved depots and houses.
pub mod RoundTrip
mod Tests
use jamera_server.Base.{
  ℕ, suc, ◌+◌, ◌-◌, ◌*◌, ◌/◌, ◌%◌, ◌^◌, Bool, true, false, Option, none, some, List, [], ◌∷◌, ◌++◌,
  ltb, leb, if◌then◌else◌, length, take, drop,
}
use jamera_server.Base.Int.{ℤ, pos, negsuc}
use jamera_server.Base.Bytes.{le_bytes, from_le}

-- A PropStream is the bytes from p to end. A getter answers `none` where the source answers
-- false; then it leaves the stream alone, except where it has read a string's length.
abbrev pub PropStream : Type 0
PropStream = List ℕ

-- GET_VALUE, for an unsigned type of n bytes.
pub get_value : ℕ → PropStream → Option (ℕ × PropStream)
get_value n s = if ltb (length s) n then none else some (from_le (take n s), drop n s)

-- GET_ULONG, GET_USHORT, GET_UCHAR
pub get_ulong : PropStream → Option (ℕ × PropStream)
unfolding get_value
get_ulong = get_value 4

pub get_ushort : PropStream → Option (ℕ × PropStream)
unfolding get_value
get_ushort = get_value 2

pub get_uchar : PropStream → Option (ℕ × PropStream)
unfolding get_value
get_uchar = get_value 1

-- GET_NSTRING
pub get_nstring : ℕ → PropStream → Option (List ℕ × PropStream)
get_nstring str_len s =
    if ltb (length s) str_len then none else some (take str_len s, drop str_len s)

-- GET_STRING
pub get_string : PropStream → Option (List ℕ × PropStream)
get_string s = elim (get_ushort s) [ none ↦ none | some (str_len, rest) ↦ get_nstring str_len rest ]

-- What a getter may do beyond that: read past the end of the buffer.
pub data Read {ℓ} (A : Type ℓ) : Type ℓ where
  fails : Read A
  overruns : Read A
  reads : A → PropStream → Read A

-- GET_LSTRING. The length is compared as an int32_t: one of 2^31 and more is negative, and passes.
pub get_lstring : PropStream → Read (List ℕ)
get_lstring s = elim (get_ulong s) [
  | none ↦ fails
  | some (str_len, rest) ↦
      if leb str_len (length rest)
      then reads (take str_len rest) (drop str_len rest)
      else if leb (2 ^ 31) str_len
      then overruns
      else fails
]

-- SKIP_N: a negative n moves back, which this model refuses (no caller does so).
pub skip_n : ℕ → PropStream → Option PropStream
skip_n n s = if ltb (length s) n then none else some (drop n s)

-- PropWriteStream: the bytes written (size is their number), and buffer_size.
pub record PropWriteStream : Type 0 where
  pub buffer : List ℕ
  pub buffer_size : ℕ

pub init : PropWriteStream
init = record { buffer = []; buffer_size = 32 }

-- The growth before n more bytes: by n rounded up to 32.
abbrev pub room_for : ℕ → PropWriteStream → ℕ
room_for n w =
    if ltb (w.buffer_size - length w.buffer) n
    then w.buffer_size + (n + 0x1F) / 32 * 32
    else w.buffer_size

-- The memcpy of these bytes to the end, after the growth for them.
pub append_bytes : List ℕ → PropWriteStream → PropWriteStream
append_bytes bytes w = record {
  buffer = w.buffer ++ bytes;
  buffer_size = room_for (length bytes) w;
}

-- ADD_VALUE and ADD_TYPE, for n bytes.
pub add_value : ℕ → ℕ → PropWriteStream → PropWriteStream
unfolding append_bytes
add_value n v = append_bytes (le_bytes n v)

pub add_ulong : ℕ → PropWriteStream → PropWriteStream
unfolding add_value
add_ulong = add_value 4

pub add_ushort : ℕ → PropWriteStream → PropWriteStream
unfolding add_value
add_ushort = add_value 2

pub add_uchar : ℕ → PropWriteStream → PropWriteStream
unfolding add_value
add_uchar = add_value 1

-- ADD_STRING: the length is cut to 16 bits, and so many bytes are copied.
pub add_string : List ℕ → PropWriteStream → PropWriteStream
add_string add w =
    let str_len = length add % 2 ^ 16 in append_bytes (take str_len add) (add_ushort str_len w)

-- ADD_LSTRING
pub add_lstring : List ℕ → PropWriteStream → PropWriteStream
add_lstring add w =
    let str_len = length add % 2 ^ 32 in append_bytes (take str_len add) (add_ulong str_len w)
