-- ===== src/PropStream/Tests.antt =====
-- The property streams at concrete inputs.
use jamera_server.Base.{ℕ, ◌≡◌, refl, List, [], ◌∷◌, ◌++◌}
use jamera_server.PropStream.{
  init, reads, overruns, get_lstring, add_lstring, get_ulong, append_bytes, add_ulong,
}

abbrev text : List ℕ
text = b'a' ∷ 0 ∷ b'c' ∷ []

long_string_back : get_lstring ((add_lstring text init).buffer ++ 9 ∷ []) ≡ reads text (9 ∷ [])
unfolding get_lstring add_lstring get_ulong append_bytes add_ulong init
long_string_back = refl

length_below_zero : get_lstring (0xFF ∷ 0xFF ∷ 0xFF ∷ 0xFF ∷ text) ≡ overruns
unfolding get_lstring get_ulong
length_below_zero = refl
