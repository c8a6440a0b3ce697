-- ===== src/StdString.antt =====
-- The members of `std::string` that the program calls, on lists of bytes. A position is a `size_t`;
-- no text is as long as `npos`.
pub mod Laws
pub mod Holds
use https_server.Prelude.{
  ℕ, ◌+◌, ◌-◌, ◌^◌, Bool, true, false, not, ◌&&◌, ◌||◌, [], ◌∷◌, Option, none, some, ltb, ◌==◌,
  if◌then◌else◌, Bytes, length, take, drop,
}

abbrev pub npos : ℕ
npos = 2 ^ 64 - 1

unfoldable pub starts_with : Bytes → Bytes → Bool
starts_with [] s = true
starts_with (x ∷ needle) [] = false
starts_with (x ∷ needle) (c ∷ s) = (x == c) && starts_with needle s

-- The position of the first occurrence in `s`, which stands at position `i` of the text.
unfoldable pub find_at : ℕ → Bytes → Bytes → ℕ
unfolding starts_with
find_at i needle [] = elim needle [ [] ↦ i | x ∷ xs ↦ npos ]
find_at i needle (c ∷ s) =
    let later = find_at (i + 1) needle s in if starts_with needle (c ∷ s) then i else later

-- A text up to its first zero byte, as `strlen` and the `%s` of `printf` read it.
unfoldable pub c_string : Bytes → Bytes
c_string [] = []
c_string (c ∷ s) = if c == 0 then [] else c ∷ c_string s

-- `text.find(needle)`.
abbrev pub find : Bytes → Bytes → ℕ
find text needle = find_at 0 needle text

-- `text.find(needle, pos)`.
abbrev pub find_from : Bytes → Bytes → ℕ → ℕ
find_from text needle pos = find_at pos needle (drop pos text)

abbrev pub contains : Bytes → ℕ → Bool
contains [] c = false
contains (x ∷ set) c = c == x || contains set c

-- The position of the first byte of `s` that passes the test; `s` stands at position `i`.
unfoldable pub index_at : ℕ → (ℕ → Bool) → Bytes → ℕ
index_at i test [] = npos
index_at i test (c ∷ s) = let later = index_at (i + 1) test s in if test c then i else later

abbrev pub find_first_of : Bytes → Bytes → ℕ → ℕ
find_first_of text set pos = index_at pos (contains set) (drop pos text)

abbrev pub find_first_not_of : Bytes → Bytes → ℕ → ℕ
find_first_not_of text set pos = index_at pos (λ c. not (contains set c)) (drop pos text)

-- `text.substr(pos, count)`; `none` is the exception `std::out_of_range`.
abbrev pub substr : Bytes → ℕ → ℕ → Option Bytes
substr text pos count = if ltb (length text) pos then none else some (take count (drop pos text))

-- `text.substr(pos)`.
abbrev pub substr_from : Bytes → ℕ → Option Bytes
substr_from text pos = if ltb (length text) pos then none else some (drop pos text)

-- `text.back()`; `none` is its undefined behaviour on the empty text.
unfoldable pub back : Bytes → Option ℕ
back [] = none
back (c ∷ []) = some c
back (c ∷ d ∷ s) = back (d ∷ s)

unfoldable pub pop_back : Bytes → Bytes
pop_back [] = []
pop_back (c ∷ []) = []
pop_back (c ∷ d ∷ s) = c ∷ pop_back (d ∷ s)

abbrev pub is_slash : Option ℕ → Bool
is_slash none = false
is_slash (some c) = c == b'/'

-- `operator<`, by which `std::map` orders its keys.
unfoldable pub less : Bytes → Bytes → Bool
less a [] = false
less [] (d ∷ b) = true
less (c ∷ a) (d ∷ b) = ltb c d || ((c == d) && less a b)
