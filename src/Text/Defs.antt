-- ===== src/Text/Defs.antt =====
-- The operations of `str` that the program calls, after the standard library's documentation.
use Prim.Native.Char.{code}
use openab_control_plane.Prelude.{
  ℕ, zero, suc, ◌+◌, ◌-◌, String, Bool, true, false, ◌&&◌, ◌||◌, List, [], ◌∷◌, ◌++◌, reverse,
  Option, none, some, ltb, leb, ◌==◌, if◌then◌else◌, length, skip_while, map, map_some,
}

abbrev pub Text : Type 0
Text = List ℕ

-- The code points of a literal.
abbrev pub codes : String → Text
codes String.[] = []
codes (String.◌∷◌ c s) = code c ∷ codes s

unfoldable pub text_eq : Text → Text → Bool
text_eq [] [] = true
text_eq [] (d ∷ t) = false
text_eq (c ∷ s) [] = false
text_eq (c ∷ s) (d ∷ t) = c == d && text_eq s t

-- `list.contains(t)`.
unfoldable pub contains : Text → List Text → Bool
unfolding text_eq
contains t [] = false
contains t (x ∷ xs) = text_eq x t || contains t xs

-- `Some(t) == o`.
unfoldable pub is_text : Text → Option Text → Bool
unfolding text_eq
is_text t none = false
is_text t (some s) = text_eq t s

-- The characters with the property White_Space.
unfoldable pub is_space : ℕ → Bool
is_space c =
    c == 0x20
    || (leb 9 c && leb c 13)
    || c == 0x85
    || c == 0xa0
    || c == 0x1680
    || (leb 0x2000 c && leb c 0x200a)
    || c == 0x2028
    || c == 0x2029
    || c == 0x202f
    || c == 0x205f
    || c == 0x3000

unfoldable pub trim_start : Text → Text
unfolding is_space
trim_start = skip_while is_space

unfoldable pub trim_end : Text → Text
unfolding is_space
trim_end t = reverse (skip_while is_space (reverse t))

unfoldable pub trim : Text → Text
unfolding trim_start trim_end
trim t = trim_end (trim_start t)

unfoldable pub is_empty : Text → Bool
is_empty [] = true
is_empty (c ∷ t) = false

-- `starts_with`, and `strip_prefix` which returns what follows.
unfoldable pub strip_prefix : Text → Text → Option Text
strip_prefix [] t = some t
strip_prefix (p ∷ ps) [] = none
strip_prefix (p ∷ ps) (c ∷ t) = if p == c then strip_prefix ps t else none

unfoldable pub starts_with : Text → Text → Bool
starts_with [] t = true
starts_with (p ∷ ps) [] = false
starts_with (p ∷ ps) (c ∷ t) = p == c && starts_with ps t

unfoldable pub ends_with : Text → Text → Bool
unfolding starts_with
ends_with p t = starts_with (reverse p) (reverse t)

-- The first and the last place where the pattern starts.
unfoldable pub find : Text → Text → Option ℕ
unfolding starts_with
find p [] = if starts_with p [] then some 0 else none
find p (c ∷ t) = if starts_with p (c ∷ t) then some 0 else map_some suc (find p t)

unfoldable pub rfind : Text → Text → Option ℕ
unfolding starts_with
rfind p [] = if starts_with p [] then some 0 else none
rfind p (c ∷ t) = elim (rfind p t) [
  | some i ↦ some (suc i)
  | none ↦ if starts_with p (c ∷ t) then some 0 else none
]

unfoldable pub includes : Text → Text → Bool
unfolding find
includes p t = elim (find p t) [ some _ ↦ true | none ↦ false ]

-- `split(p)` for a pattern of `suc k` characters: `skip` characters of a found pattern remain.
unfoldable pub split_from : Text → ℕ → ℕ → Text → Text → List Text
unfolding starts_with
split_from p k skip piece [] = reverse piece ∷ []
split_from p k (suc skip) piece (c ∷ t) = split_from p k skip piece t
split_from p k zero piece (c ∷ t) = elim (starts_with p (c ∷ t)) [
  | true ↦ reverse piece ∷ split_from p k k [] t
  | false ↦ split_from p k zero (c ∷ piece) t
]

unfoldable pub split : Text → Text → List Text
unfolding split_from
split p t = split_from p (length p - 1) 0 [] t

-- `step_by(2)`: the first piece, the third, and so on.
unfoldable pub step_by_two {ℓ} : {A : Type ℓ} → List A → List A
step_by_two [] = []
step_by_two (x ∷ []) = x ∷ []
step_by_two (x ∷ y ∷ xs) = x ∷ step_by_two xs

-- A line ends at "\n" or "\r\n"; no empty line follows a final line end.
unfoldable pub end_line : Text → Text
end_line [] = []
end_line (c ∷ t) = if c == 13 then reverse t else reverse (c ∷ t)

unfoldable pub lines_from : Text → Text → List Text
unfolding end_line
lines_from [] [] = []
lines_from (d ∷ line) [] = reverse (d ∷ line) ∷ []
lines_from line (c ∷ t) = elim (c == 10) [
  | true ↦ end_line line ∷ lines_from [] t
  | false ↦ lines_from (c ∷ line) t
]

unfoldable pub lines : Text → List Text
unfolding lines_from
lines t = lines_from [] t

-- `split_whitespace()`.
unfoldable pub words_from : Text → Text → List Text
unfolding is_space
words_from [] [] = []
words_from (d ∷ word) [] = reverse (d ∷ word) ∷ []
words_from [] (c ∷ t) = elim (is_space c) [ true ↦ words_from [] t | false ↦ words_from (c ∷ []) t ]
words_from (d ∷ word) (c ∷ t) = elim (is_space c) [
  | true ↦ reverse (d ∷ word) ∷ words_from [] t
  | false ↦ words_from (c ∷ d ∷ word) t
]

unfoldable pub split_whitespace : Text → List Text
unfolding words_from
split_whitespace t = words_from [] t

-- `split_once` at a character.
unfoldable pub split_once : ℕ → Text → Option (Text × Text)
split_once sep [] = none
split_once sep (c ∷ t) =
    if c == sep then some ([], t) else map_some (λ r. (c ∷ r.0, r.1)) (split_once sep t)

unfoldable pub to_lower : ℕ → ℕ
to_lower c = if leb b'A' c && leb c b'Z' then c + 32 else c

unfoldable pub to_ascii_lowercase : Text → Text
unfolding to_lower
to_ascii_lowercase t = map to_lower t

-- The bytes of a character in UTF-8, and `len()`.
unfoldable pub utf8_len : ℕ → ℕ
utf8_len c = if ltb c 0x80 then 1 else if ltb c 0x800 then 2 else if ltb c 0x10000 then 3 else 4

unfoldable pub len : Text → ℕ
unfolding utf8_len
len [] = 0
len (c ∷ t) = utf8_len c + len t

-- `parts.join(sep)`.
unfoldable pub join : Text → List Text → Text
join sep [] = []
join sep (x ∷ []) = x
join sep (x ∷ y ∷ ys) = x ++ (sep ++ join sep (y ∷ ys))

-- `lines().next().unwrap_or_default()`.
unfoldable pub first_or_empty : List Text → Text
first_or_empty [] = []
first_or_empty (x ∷ xs) = x

-- The offsets of `match_indices(p)` for a pattern of `suc k` characters.
unfoldable pub matches_from : Text → ℕ → ℕ → ℕ → Text → List ℕ
matches_from p k skip i [] = []
matches_from p k (suc skip) i (c ∷ t) = matches_from p k skip (i + 1) t
matches_from p k zero i (c ∷ t) = elim (starts_with p (c ∷ t)) [
  | true ↦ i ∷ matches_from p k k (i + 1) t
  | false ↦ matches_from p k zero (i + 1) t
]

unfoldable pub match_indices : Text → Text → List ℕ
unfolding matches_from
match_indices p t = matches_from p (length p - 1) 0 0 t

-- Its name on an `unfolding` line opens every operation above, for tests.
unfoldable pub text_ops : Unit {0}
unfolding text_eq contains is_text is_space trim_start trim_end trim is_empty strip_prefix
    starts_with ends_with find rfind includes split step_by_two lines split_whitespace split_once
    to_ascii_lowercase len join first_or_empty match_indices
text_ops = tt
