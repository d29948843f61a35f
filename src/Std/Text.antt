-- ===== src/Std/Text.antt =====
-- `str::lines` and `str::trim` of Rust's standard library, on the bytes of UTF-8 text.
use in_engine_net.Prelude.{
  ℕ, Bool, false, ◌&&◌, ◌||◌, List, [], ◌∷◌, ◌++◌, Bytes, ◌≡◌, refl, ap, ◌∙◌, inl, inr, Bool-cases,
  ◌==◌, leb, if◌then◌else◌, reverse,
}

-- A line ends before "\n" or "\r\n"; a last empty line is not counted.
abbrev pub drop_return : Bytes → Bytes
drop_return [] = []
drop_return (b ∷ []) = if b == b'\r' then [] else b ∷ []
drop_return (b ∷ c ∷ cs) = b ∷ drop_return (c ∷ cs)

abbrev pub add_to_first : ℕ → List Bytes → List Bytes
add_to_first b [] = (b ∷ []) ∷ []
add_to_first b (line ∷ rest) = (b ∷ line) ∷ rest

-- `split_inclusive('\n')`
unfoldable pub split_inclusive : Bytes → List Bytes
split_inclusive [] = []
split_inclusive (b ∷ bs) =
    let rest = split_inclusive bs in if b == b'\n' then (b ∷ []) ∷ rest else add_to_first b rest

abbrev pub drop_newline : Bytes → Bytes
drop_newline [] = []
drop_newline (b ∷ []) = if b == b'\n' then [] else b ∷ []
drop_newline (b ∷ c ∷ cs) = b ∷ drop_newline (c ∷ cs)

abbrev pub ends_with_newline : Bytes → Bool
ends_with_newline [] = false
ends_with_newline (b ∷ []) = b == b'\n'
ends_with_newline (b ∷ c ∷ cs) = ends_with_newline (c ∷ cs)

abbrev pub strip_line : Bytes → Bytes
strip_line line = if ends_with_newline line then drop_return (drop_newline line) else line

abbrev last_of : Bytes → List Bytes → Bytes
last_of default [] = default
last_of default (line ∷ []) = strip_line line
last_of default (line ∷ next ∷ rest) = last_of default (next ∷ rest)

-- `text.lines().last().unwrap_or(text)`
unfoldable pub last_line_or_all : Bytes → Bytes
unfolding split_inclusive
last_line_or_all text = last_of text (split_inclusive text)

-- The characters of White_Space: of one byte, of two after 0xC2, and of three.
abbrev is_space1 : ℕ → Bool
is_space1 a = (leb 9 a && leb a 13) || a == 32

abbrev is_space2 : ℕ → ℕ → Bool
is_space2 a b = a == 0xC2 && (b == 0x85 || b == 0xA0)

abbrev is_space3 : ℕ → ℕ → ℕ → Bool
is_space3 a b c =
    (a == 0xE1 && b == 0x9A && c == 0x80)
    || (a == 0xE2 && b == 0x80 && (leb 0x80 c && leb c 0x8A || c == 0xA8 || c == 0xA9 || c == 0xAF))
    || (a == 0xE2 && b == 0x81 && c == 0x9F)
    || (a == 0xE3 && b == 0x80 && c == 0x80)

unfoldable pub trim_from : (ℕ → ℕ → Bool) → (ℕ → ℕ → ℕ → Bool) → Bytes → Bytes
trim_from two three [] = []
trim_from two three (a ∷ []) = if is_space1 a then [] else a ∷ []
trim_from two three (a ∷ b ∷ []) =
    let rest = trim_from two three (b ∷ []) in
    if is_space1 a then rest else if two a b then [] else a ∷ b ∷ []
trim_from two three (a ∷ b ∷ c ∷ cs) =
    let rest1 = trim_from two three (b ∷ c ∷ cs) in
    let rest2 = trim_from two three (c ∷ cs) in
    let rest3 = trim_from two three cs in
    if is_space1 a
    then rest1
    else if two a b
    then rest2
    else if three a b c
    then rest3
    else a ∷ b ∷ c ∷ cs

-- The end is trimmed on the reversed bytes: no character of UTF-8 text ends with another one's
-- bytes.
unfoldable pub trim : Bytes → Bytes
unfolding trim_from
trim text = reverse (
    trim_from (λ b a. is_space2 a b) (λ c b a. is_space3 a b c)
      (reverse (trim_from is_space2 is_space3 text)))

-- No byte is a newline.
abbrev pub NoNewline : Bytes → Type 0
NoNewline [] = Unit {0}
NoNewline (b ∷ bs) = ((b == b'\n') ≡ false) × NoNewline bs

split_inclusive-line :
    (b : ℕ) (line : Bytes) → NoNewline (b ∷ line) → split_inclusive (b ∷ line) ≡ (b ∷ line) ∷ []
unfolding split_inclusive
split_inclusive-line b [] h = rw (h.0) refl
split_inclusive-line b (c ∷ line) h =
    rw (h.0) (ap (add_to_first b) (split_inclusive-line c line h.1))

-- The text after the last newline is the last line; there is a line before it.
abbrev LinesEnd : Bytes → List Bytes → Type 0
LinesEnd line lines =
    (first : Bytes) × (middle : List Bytes) × (lines ≡ first ∷ middle ++ line ∷ [])

split_inclusive-append :
    (before : Bytes) (b : ℕ) (line : Bytes)
    → NoNewline (b ∷ line)
    → LinesEnd (b ∷ line) (split_inclusive (before ++ b'\n' ∷ b ∷ line))
unfolding split_inclusive
split_inclusive-append [] b line h =
    (b'\n' ∷ [], [], ap (◌∷◌ (b'\n' ∷ [])) (split_inclusive-line b line h))
split_inclusive-append (x ∷ before) b line h =
    let (first, middle, e) = split_inclusive-append before b line h in
    elim (Bool-cases (x == b'\n')) [
      | inl y ↦ (x ∷ [], first ∷ middle, rw y (ap (◌∷◌ (x ∷ [])) e))
      | inr n ↦ (x ∷ first, middle, rw n (ap (add_to_first x) e))
    ]

last_of-append :
    (default : Bytes) (first : Bytes) (middle : List Bytes) (line : Bytes)
    → last_of default (first ∷ middle ++ line ∷ []) ≡ strip_line line
last_of-append default first [] line = refl
last_of-append default first (next ∷ middle) line = last_of-append default next middle line

ends_with_newline-NoNewline : (line : Bytes) → NoNewline line → ends_with_newline line ≡ false
ends_with_newline-NoNewline [] h = refl
ends_with_newline-NoNewline (b ∷ []) h = h.0
ends_with_newline-NoNewline (b ∷ c ∷ cs) h = ends_with_newline-NoNewline (c ∷ cs) h.1

pub last_line_or_all-append :
    (before : Bytes) (b : ℕ) (line : Bytes)
    → NoNewline (b ∷ line)
    → last_line_or_all (before ++ b'\n' ∷ b ∷ line) ≡ b ∷ line
unfolding last_line_or_all
last_line_or_all-append before b line h =
    let (first, middle, e) = split_inclusive-append before b line h in
    ap (last_of (before ++ b'\n' ∷ b ∷ line)) e
    ∙ last_of-append (before ++ b'\n' ∷ b ∷ line) first middle (b ∷ line)
    ∙ rw (ends_with_newline-NoNewline (b ∷ line) h) refl
