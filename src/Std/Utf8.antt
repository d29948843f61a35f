-- ===== src/Std/Utf8.antt =====
-- UTF-8 as Rust's standard library checks it (`OsStr::to_str`, `String::from_utf8`).
use Prim.Native.String.{String}
use mathlib.Core.Logic.{inl, inr}
use in_engine_net.Prelude.{
  ℕ, ◌+◌, ◌/◌, ◌%◌, codes, ◌≡◌, Bool, true, false, ◌&&◌, Option, none, some, [], ◌∷◌, ◌++◌, Bytes,
  arith, leb, ltb, ◌==◌, if◌then◌else◌, Option-cases,
}

-- What the bytes of the current character still allow.
pub data Utf8State : Type 0 where
  boundary : Utf8State
  tail_one tail_two tail_three : Utf8State
  after_e0 after_ed after_f0 after_f4 : Utf8State

abbrev in_range : ℕ → ℕ → ℕ → Bool
in_range lo hi b = leb lo b && leb b hi

abbrev within : ℕ → ℕ → ℕ → Utf8State → Option Utf8State
within lo hi b next = if in_range lo hi b then some next else none

first_byte : ℕ → Option Utf8State
first_byte b =
    if ltb b 0x80
    then some boundary
    else if in_range 0xc2 0xdf b
    then some tail_one
    else if b == 0xe0
    then some after_e0
    else if b == 0xed
    then some after_ed
    else if in_range 0xe1 0xef b
    then some tail_two
    else if b == 0xf0
    then some after_f0
    else if in_range 0xf1 0xf3 b
    then some tail_three
    else if b == 0xf4
    then some after_f4
    else none

unfoldable pub utf8_step : Utf8State → ℕ → Option Utf8State
unfolding first_byte
utf8_step boundary b = first_byte b
utf8_step tail_one b = within 0x80 0xbf b boundary
utf8_step tail_two b = within 0x80 0xbf b tail_one
utf8_step tail_three b = within 0x80 0xbf b tail_two
utf8_step after_e0 b = within 0xa0 0xbf b tail_one
utf8_step after_ed b = within 0x80 0x9f b tail_one
utf8_step after_f0 b = within 0x90 0xbf b tail_two
utf8_step after_f4 b = within 0x80 0x8f b tail_two

abbrev at_boundary : Utf8State → Bool
at_boundary boundary = true
at_boundary _ = false

unfoldable pub utf8_from : Utf8State → Bytes → Bool
utf8_from st [] = at_boundary st
utf8_from st (b ∷ bs) = elim (utf8_step st b) [ none ↦ false | some st' ↦ utf8_from st' bs ]

unfoldable pub is_utf8 : Bytes → Bool
unfolding utf8_from utf8_step
is_utf8 bs = utf8_from boundary bs

utf8_from-append :
    (st : Utf8State) (xs ys : Bytes)
    → utf8_from st xs ≡ true
    → utf8_from boundary ys ≡ true
    → utf8_from st (xs ++ ys) ≡ true
unfolding utf8_from
utf8_from-append boundary [] ys h k = k
utf8_from-append _ [] ys h k = cc
utf8_from-append st (b ∷ bs) ys h k = elim (Option-cases (utf8_step st b)) [
  | inl e ↦ ground arith
  | inr (st', e) ↦ ground (arith, utf8_from-append st' bs ys)
]

pub is_utf8-append :
    (xs ys : Bytes) → is_utf8 xs ≡ true → is_utf8 ys ≡ true → is_utf8 (xs ++ ys) ≡ true
unfolding is_utf8
is_utf8-append xs ys h k = utf8_from-append boundary xs ys h k

-- The bytes of a character, and of a string given as its characters.
abbrev char_bytes : ℕ → Bytes
char_bytes c =
    if ltb c 0x80
    then c ∷ []
    else if ltb c 0x800
    then (0xc0 + c / 0x40) ∷ (0x80 + c % 0x40) ∷ []
    else if ltb c 0x10000
    then (0xe0 + c / 0x1000) ∷ (0x80 + c / 0x40 % 0x40) ∷ (0x80 + c % 0x40) ∷ []
    else (0xf0 + c / 0x40000)
      ∷ (0x80 + c / 0x1000 % 0x40)
      ∷ (0x80 + c / 0x40 % 0x40)
      ∷ (0x80 + c % 0x40)
      ∷ []

abbrev encode : Bytes → Bytes
encode [] = []
encode (c ∷ cs) = char_bytes c ++ encode cs

-- `str::as_bytes`
abbrev pub as_bytes : String → Bytes
as_bytes s = encode (codes s)
