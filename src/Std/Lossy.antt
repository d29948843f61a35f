-- ===== src/Std/Lossy.antt =====
-- `String::from_utf8_lossy` of Rust's standard library: each longest start of a character that is
-- not completed, and each byte that starts none, becomes U+FFFD.
use in_engine_net.Prelude.{
  ℕ, ap, sym, ◌∙◌, ◌≡◌, refl, Option, none, some, [], ◌∷◌, ◌++◌, Bytes, true, arith, Option-cases,
  inl, inr,
}
use mathlib.Core.List.{append_assoc}
use in_engine_net.Std.Utf8.{
  Utf8State, boundary, tail_one, tail_two, tail_three, after_e0, after_ed, after_f0, after_f4,
  utf8_step, utf8_from, is_utf8,
}

abbrev pub replacement : Bytes
replacement = 0xef ∷ 0xbf ∷ 0xbd ∷ []

abbrev flushed : Utf8State → Bytes
flushed boundary = []
flushed _ = replacement

-- The bytes of a character are kept until it is complete.
abbrev go_on : Option Utf8State → Bytes → (Utf8State → Bytes → Bytes) → Bytes
go_on none seen rest = replacement ++ rest boundary []
go_on (some boundary) seen rest = seen ++ rest boundary []
go_on (some st) seen rest = rest st seen

-- A byte that does not continue a character is looked at again as a first byte.
abbrev start_again : Utf8State → ℕ → (Utf8State → Bytes → Bytes) → Bytes
start_again boundary b rest = replacement ++ rest boundary []
start_again _ b rest = replacement ++ go_on (utf8_step boundary b) (b ∷ []) rest

abbrev advance : Option Utf8State → Utf8State → ℕ → Bytes → (Utf8State → Bytes → Bytes) → Bytes
advance none st b seen rest = start_again st b rest
advance (some st') st b seen rest = go_on (some st') (seen ++ b ∷ []) rest

unfoldable pub lossy_from : Utf8State → Bytes → Bytes → Bytes
lossy_from st seen [] = flushed st
lossy_from st seen (b ∷ bs) =
    advance (utf8_step st b) st b seen (λ st' kept. lossy_from st' kept bs)

unfoldable pub from_utf8_lossy : Bytes → Bytes
unfolding lossy_from utf8_step
from_utf8_lossy bytes = lossy_from boundary [] bytes

-- Nothing is kept at a boundary.
abbrev Fits : Utf8State → Bytes → Type 0
Fits boundary seen = seen ≡ []
Fits _ seen = Unit {0}

go_on_valid :
    (st : Utf8State) (seen : Bytes) (rest : Utf8State → Bytes → Bytes) (bs : Bytes)
    → ((kept : Bytes) → Fits st kept → rest st kept ≡ kept ++ bs)
    → go_on (some st) seen rest ≡ seen ++ bs
go_on_valid boundary seen rest bs h = ap (seen ++◌) (h [] refl)
go_on_valid tail_one seen rest bs h = h seen tt
go_on_valid tail_two seen rest bs h = h seen tt
go_on_valid tail_three seen rest bs h = h seen tt
go_on_valid after_e0 seen rest bs h = h seen tt
go_on_valid after_ed seen rest bs h = h seen tt
go_on_valid after_f0 seen rest bs h = h seen tt
go_on_valid after_f4 seen rest bs h = h seen tt

lossy_from_valid :
    (st : Utf8State) (seen bs : Bytes)
    → utf8_from st bs ≡ true
    → Fits st seen
    → lossy_from st seen bs ≡ seen ++ bs
unfolding utf8_from lossy_from
lossy_from_valid boundary seen [] h f = sym (rw f refl)
lossy_from_valid _ seen [] h f = cc
lossy_from_valid st seen (b ∷ bs) h f = elim (Option-cases (utf8_step st b)) [
  | inl e ↦ ground arith
  | inr (st', e) ↦
      rw e (
        go_on_valid st' (seen ++ b ∷ []) (λ next kept. lossy_from next kept bs) bs
          (λ kept g. lossy_from_valid st' kept bs (ground arith) g))
      ∙ append_assoc seen (b ∷ []) bs
]

-- Valid text stays as it is.
pub from_utf8_lossy_valid : (bytes : Bytes) → is_utf8 bytes ≡ true → from_utf8_lossy bytes ≡ bytes
unfolding is_utf8 from_utf8_lossy
from_utf8_lossy_valid bytes h = lossy_from_valid boundary [] bytes h refl
