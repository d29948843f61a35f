-- ===== src/Exec/Pipe/Stream.antt =====
-- What inengine-core/src/commands/exec/pipe.rs keeps of a whole stream, however it was cut into
-- chunks.
use mathlib.Core.List.{append_assoc, append-nil}
use in_engine_net.Prelude.{
  ℕ, zero, suc, ◌+◌, ◌-◌, ◌<◌, min, ◌≡◌, refl, sym, ap, ◌∙◌, false, List, [], ◌∷◌, ◌++◌, Bytes,
  arith, length, take, drop, usize_mod, length-append, length-take, length-drop, take_all, drop_all,
  drop-drop, take-append, drop-append, wrapping_add,
}
use in_engine_net.Exec.Pipe.{StreamBuffer, new, push, take_kept, push_all}

abbrev pub concat : List Bytes → Bytes
concat [] = []
concat (c ∷ cs) = c ++ concat cs

-- The buffer after a whole stream: its start, its end, and the number of bytes between them.
abbrev pub kept : ℕ → ℕ → Bytes → StreamBuffer
kept head_limit tail_limit all = record {
  head_limit = head_limit;
  tail_limit = tail_limit;
  head = take head_limit all;
  tail = drop (length (drop head_limit all) - tail_limit) (drop head_limit all);
  dropped = length (drop head_limit all) - tail_limit;
  taken = false;
}

take-min : (n : ℕ) (bs : Bytes) → take (min n (length bs)) bs ≡ take n bs
take-min zero bs = ap (λ k. take k bs) {y = 0} (omega arith)
take-min (suc n) [] = ap (λ k. take {A = ℕ} k []) {y = 0} (omega arith)
take-min (suc n) (b ∷ bs) =
    ap (λ k. take k (b ∷ bs)) {x = min (suc n) (suc (length bs))} {y = suc (min n (length bs))}
      (omega arith)
    ∙ ap (◌∷◌ b) (take-min n bs)

drop-min : (n : ℕ) (bs : Bytes) → drop (min n (length bs)) bs ≡ drop n bs
drop-min zero bs = ap (λ k. drop k bs) {y = 0} (omega arith)
drop-min (suc n) [] = ap (λ k. drop {A = ℕ} k []) {y = 0} (omega arith)
drop-min (suc n) (b ∷ bs) =
    ap (λ k. drop k (b ∷ bs)) {x = min (suc n) (suc (length bs))} {y = suc (min n (length bs))}
      (omega arith)
    ∙ drop-min n bs

-- The number of bytes that do not fit.
abbrev excess : ℕ → Bytes → ℕ
excess t bs = length bs - t

abbrev keep_end : ℕ → Bytes → Bytes
keep_end t bs = drop (excess t bs) bs

kept_whole : (t : ℕ) (d r : Bytes) → keep_end t d ++ r ≡ drop (excess t d) (d ++ r)
kept_whole t d r =
    sym (drop-append (excess t d) d r ∙ ap (λ j. keep_end t d ++ drop j r) {y = 0} (omega arith))

excess-append :
    (t : ℕ) (d r : Bytes) → excess t d + excess t (keep_end t d ++ r) ≡ excess t (d ++ r)
excess-append t d r =
    omega (arith, length-append (keep_end t d) r, length-drop (excess t d) d, length-append d r)

keep_end-append : (t : ℕ) (d r : Bytes) → keep_end t (keep_end t d ++ r) ≡ keep_end t (d ++ r)
keep_end-append t d r =
    ap (drop (excess t (keep_end t d ++ r))) (kept_whole t d r)
    ∙ drop-drop (excess t (keep_end t d ++ r)) (excess t d) (d ++ r)
    ∙ ap (λ k. drop k (d ++ r)) (excess-append t d r)

push-kept :
    (h t : ℕ) (seen c : Bytes)
    → length seen + length c < usize_mod
    → push (kept h t seen) c ≡ kept h t (seen ++ c)
unfolding push
push-kept h t seen c fits = λ i. record {
  head_limit = h;
  tail_limit = t;
  head = head_eq i;
  tail = tail_eq i;
  dropped = dropped_eq i;
  taken = false;
}
  where
    room : ℕ
    room = h - length (take h seen)

    room_eq : room ≡ h - length seen
    room_eq = omega (arith, length-take h seen)

    rest : Bytes
    rest = drop (min room (length c)) c

    whole : drop h seen ++ rest ≡ drop h (seen ++ c)
    whole =
        ap (drop h seen ++◌) (drop-min room c ∙ ap (λ k. drop k c) room_eq)
        ∙ sym (drop-append h seen c)

    head_eq : take h seen ++ take (min room (length c)) c ≡ take h (seen ++ c)
    head_eq =
        ap (take h seen ++◌) (take-min room c ∙ ap (λ k. take k c) room_eq)
        ∙ sym (take-append h seen c)

    tail_eq : keep_end t (keep_end t (drop h seen) ++ rest) ≡ keep_end t (drop h (seen ++ c))
    tail_eq = keep_end-append t (drop h seen) rest ∙ ap (keep_end t) whole

    dropped_eq :
        wrapping_add (excess t (drop h seen)) (excess t (keep_end t (drop h seen) ++ rest))
        ≡ excess t (drop h (seen ++ c))
    dropped_eq = omega (
      arith,
      excess-append t (drop h seen) rest,
      length-drop h (seen ++ c),
      length-append seen c,
      ap (excess t) whole,
    )

push_all-kept :
    (h t : ℕ) (seen : Bytes) (cs : List Bytes)
    → length seen + length (concat cs) < usize_mod
    → push_all (kept h t seen) cs ≡ kept h t (seen ++ concat cs)
unfolding push_all
push_all-kept h t seen [] fits = ap (kept h t) (sym (append-nil seen))
push_all-kept h t seen (c ∷ cs) fits =
    ap (λ b. push_all b cs) (push-kept h t seen c (omega (arith, length-append c (concat cs))))
    ∙ push_all-kept h t (seen ++ c) cs
        (omega (arith, length-append seen c, length-append c (concat cs)))
    ∙ ap (kept h t) (append_assoc seen c (concat cs))

new-kept : (h t : ℕ) → new h t ≡ kept h t []
unfolding new
new-kept h t = λ i. record {
  head_limit = h;
  tail_limit = t;
  head = nothing i;
  tail = nothing_after i;
  dropped = none_dropped i;
  taken = false;
}
  where
    nothing : ◌≡◌ {A = Bytes} [] (take h [])
    nothing = sym (take_all h [] (omega arith))

    after : ◌≡◌ {A = Bytes} (drop h []) []
    after = drop_all h [] (omega arith)

    nothing_after : ◌≡◌ {A = Bytes} [] (keep_end t (drop h []))
    nothing_after = sym (ap (keep_end t) after ∙ drop_all (excess t []) [] (omega arith))

    none_dropped : 0 ≡ excess t (drop h [])
    none_dropped = omega (arith, length-drop {A = ℕ} h [])

-- However a stream shorter than 2 ^ 64 bytes was cut into chunks, the output taken is its start up
-- to the head limit, its end up to the tail limit, and the number of bytes between them; after
-- that the buffer keeps nothing more.
pub take_kept-push_all :
    (h t : ℕ) (cs : List Bytes) (late : Bytes)
    → length (concat cs) < usize_mod
    → ((take_kept (push_all (new h t) cs)).0 ≡ record {
      head = take h (concat cs);
      dropped = length (drop h (concat cs)) - t;
      tail = drop (length (drop h (concat cs)) - t) (drop h (concat cs));
    })
      × (push (take_kept (push_all (new h t) cs)).1 late ≡ (take_kept (push_all (new h t) cs)).1)
unfolding take_kept push
take_kept-push_all h t cs late fits = (
  ap (λ b. (take_kept b).0)
      (ap (λ b. push_all b cs) (new-kept h t) ∙ push_all-kept h t [] cs (omega arith)),
  refl,
)
