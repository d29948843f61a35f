-- ===== src/RedisQueue/Batches.antt =====
-- `bulk_move` of inengine-core/src/queue/driver/redis/mod.rs on a connection that does not fail:
-- whatever the size of the batches, it moves what one move of all would.
use in_engine_net.Prelude.{
  ℕ, zero, suc, ◌+◌, ◌-◌, ◌<◌, ◌≤◌, min, ltb, ◌≡◌, refl, sym, ap, ◌∙◌, inl, inr, true, false,
  Option, none, some, List, [], ◌∷◌, ◌++◌, Bytes, bytes_eq, Bool-cases, Result, ok, arith, reverse,
  reverse-reverse, length, take, drop, take-add, drop-drop, length-drop, take_all, drop_all,
}
use mathlib.Core.List.{append_assoc, append-nil}
use mathlib.Core.Path.{subst}
use in_engine_net.Error.{QueueError}
use in_engine_net.RedisQueue.Server.{
  Server, IsRedis, IsReliable, End, left, right, leaving, entering,
}
use in_engine_net.RedisQueue.Scripts.{bulk_move_script}
use in_engine_net.RedisQueue.Driver.{query, bulk_move, after_batch, bulk_move_batch_size}

-- The whole of `n` elements moved, each from the end of one list to the end of the other; the third
-- list is as it was.
module _ {S : Type 0} (r : Server S) (laws : IsRedis r) (source destination third : Bytes)
    (from to : End) (apart : bytes_eq source destination ≡ false)
    (source_third : bytes_eq source third ≡ false)
    (destination_third : bytes_eq destination third ≡ false) where
  pub record Lists (s : S) (out into other : List Bytes) : Type 0 where
    pub leaving_is : leaving from (r.list s source) ≡ out
    pub entering_is : entering to (r.list s destination) ≡ into
    pub third_is : r.list s third ≡ other

  Lists-lmove :
      (x : Bytes) (xs into other : List Bytes) (s : S)
      → Lists s (x ∷ xs) into other
      → ((r.lmove source destination from to s).0 ≡ some x)
        × Lists (r.lmove source destination from to s).1 xs (into ++ x ∷ []) other
  Lists-lmove x xs into other s h = (
    laws.lmove_reply source destination from to s x xs h.leaving_is,
    record {
      leaving_is = laws.lmove_source source destination from to s x xs apart h.leaving_is;
      entering_is =
          laws.lmove_destination source destination from to s x xs apart h.leaving_is
          ∙ ap (λ l. l ++ x ∷ []) h.entering_is;
      third_is =
          laws.list-lmove source destination from to s third source_third destination_third
          ∙ h.third_is;
    },
  )

  Lists-same :
      (out into other : List Bytes) (s s' : S)
      → ((j : Bytes) → r.list s' j ≡ r.list s j)
      → Lists s out into other
      → Lists s' out into other
  Lists-same out into other s s' same h = record {
    leaving_is = ap (leaving from) (same source) ∙ h.leaving_is;
    entering_is = ap (entering to) (same destination) ∙ h.entering_is;
    third_is = same third ∙ h.third_is;
  }

  empty_source : (e : End) (l : List Bytes) → leaving e l ≡ [] → l ≡ []
  empty_source left l h = h
  empty_source right l h = sym (reverse-reverse l) ∙ ap reverse h

  Lists-lmove_empty :
      (into other : List Bytes) (s : S)
      → Lists s [] into other
      → ((r.lmove source destination from to s).0 ≡ none)
        × Lists (r.lmove source destination from to s).1 [] into other
  Lists-lmove_empty into other s h =
      let e = empty_source from (r.list s source) h.leaving_is in
      (
        laws.lmove_empty source destination from to s e,
        Lists-same [] into other s _ (λ j. laws.list-lmove_empty source destination from to s j e)
            h,
      )

  abbrev Moved : ℕ → List Bytes → List Bytes → List Bytes → ℕ × S → ℕ → Type 0
  Moved n out into other p before =
      (p.0 ≡ before + min n (length out)) × Lists p.1 (drop n out) (into ++ take n out) other

  Moved-script :
      (n before : ℕ) (out into other : List Bytes) (s : S)
      → Lists s out into other
      → Moved n out into other (bulk_move_script r n before source destination from to s) before
  unfolding bulk_move_script
  Moved-script zero before out into other s h =
      (omega arith, subst (λ l. Lists s out l other) (sym (append-nil into)) h)
  Moved-script (suc n) before [] into other s h =
      let e = Lists-lmove_empty into other s h in
      rw (e.0, bulk_move_script)
        (
          omega arith,
          subst (λ l. Lists (r.lmove source destination from to s).1 [] l other)
              (sym (append-nil into)) e.1,
        )
  Moved-script (suc n) before (x ∷ xs) into other s h =
      let e = Lists-lmove x xs into other s h in
      let rest = Moved-script n (before + 1) xs (into ++ x ∷ []) other _ e.1 in
      rw (e.0, bulk_move_script)
        (
          omega (arith, rest.0),
          subst
              (λ l.
                Lists
                  (bulk_move_script r n (before + 1) source destination from to
                    (r.lmove source destination from to s).1).1
                  (drop n xs) l other)
              (append_assoc into (x ∷ []) (take n xs)) rest.1,
        )

  module _ (reliable : IsReliable r) where
    Moved-query :
        (n : ℕ) (out into other : List Bytes) (s : S)
        → Lists s out into other
        → ((query r (bulk_move_script r n 0 source destination from to) s).0
            ≡ ok (min n (length out)))
          × Lists
              (query r (bulk_move_script r n 0 source destination from to) s).1
              (drop n out)
              (into ++ take n out)
              other
    unfolding query
    Moved-query n out into other s h =
        let s0 = (r.connect s).1 in
        let moves =
          Moved-script n 0 out into other s0
            (Lists-same out into other s s0 (laws.list-connect s) h) in
        rw (reliable s) (ap ok (moves.0 ∙ omega arith), moves.1)

    abbrev Rest : Type 0
    Rest = ℕ → S → Option (Result QueueError ℕ) × S

    last_batch :
        (p : Result QueueError ℕ × S) (count batch moved : ℕ) (rest : Rest)
        → p.0 ≡ ok count
        → ltb count batch ≡ true
        → after_batch p batch moved rest ≡ (some (ok (moved + count)), p.1)
    last_batch p count batch moved rest e l = rw (e, l) refl

    more_batches :
        (p : Result QueueError ℕ × S) (count batch moved : ℕ) (rest : Rest)
        → p.0 ≡ ok count
        → ltb count batch ≡ false
        → after_batch p batch moved rest ≡ rest (moved + count) p.1
    more_batches p count batch moved rest e l = rw (e, l) refl

    abbrev pub Done :
        ℕ → ℕ → List Bytes → List Bytes → List Bytes → Option (Result QueueError ℕ) × S → Type 0
    Done moved left_to_move out into other p =
        (p.0 ≡ some (ok (moved + min left_to_move (length out))))
        × Lists p.1 (drop left_to_move out) (into ++ take left_to_move out) other

    stopped :
        (moved : ℕ) (out into other : List Bytes) (s : S) (k : ℕ)
        → k ≡ 0
        → Lists s out into other
        → Done moved k out into other (some (ok moved), s)
    stopped moved out into other s zero e h = (
      ap (λ (n : ℕ). some (ok n)) (omega arith),
      subst (λ l. Lists s out l other) (sym (append-nil into)) h,
    )
    stopped moved out into other s (suc k) e h = absurd (omega arith)

    all_moved :
        (moved n k : ℕ) (out into other : List Bytes) (s : S)
        → n ≤ k
        → length out < n
        → Lists s (drop n out) (into ++ take n out) other
        → Done moved k out into other (some (ok (moved + min n (length out))), s)
    all_moved moved n k out into other s le lt h = (
      ap (λ (c : ℕ). some (ok (moved + c))) (omega arith),
      subst (λ (l : List Bytes × List Bytes). Lists s l.0 (into ++ l.1) other)
          (λ i. (same_drop i, same_take i)) h,
    )
      where
        same_drop : drop n out ≡ drop k out
        same_drop = drop_all n out (omega arith) ∙ sym (drop_all k out (omega arith))

        same_take : take n out ≡ take k out
        same_take = take_all n out (omega arith) ∙ sym (take_all k out (omega arith))

    combined :
        (moved n m k c : ℕ) (out into other : List Bytes) (p : Option (Result QueueError ℕ) × S)
        → c ≡ n
        → n + m ≡ k
        → Done (moved + c) m (drop n out) (into ++ take n out) other p
        → n ≤ length out
        → Done moved k out into other p
    combined moved n m k c out into other p e t h le = (
      h.0 ∙ ap (λ (d : ℕ). some (ok d)) (omega (arith, length-drop n out)),
      subst (λ (l : List Bytes × List Bytes). Lists p.1 l.0 l.1 other)
          (λ i. (same_drop i, same_take i)) h.1,
    )
      where
        same_drop : drop m (drop n out) ≡ drop k out
        same_drop = drop-drop m n out ∙ ap (λ (d : ℕ). drop d out) t

        same_take : (into ++ take n out) ++ take m (drop n out) ≡ into ++ take k out
        same_take =
            append_assoc into (take n out) (take m (drop n out))
            ∙ ap (into ++◌) (sym (take-add n m out) ∙ ap (λ (d : ℕ). take d out) t)

    pub Done-bulk_move :
        (fuel limit moved : ℕ) (out into other : List Bytes) (s : S)
        → length out < fuel
        → Lists s out into other
        → Done moved
            (limit - moved)
            out
            into
            other
            (bulk_move r fuel source destination from to limit moved s)
    unfolding bulk_move
    Done-bulk_move zero limit moved out into other s b h = elim b [ ]
    Done-bulk_move (suc fuel) limit moved out into other s b h =
        elim (Bool-cases (ltb moved limit)) [
          | inr z ↦ rw z (stopped moved out into other s (limit - moved) (ground arith) h)
          | inl l ↦
              let batch = min (limit - moved) bulk_move_batch_size in
              let p = query r (bulk_move_script r batch 0 source destination from to) s in
              let q = Moved-query batch out into other s h in
              let rest = λ (moved' : ℕ) (s' : S).
                bulk_move r fuel source destination from to limit moved' s' in
              elim (Bool-cases (ltb (min batch (length out)) batch)) [
                | inl c ↦ rw l (
                    subst (Done moved (limit - moved) out into other)
                      (sym (last_batch p (min batch (length out)) batch moved rest q.0 c))
                      (all_moved moved batch (limit - moved) out into other p.1 (omega arith)
                        (ground arith) q.1))
                | inr c ↦ rw l (
                    subst (Done moved (limit - moved) out into other)
                      (sym (more_batches p (min batch (length out)) batch moved rest q.0 c))
                      (combined moved batch (limit - (moved + min batch (length out)))
                        (limit - moved) (min batch (length out)) out into other _ (ground arith)
                        (ground arith)
                        (Done-bulk_move fuel limit (moved + min batch (length out)) (drop batch out)
                          (into ++ take batch out) other p.1 (ground (arith, length-drop batch out))
                          q.1)
                        (ground arith)))
              ]
        ]
