-- ===== src/RedisQueue/Sample.antt =====
-- A Redis server as a function from keys to lists, on a connection that does not fail. It shows
-- that what the driver relies on can hold.
use in_engine_net.Prelude.{
  ◌+◌, ◌-◌, ◌≡◌, refl, ap, ◌∙◌, false, Option, none, some, List, [], ◌∷◌, ◌++◌, Bytes, bytes_eq,
  bytes_eq_refl, bytes_eq→eq, Bool-cases, inl, inr, reverse, reverse-reverse, length, take, drop,
  if◌then◌else◌,
}
use in_engine_net.RedisQueue.Server.{
  End, left, right, Server, IsRedis, delivered, leaving, entering, contains, remove_first,
}

abbrev pub Lists : Type 0
Lists = Bytes → List Bytes

abbrev restored : End → List Bytes → List Bytes
restored left l = l
restored right l = reverse l

abbrev added : End → Bytes → List Bytes → List Bytes
added left x l = x ∷ l
added right x l = l ++ x ∷ []

abbrev set : Bytes → List Bytes → Lists → Lists
set k l s j = if bytes_eq k j then l else s j

abbrev moved : Bytes → Bytes → End → End → List Bytes → Lists → Option Bytes × Lists
moved k d from to [] s = (none, s)
moved k d from to (x ∷ xs) s = (some x, set k (restored from xs) (set d (added to x (s d)) s))

abbrev lmove : Bytes → Bytes → End → End → Lists → Option Bytes × Lists
lmove k d from to s = moved k d from to (leaving from (s k)) s

abbrev pub server : Server Lists
server = record {
  list = λ s k. s k;
  connect = λ s. (delivered, s);
  lpush = λ k v s. set k (v ∷ s k) s;
  lrem = λ k v s. ((if contains v (s k) then 1 else 0), set k (remove_first v (s k)) s);
  lmove = lmove;
  blmove = λ k d from to wait s. lmove k d from to s;
  llen = λ k s. length (s k);
  del = λ k s. set k [] s;
  lrange = λ k first last s. reverse (take (first + 1 - last) (drop (last - 1) (reverse (s k))));
}

same_key :
    (f : List Bytes → List Bytes) (k j : Bytes) (s : Lists)
    → (if bytes_eq k j then f (s k) else s j) ≡ (if bytes_eq k j then f (s j) else s j)
same_key f k j s = elim (Bool-cases (bytes_eq k j)) [
  | inl e ↦ rw e (ap (λ i. f (s i)) (bytes_eq→eq k j e))
  | inr e ↦ rw e refl
]

moved_other :
    (k d : Bytes) (from to : End) (l : List Bytes) (s : Lists) (j : Bytes)
    → bytes_eq k j ≡ false
    → bytes_eq d j ≡ false
    → (moved k d from to l s).1 j ≡ s j
moved_other k d from to [] s j a b = refl
moved_other k d from to (x ∷ xs) s j a b = rw (a, b) refl

leaving-restored : (e : End) (l : List Bytes) → leaving e (restored e l) ≡ l
leaving-restored left l = refl
leaving-restored right l = reverse-reverse l

entering-added :
    (e : End) (x : Bytes) (l : List Bytes) → entering e (added e x l) ≡ entering e l ++ x ∷ []
entering-added left x l = refl
entering-added right x l = refl

pub server-IsRedis : IsRedis server
server-IsRedis = record {
  list-connect = λ s k. refl;
  list-lpush = λ k v j s. same_key (◌∷◌ v) k j s;
  lrem_reply = λ k v s. refl;
  list-lrem = λ k v j s. same_key (remove_first v) k j s;
  lmove_empty = lmove_empty;
  list-lmove_empty = list-lmove_empty;
  lmove_reply = λ k d from to s x xs h. ap (λ l. (moved k d from to l s).0) h;
  lmove_source = lmove_source;
  lmove_destination = lmove_destination;
  list-lmove = list-lmove;
  blmove-lmove = λ k d from to wait s x xs h. refl;
  blmove_empty = λ k d from to wait s p h. lmove_empty k d from to s h;
  list-blmove_empty = λ k d from to wait s j p h. list-lmove_empty k d from to s j h;
  llen_reply = λ k s. refl;
  list-del = λ k j s. refl;
  lrange_reply = λ k first last s. reverse-reverse _;
}
  where
    at_empty : (from : End) (l : List Bytes) → l ≡ [] → leaving from l ≡ []
    at_empty left l h = h
    at_empty right l h = ap reverse h

    lmove_empty :
        (k d : Bytes) (from to : End) (s : Lists) → s k ≡ [] → (lmove k d from to s).0 ≡ none
    lmove_empty k d from to s h = ap (λ l. (moved k d from to l s).0) (at_empty from (s k) h)

    list-lmove_empty :
        (k d : Bytes) (from to : End) (s : Lists) (j : Bytes)
        → s k ≡ []
        → (lmove k d from to s).1 j ≡ s j
    list-lmove_empty k d from to s j h =
        ap (λ l. (moved k d from to l s).1 j) (at_empty from (s k) h)

    lmove_source :
        (k d : Bytes) (from to : End) (s : Lists) (x : Bytes) (xs : List Bytes)
        → bytes_eq k d ≡ false
        → leaving from (s k) ≡ x ∷ xs
        → leaving from ((lmove k d from to s).1 k) ≡ xs
    lmove_source k d from to s x xs a h =
        ap (λ l. leaving from ((moved k d from to l s).1 k)) h
        ∙ rw (bytes_eq_refl k) (leaving-restored from xs)

    lmove_destination :
        (k d : Bytes) (from to : End) (s : Lists) (x : Bytes) (xs : List Bytes)
        → bytes_eq k d ≡ false
        → leaving from (s k) ≡ x ∷ xs
        → entering to ((lmove k d from to s).1 d) ≡ entering to (s d) ++ x ∷ []
    lmove_destination k d from to s x xs a h =
        ap (λ l. entering to ((moved k d from to l s).1 d)) h
        ∙ rw (a, bytes_eq_refl d) (entering-added to x (s d))

    list-lmove :
        (k d : Bytes) (from to : End) (s : Lists) (j : Bytes)
        → bytes_eq k j ≡ false
        → bytes_eq d j ≡ false
        → (lmove k d from to s).1 j ≡ s j
    list-lmove k d from to s j a b = moved_other k d from to (leaving from (s k)) s j a b
