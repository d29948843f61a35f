-- ===== src/RedisQueue/Server.antt =====
-- The Redis server and the connection to it, which inengine-core/src/queue/driver/redis calls and
-- which are parameters here: the list commands that the driver sends, and what Redis documents of
-- them for one client on keys that hold lists.
use Prim.Native.String.{String}
use in_engine_net.Prelude.{
  ℕ, ◌+◌, ◌-◌, ◌<◌, ◌≡◌, Bool, true, false, Option, none, some, List, [], ◌∷◌, ◌++◌, Bytes,
  bytes_eq, if◌then◌else◌, length, take, drop, reverse,
}

-- The end of a list that LMOVE takes from or adds to.
pub data End : Type 0 where
  left : End
  right : End

-- What becomes of one request: the server runs it and the reply arrives, or the request does not
-- arrive, or the reply does not.
pub data Fate : Type 0 where
  delivered : Fate
  not_sent : String → Fate
  reply_lost : String → Fate

pub record Server (S : Type 0) : Type 0 where
  pub list : S → Bytes → List Bytes
  pub connect : S → Fate × S
  pub lpush : Bytes → Bytes → S → S
  -- `LREM key 1 element`
  pub lrem : Bytes → Bytes → S → ℕ × S
  pub lmove : Bytes → Bytes → End → End → S → Option Bytes × S
  pub blmove : Bytes → Bytes → End → End → ℕ → S → Option Bytes × S
  pub llen : Bytes → S → ℕ
  pub del : Bytes → S → S
  -- `LRANGE key -first -last`: both positions count from the right end, which is 1.
  pub lrange : Bytes → ℕ → ℕ → S → List Bytes

-- The elements in the order in which they leave by an end.
abbrev pub leaving : End → List Bytes → List Bytes
leaving left l = l
leaving right l = reverse l

-- The elements in an order in which one that is added at an end comes last.
abbrev pub entering : End → List Bytes → List Bytes
entering left l = reverse l
entering right l = l

-- Whether LREM finds the element, and the list without its first occurrence.
abbrev pub contains : Bytes → List Bytes → Bool
contains v [] = false
contains v (x ∷ xs) = if bytes_eq x v then true else contains v xs

abbrev pub remove_first : Bytes → List Bytes → List Bytes
remove_first v [] = []
remove_first v (x ∷ xs) = if bytes_eq x v then xs else x ∷ remove_first v xs

pub record IsRedis {S : Type 0} (r : Server S) : Type 0 where
  pub list-connect : (s : S) (k : Bytes) → r.list (r.connect s).1 k ≡ r.list s k
  pub list-lpush :
      (k v j : Bytes) (s : S)
      → r.list (r.lpush k v s) j ≡ (if bytes_eq k j then v ∷ r.list s j else r.list s j)
  pub lrem_reply :
      (k v : Bytes) (s : S) → (r.lrem k v s).0 ≡ (if contains v (r.list s k) then 1 else 0)
  pub list-lrem :
      (k v j : Bytes) (s : S)
      → r.list (r.lrem k v s).1 j
        ≡ (if bytes_eq k j then remove_first v (r.list s j) else r.list s j)
  pub lmove_empty :
      (k d : Bytes) (from to : End) (s : S) → r.list s k ≡ [] → (r.lmove k d from to s).0 ≡ none
  pub list-lmove_empty :
      (k d : Bytes) (from to : End) (s : S) (j : Bytes)
      → r.list s k ≡ []
      → r.list (r.lmove k d from to s).1 j ≡ r.list s j
  -- With an element, between two keys.
  pub lmove_reply :
      (k d : Bytes) (from to : End) (s : S) (x : Bytes) (xs : List Bytes)
      → leaving from (r.list s k) ≡ x ∷ xs
      → (r.lmove k d from to s).0 ≡ some x
  pub lmove_source :
      (k d : Bytes) (from to : End) (s : S) (x : Bytes) (xs : List Bytes)
      → bytes_eq k d ≡ false
      → leaving from (r.list s k) ≡ x ∷ xs
      → leaving from (r.list (r.lmove k d from to s).1 k) ≡ xs
  pub lmove_destination :
      (k d : Bytes) (from to : End) (s : S) (x : Bytes) (xs : List Bytes)
      → bytes_eq k d ≡ false
      → leaving from (r.list s k) ≡ x ∷ xs
      → entering to (r.list (r.lmove k d from to s).1 d) ≡ entering to (r.list s d) ++ x ∷ []
  pub list-lmove :
      (k d : Bytes) (from to : End) (s : S) (j : Bytes)
      → bytes_eq k j ≡ false
      → bytes_eq d j ≡ false
      → r.list (r.lmove k d from to s).1 j ≡ r.list s j
  -- BLMOVE waits only for an empty list, and with no other client it waits in vain. A timeout of 0
  -- is to wait for ever, so what a call with it gives on an empty list is left open.
  pub blmove-lmove :
      (k d : Bytes) (from to : End) (wait : ℕ) (s : S) (x : Bytes) (xs : List Bytes)
      → leaving from (r.list s k) ≡ x ∷ xs
      → r.blmove k d from to wait s ≡ r.lmove k d from to s
  pub blmove_empty :
      (k d : Bytes) (from to : End) (wait : ℕ) (s : S)
      → 0 < wait
      → r.list s k ≡ []
      → (r.blmove k d from to wait s).0 ≡ none
  pub list-blmove_empty :
      (k d : Bytes) (from to : End) (wait : ℕ) (s : S) (j : Bytes)
      → 0 < wait
      → r.list s k ≡ []
      → r.list (r.blmove k d from to wait s).1 j ≡ r.list s j
  pub llen_reply : (k : Bytes) (s : S) → r.llen k s ≡ length (r.list s k)
  pub list-del :
      (k j : Bytes) (s : S) → r.list (r.del k s) j ≡ (if bytes_eq k j then [] else r.list s j)
  pub lrange_reply :
      (k : Bytes) (first last : ℕ) (s : S)
      → reverse (r.lrange k first last s)
        ≡ take (first + 1 - last) (drop (last - 1) (reverse (r.list s k)))

-- Every request arrives and is answered.
abbrev pub IsReliable : {S : Type 0} → Server S → Type 0
IsReliable {S} r = (s : S) → (r.connect s).0 ≡ delivered
