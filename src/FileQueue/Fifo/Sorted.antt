-- ===== src/FileQueue/Fifo/Sorted.antt =====
-- Messages sorted by distinct names: the list is in strict order, a message after all others goes
-- to its end, and taking the first name away leaves the rest.
use in_engine_net.Prelude.{
  ◌≡◌, refl, sym, ap, ◌∙◌, inl, inr, true, false, List, [], ◌∷◌, ◌++◌, Bytes, bytes_eq, bytes_lt,
  bytes_lt_trans, bytes_lt_total, bytes_lt_asymm, if◌then◌else◌, Bool-cases,
}
use in_engine_net.Std.Sort.{sort, insert_sorted, All, All-map, All-insert_sorted, All-sort}
use in_engine_net.FileQueue.Fifo.{Message, before, names}

abbrev pub Absent : Bytes → List Message → Type 0
Absent n ms = All (λ m. bytes_eq m.0 n ≡ false) ms

abbrev pub AllBefore : Bytes → List Message → Type 0
AllBefore n ms = All (λ m. bytes_lt m.0 n ≡ true) ms

abbrev pub AllAfter : Bytes → List Message → Type 0
AllAfter n ms = All (λ m. bytes_lt n m.0 ≡ true) ms

abbrev pub IsStrict : List Message → Type 0
IsStrict [] = Unit
IsStrict (m ∷ ms) = AllAfter m.0 ms × IsStrict ms

abbrev pub AreDistinct : List Message → Type 0
AreDistinct [] = Unit
AreDistinct (m ∷ ms) = Absent m.0 ms × AreDistinct ms

abbrev pub remove : Bytes → List Message → List Message
remove n [] = []
remove n (m ∷ ms) = if bytes_eq m.0 n then remove n ms else m ∷ remove n ms

All-remove : (P : Message → Type 0) (n : Bytes) (ms : List Message) → All P ms → All P (remove n ms)
All-remove P n [] h = tt
All-remove P n (m ∷ ms) h = elim (Bool-cases (bytes_eq m.0 n)) [
  | inl e ↦ rw e (All-remove P n ms h.1)
  | inr e ↦ rw e (h.0, All-remove P n ms h.1)
]

pub remove-Absent : (n : Bytes) (ms : List Message) → Absent n ms → remove n ms ≡ ms
remove-Absent n [] h = refl
remove-Absent n (m ∷ ms) h = rw (h.0) (ap (◌∷◌ m) (remove-Absent n ms h.1))

AllAfter-trans :
    (a b : Bytes) (ms : List Message) → bytes_lt a b ≡ true → AllAfter b ms → AllAfter a ms
AllAfter-trans a b ms h k =
    All-map (λ m. bytes_lt b m.0 ≡ true) (λ m. bytes_lt a m.0 ≡ true) ms
      (λ m l. bytes_lt_trans a b m.0 h l) k

insert_sorted-IsStrict :
    (a : Message) (ms : List Message)
    → IsStrict ms
    → Absent a.0 ms
    → IsStrict (insert_sorted before a ms)
unfolding insert_sorted
insert_sorted-IsStrict a [] s h = (tt, tt)
insert_sorted-IsStrict a (m ∷ ms) s h = elim (Bool-cases (bytes_lt m.0 a.0)) [
  | inl e ↦ rw e (
    All-insert_sorted before (λ x. bytes_lt m.0 x.0 ≡ true) a ms e s.0,
    insert_sorted-IsStrict a ms s.1 h.1,
  )
  | inr e ↦ let l = bytes_lt_total m.0 a.0 e h.0 in rw e ((l, AllAfter-trans a.0 m.0 ms l s.0), s)
]

pub sort-IsStrict : (ms : List Message) → AreDistinct ms → IsStrict (sort before ms)
unfolding sort
sort-IsStrict [] h = tt
sort-IsStrict (m ∷ ms) h =
    insert_sorted-IsStrict m (sort before ms) (sort-IsStrict ms h.1)
      (All-sort before (λ x. bytes_eq x.0 m.0 ≡ false) ms h.0)

pub insert_sorted-last :
    (a : Message) (ms : List Message) → AllBefore a.0 ms → insert_sorted before a ms ≡ ms ++ a ∷ []
unfolding insert_sorted
insert_sorted-last a [] h = refl
insert_sorted-last a (m ∷ ms) h = rw (h.0) (ap (◌∷◌ m) (insert_sorted-last a ms h.1))

insert_sorted-first :
    (a : Message) (ms : List Message) → AllAfter a.0 ms → insert_sorted before a ms ≡ a ∷ ms
unfolding insert_sorted
insert_sorted-first a [] h = refl
insert_sorted-first a (m ∷ ms) h = rw (bytes_lt_asymm a.0 m.0 h.0) refl

remove-insert_sorted_self :
    (n : Bytes) (a : Message) (ms : List Message)
    → bytes_eq a.0 n ≡ true
    → remove n (insert_sorted before a ms) ≡ remove n ms
unfolding insert_sorted
remove-insert_sorted_self n a [] h = rw h refl
remove-insert_sorted_self n a (m ∷ ms) h = elim (Bool-cases (bytes_lt m.0 a.0)) [
  | inl e ↦
      rw e (ap (λ r. if bytes_eq m.0 n then r else m ∷ r) (remove-insert_sorted_self n a ms h))
  | inr e ↦ rw (e, h) refl
]

remove-insert_sorted :
    (n : Bytes) (a : Message) (ms : List Message)
    → bytes_eq a.0 n ≡ false
    → Absent a.0 ms
    → IsStrict ms
    → remove n (insert_sorted before a ms) ≡ insert_sorted before a (remove n ms)
unfolding insert_sorted
remove-insert_sorted n a [] h k s = rw h refl
remove-insert_sorted n a (m ∷ ms) h k s = elim (Bool-cases (bytes_lt m.0 a.0)) [
  | inl e ↦ elim (Bool-cases (bytes_eq m.0 n)) [
    | inl g ↦ rw (e, g) (remove-insert_sorted n a ms h k.1 s.1)
    | inr g ↦ rw (e, g) (rw e (ap (◌∷◌ m) (remove-insert_sorted n a ms h k.1 s.1)))
  ]
  | inr e ↦ elim (Bool-cases (bytes_eq m.0 n)) [
    | inl g ↦ rw (e, h, g) (sym (insert_sorted-first a (remove n ms) (later e)))
    | inr g ↦ rw (e, h, g) (rw e refl)
  ]
]
  where
    later : bytes_lt m.0 a.0 ≡ false → AllAfter a.0 (remove n ms)
    later e =
        All-remove (λ m. bytes_lt a.0 m.0 ≡ true) n ms
          (AllAfter-trans a.0 m.0 ms (bytes_lt_total m.0 a.0 e k.0) s.0)

pub remove-sort :
    (n : Bytes) (ms : List Message)
    → AreDistinct ms
    → remove n (sort before ms) ≡ sort before (remove n ms)
unfolding sort
remove-sort n [] h = refl
remove-sort n (m ∷ ms) h = elim (Bool-cases (bytes_eq m.0 n)) [
  | inl e ↦ rw e (remove-insert_sorted_self n m (sort before ms) e ∙ remove-sort n ms h.1)
  | inr e ↦ rw e (
      remove-insert_sorted n m (sort before ms) e
        (All-sort before (λ x. bytes_eq x.0 m.0 ≡ false) ms h.0) (sort-IsStrict ms h.1)
      ∙ ap (insert_sorted before m) (remove-sort n ms h.1))
]

map-insert_sorted :
    (a : Message) (ms : List Message)
    → names (insert_sorted before a ms) ≡ insert_sorted bytes_lt a.0 (names ms)
unfolding insert_sorted
map-insert_sorted a [] = refl
map-insert_sorted a (m ∷ ms) = elim (Bool-cases (bytes_lt m.0 a.0)) [
  | inl e ↦ rw e (ap (◌∷◌ m.0) (map-insert_sorted a ms))
  | inr e ↦ rw e refl
]

pub names-sort : (ms : List Message) → names (sort before ms) ≡ sort bytes_lt (names ms)
unfolding sort
names-sort [] = refl
names-sort (m ∷ ms) =
    map-insert_sorted m (sort before ms) ∙ ap (insert_sorted bytes_lt m.0) (names-sort ms)
