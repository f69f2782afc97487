-- ===== src/Examples/Lru.antt =====
-- An `LruMap` as a list of its keys, the oldest first.
use zk_ress.Base.{
  ℕ, suc, ◌≤◌, ◌<◌, ◌≡◌, refl, true, false, List, [], ◌∷◌, ◌++◌, arith, leb, ◌==◌, if◌then◌else◌,
  Bool-cases, inl, inr, length, subst,
}
use zk_ress.Base.Sets.{mem, set_remove, mem-set_remove, length-set_remove-le}
use zk_ress.Buffer.Lru.{LruMap, IsLru, first, rest}

abbrev pub IsDistinct : List ℕ → Type 0
IsDistinct [] = Unit
IsDistinct (k ∷ ks) = (mem k ks ≡ false) × IsDistinct ks

pub record State : Type 0 where
  pub limit : ℕ
  pub keys : List ℕ
  pub distinct : IsDistinct keys

mem-snoc : (j k : ℕ) (ks : List ℕ) → mem j (ks ++ (k ∷ [])) ≡ (if k == j then true else mem j ks)
unfolding mem
mem-snoc j k [] = ground arith
mem-snoc j k (x ∷ ks) = ground (arith, mem-snoc j k ks)

pub IsDistinct-set_remove : (k : ℕ) (ks : List ℕ) → IsDistinct ks → IsDistinct (set_remove k ks)
unfolding set_remove
IsDistinct-set_remove k [] d = tt
IsDistinct-set_remove k (x ∷ ks) (fresh, d) = elim (Bool-cases (x == k)) [
  | inl same ↦ rw (same) (IsDistinct-set_remove k ks d)
  | inr other ↦ rw (other) (ground (arith, mem-set_remove x k ks), IsDistinct-set_remove k ks d)
]

pub IsDistinct-snoc :
    (k : ℕ) (ks : List ℕ) → mem k ks ≡ false → IsDistinct ks → IsDistinct (ks ++ (k ∷ []))
unfolding mem
IsDistinct-snoc k [] fresh d = (refl, tt)
IsDistinct-snoc k (x ∷ ks) fresh (apart, d) =
    (ground (arith, mem-snoc x k ks), IsDistinct-snoc k ks (ground arith) d)

length-set_remove :
    (k : ℕ) (ks : List ℕ)
    → IsDistinct ks
    → suc (length (set_remove k ks)) ≡ (if mem k ks then length ks else suc (length ks))
unfolding set_remove mem
length-set_remove k [] d = refl
length-set_remove k (x ∷ ks) (fresh, d) = elim (Bool-cases (x == k)) [
  | inl same ↦ ground (arith, length-set_remove k ks d)
  | inr other ↦ ground (arith, length-set_remove k ks d)
]

length-snoc : (k : ℕ) (ks : List ℕ) → length (ks ++ (k ∷ [])) ≡ suc (length ks)
length-snoc k [] = refl
length-snoc k (x ∷ ks) = omega (arith, length-snoc k ks)

pub mem_self : (k : ℕ) (ks : List ℕ) → mem k (set_remove k ks) ≡ false
mem_self k ks = ground (arith, mem-set_remove k k ks)

pub IsDistinct-rest : (ks : List ℕ) → IsDistinct ks → IsDistinct (rest ks)
IsDistinct-rest [] d = tt
IsDistinct-rest (k ∷ ks) d = d.1

-- The key becomes the newest. A new key in a full map drives the oldest out.
unfoldable pub room_for : ℕ → State → List ℕ
room_for k s =
    if mem k s.keys then s.keys else if leb s.limit (length s.keys) then rest s.keys else s.keys

pub IsDistinct-room_for : (k : ℕ) (s : State) → IsDistinct (room_for k s)
unfolding room_for
IsDistinct-room_for k s = elim (Bool-cases (mem k s.keys)) [
  | inl there ↦ rw (there) s.distinct
  | inr new ↦ elim (Bool-cases (leb s.limit (length s.keys))) [
    | inl full ↦ rw (new, full) (IsDistinct-rest s.keys s.distinct)
    | inr room ↦ rw (new, room) s.distinct
  ]
]

abbrev pub touch : ℕ → State → State
touch k s = record {
  limit = s.limit;
  keys = set_remove k (room_for k s) ++ (k ∷ []);
  distinct =
      IsDistinct-snoc k (set_remove k (room_for k s)) (mem_self k (room_for k s))
        (IsDistinct-set_remove k (room_for k s) (IsDistinct-room_for k s));
}

abbrev pub list_lru : LruMap
list_lru = record {
  State = State;
  new = λ limit. record { limit = limit; keys = []; distinct = tt };
  keys = λ s. s.keys;
  peek = λ k s. mem k s.keys;
  len = λ s. length s.keys;
  max_length = λ s. s.limit;
  pop_oldest = λ s. (
    record { limit = s.limit; keys = rest s.keys; distinct = IsDistinct-rest s.keys s.distinct },
    first s.keys,
  );
  get_or_insert = touch;
  remove = λ k s. record {
    limit = s.limit;
    keys = set_remove k s.keys;
    distinct = IsDistinct-set_remove k s.keys s.distinct;
  };
}

-- Apart from `k`, making room for it changes nothing while there is room.
mem-touch :
    (k j : ℕ) (s : State)
    → length s.keys < s.limit
    → mem j (touch k s).keys ≡ (if k == j then true else mem j s.keys)
unfolding room_for
mem-touch k j s room = ground (arith, mem-snoc j k (set_remove k s.keys), mem-set_remove j k s.keys)

mem-touch_present :
    (k j : ℕ) (s : State) → mem k s.keys ≡ true → mem j (touch k s).keys ≡ mem j s.keys
unfolding room_for
mem-touch_present k j s there = elim (Bool-cases (k == j)) [
  | inl same ↦ rw (there, mem-snoc j k (set_remove k s.keys), same) (ground arith)
  | inr other ↦ rw (there, mem-snoc j k (set_remove k s.keys), mem-set_remove j k s.keys, other)
]

length-touch_present :
    (k : ℕ) (s : State) → mem k s.keys ≡ true → length (touch k s).keys ≡ length s.keys
unfolding room_for
length-touch_present k s there =
    rw (there)
      (ground (arith, length-snoc k (set_remove k s.keys), length-set_remove k s.keys s.distinct))

length-touch :
    (k : ℕ) (s : State) → length s.keys < s.limit → length (touch k s).keys ≤ suc (length s.keys)
unfolding room_for
length-touch k s room =
    ground (arith, length-snoc k (set_remove k s.keys), length-set_remove-le k s.keys)

distinct_keys :
    (ks : List ℕ) (k : ℕ) (rest_of : List ℕ)
    → IsDistinct ks
    → ks ≡ k ∷ rest_of
    → mem k rest_of ≡ false
distinct_keys ks k rest_of d e = (subst IsDistinct e d).0

pub list_lru-IsLru : IsLru list_lru
unfolding mem set_remove
list_lru-IsLru = record {
  keys-new = λ limit. refl;
  max_length-new = λ limit. refl;
  peek_keys = λ k s. refl;
  len_keys = λ s. refl;
  pop_oldest_first = λ s. refl;
  keys-pop_oldest = λ s. refl;
  keys-get_or_insert = mem-touch;
  keys_touch = mem-touch_present;
  keys-remove = λ k j s. mem-set_remove j k s.keys;
  keys_distinct = λ s k ks. distinct_keys s.keys k ks s.distinct;
  length-get_or_insert = length-touch;
  length_touch = length-touch_present;
  length-remove-le = λ k s. length-set_remove-le k s.keys;
  max_length-pop_oldest = λ s. refl;
  max_length-get_or_insert = λ k s. refl;
  max_length-remove = λ k s. refl;
}
