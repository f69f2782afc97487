-- ===== src/Buffer/Pops.antt =====
-- crates/engine/src/tree/block_buffer.rs: what the loop of `evict_old_blocks` pops from the index by number.
use zk_ress.Base.{ℕ, ◌≤◌, ◌<◌, ◌≡◌, refl, true, List, [], ◌∷◌, arith}
use zk_ress.Base.Sets.{mem, mem-append}
use zk_ress.Base.Maps.{Map, lookup, IsSorted, at, lookup_below}
use zk_ress.Buffer.{pop_until}

-- The popped hashes are those listed under a number up to `n`; the rest of the map stays.
pub pop_until-popped :
    (n k h : ℕ) (m : Map (List ℕ))
    → IsSorted m
    → k ≤ n
    → mem h (at k m) ≡ true
    → mem h (pop_until n m).0 ≡ true
unfolding pop_until lookup mem
pop_until-popped n k h [] v le e = cc
pop_until-popped n k h ((j, hs) ∷ m) v le e = ground (
  arith,
  pop_until-popped n k h m v.1 le,
  mem-append h hs (pop_until n m).0,
  lookup_below j k m v.0,
)

pub pop_until-left :
    (n k : ℕ) (m : Map (List ℕ)) → IsSorted m → n < k → lookup k (pop_until n m).1 ≡ lookup k m
unfolding pop_until lookup
pop_until-left n k [] v lt = refl
pop_until-left n k ((j, hs) ∷ m) v lt = ground (arith, pop_until-left n k m v.1 lt)

pub pop_until-IsSorted : (n : ℕ) (m : Map (List ℕ)) → IsSorted m → IsSorted (pop_until n m).1
unfolding pop_until
pop_until-IsSorted n [] v = tt
pop_until-IsSorted n ((j, hs) ∷ m) v = ground (arith, v, pop_until-IsSorted n m v.1)
