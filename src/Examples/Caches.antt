-- ===== src/Examples/Caches.antt =====
-- Walks over a cache of invalid headers.
use zk_ress.Base.{ℕ, none, some, Option, [], ◌∷◌, ◌==◌, if◌then◌else◌, arith}
use zk_ress.Base.Sets.{mem}
use zk_ress.Env.{Env, BlockWithParent}
use zk_ress.Examples.Samples.{sample_env, two_provider}
use zk_ress.Examples.Trees.{sample_tree}
use zk_ress.Tree.{EngineTree}
use zk_ress.Tree.Invalid.{latest_valid_hash_for_invalid_payload}
use zk_ress.Tree.Invalid.Walk.{Falls, HasKeys, Finds, StoredIf, latest_valid_hash_lem}

abbrev entry : ℕ → ℕ → BlockWithParent
entry parent number = record { parent = parent; block = record { number = number; hash = 0 } }

-- Blocks 14 and 13 are cached as invalid; the parent of 13 is stored.
abbrev two_invalid : ℕ → Option BlockWithParent
two_invalid h = if h == 14 then some (entry 13 4) else (if h == 13 then some (entry 12 3) else none)

abbrev cached_env : Env
cached_env = record sample_env { cache_get = λ hash cache. (tt, two_invalid hash) }

abbrev cached_tree : EngineTree cached_env
cached_tree = record {
  provider = two_provider;
  canonical_head = sample_tree.canonical_head;
  forkchoice_state_tracker = none;
  block_buffer = sample_tree.block_buffer;
  invalid_headers = tt;
  events = [];
}

cached_tree-Falls : Falls cached_env (λ h. h) tt
cached_tree-Falls h b e = ground arith

cached_tree-HasKeys : HasKeys cached_env (13 ∷ 14 ∷ []) tt
unfolding mem
cached_tree-HasKeys h b e = ground arith

latest_valid_hash_lem_example :
    Finds 14 cached_tree (latest_valid_hash_for_invalid_payload 14 cached_tree)
    × StoredIf cached_tree (latest_valid_hash_for_invalid_payload 14 cached_tree).1
latest_valid_hash_lem_example =
    latest_valid_hash_lem (13 ∷ 14 ∷ []) (λ h. h) 14 cached_tree (λ cache h k b found. found)
      cached_tree-HasKeys (omega arith) cached_tree-Falls
