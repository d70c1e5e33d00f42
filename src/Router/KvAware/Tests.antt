-- ===== src/Router/KvAware/Tests.antt =====
-- Runs of the trie and of the router over it.
use riftgate.Base.{ℕ, ◌≡◌, refl, none, some, [], ◌∷◌, length, arith}
use riftgate.Core.Request.{Bytes, Request, get, bytes}
use riftgate.Core.Router.{BackendPool, BackendSignals}
use riftgate.Router.KvAware.{
  KvAwareConfig, KvState, PrefixTrie, node, leaf, child, at_path, longest_match,
}
use riftgate.Router.KvAware.Trie.{longest_prefix, longest_match-longest_prefix}
use riftgate.Router.KvAware.Insert.{IsTrie, size}

-- The path 5 bears backend 1, the path 5, 6 backend 2.
abbrev two_paths : PrefixTrie
two_paths = record {
  root = node none (child 5 (node (some 1) (child 6 (node (some 2) leaf) leaf)) leaf);
  count = 2;
  cap = 3;
}

two_paths-IsTrie : IsTrie two_paths
unfolding size
two_paths-IsTrie = record { counted = refl; capped = omega arith }

longest_match-longest_prefix_example :
    longest_match two_paths (5 ∷ 7 ∷ [])
    ≡ longest_prefix (λ ks. at_path ks two_paths.root) (5 ∷ 7 ∷ [])
longest_match-longest_prefix_example = longest_match-longest_prefix two_paths (5 ∷ 7 ∷ [])

abbrev config : KvAwareConfig
config = record { prefix_chunk_bytes = 2; max_trie_entries = 10; min_prefix_bytes_to_route = 3 }

-- A hash that tells bodies apart by their length.
abbrev by_length : Bytes → ℕ
by_length body = length body

abbrev long_request : Request
long_request = record {
  id = 1;
  method = get;
  path = [];
  headers = record { entries = [] };
  body = bytes (10 ∷ 20 ∷ 30 ∷ []);
}

abbrev new_state : KvState
new_state = record {
  trie = record { root = node none leaf; count = 0; cap = 10 };
  hits = 0;
  misses = 0;
  breaker_rejections = 0;
}

abbrev pool : BackendPool
pool = record { backends = 4 ∷ [] }

abbrev signals : BackendSignals
signals = record { signals = [] }
