-- ===== src/Router/KvAware.antt =====
-- crates/riftgate-router/src/kv_aware.rs: the prefix trie and the router that learns from it.
mod Tests
pub mod Trie
pub mod Insert
pub mod Affinity
use riftgate.Base.{
  ℕ, zero, suc, ◌+◌, ◌%◌, ◌^◌, max, Bool, true, false, Option, none, some, List, [], ◌∷◌, map, ltb,
  leb, ◌==◌, if◌then◌else◌, length, take, drop,
}
use riftgate.Core.Request.{Bytes, Request, Body, body_bytes}
use riftgate.Core.Router.{
  Router, BackendId, BackendPool, BackendSignal, BackendSignals, CircuitState, closed, opened,
  half_open, RoutingDecision, send, hedge, reject, Outcome, get_signal,
}

pub record KvAwareConfig : Type 0 where
  pub prefix_chunk_bytes : ℕ
  pub max_trie_entries : ℕ
  pub min_prefix_bytes_to_route : ℕ

abbrev pub default_config : KvAwareConfig
default_config = record {
  prefix_chunk_bytes = 64;
  max_trie_entries = 100000;
  min_prefix_bytes_to_route = 256;
}

-- A node, and its children as an association list of hashes.
mutual
  pub data TrieNode : Type 0 where
    node : Option BackendId → Children → TrieNode

  pub data Children : Type 0 where
    leaf : Children
    child : ℕ → TrieNode → Children → Children

abbrev pub empty_node : TrieNode
empty_node = node none leaf

abbrev pub backend_of : TrieNode → Option BackendId
backend_of (node b c) = b

abbrev pub children_of : TrieNode → Children
children_of (node b c) = c

pub record PrefixTrie : Type 0 where
  pub root : TrieNode
  pub count : ℕ
  pub cap : ℕ

pub new_trie : ℕ → PrefixTrie
new_trie cap = record { root = empty_node; count = 0; cap = cap }

-- `children.get(&h)`.
pub get_child : ℕ → Children → Option TrieNode
get_child h leaf = none
get_child h (child k n rest) = if k == h then some n else get_child h rest

abbrev pub or_default : Option TrieNode → TrieNode
or_default none = empty_node
or_default (some n) = n

pub put_child : ℕ → TrieNode → Children → Children
put_child h n leaf = child h n leaf
put_child h n (child k m rest) = if k == h then child k n rest else child k m (put_child h n rest)

-- The walk that creates missing nodes and sets the backend at its end.
pub insert_at : List ℕ → BackendId → TrieNode → TrieNode
unfolding get_child put_child
insert_at [] b (node old c) = node (some b) c
insert_at (h ∷ hs) b (node old c) =
    node old (put_child h (insert_at hs b (or_default (get_child h c))) c)

-- The backend at the end of a path, if the path exists and bears one.
pub at_path : List ℕ → TrieNode → Option BackendId
unfolding get_child
at_path [] (node b c) = b
at_path (h ∷ hs) (node b c) = at_path hs (or_default (get_child h c))

abbrev pub is_none : Option BackendId → Bool
is_none none = true
is_none (some b) = false

abbrev pub flushed : PrefixTrie → PrefixTrie
flushed t = if leb t.cap t.count then record t { root = empty_node; count = 0 } else t

pub insert : PrefixTrie → List ℕ → BackendId → PrefixTrie
unfolding insert_at at_path
insert t [] b = t
insert t (h ∷ hs) b =
    let t' = flushed t in
    record t' {
      root = insert_at (h ∷ hs) b t'.root;
      count = if is_none (at_path (h ∷ hs) t'.root) then t'.count + 1 else t'.count;
    }

abbrev pub or_best : Option BackendId → Option BackendId → Option BackendId
or_best none best = best
or_best (some b) best = some b

-- The loop of `longest_match`, from the current node's children with the best match so far.
pub longest_from : List ℕ → Children → Option BackendId → Option BackendId
unfolding get_child
longest_from [] c best = best
longest_from (h ∷ hs) c best =
    let further = λ (n : TrieNode). longest_from hs (children_of n) (or_best (backend_of n) best) in
    elim (get_child h c) [ none ↦ best | some n ↦ further n ]

pub longest_match : PrefixTrie → List ℕ → Option BackendId
unfolding longest_from
longest_match t hashes = longest_from hashes (children_of t.root) none

-- `body.chunks(n)` for a positive `n`; the length of the body is fuel enough.
pub chunks_fuel : ℕ → ℕ → Bytes → List Bytes
chunks_fuel zero n body = []
chunks_fuel (suc fuel) n [] = []
chunks_fuel (suc fuel) n (x ∷ xs) = take n (x ∷ xs) ∷ chunks_fuel fuel n (drop n (x ∷ xs))

pub chunks : ℕ → Bytes → List Bytes
unfolding chunks_fuel
chunks n body = chunks_fuel (length body) n body

abbrev pub u64_mod : ℕ
u64_mod = 2 ^ 64

-- The state of the router beside the inner router's.
pub record KvState : Type 0 where
  pub trie : PrefixTrie
  pub hits : ℕ
  pub misses : ℕ
  pub breaker_rejections : ℕ

pub new : KvAwareConfig → KvState
unfolding new_trie
new cfg = record {
  trie = new_trie cfg.max_trie_entries;
  hits = 0;
  misses = 0;
  breaker_rejections = 0;
}

abbrev pub is_closed_state : CircuitState → Bool
is_closed_state closed = true
is_closed_state opened = false
is_closed_state half_open = false

abbrev pub is_closed : BackendSignals → BackendId → Bool
is_closed signals b = is_closed_state (get_signal signals b).circuit_state

-- A decision of the inner router is learned if it is a `Send`.
pub learn : KvState → List ℕ → RoutingDecision → KvState
learn s hashes (send b) = record s { trie = insert s.trie hashes b }
learn s hashes (hedge bs) = s
learn s hashes (reject status) = s

-- What the trie says: a hit on a closed backend is sent to; everything else is counted.
pub consult : KvState → BackendSignals → Option BackendId → KvState × Option BackendId
consult s signals none = (record s { misses = (s.misses + 1) % u64_mod }, none)
consult s signals (some b) =
    if is_closed signals b
    then (record s { hits = (s.hits + 1) % u64_mod }, some b)
    else (record s { breaker_rejections = (s.breaker_rejections + 1) % u64_mod }, none)

-- The hash is xxh3_64 of the crate xxhash-rust, a parameter.
module _ (xxh3_64 : Bytes → ℕ) (cfg : KvAwareConfig) (inner : Router) where
  pub body_hashes : Bytes → List ℕ
  unfolding chunks
  body_hashes body = map xxh3_64 (chunks (max cfg.prefix_chunk_bytes 1) body)

  abbrev pub State : Type 0
  State = KvState × inner.State

  -- The inner router is asked, and its answer learned.
  pub defer :
      KvState
      → inner.State
      → List ℕ
      → Request
      → BackendPool
      → BackendSignals
      → RoutingDecision × State
  defer s r hashes req pool signals =
      let (decision, r') = inner.route r req pool signals in
      (decision, (learn s hashes decision, r'))

  pub route_hashed :
      KvState × Option BackendId
      → inner.State
      → List ℕ
      → Request
      → BackendPool
      → BackendSignals
      → RoutingDecision × State
  route_hashed (s, some b) r hashes req pool signals = (send b, (s, r))
  route_hashed (s, none) r hashes req pool signals = defer s r hashes req pool signals

  pub pass_on : KvState → RoutingDecision × inner.State → RoutingDecision × State
  pass_on s (decision, r) = (decision, (record s { misses = (s.misses + 1) % u64_mod }, r))

  pub route : State → Request → BackendPool → BackendSignals → RoutingDecision × State
  route (s, r) req pool signals =
      let body = body_bytes req.body in
      let hashes = body_hashes body in
      if ltb (length body) cfg.min_prefix_bytes_to_route
      then pass_on s (inner.route r req pool signals)
      else route_hashed (consult s signals (longest_match s.trie hashes)) r hashes req pool signals

  abbrev pub kv_aware : Router
  kv_aware = record {
    State = State;
    route = route;
    on_response = λ s decision outcome. (s.0, inner.on_response s.1 decision outcome);
  }
