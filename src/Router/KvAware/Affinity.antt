-- ===== src/Router/KvAware/Affinity.antt =====
-- The routing decisions of the KV-aware router: circuits, and affinity of equal bodies.
use riftgate.Base.{
  ℕ, ◌≡◌, ◌≢◌, refl, Bool, true, Option, none, some, List, ltb, ==_iff, length, arith, ap,
  Bool-cases, inl, inr,
}
use riftgate.Core.Request.{Bytes, Request, body_bytes}
use riftgate.Core.Router.{
  Router, BackendId, BackendPool, BackendSignals, opened, get_signal, contains, targets, AvoidsOpen,
  RoutingDecision,
}
use riftgate.Router.KvAware.{
  KvAwareConfig, KvState, longest_match, is_closed, is_closed_state, consult, body_hashes, State,
  defer, route_hashed, pass_on, route, kv_aware,
}

consult-hit :
    (s : KvState) (signals : BackendSignals) (o : Option BackendId) (b : BackendId)
    → (consult s signals o).1 ≡ some b
    → (o ≡ some b) × (is_closed signals b ≡ true) × ((consult s signals o).0.trie ≡ s.trie)
unfolding consult
consult-hit s signals none b e = cc
consult-hit s signals (some a) b e = ground arith

is_closed-ne_opened :
    (signals : BackendSignals) (b : BackendId)
    → is_closed signals b ≡ true
    → (get_signal signals b).circuit_state ≢ opened
is_closed-ne_opened signals b h = λ e. cc (h, ap is_closed_state e)

module _ (xxh3_64 : Bytes → ℕ) (cfg : KvAwareConfig) (inner : Router) where
  route_hashed-AvoidsOpen :
      (s : KvState) (hit : Option BackendId) (r : inner.State) (hashes : List ℕ) (req : Request)
      (pool : BackendPool) (signals : BackendSignals) (b : BackendId)
      → AvoidsOpen inner
      → ((c : BackendId) → hit ≡ some c → is_closed signals c ≡ true)
      → contains (targets (route_hashed xxh3_64 cfg inner (s, hit) r hashes req pool signals).0) b
        ≡ true
      → (get_signal signals b).circuit_state ≢ opened
  unfolding route_hashed defer
  route_hashed-AvoidsOpen s none r hashes req pool signals b heeds shut e =
      heeds r req pool signals b e
  route_hashed-AvoidsOpen s (some c) r hashes req pool signals b heeds shut e =
      is_closed-ne_opened signals b (ground (arith, ==_iff c b, shut c refl))

  abbrev short : Request → Bool
  short req = ltb (length (body_bytes req.body)) cfg.min_prefix_bytes_to_route

  abbrev hashes_of : Request → List ℕ
  hashes_of req = body_hashes xxh3_64 cfg inner (body_bytes req.body)

  abbrev looked_up : KvState → Request → BackendSignals → KvState × Option BackendId
  looked_up s req signals = consult s signals (longest_match s.trie (hashes_of req))

  -- If the inner router never names a backend whose circuit is open, neither does this router.
  pub kv_aware-AvoidsOpen : AvoidsOpen inner → AvoidsOpen (kv_aware xxh3_64 cfg inner)
  unfolding route pass_on
  kv_aware-AvoidsOpen heeds (s, r) req pool signals b e = elim (Bool-cases (short req)) [
    | inl brief ↦ heeds r req pool signals b (rw brief at e)
    | inr long ↦
        route_hashed-AvoidsOpen (looked_up s req signals).0 (looked_up s req signals).1 r
          (hashes_of req) req pool signals b heeds
          (λ c found. (consult-hit s signals (longest_match s.trie (hashes_of req)) c found).1)
          (rw long at e)
  ]

  abbrev after_route : KvState → inner.State → Request → BackendPool → BackendSignals → KvState
  after_route s r req pool signals = (route xxh3_64 cfg inner (s, r) req pool signals).1.0

  abbrev answer : KvState → inner.State → Request → BackendPool → BackendSignals → RoutingDecision
  answer s r req pool signals = (route xxh3_64 cfg inner (s, r) req pool signals).0
