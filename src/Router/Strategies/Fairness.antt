-- ===== src/Router/Strategies/Fairness.antt =====
-- The order in which round robin visits the backends.
use riftgate.Base.{
  ℕ, zero, suc, ◌+◌, ◌*◌, ◌/◌, ◌%◌, ◌<◌, ◌≡◌, refl, sym, ◌∙◌, ap, subst, some, List, [], ◌∷◌, ◌++◌,
  map, arith, length, length-append, get_elem?, take, drop, length-drop, append_assoc, append_nil,
}
use native.Mathlib.Nat.{
  add-mul-mod_self_right, mod-eq_of_lt, mod-lt, mod-add-div, suc-mul, mul_comm,
}
use riftgate.Core.Router.{BackendId, BackendPool, RoutingDecision, send, get_modulo}
use riftgate.Router.Strategies.{route_round_robin, usize_mod}

-- The decisions of `n` calls in a row, and the cursor after them.
pub decisions : ℕ → ℕ → BackendPool → List RoutingDecision × ℕ
decisions zero cursor pool = ([], cursor)
decisions (suc n) cursor pool =
    let (d, cursor') = route_round_robin cursor pool in
    let (rest, last) = decisions n cursor' pool in (d ∷ rest, last)

abbrev of_list : List BackendId → BackendPool
of_list bs = record { backends = bs }

route-get_elem? :
    (bs : List BackendId) (cursor : ℕ) (b : BackendId)
    → get_elem? bs (cursor % length bs) ≡ some b
    → route_round_robin cursor (of_list bs) ≡ (send b, (cursor + 1) % usize_mod)
unfolding route_round_robin get_modulo
route-get_elem? [] cursor b e = absurd (cc e)
route-get_elem? (c ∷ bs) cursor b e = rw e refl

get_elem?-length :
    (pre rest : List BackendId) (b : BackendId) → get_elem? (pre ++ b ∷ rest) (length pre) ≡ some b
get_elem?-length [] rest b = refl
get_elem?-length (c ∷ pre) rest b = get_elem?-length pre rest b

-- A cursor that is `length pre` behind a multiple of the pool's length stands at that place.
route-place :
    (bs pre rest : List BackendId) (b : BackendId) (q cursor : ℕ)
    → bs ≡ pre ++ b ∷ rest
    → cursor ≡ length pre + q * length bs
    → cursor + 1 < usize_mod
    → route_round_robin cursor (of_list bs) ≡ (send b, cursor + 1)
route-place bs pre rest b q cursor e at h =
    let count = ap length e ∙ length-append pre (b ∷ rest) in
    let inside : length pre < length bs = omega (arith, count) in
    let place =
      ap (λ c. c % length bs) at
      ∙ add-mul-mod_self_right (length pre) q (length bs)
      ∙ mod-eq_of_lt inside in
    route-get_elem? bs cursor b
      (ap (get_elem? bs) place ∙ ap (λ t. get_elem? t (length pre)) e ∙ get_elem?-length pre rest b)
    ∙ ap (λ c. (send b, c)) (mod-eq_of_lt h)

-- The calls whose places are those of `mid`.
decisions-middle :
    (mid pre post bs : List BackendId) (q cursor : ℕ)
    → bs ≡ pre ++ (mid ++ post)
    → cursor ≡ length pre + q * length bs
    → cursor + length mid < usize_mod
    → decisions (length mid) cursor (of_list bs) ≡ (map send mid, cursor + length mid)
unfolding decisions
decisions-middle [] pre post bs q cursor e at h = ap (λ c. ([], c)) (omega arith)
decisions-middle (b ∷ mid) pre post bs q cursor e at h =
    let below : cursor + 1 < usize_mod = omega (arith, h) in
    let step = route-place bs pre (mid ++ post) b q cursor e at below in
    let moved : bs ≡ (pre ++ b ∷ []) ++ (mid ++ post) =
      e ∙ sym (append_assoc pre (b ∷ []) (mid ++ post)) in
    let count = length-append pre (b ∷ []) in
    let at' : cursor + 1 ≡ length (pre ++ b ∷ []) + q * length bs = omega (arith, at, count) in
    let below' : cursor + 1 + length mid < usize_mod = omega (arith, h) in
    let rest = decisions-middle mid (pre ++ b ∷ []) post bs q (cursor + 1) moved at' below' in
    let sum : cursor + 1 + length mid ≡ cursor + suc (length mid) = omega arith in
    rw (step, rest) (ap (λ c. (send b ∷ map send mid, c)) sum)

decisions-append :
    (xs ys : List BackendId) (cursor : ℕ) (pool : BackendPool)
    → let (ds, next) = decisions (length xs) cursor pool in
      let (rest, last) = decisions (length ys) next pool in
      decisions (length (xs ++ ys)) cursor pool ≡ (ds ++ rest, last)
unfolding decisions
decisions-append [] ys cursor pool = refl
decisions-append (x ∷ xs) ys cursor pool =
    let (d, next) = route_round_robin cursor pool in
    ap (λ r. (d ∷ r.0, r.1)) (decisions-append xs ys next pool)

decisions-turn :
    (pre post bs : List BackendId) (q cursor : ℕ)
    → bs ≡ pre ++ post
    → cursor ≡ length pre + q * length bs
    → cursor + length bs < usize_mod
    → decisions (length (post ++ pre)) cursor (of_list bs)
      ≡ (map send post ++ map send pre, cursor + length bs)
decisions-turn pre post bs q cursor e at h =
    let count = ap length e ∙ length-append pre post in
    let first =
      decisions-middle post pre [] bs q cursor (e ∙ ap (λ t. pre ++ t) (sym (append_nil post))) at
        (omega (arith, h, count)) in
    let next : cursor + length post ≡ 0 + suc q * length bs =
      (let turn = suc-mul q (length bs) in omega (arith, at, count, turn)) in
    let second =
      decisions-middle pre [] post bs (suc q) (cursor + length post) e next
        (omega (arith, h, count)) in
    let sum : cursor + length post + length pre ≡ cursor + length bs = omega (arith, count) in
    decisions-append post pre cursor (of_list bs)
    ∙ rw (first, second) (ap (λ c. (map send post ++ map send pre, c)) sum)

take-drop : (n : ℕ) (bs : List BackendId) → bs ≡ take n bs ++ drop n bs
take-drop zero bs = refl
take-drop (suc n) [] = refl
take-drop (suc n) (b ∷ bs) = ap (λ t. b ∷ t) (take-drop n bs)

-- From any cursor that does not wrap on the way, as many calls as a pool that is not empty has
-- backends send to each backend of the pool once and reject none: first those from the cursor's place
-- to the pool's end, then those before that place, each in the pool's order.
pub decisions-round :
    (bs : List BackendId) (cursor : ℕ)
    → 0 < length bs
    → cursor + length bs < usize_mod
    → let k = cursor % length bs in
      decisions (length bs) cursor (record { backends = bs })
      ≡ (map send (drop k bs) ++ map send (take k bs), cursor + length bs)
decisions-round bs cursor nonempty h =
    let k = cursor % length bs in
    let e = take-drop k bs in
    let total = ap length e ∙ length-append (take k bs) (drop k bs) in
    let size : length (take k bs) ≡ k =
      omega (arith, total, length-drop k bs, mod-lt cursor nonempty) in
    let same : length (drop k bs ++ take k bs) ≡ length bs =
      omega (arith, total, length-append (drop k bs) (take k bs)) in
    let at : cursor ≡ length (take k bs) + cursor / length bs * length bs =
      (let parts = mod-add-div cursor (length bs) in
        let swap = mul_comm (length bs) (cursor / length bs) in omega (arith, parts, swap, size)) in
    subst
      (λ n.
        decisions n cursor (of_list bs)
        ≡ (map send (drop k bs) ++ map send (take k bs), cursor + length bs))
      same (decisions-turn (take k bs) (drop k bs) bs (cursor / length bs) cursor e at h)
