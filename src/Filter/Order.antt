-- ===== src/Filter/Order.antt =====
-- What a chain does to a message, told without its loops.
use riftgate.Base.{◌≡◌, refl, sym, ◌∙◌, subst, List, [], ◌∷◌, ◌++◌}
use riftgate.Core.Request.{Request, Response, StatusCode}
use riftgate.Filter.{
  FilterAction, continue_on, terminate, Filter, next_filter, request_loop, response_loop, reversed,
  chain_filter,
}

next_filter-end {ℓ} :
    {M : Type ℓ} (r : M × FilterAction) → next_filter r (λ m. (m, continue_on)) ≡ r
next_filter-end (m, continue_on) = refl
next_filter-end (m, terminate status) = refl

next_filter_assoc {ℓ} :
    {M : Type ℓ} (r : M × FilterAction) (f g : M → M × FilterAction)
    → next_filter (next_filter r f) g ≡ next_filter r (λ m. next_filter (f m) g)
next_filter_assoc (m, continue_on) f g = refl
next_filter_assoc (m, terminate status) f g = refl

next_filter-eq {ℓ} :
    {M : Type ℓ} (r : M × FilterAction) (f g : M → M × FilterAction)
    → ((m : M) → f m ≡ g m)
    → next_filter r f ≡ next_filter r g
next_filter-eq (m, continue_on) f g h = h m
next_filter-eq (m, terminate status) f g h = refl

response_loop-append :
    (fs gs : List Filter) (resp : Response)
    → response_loop (fs ++ gs) resp ≡ next_filter (response_loop fs resp) (response_loop gs)
unfolding response_loop
response_loop-append [] gs resp = refl
response_loop-append (f ∷ fs) gs resp =
    next_filter-eq (f.on_response resp) (response_loop (fs ++ gs))
      (λ m. next_filter (response_loop fs m) (response_loop gs)) (response_loop-append fs gs)
    ∙ sym (next_filter_assoc (f.on_response resp) (response_loop fs) (response_loop gs))

-- The filters pass a request on, one after the other from the first to the last.
pub data Passed : List Filter → Request → Request → Type 0 where
  passed_none : {req : Request} → Passed [] req req
  passed :
      {f : Filter} {fs : List Filter} {req next last : Request}
      → f.on_request req ≡ (next, continue_on)
      → Passed fs next last
      → Passed (f ∷ fs) req last

-- The filters pass a response on, one after the other from the last to the first.
pub data Returned : List Filter → Response → Response → Type 0 where
  returned_none : {resp : Response} → Returned [] resp resp
  returned :
      {f : Filter} {fs : List Filter} {resp next last : Response}
      → Returned fs resp next
      → f.on_response next ≡ (last, continue_on)
      → Returned (f ∷ fs) resp last

-- What becomes of a request: all filters pass it on, or those before one do and that one ends it.
pub data Requested : List Filter → Request → Request × FilterAction → Type 0 where
  through :
      {fs : List Filter} {req last : Request}
      → Passed fs req last
      → Requested fs req (last, continue_on)
  stopped :
      (fs gs : List Filter) (f : Filter) {req next last : Request} {status : StatusCode}
      → Passed fs req next
      → f.on_request next ≡ (last, terminate status)
      → Requested (fs ++ f ∷ gs) req (last, terminate status)

-- What becomes of a response: all filters pass it on, or those behind one do and that one ends it.
pub data Responded : List Filter → Response → Response × FilterAction → Type 0 where
  back :
      {fs : List Filter} {resp last : Response}
      → Returned fs resp last
      → Responded fs resp (last, continue_on)
  halted :
      (fs gs : List Filter) (f : Filter) {resp next last : Response} {status : StatusCode}
      → Returned gs resp next
      → f.on_response next ≡ (last, terminate status)
      → Responded (fs ++ f ∷ gs) resp (last, terminate status)

first-Requested :
    (f : Filter) {fs : List Filter} {req next : Request} {r : Request × FilterAction}
    → f.on_request req ≡ (next, continue_on)
    → Requested fs next r
    → Requested (f ∷ fs) req r
first-Requested f e (through p) = through (passed e p)
first-Requested f e (stopped fs gs g p t) = stopped (f ∷ fs) gs g (passed e p) t

-- One filter in front of those that the request has yet to pass.
front-Requested :
    (f : Filter) (fs : List Filter) (req : Request) (rest : Request → Request × FilterAction)
    (r : Request × FilterAction)
    → f.on_request req ≡ r
    → ((m : Request) → Requested fs m (rest m))
    → Requested (f ∷ fs) req (next_filter r rest)
front-Requested f fs req rest (m, continue_on) e h = first-Requested f e (h m)
front-Requested f fs req rest (m, terminate status) e h = stopped [] fs f passed_none e

request_loop-Requested : (fs : List Filter) (req : Request) → Requested fs req (request_loop fs req)
unfolding request_loop
request_loop-Requested [] req = through passed_none
request_loop-Requested (f ∷ fs) req =
    front-Requested f fs req (request_loop fs) (f.on_request req) refl (request_loop-Requested fs)

-- One filter in front of those that have returned the response.
last-Responded :
    (f : Filter) (fs : List Filter) (resp m : Response) (r : Response × FilterAction)
    → f.on_response m ≡ r
    → Returned fs resp m
    → Responded (f ∷ fs) resp r
last-Responded f fs resp m (last, continue_on) e p = back (returned p e)
last-Responded f fs resp m (last, terminate status) e p = halted [] fs f p e

front-Responded :
    (f : Filter) {fs : List Filter} {resp : Response} {r : Response × FilterAction}
    → Responded fs resp r
    → Responded (f ∷ fs) resp (next_filter r f.on_response)
front-Responded f {fs} {resp} (back {last} p) =
    last-Responded f fs resp last (f.on_response last) refl p
front-Responded f (halted fs gs g p e) = halted (f ∷ fs) gs g p e

response_loop-Responded :
    (fs : List Filter) (resp : Response) → Responded fs resp (response_loop (reversed fs) resp)
unfolding response_loop
response_loop-Responded [] resp = back returned_none
response_loop-Responded (f ∷ fs) resp =
    subst (Responded (f ∷ fs) resp)
      (next_filter-eq (response_loop (reversed fs) resp) f.on_response (response_loop (f ∷ []))
          (λ m. sym (next_filter-end (f.on_response m)))
        ∙ sym (response_loop-append (reversed fs) (f ∷ []) resp))
      (front-Responded f (response_loop-Responded fs resp))

-- A chain gives a request to its filters from the first to the last and a response to them from the
-- last to the first, each filter the message as the one before it left it: either all pass it on, and
-- the chain does too, or the first in that order that terminates ends it for the chain, with its
-- status and with the message as it left it, and the filters after it in that order play no part.
pub chain_filter-order :
    (fs : List Filter) (req : Request) (resp : Response)
    → Requested fs req ((chain_filter (record { filters = fs })).on_request req)
      × Responded fs resp ((chain_filter (record { filters = fs })).on_response resp)
unfolding chain_filter
chain_filter-order fs req resp = (request_loop-Requested fs req, response_loop-Responded fs resp)
