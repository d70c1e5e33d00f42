-- ===== src/Filter.antt =====
-- crates/riftgate-filter/src/chain.rs and the trait of crates/riftgate-core/src/filter.rs.
mod Tests
pub mod Order
use riftgate.Base.{ℕ, Bool, true, false, List, [], ◌∷◌, ◌++◌, length}
use riftgate.Core.Request.{Request, Response, StatusCode}

-- `continue_on` is `Continue`.
pub data FilterAction : Type 0 where
  continue_on : FilterAction
  terminate : StatusCode → FilterAction

-- A filter is what it does to a message that it may change. State that a filter keeps from one
-- message to the next is not modelled.
pub record Filter : Type 0 where
  pub on_request : Request → Request × FilterAction
  pub on_response : Response → Response × FilterAction

pub record FilterChain : Type 0 where
  pub filters : List Filter

abbrev pub new : FilterChain
new = record { filters = [] }

-- `push`, with the new length.
pub push : FilterChain → Filter → FilterChain × ℕ
push chain filter =
    let filters = chain.filters ++ filter ∷ [] in (record { filters = filters }, length filters)

-- What is left to do after a filter: nothing once it terminates.
abbrev pub next_filter {ℓ} :
    {M : Type ℓ} → M × FilterAction → (M → M × FilterAction) → M × FilterAction
next_filter (message, continue_on) rest = rest message
next_filter (message, terminate status) rest = (message, terminate status)

-- The loops of the chain's two operations.
pub request_loop : List Filter → Request → Request × FilterAction
request_loop [] req = (req, continue_on)
request_loop (f ∷ fs) req = next_filter (f.on_request req) (request_loop fs)

pub response_loop : List Filter → Response → Response × FilterAction
response_loop [] resp = (resp, continue_on)
response_loop (f ∷ fs) resp = next_filter (f.on_response resp) (response_loop fs)

-- `iter().rev()`.
abbrev pub reversed : List Filter → List Filter
reversed [] = []
reversed (f ∷ fs) = reversed fs ++ f ∷ []

pub chain_filter : FilterChain → Filter
unfolding request_loop response_loop
chain_filter chain = record {
  on_request = request_loop chain.filters;
  on_response = response_loop (reversed chain.filters);
}
