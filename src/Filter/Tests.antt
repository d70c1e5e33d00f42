-- ===== src/Filter/Tests.antt =====
-- A filter that numbers what passes it, and one that ends every message.
use riftgate.Base.{◌+◌, List, [], ◌∷◌}
use riftgate.Core.Request.{Request, Response, get, empty, new_headers}
use riftgate.Filter.{continue_on, terminate, Filter, chain_filter}
use riftgate.Filter.Order.{Requested, Responded, chain_filter-order}

abbrev counting : Filter
counting = record {
  on_request = λ r. (record r { id = r.id + 1 }, continue_on);
  on_response = λ r. (record r { id = r.id + 1 }, continue_on);
}

abbrev refusing : Filter
refusing = record { on_request = λ r. (r, terminate 403); on_response = λ r. (r, terminate 500) }

abbrev filters : List Filter
filters = counting ∷ refusing ∷ counting ∷ []

abbrev request : Request
request = record { id = 5; method = get; path = []; headers = new_headers; body = empty }

abbrev response : Response
response = record { id = 5; status = 200; headers = new_headers; body = empty }

chain_filter-order_example :
    Requested filters request ((chain_filter (record { filters = filters })).on_request request)
    × Responded filters response
        ((chain_filter (record { filters = filters })).on_response response)
chain_filter-order_example = chain_filter-order filters request response
