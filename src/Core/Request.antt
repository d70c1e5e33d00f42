-- ===== src/Core/Request.antt =====
-- crates/riftgate-core/src/request.rs: the request and response envelopes.
use riftgate.Base.{
  ℕ, ◌+◌, Bool, true, false, ◌&&◌, Option, none, some, List, [], ◌∷◌, ◌++◌, ltb, leb, ◌==◌,
  if◌then◌else◌, length,
}

-- Texts and byte strings are lists of bytes.
abbrev pub Bytes : Type 0
Bytes = List ℕ

pub data Method : Type 0 where
  get post put delete options head : Method
  other : Bytes → Method

abbrev pub StatusCode : Type 0
StatusCode = ℕ

abbrev pub bad_gateway : StatusCode
bad_gateway = 502

abbrev pub service_unavailable : StatusCode
service_unavailable = 503

unfoldable pub is_success : StatusCode → Bool
is_success s = leb 200 s && ltb s 300

unfoldable pub is_client_error : StatusCode → Bool
is_client_error s = leb 400 s && ltb s 500

unfoldable pub is_server_error : StatusCode → Bool
is_server_error s = leb 500 s && ltb s 600

pub record Headers : Type 0 where
  pub entries : List (Bytes × Bytes)

unfoldable pub new_headers : Headers
new_headers = record { entries = [] }

unfoldable pub insert : Headers → Bytes → Bytes → Headers
insert h name value = record { entries = h.entries ++ (name, value) ∷ [] }

unfoldable pub to_ascii_lowercase : ℕ → ℕ
to_ascii_lowercase c = if leb b'A' c && leb c b'Z' then c + 32 else c

unfoldable pub eq_ignore_ascii_case : Bytes → Bytes → Bool
unfolding to_ascii_lowercase
eq_ignore_ascii_case [] [] = true
eq_ignore_ascii_case [] (y ∷ ys) = false
eq_ignore_ascii_case (x ∷ xs) [] = false
eq_ignore_ascii_case (x ∷ xs) (y ∷ ys) =
    (to_ascii_lowercase x == to_ascii_lowercase y) && eq_ignore_ascii_case xs ys

unfoldable pub find : Bytes → List (Bytes × Bytes) → Option Bytes
unfolding eq_ignore_ascii_case
find name [] = none
find name ((k, v) ∷ rest) = if eq_ignore_ascii_case k name then some v else find name rest

unfoldable pub get_header : Headers → Bytes → Option Bytes
unfolding find
get_header h name = find name h.entries

pub data Body : Type 0 where
  empty : Body
  bytes : Bytes → Body

unfoldable pub body_bytes : Body → Bytes
body_bytes empty = []
body_bytes (bytes v) = v

unfoldable pub body_len : Body → ℕ
body_len empty = 0
body_len (bytes v) = length v

pub record Request : Type 0 where
  pub id : ℕ
  pub method : Method
  pub path : Bytes
  pub headers : Headers
  pub body : Body

pub record Response : Type 0 where
  pub id : ℕ
  pub status : StatusCode
  pub headers : Headers
  pub body : Body
