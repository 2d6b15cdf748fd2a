-- ===== src/Http.antt =====
-- src/http.rs: the grants on outgoing requests, and the limits on their bodies.
pub mod Addresses
pub mod Limiting
pub mod Granting
pub mod Sending
use wasm_runtime.Base.{
  ℕ, ◌+◌, ◌-◌, ◌*◌, ◌^◌, Bool, true, false, not, ◌&&◌, ◌||◌, Option, none, some, List, [], ◌∷◌,
  Bytes, codes, length, any, all, equal, ltb, leb, if◌then◌else◌,
}
use wasm_runtime.Base.Ascii.{is_ascii_digit, is_ascii_uppercase}
use wasm_runtime.Http.Addresses.{IpAddr, is_public_ip}

pub record OutboundHttpGrant : Type 0 where
  pub scheme : Bytes
  pub authority : Bytes
  pub methods : List Bytes
  pub max_request_bytes : ℕ
  pub max_response_bytes : ℕ
  pub allow_private_network : Bool

abbrev pub lowercase : ℕ → ℕ
lowercase b = if is_ascii_uppercase b then b + 32 else b

-- `str::to_ascii_lowercase`
unfoldable pub to_ascii_lowercase : Bytes → Bytes
to_ascii_lowercase [] = []
to_ascii_lowercase (b ∷ bs) = lowercase b ∷ to_ascii_lowercase bs

-- `str::eq_ignore_ascii_case`
abbrev pub eq_ignore_ascii_case : Bytes → Bytes → Bool
eq_ignore_ascii_case a b = equal (to_ascii_lowercase a) (to_ascii_lowercase b)

-- `OutboundHttpGrant::new`
unfoldable pub new : Bytes → Bytes → OutboundHttpGrant
new scheme authority = record {
  scheme = to_ascii_lowercase scheme;
  authority = to_ascii_lowercase authority;
  methods = [];
  max_request_bytes = 1024 * 1024;
  max_response_bytes = 4 * 1024 * 1024;
  allow_private_network = false;
}

pub record Authority : Type 0 where
  pub text : Bytes
  pub host : Bytes
  pub port : Option ℕ

-- What is read of an `http::Request`; `content_length` is the first header of that name.
pub record Request : Type 0 where
  pub scheme : Option Bytes
  pub authority : Option Authority
  pub method : Bytes
  pub content_length : Option Bytes

pub record Response : Type 0 where
  pub status : ℕ
  pub content_length : Option Bytes

pub data ErrorCode : Type 0 where
  http_request_denied destination_ip_prohibited http_response_body_size : ErrorCode
  transport : ℕ → ErrorCode

pub data Answer : Type 0 where
  refused : ErrorCode → Answer
  responded : Response → (max_response_bytes : ℕ) → Answer

pub data Sent : Type 0 where
  failed : ErrorCode → Sent
  received : Response → Sent

-- `HeaderValue::to_str` of the http crate, the resolver, and the default handler of Wasmtime, which
-- is given the request and the limit on its body.
pub record Network : Type 0 where
  pub to_str : Bytes → Option Bytes
  pub lookup_host : Bytes → ℕ → Option (List IpAddr)
  pub default_send_request : Request → ℕ → Sent

abbrev decimal_value : ℕ → Bytes → ℕ
decimal_value acc [] = acc
decimal_value acc (b ∷ bs) = decimal_value (acc * 10 + (b - b'0')) bs

abbrev parse_digits : Bytes → Option ℕ
parse_digits [] = none
parse_digits (b ∷ bs) =
    if all is_ascii_digit (b ∷ bs) && ltb (decimal_value 0 (b ∷ bs)) (2 ^ 64)
    then some (decimal_value 0 (b ∷ bs))
    else none

-- `str::parse::<u64>`
unfoldable pub parse_u64 : Bytes → Option ℕ
parse_u64 [] = none
parse_u64 (b ∷ bs) = if equal (b ∷ []) (codes "+") then parse_digits bs else parse_digits (b ∷ bs)

module _ (network : Network) where
  -- The length that the header declares: 0 without a header.
  unfoldable pub declared_length : Option Bytes → Option ℕ
  declared_length none = some 0
  declared_length (some value) = elim (network.to_str value) [
    | none ↦ none
    | some text ↦ parse_u64 text
  ]

  unfoldable pub content_length_at_most : Option Bytes → ℕ → Bool
  content_length_at_most header limit = elim (declared_length header) [
    | none ↦ false
    | some length ↦ leb length limit
  ]

  -- The closure of `grant_for`.
  unfoldable pub allows : Bytes → Authority → Request → OutboundHttpGrant → Bool
  allows scheme authority request grant =
      eq_ignore_ascii_case grant.scheme scheme
      && eq_ignore_ascii_case grant.authority authority.text
      && any (λ method. eq_ignore_ascii_case method request.method) grant.methods
      && content_length_at_most request.content_length grant.max_request_bytes

  abbrev pub find : (OutboundHttpGrant → Bool) → List OutboundHttpGrant → Option OutboundHttpGrant
  find p [] = none
  find p (grant ∷ grants) = if p grant then some grant else find p grants

  unfoldable pub grant_for : List OutboundHttpGrant → Request → Option OutboundHttpGrant
  grant_for grants request = elim request.scheme [
    | none ↦ none
    | some scheme ↦ elim request.authority [
      | none ↦ none
      | some authority ↦ find (allows scheme authority request) grants
    ]
  ]

  abbrev pub default_port : OutboundHttpGrant → ℕ
  default_port grant = if equal grant.scheme (codes "https") then 443 else 80

  abbrev pub port_or : ℕ → Option ℕ → ℕ
  port_or default none = default
  port_or default (some port) = port

  abbrev pub are_public : Option (List IpAddr) → Bool
  are_public none = false
  are_public (some []) = false
  are_public (some (address ∷ addresses)) =
      not (any (λ ip. not (is_public_ip ip)) (address ∷ addresses))

  -- `validate_network_destination(..).is_ok()`
  unfoldable pub validate_network_destination : Option Authority → OutboundHttpGrant → Bool
  validate_network_destination authority grant =
      if grant.allow_private_network then true else elim authority [
        | none ↦ false
        | some a ↦ are_public (network.lookup_host a.host (port_or (default_port grant) a.port))
      ]

  abbrev pub limit_response : ℕ → Sent → Answer
  limit_response limit (failed code) = refused code
  limit_response limit (received response) =
      if content_length_at_most response.content_length limit
      then responded response limit
      else refused http_response_body_size

  -- `send_request`, with the requests that are handed to the network and their limits.
  unfoldable pub send_request : List OutboundHttpGrant → Request → List (Request × ℕ) × Answer
  send_request grants request = elim (grant_for grants request) [
    | none ↦ ([], refused http_request_denied)
    | some grant ↦
        if validate_network_destination request.authority grant
        then (
          (request, grant.max_request_bytes) ∷ [],
          limit_response grant.max_response_bytes
              (network.default_send_request request grant.max_request_bytes),
        )
        else ([], refused destination_ip_prohibited)
  ]
