-- ===== src/Tests/Http.antt =====
-- src/http.rs at concrete inputs.
use wasm_runtime.Base.{
  ℕ, true, false, none, some, List, [], ◌∷◌, All, ◌≡◌, ◌↔◌, refl, codes, equal, arith,
}
use wasm_runtime.Http.{
  OutboundHttpGrant, Request, Network, received, grant_for, allows, content_length_at_most,
  declared_length, parse_u64, to_ascii_lowercase, validate_network_destination, send_request,
}
use wasm_runtime.Http.Addresses.{v4, is_public_ip, is_public_v4}
use wasm_runtime.Http.Addresses.Blocks.{
  Outside, address, special_blocks, is_public_v4-special_blocks,
}
use wasm_runtime.Http.Granting.{Grants}
use wasm_runtime.Http.Limiting.{
  Polled, pending, ended, framed, data_frame, poll_all, Limits, poll_all-Limits,
}
use wasm_runtime.Http.Sending.{MayReach, send_request_iff}

is_public_v4-special_blocks_example :
    (is_public_v4 8 8 8 8 ≡ true) ↔ All (Outside (address 8 8 8 8)) special_blocks
is_public_v4-special_blocks_example =
    is_public_v4-special_blocks 8 8 8 8 (omega arith) (omega arith) (omega arith) (omega arith)

abbrev network : Network
network = record {
  to_str = λ bytes. some bytes;
  lookup_host = λ host port. some (v4 8 8 8 8 ∷ []);
  default_send_request =
      λ request limit. received (record { status = 200; content_length = some (codes "5") });
}

abbrev grant : OutboundHttpGrant
grant = record {
  scheme = codes "https";
  authority = codes "a.test";
  methods = codes "GET" ∷ [];
  max_request_bytes = 16;
  max_response_bytes = 64;
  allow_private_network = false;
}

abbrev request : Request
request = record {
  scheme = some (codes "https");
  authority = some (record { text = codes "A.test"; host = codes "A.test"; port = none });
  method = codes "GET";
  content_length = some (codes "+16");
}

abbrev too_long : Request
too_long = record request { content_length = some (codes "17") }

sends_request :
    ((send_request network (grant ∷ []) request).0 ≡ (request, 16) ∷ [])
    × ((send_request network (grant ∷ []) too_long).0 ≡ [])
unfolding send_request grant_for allows content_length_at_most declared_length parse_u64
    to_ascii_lowercase validate_network_destination is_public_ip is_public_v4 equal
sends_request = (refl, refl)

abbrev none_left : List (Request × ℕ)
none_left = []

send_request_iff_example : ((send_request network (grant ∷ []) request).0 ≡ (request, 16) ∷ []) ↔ (
    (g : OutboundHttpGrant) × (granted : Grants network (grant ∷ []) request g) × MayReach network
      granted.authority g
    × (request ≡ request)
    × (16 ≡ g.max_request_bytes)
    × (none_left ≡ []))
send_request_iff_example = send_request_iff network (grant ∷ []) request request 16 none_left

abbrev answers : List (Polled ℕ)
answers =
    framed (data_frame (codes "abc"))
    ∷ (pending ∷ (framed (data_frame (codes "de")) ∷ (ended ∷ [])))

poll_all-Limits_example : Limits (λ n. n) 4 answers (poll_all (λ n. n) answers 4)
poll_all-Limits_example = poll_all-Limits (λ n. n) 4 answers
