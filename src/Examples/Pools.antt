-- ===== src/Examples/Pools.antt =====
-- internal/pool, internal/admin, internal/health and internal/sticky over the two backends.
use go_lb.Sticky.RoundTrip.{from_request-set_cookie}
use go_lb.Admin.Laws.{handle_set_alive_lem, add-remove}
use go_lb.Sticky.{Codec, IsBase64, set_cookie, from_request, cookie, Affinity}
use go_lb.Admin.Invariant.{Inv}
use go_lb.Metrics.{no_metrics, set_backend_up}
use go_lb.Base.{◌≡◌, refl, ◌≢◌, true, false, none, some, [], ◌∷◌, arith, In, ok}
use go_lb.Base.Int.{pos}
use go_lb.Examples.Data.{heap, pair, pair-Distinct}
use go_lb.Pool.{has_url}
use go_lb.Backend.{Url, is_alive, url_of, Ref}
use go_lb.Admin.{Server, AddBackendRequest, Decoding, handle_set_alive, handle_add, remove_backend}

abbrev server : Server
server = record { heap = heap; allocated = 2; metrics = no_metrics; pool = pair }

server-Inv : Inv server
server-Inv = record { distinct = pair-Distinct; allocated = (omega arith, (omega arith, tt)) }

abbrev url_c : Url
url_c = record { scheme = "http"; host = "c"; text = "http://c" }

abbrev request_c : AddBackendRequest
request_c = record { url = "http://c"; weight = pos 0 }

-- Everything decodes to the backend c, and paths are not escaped.
abbrev decoding : Decoding
decoding = record {
  decode = λ body. ok request_c;
  parse = λ url. ok url_c;
  unescape = λ path. ok path;
}

handle_set_alive_lem_example :
    let after = handle_set_alive decoding "http://a" false server in
    (has_url heap "http://a" pair ≡ true
      → (b : Ref) × In b pair
        × (url_of heap b ≡ "http://a")
        × (after.1.status ≡ 200)
        × (is_alive after.0.heap b ≡ false)
        × ((c : Ref) → c ≢ b → after.0.heap c ≡ heap c)
        × (after.0.metrics ≡ set_backend_up no_metrics "http://a" false)
        × (after.0.pool ≡ pair))
    × (has_url heap "http://a" pair ≡ false → (after.0 ≡ server) × (after.1.status ≡ 404))
handle_set_alive_lem_example =
    handle_set_alive_lem decoding "http://a" "http://a" false server server-Inv refl

new_c : has_url heap "http://c" pair ≡ false
unfolding has_url
new_c = refl

add-remove_example :
    let added = handle_add decoding "c" server in
    let again = handle_add decoding "c" added.0 in
    let removed = remove_backend decoding "http://c" added.0 in
    (added.1.status ≡ 201)
    × (again.1.status ≡ 409)
    × (again.0 ≡ added.0)
    × (removed.1.status ≡ 204)
    × (removed.0.pool ≡ pair)
add-remove_example =
    add-remove decoding "c" "http://c" request_c url_c server server-Inv refl refl refl refl new_c
      refl

-- A codec that quotes, and counts nanoseconds for seconds.
abbrev plain : Codec
plain = record { encode = λ s. s; decode = λ s. some s; ceil_seconds = λ t. t }

plain-IsBase64 : IsBase64 plain
plain-IsBase64 = record { decode-encode = λ s. refl; encode-empty = λ s e. e }

abbrev affinity : Affinity
affinity = record { cookie_name = "golb"; ttl = pos 60; secure = false }

other : cookie (("other", "1") ∷ []) "golb" ≡ none
unfolding cookie
other = refl

from_request-set_cookie_example :
    let c = set_cookie plain affinity "http://a" in
    from_request plain affinity (("other", "1") ∷ (c.name, c.value) ∷ []) ≡ "http://a"
from_request-set_cookie_example =
    from_request-set_cookie plain affinity "http://a" (("other", "1") ∷ []) [] plain-IsBase64 other
