-- ===== src/Admin.antt =====
-- internal/admin/admin.go: the handlers of the admin API. A request is what the mux has made of it:
-- the route, and the path value or the body. The decoding of JSON, `url.Parse` and
-- `url.QueryUnescape` are the standard library's, taken as parameters.
pub mod Keeps
pub mod Invariant
pub mod Laws
use go_lb.Metrics.{Metrics}
use go_lb.Pool.{remove, backends, has_url, mark_backend_status, add_backend, ServerPool}
use go_lb.Backend.{Url, Heap, Ref, store, url_of, is_alive, get_weight, active_conns}
use go_lb.Base.{
  Result, ok, err, ℕ, suc, String, Bool, true, false, not, ◌&&◌, ◌||◌, Option, none, some, List, [],
  ◌∷◌, map, str_eq, if◌then◌else◌,
}
use go_lb.Base.Int.{ℤ, pos, leb_ℤ}

pub record AddBackendRequest : Type 0 where
  pub url : String
  pub weight : ℤ

pub record Decoding : Type 0 where
  pub decode : String → Result AddBackendRequest
  pub parse : String → Result Url
  pub unescape : String → Result String

-- The pool with the heap, of which the pointers below `allocated` are in use.
pub record Server : Type 0 where
  pub heap : Heap
  pub allocated : Ref
  pub metrics : Metrics
  pub pool : ServerPool

pub record BackendStatus : Type 0 where
  pub url : String
  pub alive : Bool
  pub weight : ℤ
  pub active_conns : ℤ

-- A message may end in the text of another error.
pub data Body : Type 0 where
  no_body : Body
  one : BackendStatus → Body
  many : List BackendStatus → Body
  error : (message cause : String) → Body

pub record Answer : Type 0 where
  pub status : ℕ
  pub body : Body

abbrev write_json : ℕ → Body → Answer
write_json status body = record { status = status; body = body }

abbrev write_error : ℕ → String → Answer
write_error status message = write_json status (error message "")

abbrev pub status_of : Heap → Ref → BackendStatus
status_of h b = record {
  url = url_of h b;
  alive = is_alive h b;
  weight = get_weight h b;
  active_conns = active_conns h b;
}

unfoldable pub list_backends : Server → Answer
list_backends s = write_json 200 (many (map (status_of s.heap) (backends s.pool)))

-- `&backend.Backend{URL: u, Weight: weight}` with `SetAlive(true)`, at a new pointer.
abbrev pub new_backend : Server → Url → ℤ → Server
new_backend s u weight = record s {
  heap =
      store s.heap s.allocated
        (record { url = u; weight = weight; alive = true; active_conns = pos 0 });
  allocated = suc s.allocated;
}

abbrev pub valid_url : Url → Bool
valid_url u = (str_eq u.scheme "http" || str_eq u.scheme "https") && not (str_eq u.host "")

-- `if weight <= 0 { weight = 1 }`
abbrev pub weight_or_one : ℤ → ℤ
weight_or_one w = if leb_ℤ w (pos 0) then pos 1 else w

-- `addBackend` from the parsed URL on.
unfoldable pub add_parsed : Url → ℤ → Server → Server × Answer
add_parsed u weight s =
    if not (valid_url u)
    then (s, write_error 400 "url must use http or https scheme with a non-empty host")
    else if has_url s.heap u.text (backends s.pool)
    then (s, write_error 409 "backend already exists")
    else (let s' = new_backend s u (weight_or_one weight) in
        (
          record s' { pool = add_backend s'.heap s'.pool s.allocated },
          write_json 201 (
              one (record {
                url = u.text;
                alive = true;
                weight = get_weight s'.heap s.allocated;
                active_conns = pos 0;
              })),
        ))

-- What the search of `setAlive` finds.
unfoldable pub find : Heap → String → List Ref → Option Ref
find h url [] = none
find h url (b ∷ bs) = if str_eq (url_of h b) url then some b else find h url bs

unfoldable pub set_alive_url : String → Bool → Server → Server × Answer
set_alive_url url alive s = elim (find s.heap url (backends s.pool)) [
  | none ↦ (s, write_error 404 "backend not found")
  | some b ↦
      let (heap', metrics') = mark_backend_status s.heap s.metrics s.pool (url_of s.heap b) alive in
      (
        record s { heap = heap'; metrics = metrics' },
        write_json 200 (
            one (record {
              url = url_of heap' b;
              alive = alive;
              weight = get_weight heap' b;
              active_conns = active_conns heap' b;
            })),
      )
]

unfoldable pub remove_url : String → Server → Server × Answer
remove_url url s =
    let (pool', found) = remove s.heap url s.pool in
    if found
    then (record s { pool = pool' }, write_json 204 no_body)
    else (s, write_error 404 "backend not found")

-- The routes of `Handler`.
pub data Call : Type 0 where
  list : Call
  add : (body : String) → Call
  delete_url : (url : String) → Call
  enable : (url : String) → Call
  disable : (url : String) → Call

module _ (d : Decoding) where
  unfoldable pub handle_add : String → Server → Server × Answer
  handle_add body s = elim (d.decode body) [
    | err cause ↦ (s, write_json 400 (error "invalid JSON: " cause))
    | ok req ↦
        if str_eq req.url ""
        then (s, write_error 400 "url is required")
        else elim (d.parse req.url) [
          | err cause ↦ (s, write_json 400 (error "invalid url: " cause))
          | ok u ↦ add_parsed u req.weight s
        ]
  ]

  unfoldable pub remove_backend : String → Server → Server × Answer
  remove_backend path s = elim (d.unescape path) [
    | err _ ↦ (s, write_error 400 "invalid url encoding")
    | ok url ↦ remove_url url s
  ]

  unfoldable pub handle_set_alive : String → Bool → Server → Server × Answer
  handle_set_alive path alive s = elim (d.unescape path) [
    | err _ ↦ (s, write_error 400 "invalid url encoding")
    | ok url ↦ set_alive_url url alive s
  ]

  unfoldable pub handle : Call → Server → Server × Answer
  handle list s = (s, list_backends s)
  handle (add body) s = handle_add body s
  handle (delete_url url) s = remove_backend url s
  handle (enable url) s = handle_set_alive url true s
  handle (disable url) s = handle_set_alive url false s

  unfoldable pub handle_all : List Call → Server → Server
  handle_all [] s = s
  handle_all (c ∷ cs) s = handle_all cs (handle c s).0
