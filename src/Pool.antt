-- ===== src/Pool.antt =====
-- internal/pool/pool.go: the registered backends, as pointers into the heap.
pub mod Laws
use go_lb.Base.{
  String, Bool, true, false, List, [], ◌∷◌, ◌++◌, map, if◌then◌else◌, str_eq, ◌≢◌, All,
}
use go_lb.Backend.{Ref, Heap, url_of, set_alive}
use go_lb.Metrics.{Metrics, set_backend_up}

abbrev pub ServerPool : Type 0
ServerPool = List Ref

-- The loop of `AddBackend`: whether a backend with this URL is there.
unfoldable pub has_url : Heap → String → ServerPool → Bool
has_url h url [] = false
has_url h url (b ∷ bs) = if str_eq (url_of h b) url then true else has_url h url bs

unfoldable pub add_backend : Heap → ServerPool → Ref → ServerPool
add_backend h bs b = if has_url h (url_of h b) bs then bs else bs ++ b ∷ []

-- The snapshot copy; lists here have no aliases.
abbrev pub backends : ServerPool → List Ref
backends bs = bs

-- The pool that is left, and whether the URL was found.
unfoldable pub remove : Heap → String → ServerPool → ServerPool × Bool
remove h url [] = ([], false)
remove h url (b ∷ bs) =
    let (rest, found) = remove h url bs in
    if str_eq (url_of h b) url then (bs, true) else (b ∷ rest, found)

unfoldable pub mark_backend_status : Heap → Metrics → ServerPool → String → Bool → Heap × Metrics
mark_backend_status h m [] url alive = (h, m)
mark_backend_status h m (b ∷ bs) url alive =
    if str_eq (url_of h b) url
    then (set_alive h b alive, set_backend_up m url alive)
    else mark_backend_status h m bs url alive

abbrev pub backend_urls : Heap → ServerPool → List String
backend_urls h = map (url_of h)

-- No text twice.
abbrev pub Distinct : List String → Type 0
Distinct [] = Unit
Distinct (u ∷ us) = All (λ v. u ≢ v) us × Distinct us
