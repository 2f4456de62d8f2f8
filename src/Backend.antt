-- ===== src/Backend.antt =====
-- internal/backend/backend.go: the state of one backend server, and the heap that holds them.
use go_lb.Base.{ℕ, String, Bool, if◌then◌else◌, ◌==◌}
use go_lb.Base.Int.{ℤ, pos, ◌+ℤ◌, ◌-ℤ◌}

-- What the code reads of a parsed `*url.URL`: its scheme, its host and the text of `String()`.
pub record Url : Type 0 where
  pub scheme : String
  pub host : String
  pub text : String

pub record Backend : Type 0 where
  pub url : Url
  pub weight : ℤ
  pub alive : Bool
  pub active_conns : ℤ

-- `*backend.Backend`: pointers into a heap, which the pool, the algorithms and the handlers share.
abbrev pub Ref : Type 0
Ref = ℕ

abbrev pub Heap : Type 0
Heap = Ref → Backend

abbrev pub store : Heap → Ref → Backend → Heap
store h b x c = if b == c then x else h c

abbrev pub url_of : Heap → Ref → String
url_of h b = (h b).url.text

unfoldable pub is_alive : Heap → Ref → Bool
is_alive h b = (h b).alive

unfoldable pub set_alive : Heap → Ref → Bool → Heap
set_alive h b alive = store h b (record (h b) { alive = alive })

unfoldable pub get_weight : Heap → Ref → ℤ
get_weight h b = (h b).weight

unfoldable pub set_weight : Heap → Ref → ℤ → Heap
set_weight h b w = store h b (record (h b) { weight = w })

unfoldable pub incr_conns : Heap → Ref → Heap
incr_conns h b = store h b (record (h b) { active_conns = (h b).active_conns +ℤ pos 1 })

unfoldable pub decr_conns : Heap → Ref → Heap
decr_conns h b = store h b (record (h b) { active_conns = (h b).active_conns -ℤ pos 1 })

unfoldable pub active_conns : Heap → Ref → ℤ
active_conns h b = (h b).active_conns
