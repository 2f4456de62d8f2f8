-- ===== src/Examples/Data.antt =====
-- Two backends, as they are after start.
use go_lb.Pool.{Distinct, backend_urls}
use go_lb.Backend.{Backend, Heap, Ref}
use go_lb.Base.{true, List, [], ◌∷◌, arith, eq_iff, ◌==◌, if◌then◌else◌}
use go_lb.Base.Int.{pos}

abbrev pub backend_a : Backend
backend_a = record {
  url = record { scheme = "http"; host = "a"; text = "http://a" };
  weight = pos 2;
  alive = true;
  active_conns = pos 0;
}

abbrev pub backend_b : Backend
backend_b = record {
  url = record { scheme = "http"; host = "b"; text = "http://b" };
  weight = pos 1;
  alive = true;
  active_conns = pos 0;
}

abbrev pub heap : Heap
heap c = if c == 0 then backend_a else backend_b

abbrev pub pair : List Ref
pair = 0 ∷ 1 ∷ []

pub pair-Distinct : Distinct (backend_urls heap pair)
pair-Distinct = ((λ e. ground (arith, (eq_iff "http://a" "http://b").1 e), tt), (tt, tt))
