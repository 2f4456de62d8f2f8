-- ===== src/Proxy/Overlap/Turns.antt =====
-- internal/proxy/proxy.go: what the move of one thread does among all of them.
use go_lb.Base.{ℕ, zero, suc, ◌+◌, ◌≤◌, ◌≡◌, refl, ap, List, [], ◌∷◌, ◌++◌, arith, All}
use go_lb.Base.Int.{pos_part, neg_part, ℤ, pos, ◌+ℤ◌, int_laws}
use go_lb.Backend.{Ref, url_of}
use go_lb.Proxy.{Env, World}
use go_lb.Proxy.Breakers.{RegisteredIn}
use go_lb.Proxy.Overlap.{Thread, take_turn}
use go_lb.Proxy.Overlap.Effects.{open_at, in_flight, move-Effects}
use go_lb.Proxy.Overlap.Known.{Below, Known, move-Known, open-fresh}

-- What a turn does to the state, with the connections that the threads hold before and after it.
pub record Turned (ts : List Thread) (w : World) (a : World × List Thread) : Type 0 where
  pub pool : a.0.pool ≡ w.pool
  pub urls : (c : Ref) → url_of a.0.heap c ≡ url_of w.heap c
  pub conns :
      (c : Ref)
      → (a.0.heap c).active_conns +ℤ pos (in_flight ts c)
        ≡ (w.heap c).active_conns +ℤ pos (in_flight a.1 c)
  pub breakers : RegisteredIn w → RegisteredIn a.0

more_after : (a b : ℤ) (x y k : ℕ) → a +ℤ pos x ≡ b +ℤ pos y → a +ℤ pos (x + k) ≡ b +ℤ pos (y + k)
more_after a b x y k e = omega (int_laws, ap pos_part e, ap neg_part e)

more_before : (a b : ℤ) (k x y : ℕ) → a +ℤ pos x ≡ b +ℤ pos y → a +ℤ pos (k + x) ≡ b +ℤ pos (k + y)
more_before a b k x y e = omega (int_laws, ap pos_part e, ap neg_part e)

-- A thread holds no connection to what is not allocated.
pub in_flight-fresh :
    {a : Ref} (c : Ref) (ts : List Thread) → a ≤ c → All (Known a) ts → in_flight ts c ≡ 0
in_flight-fresh c [] le k = refl
in_flight-fresh c (t ∷ ts) le (k, ks) =
    omega (arith, open-fresh c t.frames le k.frames, in_flight-fresh c ts le ks)

pub in_flight-append :
    (c : Ref) (ts us : List Thread) → in_flight (ts ++ us) c ≡ in_flight ts c + in_flight us c
in_flight-append c [] us = omega arith
in_flight-append c (t ∷ ts) us = omega (arith, in_flight-append c ts us)

module _ (env : Env) where
  pub take_turn-Turned : (i : ℕ) (w : World) (ts : List Thread) → Turned ts w (take_turn env i w ts)
  unfolding take_turn
  take_turn-Turned i w [] = record {
    pool = refl;
    urls = λ c. refl;
    conns = λ c. refl;
    breakers = λ v. v;
  }
  take_turn-Turned zero w (t ∷ ts) =
      let e = move-Effects env t.stage t.frames w in
      record {
        pool = e.pool;
        urls = e.urls;
        conns = λ c. more_after _ _ (open_at c t.frames) _ (in_flight ts c) (e.conns c);
        breakers = e.breakers;
      }
  take_turn-Turned (suc i) w (t ∷ ts) =
      let e = take_turn-Turned i w ts in
      record {
        pool = e.pool;
        urls = e.urls;
        conns = λ c. more_before _ _ (open_at c t.frames) (in_flight ts c) _ (e.conns c);
        breakers = e.breakers;
      }

  pub take_turn-Known :
      (a : Ref) (i : ℕ) (w : World) (ts : List Thread)
      → Below a w.pool
      → All (Known a) ts
      → All (Known a) (take_turn env i w ts).1
  unfolding take_turn
  take_turn-Known a i w [] pool ks = tt
  take_turn-Known a zero w (t ∷ ts) pool (k, ks) = (move-Known env a t.stage t.frames w pool k, ks)
  take_turn-Known a (suc i) w (t ∷ ts) pool (k, ks) = (k, take_turn-Known a i w ts pool ks)
