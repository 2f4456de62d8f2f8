-- ===== src/Proxy/Overlap/Answers.antt =====
-- internal/proxy/proxy.go: what a request is answered, whatever runs between its moves.
use go_lb.Base.{
  ℕ, zero, suc, ◌≡◌, refl, ◌∙◌, Bool, true, false, Option, none, some, List, [], ◌∷◌, ◌++◌, ltb,
  ◌==◌, if◌then◌else◌, All,
}
use go_lb.Backend.{Ref, url_of}
use go_lb.CircuitBreaker.Registry.{Registry}
use go_lb.CircuitBreaker.{allow}
use go_lb.Proxy.{
  Answer, Env, World, Request, Reply, Response, answered, failed, choose, on_breaker, retriable,
  get_attempts_from_context, max_backend_switches, next_attempt, next_retry, unavailable, nothing,
}
use go_lb.Proxy.Overlap.{
  Frame, Stage, entering, filtering, selecting, asking, beginning, sending, awaiting, pausing,
  marking, blaming, returning, rating, ending, Thread, at, move, entered_at, chosen_at, asked_at,
  answered_at, take_turn,
}

module _ (env : Env) where
  -- The statuses that were written: 503 by the balancer, those that a backend answered, or none when
  -- the client went away while a retry waited.
  pub data Proper (resp : Response) : Type 0 where
    by_balancer : resp.statuses ≡ 503 ∷ [] → Proper resp
    by_backend :
        (n : ℕ) (b : Ref) (r : Request) (a : Answer)
        → env.round_trip n b r ≡ answered a
        → resp.statuses ≡ a.informational ++ a.code ∷ []
        → Proper resp
    client_gone : (n : ℕ) → env.client_gone n ≡ true → resp.statuses ≡ [] → Proper resp

  abbrev ProperAt : Stage → Type 0
  ProperAt (returning resp) = Proper resp
  ProperAt (rating resp) = Proper resp
  ProperAt (ending resp) = Proper resp
  ProperAt _ = Unit

  -- A response of a thread is proper.
  pub record Answers (t : Thread) : Type 0 where
    pub stage : ProperAt t.stage

  Proper-cookies :
      (resp resp' : Response) → resp'.statuses ≡ resp.statuses → Proper resp → Proper resp'
  Proper-cookies resp resp' e (by_balancer s) = by_balancer (e ∙ s)
  Proper-cookies resp resp' e (by_backend n b r code a s) = by_backend n b r code a (e ∙ s)
  Proper-cookies resp resp' e (client_gone n g s) = client_gone n g (e ∙ s)

  either-Proper :
      (p : Bool) (s s' : Stage)
      → (p ≡ true → ProperAt s)
      → ProperAt s'
      → ProperAt (if p then s else s')
  either-Proper true s s' k l = k refl
  either-Proper false s s' k l = l

  entered-Proper :
      (r : Request) (fs : List Frame) (w : World) (over : Bool) (reg : Option Registry)
      → Answers (entered_at r fs w over reg).1
  entered-Proper r fs w true reg = record { stage = by_balancer refl }
  entered-Proper r fs w false none = record { stage = tt }
  entered-Proper r fs w false (some _) = record { stage = tt }

  chosen-Proper :
      (r : Request) (fs : List Frame) (a : Option Ref × World) → Answers (chosen_at r fs a).1
  chosen-Proper r fs (none, w) = record { stage = by_balancer refl }
  chosen-Proper r fs (some peer, w) = record { stage = tt }

  asked-Proper :
      (r : Request) (peer : Ref) (fs : List Frame) (a : World × Bool)
      → Answers (asked_at r peer fs a).1
  asked-Proper r peer fs (w, false) = record { stage = tt }
  asked-Proper r peer fs (w, true) = record { stage = tt }

  answered-Proper :
      (n : ℕ) (b : Ref) (r : Request) (fs : List Frame) (w : World) (reply : Reply)
      → env.round_trip n b r ≡ reply
      → Answers (answered_at n b r fs w reply).1
  answered-Proper n b r fs w (answered code) e = record { stage = by_backend n b r code e refl }
  answered-Proper n b r fs w failed e = record {
    stage = either-Proper (retriable r) (pausing n b r) (marking b r) (λ t. tt) tt;
  }

  returning-Proper :
      (p q : Bool) (resp : Response) (fs : List Frame) (w w' w'' : World)
      → Proper resp
      → Answers (
          let x : World × Thread =
            if p
            then (w, at (ending resp) fs)
            else if q
            then (w', at (rating resp) fs)
            else (w'', at (ending resp) fs) in
          x.1)
  returning-Proper true q resp fs w w' w'' k = record { stage = k }
  returning-Proper false true resp fs w w' w'' k = record { stage = k }
  returning-Proper false false resp fs w w' w'' k = record { stage = k }

  move-Proper : (s : Stage) (fs : List Frame) (w : World) → ProperAt s → Answers (move env s fs w).1
  unfolding move
  move-Proper (entering r) fs w k = entered-Proper r fs w _ _
  move-Proper (filtering r all [] filtered) fs w k = record { stage = tt }
  move-Proper (filtering r all (b ∷ rest) filtered) fs w k = record { stage = tt }
  move-Proper (selecting r bs) fs w k = chosen-Proper r fs (choose env r w bs)
  move-Proper (asking r peer) fs w k =
      asked-Proper r peer fs (on_breaker env (url_of w.heap peer) allow w)
  move-Proper (beginning r peer) fs w k = record { stage = tt }
  move-Proper (sending b r) fs w k = record { stage = tt }
  move-Proper (awaiting n b r) fs w k = answered-Proper n b r fs w _ refl
  move-Proper (pausing n b r) fs w k = record {
    stage =
        either-Proper (env.client_gone n) (returning nothing) (sending b (next_retry r))
          (λ gone. client_gone n gone refl) tt;
  }
  move-Proper (marking b r) fs w k = record { stage = tt }
  move-Proper (blaming b r) fs w k = record {
    stage =
        either-Proper (ltb (get_attempts_from_context r) max_backend_switches)
          (entering (next_attempt r)) (returning unavailable) (λ few. tt) (by_balancer refl);
  }
  move-Proper (returning resp) [] w k = record { stage = k }
  move-Proper (returning resp) (f ∷ fs) w k =
      returning-Proper resp.aborted (get_attempts_from_context f.request == f.attempts) resp
        (f ∷ fs) w _ _ k
  move-Proper (rating resp) [] w k = record { stage = k }
  move-Proper (rating resp) (f ∷ fs) w k = record { stage = k }
  move-Proper (ending resp) [] w k = record { stage = k }
  move-Proper (ending resp) (f ∷ fs) w k = record { stage = Proper-cookies resp _ refl k }

  pub take_turn-Answers :
      (i : ℕ) (w : World) (ts : List Thread) → All Answers ts → All Answers (take_turn env i w ts).1
  unfolding take_turn
  take_turn-Answers i w [] ks = tt
  take_turn-Answers zero w (t ∷ ts) (k, ks) = (move-Proper t.stage t.frames w k.stage, ks)
  take_turn-Answers (suc i) w (t ∷ ts) (k, ks) = (k, take_turn-Answers i w ts ks)
