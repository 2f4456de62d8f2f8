-- ===== src/Proxy/Overlap/Effects.antt =====
-- internal/proxy/proxy.go: what one move does to the state that it shares with the other threads.
use go_lb.Base.{
  ℕ, ◌+◌, ◌≡◌, refl, sym, ap, ◌∙◌, Bool, true, false, Option, none, some, List, [], ◌∷◌, arith, leb,
  ◌==◌, if◌then◌else◌,
}
use go_lb.Base.Int.{ℤ, pos, ◌+ℤ◌, ◌-ℤ◌, int_laws}
use go_lb.Backend.{Ref, Heap, url_of, incr_conns, decr_conns}
use go_lb.CircuitBreaker.Registry.{Registry}
use go_lb.CircuitBreaker.{eligible, allow, record_success, record_failure}
use go_lb.Proxy.{
  Env, World, Reply, answered, failed, Request, Response, choose, begin_frame, end_frame, mark_down,
  tell, status_code,
}
use go_lb.Proxy.Keeps.{Keeps, on_breaker-Keeps}
use go_lb.Proxy.Breakers.{
  RegisteredIn, eligible-Registered, allowed-Registered, failed-Registered, succeeded-Registered,
}
use go_lb.Proxy.Connections.{mark-Calmed}
use go_lb.Proxy.Overlap.{
  frame_of, Frame, Stage, entering, filtering, selecting, asking, beginning, sending, awaiting,
  pausing, marking, blaming, returning, rating, ending, Thread, at, move, entered_at, chosen_at,
  asked_at, answered_at,
}

-- The connections to a backend that the frames of a thread hold, and those that all threads hold.
abbrev pub open_at : Ref → List Frame → ℕ
open_at c [] = 0
open_at c (f ∷ fs) = (if f.peer == c then 1 else 0) + open_at c fs

abbrev pub in_flight : List Thread → Ref → ℕ
in_flight [] c = 0
in_flight (t ∷ ts) c = open_at c t.frames + in_flight ts c

-- From frames and a state to a state and a thread: the backends are those of the pool before, with
-- their URLs, the connections are counted as the frames hold them, and the breakers stay in order.
pub record Effects (fs : List Frame) (w : World) (a : World × Thread) : Type 0 where
  pub pool : a.0.pool ≡ w.pool
  pub urls : (c : Ref) → url_of a.0.heap c ≡ url_of w.heap c
  pub conns :
      (c : Ref)
      → (a.0.heap c).active_conns +ℤ pos (open_at c fs)
        ≡ (w.heap c).active_conns +ℤ pos (open_at c a.1.frames)
  pub breakers : RegisteredIn w → RegisteredIn a.0

added_one : (a : ℤ) (k : ℕ) → a +ℤ pos 1 +ℤ pos k ≡ a +ℤ pos (1 + k)
added_one a k = omega int_laws

taken_one : (a : ℤ) (k : ℕ) → a -ℤ pos 1 +ℤ pos (1 + k) ≡ a +ℤ pos k
taken_one a k = omega int_laws

added_none : (a : ℤ) (k : ℕ) → a +ℤ pos k ≡ a +ℤ pos (0 + k)
added_none a k = ap (λ j. a +ℤ pos j) (omega arith)

incr-conns :
    (h : Heap) (b c : Ref) (k : ℕ)
    → (incr_conns h b c).active_conns +ℤ pos k
      ≡ (h c).active_conns +ℤ pos ((if b == c then 1 else 0) + k)
unfolding incr_conns
incr-conns h b c k = ground (arith, added_one (h b).active_conns k, added_none (h c).active_conns k)

decr-conns :
    (h : Heap) (b c : Ref) (k : ℕ)
    → (decr_conns h b c).active_conns +ℤ pos ((if b == c then 1 else 0) + k)
      ≡ (h c).active_conns +ℤ pos k
unfolding decr_conns
decr-conns h b c k = ground (arith, taken_one (h b).active_conns k, added_none (h c).active_conns k)

module _ {fs : List Frame} {w : World} (a : World × Thread) where
  -- A move that leaves the heap and the frames.
  still :
      a.0.heap ≡ w.heap
      → a.0.pool ≡ w.pool
      → a.1.frames ≡ fs
      → (RegisteredIn w → RegisteredIn a.0)
      → Effects fs w a
  still h p f b = record {
    pool = p;
    urls = λ c. ap (λ k. url_of k c) h;
    conns = λ c. λ i. (h i c).active_conns +ℤ pos (open_at c (sym f i));
    breakers = b;
  }

  -- And the breakers.
  calm :
      a.0.heap ≡ w.heap
      → a.0.pool ≡ w.pool
      → a.1.frames ≡ fs
      → a.0.cb_registry ≡ w.cb_registry
      → Effects fs w a
  calm h p f same = still h p f (λ all reg set. all reg (sym same ∙ set))

module _ (env : Env) where
  entered-Effects :
      (r : Request) (fs : List Frame) (w : World) (over : Bool) (reg : Option Registry)
      → Effects fs w (entered_at r fs w over reg)
  entered-Effects r fs w true reg = calm _ refl refl refl refl
  entered-Effects r fs w false none = calm _ refl refl refl refl
  entered-Effects r fs w false (some _) = calm _ refl refl refl refl

  chosen-Effects :
      (r : Request) (bs : List Ref) (fs : List Frame) (w : World)
      → Effects fs w (chosen_at r fs (choose env r w bs))
  unfolding choose
  chosen-Effects r bs fs w =
      calm (chosen_at r fs (choose env r w bs)) (ground arith) (ground arith) (ground arith)
        (ground arith)

  asked-Effects :
      (r : Request) (peer : Ref) (fs : List Frame) (w : World) (a : World × Bool)
      → Keeps w a.0
      → (RegisteredIn w → RegisteredIn a.0)
      → Effects fs w (asked_at r peer fs a)
  asked-Effects r peer fs w (w', false) k b = still _ k.heap k.pool refl b
  asked-Effects r peer fs w (w', true) k b = still _ k.heap k.pool refl b

  answered-Effects :
      (n : ℕ) (b : Ref) (r : Request) (fs : List Frame) (w : World) (reply : Reply)
      → Effects fs w (answered_at n b r fs w reply)
  answered-Effects n b r fs w (answered code) = calm _ refl refl refl refl
  answered-Effects n b r fs w failed = calm _ refl refl refl refl

  marking-Effects :
      (b : Ref) (r : Request) (fs : List Frame) (w : World)
      → Effects fs w (mark_down env b w, at (blaming b r) fs)
  unfolding mark_down
  marking-Effects b r fs w =
      let marked = mark-Calmed w.heap w.metrics w.pool (url_of w.heap b) in
      record {
        pool = refl;
        urls = λ c. ap (λ u. u.text) (marked c).url;
        conns = λ c. ap (λ k. k +ℤ pos (open_at c fs)) (marked c).active_conns;
        breakers = λ all. all;
      }

  beginning-Effects :
      (s : Stage) (f : Frame) (fs : List Frame) (w : World)
      → Effects fs w (begin_frame env f.peer w, at s (f ∷ fs))
  unfolding begin_frame incr_conns
  beginning-Effects s f fs w = record {
    pool = refl;
    urls = λ c. ground arith;
    conns = λ c. incr-conns w.heap f.peer c (open_at c fs);
    breakers = λ all. all;
  }

  ending-Effects :
      (s : Stage) (f : Frame) (fs : List Frame) (w : World)
      → Effects (f ∷ fs) w (end_frame env f.peer w, at s fs)
  unfolding end_frame decr_conns
  ending-Effects s f fs w = record {
    pool = refl;
    urls = λ c. ground arith;
    conns = λ c. decr-conns w.heap f.peer c (open_at c fs);
    breakers = λ all. all;
  }

  returning-Effects :
      (resp : Response) (f : Frame) (fs : List Frame) (w : World)
      → Effects (f ∷ fs) w (move env (returning resp) (f ∷ fs) w)
  unfolding move
  returning-Effects resp f fs w =
      calm (move env (returning resp) (f ∷ fs) w) (ground arith) (ground arith) (ground arith)
        (ground arith)

  either-Effects :
      (p : Bool) (s : Stage) (fs : List Frame) (w w' w'' : World)
      → Effects fs w (w', at s fs)
      → Effects fs w (w'', at s fs)
      → Effects fs w (if p then w' else w'', at s fs)
  either-Effects true s fs w w' w'' e e' = e
  either-Effects false s fs w w' w'' e e' = e'

  rating-Effects :
      (resp : Response) (f : Frame) (fs : List Frame) (w : World)
      → Effects (f ∷ fs) w (move env (rating resp) (f ∷ fs) w)
  unfolding move
  rating-Effects resp f fs w =
      let url = url_of w.heap f.peer in
      let k = on_breaker-Keeps env url (tell env record_failure) w in
      let k' = on_breaker-Keeps env url (tell env (λ _ b. record_success b)) w in
      either-Effects (leb 500 (status_code resp)) (ending resp) (f ∷ fs) w _ _
        (still _ k.heap k.pool refl (failed-Registered env url w))
        (still _ k'.heap k'.pool refl (succeeded-Registered env url w))

  pub move-Effects : (s : Stage) (fs : List Frame) (w : World) → Effects fs w (move env s fs w)
  unfolding move
  move-Effects (entering r) fs w = entered-Effects r fs w _ _
  move-Effects (filtering r all [] filtered) fs w = calm _ refl refl refl refl
  move-Effects (filtering r all (b ∷ rest) filtered) fs w =
      let k = on_breaker-Keeps env (url_of w.heap b) (λ t cb. (cb, eligible t cb)) w in
      still _ k.heap k.pool refl (eligible-Registered env (url_of w.heap b) w)
  move-Effects (selecting r bs) fs w = chosen-Effects r bs fs w
  move-Effects (asking r peer) fs w =
      asked-Effects r peer fs w _ (on_breaker-Keeps env (url_of w.heap peer) allow w)
        (allowed-Registered env (url_of w.heap peer) w)
  move-Effects (beginning r peer) fs w = beginning-Effects _ (frame_of env r peer w) fs w
  move-Effects (sending b r) fs w = calm _ refl refl refl refl
  move-Effects (awaiting n b r) fs w = answered-Effects n b r fs w _
  move-Effects (pausing n b r) fs w = calm _ refl refl refl refl
  move-Effects (marking b r) fs w = marking-Effects b r fs w
  move-Effects (blaming b r) fs w =
      let k = on_breaker-Keeps env (url_of w.heap b) (tell env record_failure) w in
      still _ k.heap k.pool refl (failed-Registered env (url_of w.heap b) w)
  move-Effects (returning resp) [] w = calm _ refl refl refl refl
  move-Effects (returning resp) (f ∷ fs) w = returning-Effects resp f fs w
  move-Effects (rating resp) [] w = calm _ refl refl refl refl
  move-Effects (rating resp) (f ∷ fs) w = rating-Effects resp f fs w
  move-Effects (ending resp) [] w = calm _ refl refl refl refl
  move-Effects (ending resp) (f ∷ fs) w = ending-Effects _ f fs w
