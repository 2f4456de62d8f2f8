-- ===== src/Proxy/Overlap/Known.antt =====
-- internal/proxy/proxy.go: the backends that a thread holds are allocated.
use go_lb.Base.{
  ℕ, ◌≤◌, ◌<◌, ◌≡◌, refl, ap, inl, inr, Bool, true, false, Option, none, some, List, [], ◌∷◌, ◌++◌,
  arith, ltb, ◌==◌, if◌then◌else◌, length, All, In-All, All-append, All-map,
}
use go_lb.CircuitBreaker.Registry.{Registry}
use go_lb.Backend.{Ref}
use go_lb.Proxy.{
  Env, World, Reply, answered, failed, Request, choose, retriable, get_attempts_from_context,
  max_backend_switches, next_attempt, next_retry, unavailable, nothing,
}
use go_lb.Proxy.Total.{choice-cases}
use go_lb.Proxy.Selection.{choose-live}
use go_lb.Proxy.Overlap.{
  Frame, Stage, entering, filtering, selecting, asking, beginning, sending, awaiting, pausing,
  marking, blaming, returning, rating, ending, Thread, at, move, entered_at, asked_at, answered_at,
}
use go_lb.Proxy.Overlap.Effects.{open_at}

-- Below the reference from which on nothing is allocated.
abbrev pub Below : Ref → List Ref → Type 0
Below a bs = All (λ b. b < a) bs

abbrev KnownAt : Ref → Stage → Type 0
KnownAt a (filtering r all rest filtered) = Below a all × Below a rest × Below a filtered
KnownAt a (selecting r bs) = Below a bs
KnownAt a (asking r peer) = peer < a
KnownAt a (beginning r peer) = peer < a
KnownAt a _ = Unit

pub record Known (a : Ref) (t : Thread) : Type 0 where
  pub stage : KnownAt a t.stage
  pub frames : All (λ f. f.peer < a) t.frames

Below-le : {a a' : Ref} → a ≤ a' → (bs : List Ref) → Below a bs → Below a' bs
Below-le le bs = All-map _ _ (λ b lt. omega arith) bs

KnownAt-le : {a a' : Ref} → a ≤ a' → (s : Stage) → KnownAt a s → KnownAt a' s
KnownAt-le le (entering r) k = tt
KnownAt-le le (filtering r all rest filtered) k =
    (Below-le le all k.0, Below-le le rest k.1, Below-le le filtered k.2)
KnownAt-le le (selecting r bs) k = Below-le le bs k
KnownAt-le le (asking r peer) k = omega arith
KnownAt-le le (beginning r peer) k = omega arith
KnownAt-le le (sending b r) k = tt
KnownAt-le le (awaiting n b r) k = tt
KnownAt-le le (pausing n b r) k = tt
KnownAt-le le (marking b r) k = tt
KnownAt-le le (blaming b r) k = tt
KnownAt-le le (returning resp) k = tt
KnownAt-le le (rating resp) k = tt
KnownAt-le le (ending resp) k = tt

pub Known-le : {a a' : Ref} → a ≤ a' → (t : Thread) → Known a t → Known a' t
Known-le le t k = record {
  stage = KnownAt-le le t.stage k.stage;
  frames = All-map _ _ (λ f lt. omega arith) t.frames k.frames;
}

pub open-fresh :
    {a : Ref} (c : Ref) (fs : List Frame) → a ≤ c → All (λ f. f.peer < a) fs → open_at c fs ≡ 0
open-fresh c [] le k = refl
open-fresh c (f ∷ fs) le (lt, k) = ground (arith, open-fresh c fs le k)

if-Below :
    (a : Ref) (p : Bool) (xs ys : List Ref)
    → Below a xs
    → Below a ys
    → Below a (if p then xs else ys)
if-Below a true xs ys k l = k
if-Below a false xs ys k l = l

either-Known :
    (a : Ref) (p : Bool) (s s' : Stage)
    → KnownAt a s
    → KnownAt a s'
    → KnownAt a (if p then s else s')
either-Known a true s s' k l = k
either-Known a false s s' k l = l

module _ (env : Env) (a : Ref) where
  -- A move leads to a place with allocated backends.
  abbrev Moves : Stage → List Frame → World → Type 0
  Moves s fs w = Known a (move env s fs w).1

  entered-Known :
      (r : Request) (fs : List Frame) (w : World) (over : Bool) (reg : Option Registry)
      → Below a w.pool
      → All (λ f. f.peer < a) fs
      → Known a (entered_at r fs w over reg).1
  entered-Known r fs w true reg pool frames = record { stage = tt; frames = frames }
  entered-Known r fs w false none pool frames = record { stage = pool; frames = frames }
  entered-Known r fs w false (some _) pool frames = record {
    stage = (pool, pool, tt);
    frames = frames;
  }

  chosen-Known :
      (r : Request) (bs : List Ref) (fs : List Frame) (w : World)
      → Below a bs
      → All (λ f. f.peer < a) fs
      → Moves (selecting r bs) fs w
  unfolding move
  chosen-Known r bs fs w known frames = elim (choice-cases (choose env r w bs)) [
    | inl (w', e) ↦ rw e (record { stage = tt; frames = frames })
    | inr (peer, w', e) ↦ rw e (record {
      stage = In-All _ bs known (choose-live env r w bs peer (ap (λ x. x.0) e)).0;
      frames = frames;
    })
  ]

  asked-Known :
      (r : Request) (peer : Ref) (fs : List Frame) (b : World × Bool)
      → peer < a
      → All (λ f. f.peer < a) fs
      → Known a (asked_at r peer fs b).1
  asked-Known r peer fs (w, false) lt frames = record { stage = tt; frames = frames }
  asked-Known r peer fs (w, true) lt frames = record { stage = lt; frames = frames }

  answered-Known :
      (n : ℕ) (b : Ref) (r : Request) (fs : List Frame) (w : World) (reply : Reply)
      → All (λ f. f.peer < a) fs
      → Known a (answered_at n b r fs w reply).1
  answered-Known n b r fs w (answered code) frames = record { stage = tt; frames = frames }
  answered-Known n b r fs w failed frames = record {
    stage = either-Known a (retriable r) (pausing n b r) (marking b r) tt tt;
    frames = frames;
  }

  returned-Known :
      (p q : Bool) {s s' : Stage} {fs : List Frame} (w w' w'' : World)
      → Known a (at s fs)
      → Known a (at s' fs)
      → Known a (
          let x : World × Thread =
            if p then (w, at s fs) else if q then (w', at s' fs) else (w'', at s fs) in
          x.1)
  returned-Known true q w w' w'' k l = k
  returned-Known false true w w' w'' k l = l
  returned-Known false false w w' w'' k l = k

  pub move-Known :
      (s : Stage) (fs : List Frame) (w : World) → Below a w.pool → Known a (at s fs) → Moves s fs w
  unfolding move
  move-Known (entering r) fs w pool k = entered-Known r fs w _ _ pool k.frames
  move-Known (filtering r all [] filtered) fs w pool k = record {
    stage = if-Below a (length filtered == 0) all filtered k.stage.0 k.stage.2;
    frames = k.frames;
  }
  move-Known (filtering r all (b ∷ rest) filtered) fs w pool k = record {
    stage = (
      k.stage.0,
      k.stage.1.1,
      if-Below a _ (filtered ++ b ∷ []) filtered
          (All-append _ filtered (b ∷ []) k.stage.2 (k.stage.1.0, tt)) k.stage.2,
    );
    frames = k.frames;
  }
  move-Known (selecting r bs) fs w pool k = chosen-Known r bs fs w k.stage k.frames
  move-Known (asking r peer) fs w pool k = asked-Known r peer fs _ k.stage k.frames
  move-Known (beginning r peer) fs w pool k = record { stage = tt; frames = (k.stage, k.frames) }
  move-Known (sending b r) fs w pool k = record { stage = tt; frames = k.frames }
  move-Known (awaiting n b r) fs w pool k = answered-Known n b r fs w _ k.frames
  move-Known (pausing n b r) fs w pool k = record {
    stage = either-Known a (env.client_gone n) (returning nothing) (sending b (next_retry r)) tt tt;
    frames = k.frames;
  }
  move-Known (marking b r) fs w pool k = record { stage = tt; frames = k.frames }
  move-Known (blaming b r) fs w pool k = record {
    stage =
        either-Known a (ltb (get_attempts_from_context r) max_backend_switches)
          (entering (next_attempt r)) (returning unavailable) tt tt;
    frames = k.frames;
  }
  move-Known (returning resp) [] w pool k = k
  move-Known (returning resp) (f ∷ fs) w pool k =
      returned-Known resp.aborted (get_attempts_from_context f.request == f.attempts) w _ _
        (record { stage = tt; frames = k.frames }) (record { stage = tt; frames = k.frames })
  move-Known (rating resp) [] w pool k = record { stage = tt; frames = tt }
  move-Known (rating resp) (f ∷ fs) w pool k = record { stage = tt; frames = k.frames }
  move-Known (ending resp) [] w pool k = record { stage = tt; frames = tt }
  move-Known (ending resp) (f ∷ fs) w pool k = record { stage = tt; frames = k.frames.1 }
