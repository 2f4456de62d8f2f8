-- ===== src/Algo/Best.antt =====
-- The loop that two of the algorithms share (internal/algo): keep the first of the best live
-- backends, by a test that says when a later one beats the one kept.
use mathlib.Core.List.{append_assoc, append-nil}
use go_lb.Base.{
  ◌≡◌, refl, sym, ap, ◌∙◌, subst, inl, inr, Bool, true, false, not, Option, none, some, List, [],
  ◌∷◌, ◌++◌, if◌then◌else◌, Bool-cases, All, In, In-All, All-append, All-map, In-middle,
}
use go_lb.Backend.{Ref}

module _ (live : Ref → Bool) (beats : Ref → Ref → Bool) where
  abbrev pub keep : Option Ref → Ref → Option Ref
  keep best b =
      if not (live b)
      then best
      else elim best [ none ↦ some b | some c ↦ if beats b c then some b else some c ]

  abbrev pub best_of : Option Ref → List Ref → Option Ref
  best_of best [] = best
  best_of best (b ∷ bs) = best_of (keep best b) bs

  -- The one kept is live, beats the live ones before it, and no live one after it beats it.
  pub data First (bs : List Ref) : Option Ref → Type 0 where
    first :
        (before : List Ref) (b : Ref) (after : List Ref)
        → bs ≡ before ++ b ∷ after
        → live b ≡ true
        → All (λ x. live x ≡ true → beats b x ≡ true) before
        → All (λ x. live x ≡ true → beats x b ≡ false) after
        → First bs (some b)
    nobody : All (λ x. live x ≡ false) bs → First bs none

  -- No live backend of the list beats the one kept.
  pub First-unbeaten :
      ((x y : Ref) → beats x y ≡ true → beats y x ≡ false)
      → ((x : Ref) → beats x x ≡ false)
      → (bs : List Ref) {c : Ref} → First bs (some c)
      → (b : Ref) → In b bs
      → live b ≡ true
      → beats b c ≡ false
  First-unbeaten asym irr bs f b m l = go f refl
    where
      go : {o : Option Ref} {c : Ref} → First bs o → o ≡ some c → beats b c ≡ false
      go {c} (first before k after e on lose keep_up) s =
          let all =
            All-append _ before (k ∷ after) (All-map _ _ (λ x g y. asym k x (g y)) before lose)
              (λ _. irr k, keep_up) in
          let same : k ≡ c = cc in
          subst (λ t. beats b t ≡ false) same
            (In-All (λ x. live x ≡ true → beats x k ≡ false) _ all (subst (In b) e m) l)
      go (nobody dead) s = absurd (cc)

  pub First-In : (bs : List Ref) {b : Ref} → First bs (some b) → In b bs × (live b ≡ true)
  First-In bs f = go f refl
    where
      go : {o : Option Ref} {b : Ref} → First bs o → o ≡ some b → In b bs × (live b ≡ true)
      go {b} (first before c after e l p q) s =
          let same : c ≡ b = cc in
          subst (λ t. In t bs × (live t ≡ true)) same
            (subst (In c) (sym e) (In-middle before c after), l)
      go (nobody d) s = absurd (cc)

  module _ (win : (x b y : Ref) → beats x b ≡ true → beats b y ≡ true → beats x y ≡ true)
      (pass : (x b y : Ref) → beats x b ≡ true → beats y b ≡ false → beats x y ≡ true) where
    overtake :
        (before : List Ref) (b : Ref) (after : List Ref) (x : Ref)
        → All (λ y. live y ≡ true → beats b y ≡ true) before
        → All (λ y. live y ≡ true → beats y b ≡ false) after
        → beats x b ≡ true
        → All (λ y. live y ≡ true → beats x y ≡ true) (before ++ b ∷ after)
    overtake before b after x lose keep_up wins =
        All-append _ before (b ∷ after) (All-map _ _ (λ y f l. win x b y wins (f l)) before lose)
          (λ _. wins, All-map _ _ (λ y f l. pass x b y wins (f l)) after keep_up)

    lag :
        (xs before : List Ref) (b : Ref) (after : List Ref) (x : Ref)
        → xs ≡ before ++ b ∷ after
        → live b ≡ true
        → All (λ y. live y ≡ true → beats b y ≡ true) before
        → All (λ y. live y ≡ true → beats y b ≡ false) after
        → (live x ≡ true → beats x b ≡ false)
        → First (xs ++ x ∷ []) (some b)
    lag xs before b after x e l lose keep_up behind =
        first before b (after ++ x ∷ [])
          (ap (λ t. t ++ x ∷ []) e ∙ append_assoc before (b ∷ after) (x ∷ [])) l lose
          (All-append _ after (x ∷ []) keep_up (behind, tt))

    keep-First :
        (xs : List Ref) (x : Ref) {best : Option Ref}
        → First xs best
        → First (xs ++ x ∷ []) (keep best x)
    keep-First xs x (first before b after e l lose keep_up) = elim (Bool-cases (live x)) [
      | inr dead ↦ rw dead (lag xs before b after x e l lose keep_up (λ on. absurd (cc)))
      | inl alive ↦ rw alive (elim (Bool-cases (beats x b)) [
        | inl wins ↦
            rw wins
              (first xs x [] refl alive (rw e (overtake before b after x lose keep_up wins)) tt)
        | inr loses ↦ rw loses (lag xs before b after x e l lose keep_up (λ _. loses))
      ])
    ]
    keep-First xs x (nobody dead) = elim (Bool-cases (live x)) [
      | inr off ↦ rw off (nobody (All-append _ xs (x ∷ []) dead (off, tt)))
      | inl alive ↦
          rw alive (first xs x [] refl alive (All-map _ _ (λ y d l. absurd (cc)) xs dead) tt)
    ]

    pub best_of-First :
        (xs bs : List Ref) {best : Option Ref} → First xs best → First (xs ++ bs) (best_of best bs)
    best_of-First xs [] f = rw append-nil f
    best_of-First xs (b ∷ bs) {best} f =
        subst (λ t. First t (best_of best (b ∷ bs))) (append_assoc xs (b ∷ []) bs)
          (best_of-First (xs ++ b ∷ []) bs (keep-First xs b f))
