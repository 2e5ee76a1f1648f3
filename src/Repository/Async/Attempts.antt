-- ===== src/Repository/Async/Attempts.antt =====
-- The calls that DVH_Library/src/AsyncDataRepository.cpp makes of the inner repository.
use vision_motion_framework.Prelude.{
  ℕ, zero, suc, ◌+◌, ◌<◌, ◌≡◌, refl, sym, ap, ◌∙◌, Bool, true, false, ◌==◌, if◌then◌else◌, inl, inr,
  some, List, [], ◌∷◌, ◌++◌, replicate, append-nil, append_assoc, subst, arith,
}
use vision_motion_framework.Repository.Async.{
  Write, Writer, idle, saving, ended, AsyncRepository, Handled, take_or_end, after_attempt,
  handled_by, queued_writes, max_retries, Reaches, here, accepts, stops, takes, attempts, skips,
  returns,
}
use vision_motion_framework.Repository.Async.Queued.{writer-accept, take_or_end-cases}

replicate_last : {A : Type 0} (n : ℕ) (x : A) → replicate n x ++ (x ∷ []) ≡ replicate (suc n) x
replicate_last zero x = refl
replicate_last (suc n) x = ap (◌∷◌ x) (replicate_last n x)

module _ {D : Type 0} where
  -- The attempts at a write that is done with.
  abbrev pub attempts_at : Handled D → List (Write D × Bool)
  attempts_at x =
      replicate x.failures (x.write, false) ++ (if x.saved then (x.write, true) ∷ [] else [])

  abbrev pub all_attempts : List (Handled D) → List (Write D × Bool)
  all_attempts [] = []
  all_attempts (x ∷ h) = attempts_at x ++ all_attempts h

  -- The failed attempts at the write that the thread is busy with.
  abbrev pub unfinished : Writer D → List (Write D × Bool)
  unfinished idle = []
  unfinished (saving [] n) = []
  unfinished (saving (c ∷ cs) n) = replicate n (c, false)
  unfinished ended = []

  -- A write was saved behind two failures at most, or given up behind three.
  abbrev pub IsSettled : Handled D → Type 0
  IsSettled x = if x.saved then x.failures < 3 else (x.failures ≡ 3)

  abbrev pub AllSettled : List (Handled D) → Type 0
  AllSettled [] = Unit {0}
  AllSettled (x ∷ h) = IsSettled x × AllSettled h

  abbrev IsShort : Writer D → Type 0
  IsShort (saving cs n) = n < 3
  IsShort _ = Unit {0}

  all_attempts-append :
      (h h' : List (Handled D)) → all_attempts (h ++ h') ≡ all_attempts h ++ all_attempts h'
  all_attempts-append [] h' = refl
  all_attempts-append (x ∷ h) h' =
      ap (λ t. attempts_at x ++ t) (all_attempts-append h h')
      ∙ sym (append_assoc (attempts_at x) (all_attempts h) (all_attempts h'))

  AllSettled-append :
      (h h' : List (Handled D)) → AllSettled h → AllSettled h' → AllSettled (h ++ h')
  AllSettled-append [] h' a b = b
  AllSettled-append (x ∷ h) h' a b = (a.0, AllSettled-append h h' a.1 b)

  unfinished-saving : (cs : List (Write D)) → unfinished (saving cs 0) ≡ []
  unfinished-saving [] = refl
  unfinished-saving (c ∷ cs) = refl

  unfinished-attempt :
      (ok : Bool) (c : Write D) (cs : List (Write D)) (n : ℕ)
      → replicate n (c, false) ++ ((c, ok) ∷ [])
        ≡ all_attempts (handled_by ok c n) ++ unfinished (after_attempt ok c cs n)
  unfolding handled_by after_attempt
  unfinished-attempt true c cs n =
      sym (append-nil _)
      ∙ sym (append-nil _)
      ∙ ap (λ t. ((replicate n (c, false) ++ ((c, true) ∷ [])) ++ []) ++ t)
          (sym (unfinished-saving cs))
  unfinished-attempt false c cs n = go (n + 1 == max_retries)
    where
      next : n + 1 ≡ suc n
      next = omega arith

      go :
          (b : Bool)
          → replicate n (c, false) ++ ((c, false) ∷ [])
            ≡ all_attempts
                (if b then record { write = c; failures = n + 1; saved = false } ∷ [] else [])
              ++ unfinished (if b then saving cs 0 else saving (c ∷ cs) (n + 1))
      go true =
          rw (next, unfinished-saving cs)
            (replicate_last {A = Write D × Bool} n (c, false)
              ∙ sym (append-nil _)
              ∙ sym (append-nil _)
              ∙ sym (append-nil _))
      go false = rw next (replicate_last {A = Write D × Bool} n (c, false))

  settled_by :
      (ok : Bool) (c : Write D) (cs : List (Write D)) (n : ℕ)
      → n < 3
      → AllSettled (handled_by ok c n) × IsShort (after_attempt ok c cs n)
  unfolding handled_by after_attempt
  settled_by ok c cs n h = ground arith

  -- Where the thread stands in its loop, and what it has done.
  record IsLogged (h : List (Handled D)) (l : List (Write D × Bool)) (w : Writer D) : Type 0 where
    made : l ≡ all_attempts h ++ unfinished w
    settled : AllSettled h
    short : IsShort w

  IsLogged-take :
      (u v : AsyncRepository D) (h : List (Handled D)) (l : List (Write D × Bool))
      → u.writer ≡ idle
      → take_or_end u ≡ some v
      → IsLogged h l u.writer
      → IsLogged h l v.writer
  IsLogged-take u v h l still e i = elim (take_or_end-cases u v e) [
    | inl (end, empty) ↦ record {
      made =
          i.made
          ∙ ap (λ w. all_attempts h ++ unfinished w) still
          ∙ ap (λ (r : AsyncRepository D). all_attempts h ++ unfinished r.writer) (sym end);
      settled = i.settled;
      short = subst (λ (r : AsyncRepository D). IsShort r.writer) (sym end) tt;
    }
    | inr all ↦ record {
      made =
          i.made
          ∙ ap (λ w. all_attempts h ++ unfinished w) still
          ∙ ap (λ t. all_attempts h ++ t) (sym (unfinished-saving (queued_writes u)))
          ∙ ap (λ (r : AsyncRepository D). all_attempts h ++ unfinished r.writer) (sym all);
      settled = i.settled;
      short = subst (λ (r : AsyncRepository D). IsShort r.writer) (sym all) (omega arith);
    }
  ]

  Reaches-IsLogged :
      (r u : AsyncRepository D) (a : List (Write D)) (h : List (Handled D))
      (l : List (Write D × Bool))
      → r.writer ≡ idle
      → Reaches true r a h l u
      → IsLogged h l u.writer
  Reaches-IsLogged r u _ _ _ still here =
      subst (λ w. IsLogged [] [] w) (sym still) (record { made = refl; settled = tt; short = tt })
  Reaches-IsLogged r u _ h l still (accepts {a = a} {u = v} c steps) =
      subst (λ w. IsLogged h l w) (sym (writer-accept c v)) (Reaches-IsLogged r v a h l still steps)
  Reaches-IsLogged r u a h l still (stops {u = v} steps) = Reaches-IsLogged r v a h l still steps
  Reaches-IsLogged r u a h l still (takes {u = v} at e steps) =
      IsLogged-take v u h l at e (Reaches-IsLogged r v a h l still steps)
  Reaches-IsLogged r u a _ _ still (attempts {h = h} {l = l} {u = v} ok c cs n on at steps) =
      let i = subst (λ w. IsLogged h l w) at (Reaches-IsLogged r v a h l still steps) in
      let s = settled_by ok c cs n i.short in
      record {
        made =
            ap (λ t. t ++ ((c, ok) ∷ [])) i.made
            ∙ append_assoc (all_attempts h) (replicate n (c, false)) ((c, ok) ∷ [])
            ∙ ap (λ t. all_attempts h ++ t) (unfinished-attempt ok c cs n)
            ∙ sym (append_assoc (all_attempts h) (all_attempts (handled_by ok c n)) _)
            ∙ ap (λ t. t ++ unfinished (after_attempt ok c cs n))
                (sym (all_attempts-append h (handled_by ok c n)));
        settled = AllSettled-append h (handled_by ok c n) i.settled s.0;
        short = s.1;
      }
  Reaches-IsLogged r u a _ l still (skips c cs n off at steps) = cc
  Reaches-IsLogged r u a h l still (returns {u = v} n at steps) =
      let i = subst (λ w. IsLogged h l w) at (Reaches-IsLogged r v a h l still steps) in
      record { made = i.made; settled = i.settled; short = tt }

  -- With an inner repository, from a thread that waits on: the calls of the inner repository are, for
  -- each handled write in turn, up to two failures and a success if it was saved, or three failures if it
  -- was given up, and then the failures so far of the write that the thread is busy with.
  pub attempts_made :
      (r u : AsyncRepository D) (a : List (Write D)) (h : List (Handled D))
      (l : List (Write D × Bool))
      → r.writer ≡ idle
      → Reaches true r a h l u
      → (l ≡ all_attempts h ++ unfinished u.writer) × AllSettled h
  attempts_made r u a h l still steps =
      let i = Reaches-IsLogged r u a h l still steps in (i.made, i.settled)
