-- ===== src/Vat/Outcomes.antt =====
-- What an action of a task leaves behind, and what it passed when it returned: the outcomes of the
-- handlers of Equipment2015/DVH_VAT/Load1/Tasks and of Execute of DVH_Library/include/NonBlockingTaskBase.h.
use Prim.Native.String.{String}
use vision_motion_framework.Prelude.{
  ◌≡◌, refl, ap, ◌≢◌, Bool, true, false, Option, none, some, arith,
}
use vision_motion_framework.Vat.World.{World, Outcome, ret, throw, undefined, M, ◌>>=◌, deref}
use vision_motion_framework.Vat.Task.{
  TaskResult, tr_error, or_fail, given_or_fail, set_error_and_return,
}

-- What an outcome leaves behind satisfies P; an undefined one has left the language's rules.
abbrev pub Leaves : {W A : Type 0} → (W → Type 0) → Outcome W A → Type 0
Leaves P (ret a w) = P w
Leaves P (throw e w) = P w
Leaves P undefined = Unit {0}

abbrev pub LeavesSome : {W : Type 0} → (W → Type 0) → Option W → Type 0
LeavesSome P none = Unit {0}
LeavesSome P (some w) = P w

-- What the first of two actions leaves is what the second one starts from.
module _ {W A B : Type 0} (P Q : W → Type 0) where
  pub Leaves-bind :
      (m : M W A) (f : A → M W B) (w : W)
      → Leaves P (m w)
      → ((u : W) → P u → Q u)
      → ((a : A) (u : W) → P u → Leaves Q (f a u))
      → Leaves Q ((m >>= f) w)
  Leaves-bind m f w l weaken rest = go (m w) l
    where
      go :
          (o : Outcome W A)
          → Leaves P o
          → Leaves Q (elim o [ ret a u ↦ f a u | throw e u ↦ throw e u | undefined ↦ undefined ])
      go (ret a u) l = rest a u l
      go (throw e u) l = weaken u l
      go undefined l = tt

pub ret-result :
    {W A : Type 0} {o : Outcome W A} {a b : A} {w : W} → o ≡ ret a w → a ≡ b → o ≡ ret b w
ret-result e same = cc

-- When both of two actions returned, so did each of them.
pub bind-ret :
    {W A B : Type 0} (m : M W A) (f : A → M W B) (w : W) (b : B) (w' : W)
    → (m >>= f) w ≡ ret b w'
    → (a : A) × (u : W) × (m w ≡ ret a u) × (f a u ≡ ret b w')
bind-ret {W} {A} {B} m f w b w' e = go (m w) refl e
  where
    go :
        (o : Outcome W A)
        → m w ≡ o
        → elim o [ ret a u ↦ f a u | throw e u ↦ throw e u | undefined ↦ undefined ] ≡ ret b w'
        → (a : A) × (u : W) × (m w ≡ ret a u) × (f a u ≡ ret b w')
    go (ret a u) at e = (a, u, at, e)
    go (throw t u) at e = cc
    go undefined at e = cc

pub bind-after :
    {W A B : Type 0} (m : M W A) (f : A → M W B) (w u : W) (a : A)
    → m w ≡ ret a u
    → (m >>= f) w ≡ f a u
bind-after m f w u a e =
    ap (λ o. elim o [ ret a u ↦ f a u | throw e u ↦ throw e u | undefined ↦ undefined ]) e

-- An element was read only if it is there.
pub deref-ret :
    {W A B : Type 0} (o : Option A) (f : A → M W B) (w : W) (b : B) (w' : W)
    → (deref o >>= f) w ≡ ret b w'
    → (a : A) × (o ≡ some a) × (f a w ≡ ret b w')
deref-ret none f w b w' e = cc
deref-ret (some a) f w b w' e = (a, refl, e)

-- A handler that did not fail passed its tests.
module _ {S T D : Type 0} (r : TaskResult) (w w' : World S T D) (ok : r ≢ tr_error) where
  pub or_fail-ret :
      (b : Bool) (message : String) (rest : M (World S T D) TaskResult)
      → or_fail b message rest w ≡ ret r w'
      → (b ≡ true) × (rest w ≡ ret r w')
  or_fail-ret true message rest e = (refl, e)
  or_fail-ret false message rest e = absurd (ok (ground arith))

  pub given_or_fail-ret :
      {A : Type 0} (o : Option A) (message : String) (rest : A → M (World S T D) TaskResult)
      → given_or_fail o message rest w ≡ ret r w'
      → (a : A) × (o ≡ some a) × (rest a w ≡ ret r w')
  given_or_fail-ret none message rest e = absurd (ok (ground arith))
  given_or_fail-ret (some a) message rest e = (a, refl, e)

pub Leaves-deref :
    {W A B : Type 0} (P : W → Type 0) (o : Option A) (f : A → M W B) (w : W)
    → ((a : A) → Leaves P (f a w))
    → Leaves P ((deref o >>= f) w)
Leaves-deref P none f w more = tt
Leaves-deref P (some a) f w more = more a

-- A test keeps what the failed object and the rest keep.
module _ {S T D : Type 0} (P : World S T D → Type 0) (message : String) (w : World S T D)
    (failed : Leaves P (set_error_and_return message w)) where
  pub Leaves-or_fail :
      (b : Bool) (rest : M (World S T D) TaskResult)
      → Leaves P (rest w)
      → Leaves P (or_fail b message rest w)
  Leaves-or_fail true rest l = l
  Leaves-or_fail false rest l = failed

  pub Leaves-given_or_fail :
      {A : Type 0} (o : Option A) (rest : A → M (World S T D) TaskResult)
      → ((a : A) → Leaves P (rest a w))
      → Leaves P (given_or_fail o message rest w)
  Leaves-given_or_fail none rest l = failed
  Leaves-given_or_fail (some a) rest l = l a
