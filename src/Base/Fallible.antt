-- ===== src/Base/Fallible.antt =====
-- What holds of the result of a fallible computation, if there is one.
use mathlib.Core.Option.{Option, none, some}
use mathlib.Core.Path.{◌≡◌, subst}
use mathlib.Core.Bool.{Bool, true, false}
use satpi.Base.Tests.{if◌then◌else◌, some_injective}
use satpi.Base.Bytes.{◌>>=◌}

pub data Results {A : Type 0} (P : A → Type 0) : Option A → Type 0 where
  stops : Results P none
  gives : {a : A} → P a → Results P (some a)

module _ {A : Type 0} {P : A → Type 0} where
  pub Results-if :
      (b : Bool) {x y : Option A} → Results P x → Results P y → Results P (if b then x else y)
  Results-if true h g = h
  Results-if false h g = g

  -- The property of an intermediate result may be another.
  pub Results-bind :
      {B : Type 0} {Q : B → Type 0} {m : Option B} {f : B → Option A}
      → Results Q m
      → ((b : B) → Q b → Results P (f b))
      → Results P (m >>= f)
  Results-bind stops g = stops
  Results-bind (gives {a} h) g = g a h

  -- What is read on the way does not matter.
  pub Results-read :
      {B : Type 0} (m : Option B) {f : B → Option A}
      → ((b : B) → Results P (f b))
      → Results P (m >>= f)
  Results-read none g = stops
  Results-read (some b) g = g b

  pub Results-some : {m : Option A} {a : A} → Results P m → m ≡ some a → P a
  Results-some stops e = absurd (cc)
  Results-some (gives {a} h) e = subst P (some_injective a _ e) h
