-- ===== src/Common/Outcomes.antt =====
-- How a run can end: what every value that it returns satisfies, where a fault and an exit are
-- allowed and a loop without an end is not.
use mathlib.Core.Bool.{Bool, true, false}
use mathlib.Core.Path.{◌≡◌, refl, subst}
use mathlib.Core.Logic.{◌≢◌}
use jm_bus.Common.Commands.{Run, ok, fault, exits, out_of_fuel, Cmd, and_then}
use jm_bus.Common.Tests.{if◌then◌else◌}

module _ {W A : Type 0} where
  abbrev pub Settles : Run W A → (A → W → Type 0) → Type 0
  Settles (ok a w) P = P a w
  Settles (fault f) P = Unit {0}
  Settles (exits n) P = Unit {0}
  Settles out_of_fuel P = ⊥

  -- The run is not cut off.
  abbrev pub Ends : Run W A → Type 0
  Ends r = Settles r (λ _ _. Unit {0})

  pub Ends-not_cut : (r : Run W A) → Ends r → r ≢ out_of_fuel
  Ends-not_cut (ok a w) h e = cc
  Ends-not_cut (fault f) h e = cc
  Ends-not_cut (exits n) h e = cc
  Ends-not_cut out_of_fuel h e = h

  pub Settles_mono :
      (r : Run W A) (P Q : A → W → Type 0)
      → Settles r P
      → ((a : A) (w : W) → P a w → Q a w)
      → Settles r Q
  Settles_mono (ok a w) P Q h f = f a w h
  Settles_mono (fault e) P Q h f = tt
  Settles_mono (exits n) P Q h f = tt
  Settles_mono out_of_fuel P Q h f = h

  pub Settles-ok :
      (r : Run W A) (P : A → W → Type 0) (a : A) (w : W) → Settles r P → r ≡ ok a w → P a w
  Settles-ok r P a w h e = subst (λ r. Settles r P) e h

  -- A test in front of two commands.
  pub Settles-if :
      (b : Bool) (m n : Cmd W A) (w : W) (P : A → W → Type 0)
      → (b ≡ true → Settles (m w) P)
      → (b ≡ false → Settles (n w) P)
      → Settles ((if b then m else n) w) P
  Settles-if true m n w P yes_case no_case = yes_case refl
  Settles-if false m n w P yes_case no_case = no_case refl

module _ {W A B : Type 0} where
  -- A command and then what it continues with.
  pub Settles-and_then :
      (r : Run W A) (k : A → Cmd W B) (P : A → W → Type 0) (Q : B → W → Type 0)
      → Settles r P
      → ((a : A) (w : W) → P a w → Settles (k a w) Q)
      → Settles (and_then r k) Q
  Settles-and_then (ok a w) k P Q h f = f a w h
  Settles-and_then (fault e) k P Q h f = tt
  Settles-and_then (exits n) k P Q h f = tt
  Settles-and_then out_of_fuel k P Q h f = h

  pub Ends-and_then :
      (r : Run W A) (k : A → Cmd W B)
      → Ends r
      → ((a : A) (w : W) → Ends (k a w))
      → Ends (and_then r k)
  Ends-and_then r k h f =
      Settles-and_then r k (λ _ _. Unit {0}) (λ _ _. Unit {0}) h (λ a w _. f a w)

-- What every value that a run returns satisfies, however else the run may end.
module _ {W A : Type 0} where
  abbrev pub Yields : Run W A → (A → W → Type 0) → Type 0
  Yields (ok a w) P = P a w
  Yields (fault f) P = Unit {0}
  Yields (exits n) P = Unit {0}
  Yields out_of_fuel P = Unit {0}

  pub Yields_any : (r : Run W A) → Yields r (λ _ _. Unit {0})
  Yields_any (ok a w) = tt
  Yields_any (fault f) = tt
  Yields_any (exits n) = tt
  Yields_any out_of_fuel = tt

  pub Yields_mono :
      (r : Run W A) (P Q : A → W → Type 0)
      → Yields r P
      → ((a : A) (w : W) → P a w → Q a w)
      → Yields r Q
  Yields_mono (ok a w) P Q h f = f a w h
  Yields_mono (fault e) P Q h f = tt
  Yields_mono (exits n) P Q h f = tt
  Yields_mono out_of_fuel P Q h f = tt

  pub Yields_both :
      (r : Run W A) (P Q : A → W → Type 0)
      → Yields r P
      → Yields r Q
      → Yields r (λ a w. P a w × Q a w)
  Yields_both (ok a w) P Q h k = (h, k)
  Yields_both (fault e) P Q h k = tt
  Yields_both (exits n) P Q h k = tt
  Yields_both out_of_fuel P Q h k = tt

  pub Yields-ok :
      (r : Run W A) (P : A → W → Type 0) (a : A) (w : W) → Yields r P → r ≡ ok a w → P a w
  Yields-ok r P a w h e = subst (λ r. Yields r P) e h

  pub Yields-if :
      (b : Bool) (m n : Cmd W A) (w : W) (P : A → W → Type 0)
      → (b ≡ true → Yields (m w) P)
      → (b ≡ false → Yields (n w) P)
      → Yields ((if b then m else n) w) P
  Yields-if true m n w P yes_case no_case = yes_case refl
  Yields-if false m n w P yes_case no_case = no_case refl

module _ {W A B : Type 0} where
  pub Yields-and_then :
      (r : Run W A) (k : A → Cmd W B) (P : A → W → Type 0) (Q : B → W → Type 0)
      → Yields r P
      → ((a : A) (w : W) → P a w → Yields (k a w) Q)
      → Yields (and_then r k) Q
  Yields-and_then (ok a w) k P Q h f = f a w h
  Yields-and_then (fault e) k P Q h f = tt
  Yields-and_then (exits n) k P Q h f = tt
  Yields-and_then out_of_fuel k P Q h f = tt

  -- Behind a command of which nothing need be known.
  pub Yields_after :
      (r : Run W A) (k : A → Cmd W B) (Q : B → W → Type 0)
      → ((a : A) (w : W) → Yields (k a w) Q)
      → Yields (and_then r k) Q
  Yields_after (ok a w) k Q f = f a w
  Yields_after (fault e) k Q f = tt
  Yields_after (exits n) k Q f = tt
  Yields_after out_of_fuel k Q f = tt
