-- ===== src/Prelude/Keeps.antt =====
-- Properties of the world that a method keeps.
use im_providers_service.Prelude.{◌≡◌, refl, Bool, true, false, if◌then◌else◌}
use im_providers_service.Prelude.Io.{Io, follow}
use im_providers_service.Prelude.Failure.{Result, ok, err}

module _ {W : Type 0} (P : W → Type 0) where
  -- `follow` keeps `P` if its two parts do.
  pub follow-keeps :
      {A B : Type 0} (r : Result A × W) (f : A → Io W B)
      → P r.1
      → ((a : A) → r.0 ≡ ok a → (w : W) → P w → P (f a w).1)
      → P (follow r f).1
  follow-keeps (ok a, w) f p h = h a refl w p
  follow-keeps (err e, w) f p h = p

  pub if-keeps : {A : Type 0} (b : Bool) (x y : A × W) → P x.1 → P y.1 → P (if b then x else y).1
  if-keeps true x y p q = p
  if-keeps false x y p q = q

  pub choose-keeps :
      {A : Type 0} (b : Bool) (m n : Io W A) (w : W)
      → P (m w).1
      → P (n w).1
      → P ((if b then m else n) w).1
  choose-keeps true m n w p q = p
  choose-keeps false m n w p q = q
