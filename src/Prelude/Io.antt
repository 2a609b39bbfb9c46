-- ===== src/Prelude/Io.antt =====
-- Methods that change a state and may fail. What was done before a failure stays done, so the state
-- comes back beside the error too.
use im_providers_service.Prelude.Failure.{Failure, Result, ok, err}

abbrev pub Io : Type 0 → Type 0 → Type 0
Io S A = S → Result A × S

module _ {S A : Type 0} where
  abbrev pub return : A → Io S A
  return a s = (ok a, s)

  abbrev pub fail : Failure → Io S A
  fail e s = (err e, s)

module _ {S A B : Type 0} where
  abbrev pub follow : Result A × S → (A → Io S B) → Result B × S
  follow (ok a, s) f = f a s
  follow (err e, s) f = (err e, s)

  infixl 5 ◌>>=◌ ◌>>◌
  abbrev pub ◌>>=◌ : Io S A → (A → Io S B) → Io S B
  ◌>>=◌ m f s = follow (m s) f

  abbrev pub ◌>>◌ : Io S A → Io S B → Io S B
  ◌>>◌ m n s = follow (m s) (λ _. n)
