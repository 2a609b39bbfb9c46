-- ===== src/Crypto/Tests.antt =====
-- A cipher that only marks its texts, for the theorem on encryption.
use im_providers_service.Prelude.{
  ℕ, zero, suc, ◌≡◌, refl, ap, sym, ◌∙◌, subst, List, [], ◌∷◌, length,
}
use im_providers_service.Prelude.Io.{Io}
use im_providers_service.Prelude.Failure.{Result, ok, err, plain}
use im_providers_service.Crypto.{Gcm, Primitives, encrypt, decrypt}
use im_providers_service.Crypto.Trip.{Documented, bytes_of, decrypt-encrypt}

abbrev unmark : List ℕ → Result (List ℕ)
unmark [] = err (plain "message authentication failed")
unmark (mark ∷ text) = ok text

abbrev marker : Gcm
marker = record {
  nonce_size = 2;
  seal = λ nonce text. 7 ∷ text;
  unseal = λ nonce text. unmark text;
}

abbrev fixed : Primitives
fixed = record { new_gcm = λ key. ok marker; encode = λ b. b; decode = λ b. ok b }

ones : ℕ → List ℕ
ones zero = []
ones (suc n) = 1 ∷ ones n

length-ones : (n : ℕ) → length (ones n) ≡ n
unfolding ones
length-ones zero = refl
length-ones (suc n) = ap suc (length-ones n)

abbrev source : ℕ → Io (Unit {0}) (List ℕ)
source n w = (ok (ones n), w)

fixed-Documented : Documented fixed source []
fixed-Documented = record {
  decode = λ b. refl;
  unseal = λ gcm nonce text made size. subst (λ (r : Result Gcm). unsealed r nonce text) made refl;
  filled = λ n w nonce given. sym (ap length (ap bytes_of given)) ∙ length-ones n;
}
  where
    unsealed : Result Gcm → List ℕ → List ℕ → Type 0
    unsealed (ok gcm) nonce text = gcm.unseal nonce (gcm.seal nonce text) ≡ ok text
    unsealed (err e) nonce text = Unit

decrypt-encrypt_example : decrypt fixed [] (1 ∷ 1 ∷ 7 ∷ 42 ∷ []) ≡ ok (42 ∷ [])
unfolding encrypt ones
decrypt-encrypt_example =
    decrypt-encrypt fixed source [] (42 ∷ []) (1 ∷ 1 ∷ 7 ∷ 42 ∷ []) tt fixed-Documented refl
