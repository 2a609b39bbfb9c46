-- ===== src/Crypto/Trip.antt =====
-- Encryption and decryption of pkg/crypto/aes.go together.
use im_providers_service.Prelude.{
  ℕ, zero, suc, ◌≡◌, refl, ap, List, [], ◌∷◌, ◌++◌, length, take, drop, ltb, length-append, arith,
  false,
}
use im_providers_service.Prelude.Io.{Io}
use im_providers_service.Prelude.Failure.{Result, ok, err}
use im_providers_service.Crypto.{Gcm, Primitives, sealed_by, encrypt_with, encrypt, opened, decrypt}

abbrev pub bytes_of : Result (List ℕ) → List ℕ
bytes_of (ok bytes) = bytes
bytes_of (err e) = []

module _ {A : Type 0} where
  take-append : (n : ℕ) (xs ys : List A) → length xs ≡ n → take n (xs ++ ys) ≡ xs
  take-append zero [] ys h = refl
  take-append zero (x ∷ xs) ys h = absurd (omega arith)
  take-append (suc n) [] ys h = absurd (omega arith)
  take-append (suc n) (x ∷ xs) ys h = ap (λ t. x ∷ t) (take-append n xs ys (omega arith))

  drop-append : (n : ℕ) (xs ys : List A) → length xs ≡ n → drop n (xs ++ ys) ≡ ys
  drop-append zero [] ys h = refl
  drop-append zero (x ∷ xs) ys h = absurd (omega arith)
  drop-append (suc n) [] ys h = absurd (omega arith)
  drop-append (suc n) (x ∷ xs) ys h = drop-append n xs ys (omega arith)

module _ {W : Type 0} (lib : Primitives) (random : ℕ → Io W (List ℕ)) (key : List ℕ) where
  -- What the packages document: base64 is decoded to what was encoded, a sealed text is opened under its
  -- own nonce, and the random source gives as many bytes as it is asked for.
  pub record Documented : Type 0 where
    pub decode : (bytes : List ℕ) → lib.decode (lib.encode bytes) ≡ ok bytes
    pub unseal :
        (gcm : Gcm) (nonce text : List ℕ)
        → lib.new_gcm key ≡ ok gcm
        → length nonce ≡ gcm.nonce_size
        → gcm.unseal nonce (gcm.seal nonce text) ≡ ok text
    pub filled : (n : ℕ) (w : W) (nonce : List ℕ) → (random n w).0 ≡ ok nonce → length nonce ≡ n

  opened-seal :
      Documented
      → (gcm : Gcm) (nonce text : List ℕ) → lib.new_gcm key ≡ ok gcm
      → length nonce ≡ gcm.nonce_size
      → opened lib key (nonce ++ gcm.seal nonce text) gcm ≡ ok text
  opened-seal doc gcm nonce text made size =
      let long : ltb (length (nonce ++ gcm.seal nonce text)) gcm.nonce_size ≡ false =
        ground (arith, length-append nonce (gcm.seal nonce text)) in
      rw (
        long,
        take-append gcm.nonce_size nonce (gcm.seal nonce text) size,
        drop-append gcm.nonce_size nonce (gcm.seal nonce text) size,
        doc.unseal gcm nonce text made size,
      )

  decrypt-sealed :
      Documented
      → (gcm : Gcm) (text c : List ℕ) (nonce : Result (List ℕ) × W) → lib.new_gcm key ≡ ok gcm
      → ((n : List ℕ) → nonce.0 ≡ ok n → length n ≡ gcm.nonce_size)
      → (sealed_by lib random key gcm text nonce).0 ≡ ok c
      → decrypt lib key c ≡ ok text
  unfolding decrypt
  decrypt-sealed doc gcm text c (err e, w) made size h = absurd (cc h)
  decrypt-sealed doc gcm text c (ok n, w) made size h =
      let e : lib.encode (n ++ gcm.seal n text) ≡ c = ap bytes_of h in
      rw (← e, doc.decode (n ++ gcm.seal n text), made)
        (opened-seal doc gcm n text made (size n refl))

  decrypt-with :
      Documented
      → (text c : List ℕ) (w : W) (r : Result Gcm) → lib.new_gcm key ≡ r
      → (encrypt_with lib random key text r w).0 ≡ ok c
      → decrypt lib key c ≡ ok text
  decrypt-with doc text c w (err e) made h = absurd (cc h)
  decrypt-with doc text c w (ok gcm) made h =
      decrypt-sealed doc gcm text c (random gcm.nonce_size w) made
        (λ n q. doc.filled gcm.nonce_size w n q) h

  -- Whatever `encrypt` answers without an error, `decrypt` under the same key gives the text back.
  pub decrypt-encrypt :
      (text c : List ℕ) (w : W)
      → Documented
      → (encrypt lib random key text w).0 ≡ ok c
      → decrypt lib key c ≡ ok text
  unfolding encrypt
  decrypt-encrypt text c w doc h = decrypt-with doc text c w (lib.new_gcm key) refl h
