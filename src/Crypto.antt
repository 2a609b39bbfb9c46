-- ===== src/Crypto.antt =====
-- pkg/crypto/aes.go: the encryption of secrets at rest. AES-GCM, base64 and the random source are
-- arguments; texts are lists of bytes.
pub mod Trip
mod Tests
use im_providers_service.Prelude.{
  ℕ, Bool, true, false, List, ◌++◌, length, take, drop, ltb, if◌then◌else◌,
}
use im_providers_service.Prelude.Io.{Io}
use im_providers_service.Prelude.Failure.{Result, ok, err, plain, ◌>>=◌}

-- `cipher.AEAD`
pub record Gcm : Type 0 where
  pub nonce_size : ℕ
  -- `Seal` and `Open` with a nonce, without their destination
  pub seal : List ℕ → List ℕ → List ℕ
  pub unseal : List ℕ → List ℕ → Result (List ℕ)

-- `aes.NewCipher` with `cipher.NewGCM`, and `base64.StdEncoding`.
pub record Primitives : Type 0 where
  pub new_gcm : List ℕ → Result Gcm
  pub encode : List ℕ → List ℕ
  pub decode : List ℕ → Result (List ℕ)

module _ {W : Type 0} (lib : Primitives) (random : ℕ → Io W (List ℕ)) (key : List ℕ) where
  abbrev pub sealed_by : Gcm → List ℕ → Result (List ℕ) × W → Result (List ℕ) × W
  sealed_by gcm plaintext (err e, w) = (err e, w)
  sealed_by gcm plaintext (ok nonce, w) = (ok (lib.encode (nonce ++ gcm.seal nonce plaintext)), w)

  abbrev pub encrypt_with : List ℕ → Result Gcm → Io W (List ℕ)
  encrypt_with plaintext (err e) w = (err e, w)
  encrypt_with plaintext (ok gcm) w = sealed_by gcm plaintext (random gcm.nonce_size w)

  -- `Encrypt`
  unfoldable pub encrypt : List ℕ → Io W (List ℕ)
  encrypt plaintext = encrypt_with plaintext (lib.new_gcm key)

module _ (lib : Primitives) (key : List ℕ) where
  abbrev pub opened : List ℕ → Gcm → Result (List ℕ)
  opened bytes gcm =
      if ltb (length bytes) gcm.nonce_size
      then err (plain "ciphertext too short")
      else gcm.unseal (take gcm.nonce_size bytes) (drop gcm.nonce_size bytes)

  -- `Decrypt`
  unfoldable pub decrypt : List ℕ → Result (List ℕ)
  decrypt ciphertext = lib.decode ciphertext >>= λ bytes. lib.new_gcm key >>= opened bytes
