-- ===== src/Payload/Crypto.antt =====
-- internal/utils/crypto/crypto.go. Both cases of its `switch` on the encryption type are AES.
use friendlyrabbit.Base.{
  ℕ, ◌*◌, ◌%◌, ◌^◌, String, ◌||◌, Option, none, some, List, ◌++◌, length, take, drop, ltb, leb,
  ◌==◌, if◌then◌else◌,
}
use friendlyrabbit.Error.{Result, ok, err, ◌>>=?◌, zero_length, seal_failed, cipher_too_short}
use friendlyrabbit.Payload.Packages.{Packages}

abbrev pub default_nonce_size : ℕ
default_nonce_size = 12

module _ (k : Packages) where
  abbrev nonce_size_for : ℕ → ℕ
  nonce_size_for n = if ltb n 12 || ltb 32 n then default_nonce_size else n

  unfoldable pub sealed : List ℕ → Result (List ℕ)
  sealed cipher_data = if length cipher_data == 0 then err seal_failed else ok cipher_data

  unfoldable pub encrypt_with_aes : List ℕ → List ℕ → ℕ → Result (List ℕ)
  unfolding sealed
  encrypt_with_aes text hashed_key nonce_size =
      if length text == 0 || length hashed_key == 0
      then err zero_length
      else (k.new_cipher hashed_key >>=? λ block.
          k.new_gcm block (nonce_size_for nonce_size) >>=? λ gcm.
          k.random (nonce_size_for nonce_size) >>=? λ nonce.
          sealed (nonce ++ k.seal gcm nonce text))

  unfoldable pub decrypt_with_aes : List ℕ → List ℕ → ℕ → Result (List ℕ)
  decrypt_with_aes cipher_data hashed_key nonce_size =
      if length cipher_data == 0 || (length hashed_key == 0 || leb (length cipher_data) nonce_size)
      then err cipher_too_short
      else (k.new_cipher hashed_key >>=? λ block. k.new_gcm block nonce_size >>=? λ gcm.
          k.unseal gcm (take nonce_size cipher_data) (drop nonce_size cipher_data))

  -- The buffer is replaced.
  unfoldable pub encrypt : String → List ℕ → List ℕ → List ℕ → Result (List ℕ)
  encrypt kind key text buffer = encrypt_with_aes text key 12

  unfoldable pub decrypt : String → List ℕ → List ℕ → Result (List ℕ)
  decrypt kind key buffer = decrypt_with_aes buffer key 12

  abbrev pub at_least_one : ℕ → ℕ
  at_least_one n = if n == 0 then 1 else n

  -- Nil without a passphrase or a salt. The memory is a uint32, and its product wraps.
  unfoldable pub get_hash_with_argon : List ℕ → List ℕ → ℕ → ℕ → ℕ → ℕ → Option (List ℕ)
  get_hash_with_argon passphrase salt time multiplier threads hash_length =
      if length passphrase == 0 || length salt == 0
      then none
      else some (
          k.id_key passphrase salt (at_least_one time) ((multiplier * 1024) % 2 ^ 32)
            (at_least_one threads) hash_length)
