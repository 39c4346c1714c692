-- ===== src/Service/Keyed.antt =====
-- The key of the encryption that a new service makes of a passphrase and a salt.
use friendlyrabbit.Base.{
  arith, ◌==◌, ℕ, zero, suc, ◌*◌, ◌%◌, ◌^◌, [], ◌∷◌, ◌≡◌, refl, ap, Bool, true, false, ◌&&◌, some,
  List, ltb, length, if◌then◌else◌,
}
use friendlyrabbit.Config.{EncryptionConfig}
use friendlyrabbit.Payload.Crypto.{at_least_one, get_hash_with_argon}
use friendlyrabbit.Env.{Env}
use friendlyrabbit.Payload.Packages.{Packages}
use friendlyrabbit.Consumer.State.{Incoming}
use friendlyrabbit.Service.Setup.{or_empty, with_hashkey}

module _ (e : Env) (k : Packages) (i : Incoming e k) where
  -- Encryption is on, and there are a passphrase and a salt.
  abbrev pub has_key : EncryptionConfig → List ℕ → List ℕ → Bool
  has_key c passphrase salt = c.enabled && (ltb 0 (length passphrase) && ltb 0 (length salt))

  -- At least one.
  abbrev pub positive : ℕ → ℕ
  positive zero = 1
  positive (suc n) = suc n

  -- The settings of the encryption, with the key of 32 bytes that argon2 makes of the passphrase, the
  -- salt and the settings; the memory is a uint32.
  abbrev pub keyed_config : EncryptionConfig → List ℕ → List ℕ → EncryptionConfig
  keyed_config c passphrase salt = record c {
    hashkey =
        k.id_key passphrase salt (positive c.time_consideration)
          ((c.memory_multiplier * 1024) % 2 ^ 32) (positive c.threads) 32;
  }

  suc_not_zero : (n : ℕ) → (suc n == 0) ≡ false
  suc_not_zero n = ground arith

  positive_lem : (n : ℕ) → at_least_one k n ≡ positive n
  positive_lem zero = refl
  positive_lem (suc n) = ap (λ (b : Bool). if b then 1 else suc n) (suc_not_zero n)

  last_two : (a b : Bool) → (a && b) ≡ true → b ≡ true
  last_two true b h = h
  last_two false b h = absurd cc

  none_left : ltb 0 0 ≡ true → ⊥
  none_left h = absurd cc

  key_lem :
      (passphrase salt : List ℕ) (time memory threads : ℕ)
      → (ltb 0 (length passphrase) && ltb 0 (length salt)) ≡ true
      → get_hash_with_argon k passphrase salt time memory threads 32
        ≡ some (
            k.id_key passphrase salt
              (positive time)
              ((memory * 1024) % 2 ^ 32)
              (positive threads)
              32)
  unfolding get_hash_with_argon
  key_lem [] salt time memory threads h = absurd cc
  key_lem (x ∷ p) [] time memory threads h = absurd (none_left (last_two _ _ h))
  key_lem (x ∷ p) (y ∷ q) time memory threads h =
      rw (positive_lem time, positive_lem threads, suc_not_zero (length p), suc_not_zero (length q))
        refl

  pub with_hashkey_lem :
      (c : EncryptionConfig) (passphrase salt : List ℕ)
      → has_key c passphrase salt ≡ true
      → with_hashkey e k i passphrase salt c ≡ keyed_config c passphrase salt
  unfolding with_hashkey
  with_hashkey_lem c passphrase salt on =
      ap (λ key. record c { hashkey = or_empty e k i key })
        (key_lem passphrase salt _ _ _ (last_two c.enabled _ on))
