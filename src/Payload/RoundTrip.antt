-- ===== src/Payload/RoundTrip.antt =====
-- Reading a payload gives back what went into it.
use friendlyrabbit.Base.{
  ℕ, ◌≡◌, refl, true, false, Option, none, some, List, [], ◌++◌, length, take, drop, length-append,
  take-append, drop-append, arith, String, leb, ◌==◌, ◌||◌, ◌<◌, sym, str_eq, Bool-cases, inl, inr,
}
use friendlyrabbit.Error.{Error, zero_length, Result, ok, err, ◌>>=?◌, fail_if}
use friendlyrabbit.Config.{CompressionConfig, EncryptionConfig}
use friendlyrabbit.Payload.Packages.{IsInverse, Packages, IsSealing}
use friendlyrabbit.Payload.Compression.{
  compress_with_zstd, decompress_with_zstd, compress_with_gzip, decompress_with_gzip, zstd_copied,
  compress, decompress,
}
use friendlyrabbit.Payload.Crypto.{encrypt_with_aes, decrypt_with_aes, sealed, encrypt, decrypt}
use friendlyrabbit.Payload.Convert.{
  Input, encode, compress_step, encrypt_step, to_payload, decrypt_step, decompress_step,
  read_payload,
}

-- The value that a step of a chain has when the chain succeeds.
>>=?-eq-ok :
    {A B : Type 0} (m : Result A) (g : A → Result B) (b : B)
    → (m >>=? g) ≡ ok b
    → (a : A) × (m ≡ ok a) × (g a ≡ ok b)
>>=?-eq-ok (ok a) g b h = (a, refl, h)
>>=?-eq-ok (err x) g b h = cc

fail_if-eq-ok :
    {B : Type 0} (o : Option Error) (m : Result B) (b : B)
    → (fail_if o >>=? λ _. m) ≡ ok b
    → (o ≡ none) × (m ≡ ok b)
fail_if-eq-ok none m b h = (refl, h)
fail_if-eq-ok (some x) m b h = absurd cc

module _ (k : Packages) where
  zstd_copied-eq-ok :
      (x : Option Error) (w : k.zstd.Writer) (out : List ℕ)
      → zstd_copied k [] (x, w) ≡ ok out
      → (x ≡ none)
        × ((k.zstd.close_writer w).0 ≡ none)
        × (k.zstd.written (k.zstd.close_writer w).1 ≡ out)
  unfolding zstd_copied
  zstd_copied-eq-ok none w out h = let (closed, same) = fail_if-eq-ok _ _ _ h in (refl, closed, cc)
  zstd_copied-eq-ok (some x) w out h =
      let (closed, same) = fail_if-eq-ok (k.zstd.close_writer w).0 (err x) out h in absurd cc

  sealed-eq-ok : (c out : List ℕ) → sealed k c ≡ ok out → c ≡ out
  unfolding sealed
  sealed-eq-ok c out h = ground arith

module _ (k : Packages) (z : IsInverse k.zstd) (g : IsInverse k.gzip) (s : IsSealing k) where
  zstd_round_trip :
      (text out : List ℕ)
      → compress_with_zstd k text [] ≡ ok out
      → decompress_with_zstd k out ≡ ok text
  unfolding compress_with_zstd decompress_with_zstd
  zstd_round_trip text out h =
      let (w, new, copied) = >>=?-eq-ok k.zstd.new_writer _ out h in
      let (wrote, closed, same) =
        zstd_copied-eq-ok k (k.zstd.write text w).0 (k.zstd.write text w).1 out copied in
      let (r, opened, read, _) = z.read_back w text new wrote closed in rw (← same, opened) read

  gzip_round_trip :
      (text out : List ℕ)
      → compress_with_gzip k text [] ≡ ok out
      → decompress_with_gzip k out ≡ ok text
  unfolding compress_with_gzip decompress_with_gzip
  gzip_round_trip text out h =
      let (w, new, rest) = >>=?-eq-ok k.gzip.new_writer _ out h in
      let (wrote, rest') = fail_if-eq-ok _ _ _ rest in
      let (closed, same) = fail_if-eq-ok _ _ _ rest' in
      let (r, opened, read, shut) = g.read_back w text new wrote closed in
      let same' : k.gzip.written (k.gzip.close_writer (k.gzip.write text w).1).1 ≡ out = cc in
      rw (← same', opened, read, shut)

  decompress-compress :
      (kind : String) (text out : List ℕ)
      → compress k kind text [] ≡ ok out
      → decompress k kind out ≡ ok text
  unfolding compress decompress
  decompress-compress kind text out h = elim (Bool-cases (str_eq kind "zstd")) [
    | inl is ↦ rw is (zstd_round_trip text out (rw is at h))
    | inr is ↦ rw is (gzip_round_trip text out (rw is at h))
  ]

  long_enough :
      (key nonce c : List ℕ)
      → (length key == 0) ≡ false
      → length nonce ≡ 12
      → 0 < length c
      → (length (nonce ++ c) == 0 || (length key == 0 || leb (length (nonce ++ c)) 12)) ≡ false
  long_enough key nonce c has_key len pos = ground (arith, length-append nonce c)

  opens :
      (key text nonce : List ℕ) (block : k.Block) (gcm : k.Gcm)
      → (length key == 0) ≡ false
      → k.new_cipher key ≡ ok block
      → k.new_gcm block 12 ≡ ok gcm
      → length nonce ≡ 12
      → decrypt_with_aes k (nonce ++ k.seal gcm nonce text) key 12 ≡ ok text
  unfolding decrypt_with_aes
  opens key text nonce block gcm has_key made mode len =
      rw
        (
          long_enough key nonce (k.seal gcm nonce text) has_key len (s.seal_pos gcm nonce text),
          made,
          mode,
          front,
          back,
        )
        (s.unseal-seal gcm nonce text)
    where
      front : take 12 (nonce ++ k.seal gcm nonce text) ≡ nonce
      front = rw len at (take-append nonce (k.seal gcm nonce text))

      back : drop 12 (nonce ++ k.seal gcm nonce text) ≡ k.seal gcm nonce text
      back = rw len at (drop-append nonce (k.seal gcm nonce text))

  aes_round_trip :
      (key text out : List ℕ)
      → encrypt_with_aes k text key 12 ≡ ok out
      → decrypt_with_aes k out key 12 ≡ ok text
  unfolding encrypt_with_aes
  aes_round_trip key text out h = elim (Bool-cases (length text == 0 || length key == 0)) [
    | inl empty ↦ absurd (refused (rw empty at h))
    | inr full ↦ opened full (rw full at h)
  ]
    where
      refused : err zero_length ≡ ok out → ⊥
      refused q = cc

      opened :
          (length text == 0 || length key == 0) ≡ false
          → (k.new_cipher key >>=? λ block. k.new_gcm block 12 >>=? λ gcm.
              k.random 12 >>=? λ nonce. sealed k (nonce ++ k.seal gcm nonce text))
            ≡ ok out
          → decrypt_with_aes k out key 12 ≡ ok text
      opened full q =
          let (block, made, q1) = >>=?-eq-ok (k.new_cipher key) _ out q in
          let (gcm, mode, q2) = >>=?-eq-ok (k.new_gcm block 12) _ out q1 in
          let (nonce, got, q3) = >>=?-eq-ok (k.random 12) _ out q2 in
          rw (← sealed-eq-ok k _ out q3)
            (opens key text nonce block gcm (ground arith) made mode (s.random_length 12 nonce got))

  decrypt_step-encrypt_step :
      (c : Option EncryptionConfig) (text buffer out : List ℕ)
      → encrypt_step k c text buffer ≡ ok out
      → decrypt_step k c out ≡ ok text
  unfolding encrypt_step decrypt_step encrypt decrypt
  decrypt_step-encrypt_step none text buffer out h = cc
  decrypt_step-encrypt_step (some c) text buffer out h = elim (Bool-cases c.enabled) [
    | inl on ↦ simp on (aes_round_trip c.hashkey text out (simp on at h))
    | inr off ↦ simp off (sym (simp off at h))
  ]

  decompress_step-compress_step :
      (c : Option CompressionConfig) (text out : List ℕ)
      → compress_step k c text ≡ ok out
      → decompress_step k c out ≡ ok text
  unfolding compress_step decompress_step
  decompress_step-compress_step none text out h = cc
  decompress_step-compress_step (some c) text out h = elim (Bool-cases c.enabled) [
    | inl on ↦ simp on (decompress-compress c.kind text out (simp on at h))
    | inr off ↦ simp off (sym (simp off at h))
  ]

  -- A payload that ToPayload has made is read back by ReadPayload, under the same settings, as the
  -- bytes that the input was given as or was marshalled to.
  pub read_payload-to_payload :
      (input : Input k) (compression : Option CompressionConfig)
      (encryption : Option EncryptionConfig) (text payload : List ℕ)
      → encode k input ≡ ok text
      → to_payload k input compression encryption ≡ ok payload
      → read_payload k payload compression encryption ≡ ok text
  unfolding to_payload read_payload
  read_payload-to_payload input compression encryption text payload made h =
      let (text', same, q1) = >>=?-eq-ok (encode k input) _ payload h in
      let (packed, packs, q2) = >>=?-eq-ok (compress_step k compression text') _ payload q1 in
      let same' : text' ≡ text = cc in
      rw (decrypt_step-encrypt_step encryption packed packed payload q2)
        (rw same' at (decompress_step-compress_step compression text' packed packs))

-- With encryption enabled and no key, as when the service was given no passphrase, no input at all
-- becomes a payload.
pub to_payload_without_key :
    (k : Packages) (input : Input k) (compression : Option CompressionConfig) (c : EncryptionConfig)
    → c.enabled ≡ true
    → c.hashkey ≡ []
    → (x : Error) × (to_payload k input compression (some c) ≡ err x)
unfolding to_payload encrypt encrypt_with_aes
to_payload_without_key k input compression c on keyless = encoded (encode k input)
  where
    keyless_step : (text : List ℕ) → (x : Error) × (encrypt_step k (some c) text text ≡ err x)
    keyless_step text = (zero_length, ground arith)

    packed :
        (p : Result (List ℕ))
        → (x : Error) × ((p >>=? λ text. encrypt_step k (some c) text text) ≡ err x)
    packed (ok text) = keyless_step text
    packed (err x) = (x, refl)

    encoded :
        (p : Result (List ℕ))
        → (x : Error) × ((p >>=? λ text.
              compress_step k compression text >>=? λ text'. encrypt_step k (some c) text' text')
            ≡ err x)
    encoded (ok text) = packed (compress_step k compression text)
    encoded (err x) = (x, refl)
