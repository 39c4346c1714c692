-- ===== src/Payload/Convert.antt =====
-- ToPayload and ReadPayload of json.go.
use friendlyrabbit.Base.{ℕ, Option, none, some, List, [], if◌then◌else◌}
use friendlyrabbit.Error.{Result, ok, ◌>>=?◌}
use friendlyrabbit.Config.{CompressionConfig, EncryptionConfig}
use friendlyrabbit.Payload.Packages.{Packages}
use friendlyrabbit.Payload.Compression.{compress, decompress}
use friendlyrabbit.Payload.Crypto.{encrypt, decrypt}

module _ (k : Packages) where
  -- The argument `interface{}`: bytes are taken as they are, a nil slice of bytes as none,
  -- and any other value is marshalled.
  pub data Input : Type 0 where
    bytes : List ℕ → Input
    nil_bytes : Input
    value : k.Value → Input

  unfoldable pub encode : Input → Result (List ℕ)
  encode (bytes text) = ok text
  encode nil_bytes = ok []
  encode (value v) = k.marshal v

  -- The data after this step; the buffer holds the same bytes where the step is taken.
  unfoldable pub compress_step : Option CompressionConfig → List ℕ → Result (List ℕ)
  compress_step none text = ok text
  compress_step (some c) text = if c.enabled then compress k c.kind text [] else ok text

  unfoldable pub encrypt_step : Option EncryptionConfig → List ℕ → List ℕ → Result (List ℕ)
  encrypt_step none text buffer = ok text
  encrypt_step (some c) text buffer =
      if c.enabled then encrypt k c.kind c.hashkey text buffer else ok text

  unfoldable pub to_payload :
      Input → Option CompressionConfig → Option EncryptionConfig → Result (List ℕ)
  unfolding encode compress_step encrypt_step
  to_payload input compression encryption = encode input >>=? λ text.
      compress_step compression text >>=? λ text'. encrypt_step encryption text' text'

  unfoldable pub decrypt_step : Option EncryptionConfig → List ℕ → Result (List ℕ)
  decrypt_step none buffer = ok buffer
  decrypt_step (some c) buffer = if c.enabled then decrypt k c.kind c.hashkey buffer else ok buffer

  unfoldable pub decompress_step : Option CompressionConfig → List ℕ → Result (List ℕ)
  decompress_step none buffer = ok buffer
  decompress_step (some c) buffer = if c.enabled then decompress k c.kind buffer else ok buffer

  -- The buffer after a success.
  unfoldable pub read_payload :
      List ℕ → Option CompressionConfig → Option EncryptionConfig → Result (List ℕ)
  unfolding decrypt_step decompress_step
  read_payload buffer compression encryption =
      decrypt_step encryption buffer >>=? λ text. decompress_step compression text
