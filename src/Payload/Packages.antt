-- ===== src/Payload/Packages.antt =====
-- The packages that payloads go through: JSON, gzip, zstd, AES-GCM, Argon2 and the source of
-- randomness, and what they document.
use friendlyrabbit.Base.{ℕ, ◌≡◌, ◌<◌, String, Option, none, List, length}
use friendlyrabbit.Error.{Error, Result, ok}

-- A compressor. A `Writer` is one over a buffer: `written` is what it has added to the buffer.
pub record Codec : Type 1 where
  pub Writer : Type 0
  pub Reader : Type 0
  pub new_writer : Result Writer
  pub write : List ℕ → Writer → Option Error × Writer
  pub close_writer : Writer → Option Error × Writer
  pub written : Writer → List ℕ
  pub new_reader : List ℕ → Result Reader
  pub read_all : Reader → Result (List ℕ)
  pub close_reader : Reader → Option Error

-- What was written and closed without an error reads back.
pub record IsInverse (c : Codec) : Type 0 where
  pub read_back :
      (w : c.Writer) (text : List ℕ)
      → c.new_writer ≡ ok w
      → (c.write text w).0 ≡ none
      → (c.close_writer (c.write text w).1).0 ≡ none
      → (r : c.Reader) × (c.new_reader (c.written (c.close_writer (c.write text w).1).1) ≡ ok r)
        × (c.read_all r ≡ ok text)
        × (c.close_reader r ≡ none)

-- Also `context.Context`, `uuid.UUID`, and the values of header tables.
-- `random n` is the result of reading `n` bytes for one encryption.
pub record Packages : Type 1 where
  pub Value : Type 0
  pub Context : Type 0
  pub background : Context
  pub Uuid : Type 0
  pub uuid_string : Uuid → String
  pub HeaderValue : Type 0
  pub text_value : String → HeaderValue
  pub marshal : Value → Result (List ℕ)
  pub zstd : Codec
  pub gzip : Codec
  pub Block : Type 0
  pub Gcm : Type 0
  pub new_cipher : List ℕ → Result Block
  pub new_gcm : Block → ℕ → Result Gcm
  -- gcm.Seal(nil, nonce, data, nil), and gcm.Open(nil, nonce, ciphertext, nil)
  pub seal : Gcm → List ℕ → List ℕ → List ℕ
  pub unseal : Gcm → List ℕ → List ℕ → Result (List ℕ)
  pub random : ℕ → Result (List ℕ)
  -- argon2.IDKey: password, salt, time, memory, threads, key length
  pub id_key : List ℕ → List ℕ → ℕ → ℕ → ℕ → ℕ → List ℕ

-- Authenticated encryption: what is sealed opens again under the same key and nonce, and a
-- ciphertext is never empty. A full read has the length that was asked for.
pub record IsSealing (k : Packages) : Type 0 where
  pub unseal-seal :
      (g : k.Gcm) (nonce text : List ℕ) → k.unseal g nonce (k.seal g nonce text) ≡ ok text
  pub seal_pos : (g : k.Gcm) (nonce text : List ℕ) → 0 < length (k.seal g nonce text)
  pub random_length : (n : ℕ) (bytes : List ℕ) → k.random n ≡ ok bytes → length bytes ≡ n
