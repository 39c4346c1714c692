-- ===== src/Message/Letter.antt =====
-- Letters, the options that they are made with, and the receipts of their publishing. Options are
-- values: a function on `*LetterOpts` returns the new ones.
use friendlyrabbit.Base.{
  insert, lookup, ℕ, ◌+◌, ◌%◌, String, ◌<>◌, Bool, true, false, Option, none, some, List, [], ◌∷◌,
  if◌then◌else◌,
}
use friendlyrabbit.Error.{Error, Result, ok, ◌>>=?◌}
use friendlyrabbit.Config.{CompressionConfig, EncryptionConfig}
use friendlyrabbit.Payload.Packages.{Packages}
use friendlyrabbit.Payload.Convert.{Input, to_payload}

-- uint16 arithmetic wraps.
abbrev pub u16 : ℕ → ℕ
u16 n = n % 65536

-- amqp.Persistent
abbrev pub persistent : ℕ
persistent = 2

module _ (k : Packages) where
  -- A `map[string]interface{}`, as the list of its entries.
  abbrev pub Table : Type 0
  Table = List (String × k.HeaderValue)

  -- `o.Headers[k] = v`
  unfoldable pub set_header : String → k.HeaderValue → Table → Table
  unfolding insert
  set_header key v t = insert key v t

  unfoldable pub header : String → Table → Option k.HeaderValue
  unfolding lookup
  header key t = lookup key t

  pub record LetterOpts : Type 0 where
    pub ctx : k.Context
    pub exchange : String
    pub routing_key : String
    pub content_type : String
    pub correlation_id : String
    pub message_type : String
    pub mandatory : Bool
    pub immediate : Bool
    pub headers : Table
    pub delivery_mode : ℕ  -- uint8
    pub priority : ℕ  -- uint8
    pub retry_count : ℕ  -- uint16
    pub e_conf : Option EncryptionConfig
    pub c_conf : Option CompressionConfig

  abbrev pub LetterOptsFun : Type 0
  LetterOptsFun = LetterOpts → LetterOpts

  unfoldable pub default_opts : String → String → LetterOpts
  default_opts e rk = record {
    ctx = k.background;
    exchange = e;
    routing_key = rk;
    content_type = "application/json";
    correlation_id = "";
    message_type = "";
    mandatory = false;
    immediate = false;
    headers = [];
    delivery_mode = persistent;
    priority = 0;
    retry_count = 3;
    e_conf = none;
    c_conf = none;
  }

  unfoldable pub with_context : k.Context → LetterOptsFun
  with_context ctx o = record o { ctx = ctx }

  unfoldable pub with_correlation_id : String → LetterOptsFun
  with_correlation_id id o = record o { correlation_id = id }

  -- The loop over the given headers.
  unfoldable pub with_headers : Table → LetterOptsFun
  unfolding set_header
  with_headers [] o = o
  with_headers ((key, v) ∷ h) o = with_headers h (record o { headers = set_header key v o.headers })

  unfoldable pub with_encryption_config : Option EncryptionConfig → LetterOptsFun
  with_encryption_config c o = record o { e_conf = c }

  unfoldable pub with_compression_config : Option CompressionConfig → LetterOptsFun
  with_compression_config c o = record o { c_conf = c }

  pub record Letter : Type 0 where
    pub letter_id : k.Uuid
    pub body : List ℕ
    pub opts : LetterOpts

  unfoldable pub apply_opts : List LetterOptsFun → LetterOptsFun
  apply_opts [] o = o
  apply_opts (g ∷ gs) o = apply_opts gs (g o)

  -- The id is what `uuid.New()` returns.
  unfoldable pub new_letter :
      k.Uuid → String → String → Input k → List LetterOptsFun → Result Letter
  unfolding default_opts apply_opts
  new_letter id exchange routing_key input funs =
      let opts = apply_opts funs (default_opts exchange routing_key) in
      to_payload k input opts.c_conf opts.e_conf >>=? λ body.
      ok (record { letter_id = id; body = body; opts = opts })

  pub record PublishReceipt : Type 0 where
    pub letter_id : k.Uuid
    pub failed_letter : Option Letter
    pub success : Bool
    pub error : Option Error

  -- The text of a failed publish. `error_text` is what `Error()` of the error returns; on a nil error
  -- its call panics.
  unfoldable pub failure_text : (Error → String) → k.Uuid → Option Error → Option String
  failure_text error_text id none = none
  failure_text error_text id (some x) = some (
      "[LetterID: "
      <> k.uuid_string id
      <> "] - Publish failed.\r\nError: "
      <> error_text x
      <> "\r\n")

  unfoldable pub to_string : (Error → String) → PublishReceipt → Option String
  unfolding failure_text
  to_string error_text r =
      if r.success
      then some ("[LetterID: " <> k.uuid_string r.letter_id <> "] - Publish successful.\r\n")
      else failure_text error_text r.letter_id r.error

  -- The receipt of publishReceipt in publisher.go: of a failure it holds the letter, whose retry
  -- count goes up by one.
  unfoldable pub receipt_of : Letter → Option Error → PublishReceipt
  receipt_of l none = record {
    letter_id = l.letter_id;
    failed_letter = none;
    success = true;
    error = none;
  }
  receipt_of l (some x) = record {
    letter_id = l.letter_id;
    failed_letter =
        some (record l { opts = record l.opts { retry_count = u16 (l.opts.retry_count + 1) } });
    success = false;
    error = some x;
  }
