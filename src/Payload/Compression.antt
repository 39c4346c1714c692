-- ===== src/Payload/Compression.antt =====
-- internal/utils/compression/compression.go. A buffer is the list of its bytes. What an error leaves
-- in a buffer is not modelled: the callers do not read it.
use friendlyrabbit.Base.{ℕ, String, Option, none, some, List, ◌++◌, str_eq, if◌then◌else◌}
use friendlyrabbit.Error.{Error, Result, ok, err, ◌>>=?◌, fail_if}
use friendlyrabbit.Payload.Packages.{Packages}

abbrev pub zstd_type : String
zstd_type = "zstd"

abbrev pub gzip_type : String
gzip_type = "gzip"

module _ (k : Packages) where
  -- After the copy: its error wins over that of `Close` unless `Close` fails too.
  unfoldable pub zstd_copied : List ℕ → Option Error × k.zstd.Writer → Result (List ℕ)
  zstd_copied buffer (none, w) = fail_if (k.zstd.close_writer w).0 >>=? λ _.
      ok (buffer ++ k.zstd.written (k.zstd.close_writer w).1)
  zstd_copied buffer (some x, w) = fail_if (k.zstd.close_writer w).0 >>=? λ _. err x

  unfoldable pub compress_with_zstd : List ℕ → List ℕ → Result (List ℕ)
  unfolding zstd_copied
  compress_with_zstd text buffer =
      k.zstd.new_writer >>=? λ w. zstd_copied buffer (k.zstd.write text w)

  unfoldable pub decompress_with_zstd : List ℕ → Result (List ℕ)
  decompress_with_zstd buffer = k.zstd.new_reader buffer >>=? λ r. k.zstd.read_all r

  unfoldable pub compress_with_gzip : List ℕ → List ℕ → Result (List ℕ)
  compress_with_gzip text buffer = k.gzip.new_writer >>=? λ w.
      fail_if (k.gzip.write text w).0 >>=? λ _.
      fail_if (k.gzip.close_writer (k.gzip.write text w).1).0 >>=? λ _.
      ok (buffer ++ k.gzip.written (k.gzip.close_writer (k.gzip.write text w).1).1)

  unfoldable pub decompress_with_gzip : List ℕ → Result (List ℕ)
  decompress_with_gzip buffer = k.gzip.new_reader buffer >>=? λ r.
      k.gzip.read_all r >>=? λ text. fail_if (k.gzip.close_reader r) >>=? λ _. ok text

  unfoldable pub compress : String → List ℕ → List ℕ → Result (List ℕ)
  unfolding compress_with_zstd compress_with_gzip
  compress kind text buffer =
      if str_eq kind zstd_type
      then compress_with_zstd text buffer
      else compress_with_gzip text buffer

  unfoldable pub decompress : String → List ℕ → Result (List ℕ)
  unfolding decompress_with_zstd decompress_with_gzip
  decompress kind buffer =
      if str_eq kind zstd_type then decompress_with_zstd buffer else decompress_with_gzip buffer
