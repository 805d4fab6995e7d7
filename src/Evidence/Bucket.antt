-- ===== src/Evidence/Bucket.antt =====
-- What app/object_storage.py relies on of a bucket: its client's `upload_file` and `delete_object`
-- either raise, or are seen by every later read of the key, and touch no other key.
use minigrc.Prelude.{◌≡◌, str_eq, String, false, Option, none, some, List, ℕ}

pub record BucketClient (Bucket : Type 0) : Type 0 where
  -- the bytes at a key
  pub object_at : String → Bucket → Option (List ℕ)
  -- `client.upload_file` and `client.delete_object`; `none` is an exception
  pub upload_file : String → List ℕ → Bucket → Option Bucket
  pub delete_file : String → Bucket → Option Bucket
  pub upload-found :
      (key : String) (bytes : List ℕ) (b b' : Bucket)
      → upload_file key bytes b ≡ some b'
      → object_at key b' ≡ some bytes
  pub upload-other :
      (key other : String) (bytes : List ℕ) (b b' : Bucket)
      → str_eq key other ≡ false
      → upload_file key bytes b ≡ some b'
      → object_at other b' ≡ object_at other b
  pub delete-found :
      (key : String) (b b' : Bucket) → delete_file key b ≡ some b' → object_at key b' ≡ none
  pub delete-other :
      (key other : String) (b b' : Bucket)
      → str_eq key other ≡ false
      → delete_file key b ≡ some b'
      → object_at other b' ≡ object_at other b
