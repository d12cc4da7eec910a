-- ===== src/Cmd/Bucket.antt =====
-- `ensureBucket` of cmd/stream/store.go and of cmd/s3bench/main.go. The client of S3 is a parameter.
use objwal.Prelude.{◌≡◌, refl, inl, inr, Bool, true, ◌||◌, Bool-cases, if◌then◌else◌}
use objwal.Error.{Result, ok, err, Error, Context, wrap, bucket_ensure, bucket_create}
use objwal.Std.LittleEndian.{Bytes}
use objwal.ObjectStore.{Eff}

-- Of a client: `HeadBucket`, `CreateBucket`, and `errors.As` for the two errors of a bucket that is
-- there.
pub record BucketClient (W : Type 0) : Type 0 where
  pub head_bucket : Bytes → Eff W (Unit {0})
  pub create_bucket : Bytes → Eff W (Unit {0})
  pub already_owned : Error → Bool
  pub already_there : Error → Bool

module _ {W : Type 0} (client : BucketClient W) where
  unfoldable pub after_create : Context → Result (Unit {0}) × W → Result (Unit {0}) × W
  after_create what (ok _, w) = (ok tt, w)
  after_create what (err e, w) =
      ((if client.already_owned e || client.already_there e then ok tt else err (wrap what e)), w)

  unfoldable pub after_head : Context → Bytes → Result (Unit {0}) × W → Result (Unit {0}) × W
  after_head what bucket (ok _, w) = (ok tt, w)
  after_head what bucket (err e, w) = after_create what (client.create_bucket bucket w)

  -- `ensureBucket` of cmd/stream/store.go.
  unfoldable pub ensure_bucket : Bytes → Eff W (Unit {0})
  ensure_bucket bucket w = after_head bucket_ensure bucket (client.head_bucket bucket w)

  -- `ensureBucket` of cmd/s3bench/main.go.
  unfoldable pub ensure_bench_bucket : Bytes → Eff W (Unit {0})
  ensure_bench_bucket bucket w = after_head bucket_create bucket (client.head_bucket bucket w)

-- The answers of a client about a bucket: a success means that it is there, and so do the two errors
-- of a creation.
pub record Tells {W : Type 0} (client : BucketClient W) (bucket : Bytes) (There : W → Type 0)
    : Type 0 where
  pub head_tells :
      (w : W) → (client.head_bucket bucket w).0 ≡ ok tt → There (client.head_bucket bucket w).1
  pub create_tells :
      (w : W) → (client.create_bucket bucket w).0 ≡ ok tt → There (client.create_bucket bucket w).1
  pub refusal_tells :
      (w : W) (e : Error)
      → (client.create_bucket bucket w).0 ≡ err e
      → (client.already_owned e || client.already_there e) ≡ true
      → There (client.create_bucket bucket w).1

module _ {W : Type 0} (client : BucketClient W) (bucket : Bytes) (There : W → Type 0) where
  after_create-There :
      (what : Context) (d : Result (Unit {0}) × W)
      → (d.0 ≡ ok tt → There d.1)
      → ((e : Error)
          → d.0 ≡ err e
          → (client.already_owned e || client.already_there e) ≡ true
          → There d.1)
      → (after_create client what d).0 ≡ ok tt
      → There (after_create client what d).1
  unfolding after_create
  after_create-There what (ok u, w) h k good = h refl
  after_create-There what (err e, w) h k good =
      elim (Bool-cases (client.already_owned e || client.already_there e)) [
        | inl there ↦ k e refl there
        | inr other ↦ let bad = rw other at good in absurd (cc bad)
      ]

  after_head-There :
      (what : Context) (d : Result (Unit {0}) × W)
      → Tells client bucket There
      → (d.0 ≡ ok tt → There d.1)
      → (after_head client what bucket d).0 ≡ ok tt
      → There (after_head client what bucket d).1
  unfolding after_head
  after_head-There what (ok u, w) tells h good = h refl
  after_head-There what (err e, w) tells h good =
      after_create-There what (client.create_bucket bucket w) (tells.create_tells w)
        (tells.refusal_tells w) good

  -- For a client whose answers tell that the bucket is there, if either of the two commands' helpers
  -- returns no error, the bucket is there.
  pub ensure_bucket-There :
      (w : W)
      → Tells client bucket There
      → ((ensure_bucket client bucket w).0 ≡ ok tt → There (ensure_bucket client bucket w).1)
        × ((ensure_bench_bucket client bucket w).0 ≡ ok tt
            → There (ensure_bench_bucket client bucket w).1)
  unfolding ensure_bucket ensure_bench_bucket
  ensure_bucket-There w tells = (
    after_head-There bucket_ensure (client.head_bucket bucket w) tells (tells.head_tells w),
    after_head-There bucket_create (client.head_bucket bucket w) tells (tells.head_tells w),
  )
