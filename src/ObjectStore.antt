-- ===== src/ObjectStore.antt =====
-- objectstore/objectstore.go: the object-storage interface. Every operation takes the state of the
-- world outside, as the store has it, and returns it beside the result. Paths, ETags and contents
-- are byte strings.
pub mod Memory
pub mod Sim
pub mod S3
use objwal.Prelude.{ℕ, List, ◌≡◌, ◌⊎◌, refl, inl, inr}
use objwal.Error.{Result, Error, ok, err}
use objwal.Std.LittleEndian.{Bytes}

pub record UpdateVersion : Type 0 where
  pub etag : Bytes
  pub version : Bytes

pub record ObjectMeta : Type 0 where
  pub location : Bytes
  pub last_modified : ℕ
  pub size : ℕ
  pub etag : Bytes
  pub version : Bytes

pub record GetResult : Type 0 where
  pub contents : Bytes
  pub meta : ObjectMeta

pub data PutMode : Type 0 where
  put_overwrite put_create put_update : PutMode

pub record PutOptions : Type 0 where
  pub mode : PutMode
  pub version : UpdateVersion

-- An operation with an effect on the world `W`.
abbrev pub Eff : Type 0 → Type 0 → Type 0
Eff W A = W → Result A × W

pub record ObjectStore (W : Type 0) : Type 0 where
  pub get : Bytes → Eff W GetResult
  pub put : Bytes → Bytes → Eff W (Unit {0})
  pub put_opts : Bytes → Bytes → PutOptions → Eff W (Unit {0})
  pub list : Bytes → Eff W (List ObjectMeta)
  pub delete : Bytes → Eff W (Unit {0})

-- To split on the result of an operation and keep the equation.
Eff-cases :
    {W A : Type 0} (p : Result A × W)
    → ((a : A) × (v : W) × (p ≡ (ok a, v))) ⊎ ((e : Error) × (v : W) × (p ≡ (err e, v)))
Eff-cases (ok a, v) = inl (a, v, refl)
Eff-cases (err e, v) = inr (e, v, refl)
