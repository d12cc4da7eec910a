-- ===== src/Wal/Store.antt =====
-- wal/store.go: the manifest object, read by `load` and written by `create` and `commit`.
use objwal.Prelude.{[], Bool, true, false, Option, none, some, if◌then◌else◌}
use objwal.Error.{Result, ok, err, is_not_found}
use objwal.Std.LittleEndian.{Bytes}
use objwal.ObjectStore.{
  ObjectStore, Eff, UpdateVersion, GetResult, PutOptions, put_create, put_update,
}
use objwal.Wal.Manifest.{Manifest, new_manifest, parse_manifest, manifest_bytes}

-- What `Load` returns beside the error: the manifest, its version, and whether it exists.
pub record Loaded : Type 0 where
  pub manifest : Manifest
  pub version : Option UpdateVersion
  pub exists : Bool

abbrev pub absent : Loaded
absent = record { manifest = new_manifest; version = none; exists = false }

abbrev no_version : UpdateVersion
no_version = record { etag = []; version = [] }

-- What `Load` makes of the answer to its `Get`.
unfoldable pub loaded : Result GetResult → Result Loaded
loaded (err e) = if is_not_found e then ok absent else err e
loaded (ok res) = elim (parse_manifest res.contents) [
  | err e ↦ err e
  | ok m ↦ ok (record {
    manifest = m;
    version = some (record { etag = res.meta.etag; version = res.meta.version });
    exists = true;
  })
]

module _ {W : Type 0} (os : ObjectStore W) (path : Bytes) where
  unfoldable pub load : Eff W Loaded
  load w = let (res, w') = os.get path w in (loaded res, w')

  -- `m.Bytes()`, and the conditional put if it did not fail.
  unfoldable pub write : Result Bytes → PutOptions → Eff W (Unit {0})
  write (err e) opts w = (err e, w)
  write (ok bytes) opts w = os.put_opts path bytes opts w

  unfoldable pub create : Manifest → Eff W (Unit {0})
  unfolding write
  create m = write (manifest_bytes m) (record { mode = put_create; version = no_version })

  unfoldable pub commit : Manifest → Option UpdateVersion → Eff W (Unit {0})
  unfolding write create
  commit m none = create m
  commit m (some v) = write (manifest_bytes m) (record { mode = put_update; version = v })
