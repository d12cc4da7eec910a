-- ===== src/ObjectStore/Memory.antt =====
-- objectstore/memory.go: the store in memory. The lock makes each operation one step; the map of
-- objects is an association list with one pair for a path, and `now` is what the clock reads.
pub mod Cas
mod Tests
use objwal.Prelude.{
  ℕ, ◌+◌, Bool, true, false, not, ◌||◌, List, [], ◌∷◌, ◌++◌, Option, none, some, length, bytes_eq,
  ltb, ◌==◌, ◌%◌, if◌then◌else◌,
}
use objwal.Error.{Result, ok, err, Error, not_found, already_exists, precondition_failed}
use objwal.Std.LittleEndian.{Bytes}
use objwal.Std.Decimal.{decimal}
use objwal.Wal.Entry.{u64_mod}
use objwal.ObjectStore.{
  UpdateVersion, ObjectMeta, GetResult, PutMode, put_overwrite, put_create, put_update, PutOptions,
  Eff, ObjectStore,
}

pub record MemObject : Type 0 where
  pub contents : Bytes
  pub etag : Bytes
  pub last_modified : ℕ

abbrev pub Objects : Type 0
Objects = List (Bytes × MemObject)

pub record InMemory : Type 0 where
  pub objects : Objects
  pub etag_seq : ℕ
  pub now : ℕ

abbrev pub new_in_memory : ℕ → InMemory
new_in_memory now = record { objects = []; etag_seq = 0; now = now }

-- `s.objects[path]`
unfoldable pub find : Bytes → Objects → Option MemObject
find path [] = none
find path ((p, obj) ∷ rest) =
    let later = find path rest in if bytes_eq p path then some obj else later

-- `delete(s.objects, path)`
unfoldable pub remove : Bytes → Objects → Objects
remove path [] = []
remove path ((p, obj) ∷ rest) =
    let later = remove path rest in if bytes_eq p path then later else (p, obj) ∷ later

-- "etag-%d"
unfoldable pub etag_of : ℕ → Bytes
etag_of n = 101 ∷ 116 ∷ 97 ∷ 103 ∷ 45 ∷ decimal n

unfoldable pub meta_of : Bytes → MemObject → ObjectMeta
meta_of path obj = record {
  location = path;
  last_modified = obj.last_modified;
  size = length obj.contents;
  etag = obj.etag;
  version = [];
}

unfoldable pub get : Bytes → Eff InMemory GetResult
get path s = elim (find path s.objects) [
  | none ↦ (err not_found, s)
  | some obj ↦ (ok (record { contents = obj.contents; meta = meta_of path obj }), s)
]

-- The guards of `PutOpts`.
unfoldable pub admitted : Option MemObject → PutOptions → Result (Unit {0})
admitted existing opts = elim opts.mode [
  | put_overwrite ↦ ok tt
  | put_create ↦ elim existing [ none ↦ ok tt | some _ ↦ err already_exists ]
  | put_update ↦ elim existing [
    | none ↦ err precondition_failed
    | some obj ↦ if bytes_eq obj.etag opts.version.etag then ok tt else err precondition_failed
  ]
]

-- The object stored under a fresh ETag.
unfoldable pub stored : Bytes → Bytes → InMemory → InMemory
stored path bytes s =
    let seq = (s.etag_seq + 1) % u64_mod in
    record {
      objects =
          (path, record { contents = bytes; etag = etag_of seq; last_modified = s.now })
          ∷ remove path s.objects;
      etag_seq = seq;
      now = s.now;
    }

unfoldable pub put_opts : Bytes → Bytes → PutOptions → Eff InMemory (Unit {0})
put_opts path bytes opts s = elim (admitted (find path s.objects) opts) [
  | err e ↦ (err e, s)
  | ok _ ↦ (ok tt, stored path bytes s)
]

unfoldable pub put : Bytes → Bytes → Eff InMemory (Unit {0})
put path bytes =
    put_opts path bytes
      (record { mode = put_overwrite; version = record { etag = []; version = [] } })

-- `strings.HasPrefix(path, prefix)`
unfoldable pub has_prefix : Bytes → Bytes → Bool
has_prefix path [] = true
has_prefix [] (b ∷ prefix) = false
has_prefix (a ∷ path) (b ∷ prefix) = if a == b then has_prefix path prefix else false

-- Go's `<` on strings.
unfoldable pub before : Bytes → Bytes → Bool
before [] [] = false
before [] (b ∷ ys) = true
before (a ∷ xs) [] = false
before (a ∷ xs) (b ∷ ys) =
    let rest = before xs ys in if ltb a b then true else if a == b then rest else false

-- `sort.Slice` by location; no two locations are equal.
unfoldable pub insert : ObjectMeta → List ObjectMeta → List ObjectMeta
insert m [] = m ∷ []
insert m (x ∷ xs) =
    let rest = insert m xs in if before m.location x.location then m ∷ x ∷ xs else x ∷ rest

unfoldable pub listed : Bytes → Objects → List ObjectMeta
listed prefix [] = []
listed prefix ((p, obj) ∷ rest) =
    let later = listed prefix rest in
    if has_prefix p prefix then insert (meta_of p obj) later else later

unfoldable pub list : Bytes → Eff InMemory (List ObjectMeta)
list prefix s = (ok (listed prefix s.objects), s)

unfoldable pub delete : Bytes → Eff InMemory (Unit {0})
delete path s = elim (find path s.objects) [
  | none ↦ (err not_found, s)
  | some _ ↦ (ok tt, record s { objects = remove path s.objects })
]

abbrev pub in_memory : ObjectStore InMemory
in_memory = record { get = get; put = put; put_opts = put_opts; list = list; delete = delete }
