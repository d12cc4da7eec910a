-- ===== src/ObjectStore/Memory/Tests.antt =====
-- A lost race for one object of the store in memory.
use objwal.Prelude.{◌≡◌, refl, List, [], ◌∷◌, some, bytes_eq}
use objwal.Std.LittleEndian.{Bytes}
use objwal.ObjectStore.{put_overwrite}
use objwal.ObjectStore.Memory.{
  MemObject, InMemory, new_in_memory, find, etag_of, admitted, stored, put_opts,
}
use objwal.ObjectStore.Memory.Cas.{Op, putting, deleting, ticking, run_op, run}

abbrev key : Bytes
key = 109 ∷ []

abbrev past : List Op
past =
    putting key (1 ∷ [])
      (record { mode = put_overwrite; version = record { etag = []; version = [] } })
    ∷ []

abbrev seen : MemObject
seen = record { contents = 1 ∷ []; etag = etag_of 1; last_modified = 0 }

seen-found : find key (run past (new_in_memory 0)).objects ≡ some seen
unfolding run run_op put_opts admitted stored find bytes_eq
seen-found = refl

abbrev later : InMemory
later = run (ticking 5 ∷ deleting (7 ∷ []) ∷ []) (stored key (2 ∷ []) (run past (new_in_memory 0)))
