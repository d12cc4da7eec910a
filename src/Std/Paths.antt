-- ===== src/Std/Paths.antt =====
-- `filepath.Clean` and `filepath.Join` where the separator is '/'.
use objwal.Prelude.{Bool, true, false, ◌||◌, List, [], ◌∷◌, ◌++◌, bytes_eq, ◌==◌, if◌then◌else◌}
use objwal.Std.LittleEndian.{Bytes}

-- The parts between the separators; `part` is the one that is being read.
unfoldable pub parts_of : Bytes → Bytes → List Bytes
parts_of part [] = part ∷ []
parts_of part (b ∷ bs) = if b == 47 then part ∷ parts_of [] bs else parts_of (part ++ b ∷ []) bs

-- ".."
abbrev parent : Bytes
parent = 46 ∷ 46 ∷ []

-- A ".." takes the part before it, if there is one; at the root it is left out.
unfoldable pub step_up : Bool → List Bytes → List Bytes
step_up rooted [] = if rooted then [] else parent ∷ []
step_up rooted (last ∷ before) = if bytes_eq last parent then parent ∷ last ∷ before else before

-- The parts that are kept, the last one first.
unfoldable pub kept_parts : Bool → List Bytes → List Bytes → List Bytes
kept_parts rooted kept [] = kept
kept_parts rooted kept (part ∷ parts) =
    kept_parts rooted
      (if bytes_eq part [] || bytes_eq part (46 ∷ [])
        then kept
        else if bytes_eq part parent
        then step_up rooted kept
        else part ∷ kept)
      parts

-- The parts in order, joined, in front of `behind`.
unfoldable pub joined_parts : List Bytes → Bytes → Bytes
joined_parts [] behind = behind
joined_parts (part ∷ []) behind = part ++ behind
joined_parts (part ∷ before ∷ parts) behind = joined_parts (before ∷ parts) (47 ∷ (part ++ behind))

unfoldable pub or_dot : Bytes → Bytes
or_dot [] = 46 ∷ []
or_dot (b ∷ bs) = b ∷ bs

unfoldable pub clean : Bytes → Bytes
clean [] = 46 ∷ []
clean (b ∷ bs) =
    if b == 47
    then 47 ∷ joined_parts (kept_parts true [] (parts_of [] bs)) []
    else or_dot (joined_parts (kept_parts false [] (parts_of [] (b ∷ bs))) [])

-- Empty elements are left out.
unfoldable pub path_join : Bytes → Bytes → Bytes
path_join [] [] = []
path_join [] (c ∷ cs) = clean (c ∷ cs)
path_join (b ∷ bs) [] = clean (b ∷ bs)
path_join (b ∷ bs) (c ∷ cs) = clean ((b ∷ bs) ++ (47 ∷ c ∷ cs))
