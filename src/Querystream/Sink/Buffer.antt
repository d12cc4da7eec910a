-- ===== src/Querystream/Sink/Buffer.antt =====
-- What the sink's files and its buffer hold while the records of a log arrive in order.
use objwal.Prelude.{
  ℕ, ◌+◌, ◌/◌, ◌%◌, ◌^◌, ◌<◌, ◌≤◌, ◌≡◌, refl, sym, ap, subst, ◌∙◌, true, List, [], ◌∷◌, ◌++◌,
  length, All, arith,
}
use objwal.Std.LittleEndian.{Bytes}
use objwal.Querystream.Names.{file_path}
use objwal.Querystream.Sink.{
  Config, FileInfo, RowItem, Sink, sizes, bucket_of, run_of, last_seq_of, finalized,
}

-- Rows of the sequences from `a` to `b`, one each.
abbrev pub RowsFrom : {T : Type 0} → ℕ → List (RowItem T) → ℕ → Type 0
RowsFrom a [] b = a ≡ b
RowsFrom a (it ∷ its) b = (it.seq ≡ a) × RowsFrom (a + 1) its b

-- Files of the sequences from `a` to `b`, with no gap and no overlap, each of one bucket and under
-- the name of its range.
abbrev pub FilesFrom : Config → Bytes → ℕ → List FileInfo → ℕ → Type 0
FilesFrom cfg ext a [] b = a ≡ b
FilesFrom cfg ext a (f ∷ fs) b =
    (f.first_seq ≡ a)
    × (0 < f.rows)
    × (f.last_seq + 1 ≡ a + f.rows)
    × (f.first_seq / cfg.bucket_size ≡ f.bucket)
    × (f.last_seq / cfg.bucket_size ≡ f.bucket)
    × (f.path ≡ file_path cfg.dir f.bucket f.first_seq f.last_seq ext)
    × FilesFrom cfg ext (a + f.rows) fs b

-- The rows are of the first one's bucket.
abbrev pub OneBucket : {T : Type 0} → ℕ → List (RowItem T) → Type 0
OneBucket size [] = Unit
OneBucket size (it ∷ its) = All (λ x. x.seq / size ≡ it.seq / size) its

-- The sink has files of the sequences from `start` to its cursor and rows from there to `pos`.
pub record Tiled {T : Type 0} (cfg : Config) (ext : Bytes) (start : ℕ) (s : Sink T) (pos : ℕ)
    : Type 0 where
  pub files : FilesFrom cfg ext start s.catalog s.next_cursor
  pub rows : RowsFrom s.next_cursor s.buf pos
  pub one_bucket : OneBucket cfg.bucket_size s.buf
  pub counted : s.approx_bytes ≡ sizes s.buf
  pub high : s.have_data ≡ true → s.visible_high + 1 ≡ s.next_cursor

FilesFrom-append :
    (cfg : Config) (ext : Bytes) (a b : ℕ) (fs gs : List FileInfo) (c : ℕ)
    → FilesFrom cfg ext a fs b
    → FilesFrom cfg ext b gs c
    → FilesFrom cfg ext a (fs ++ gs) c
FilesFrom-append cfg ext a b [] gs c h k = subst (λ x. FilesFrom cfg ext x gs c) (sym h) k
FilesFrom-append cfg ext a b (f ∷ fs) gs c (u, v, x, y, z, p, h) k =
    (u, v, x, y, z, p, FilesFrom-append cfg ext (a + f.rows) b fs gs c h k)

pub FilesFrom-le :
    (cfg : Config) (ext : Bytes) (a b : ℕ) (fs : List FileInfo) → FilesFrom cfg ext a fs b → a ≤ b
FilesFrom-le cfg ext a b [] h = omega arith
FilesFrom-le cfg ext a b (f ∷ fs) (u, n, v, x, y, p, h) =
    omega (arith, FilesFrom-le cfg ext (a + f.rows) b fs h)

pub RowsFrom-append :
    {T : Type 0} (a b : ℕ) (its : List (RowItem T)) (it : RowItem T)
    → RowsFrom a its b
    → it.seq ≡ b
    → RowsFrom a (its ++ it ∷ []) (b + 1)
RowsFrom-append a b [] it h k = (k ∙ sym h, ap (λ n. n + 1) h)
RowsFrom-append a b (x ∷ its) it (u, h) k = (u, RowsFrom-append (a + 1) b its it h k)

pub length-RowsFrom :
    {T : Type 0} (a b : ℕ) (its : List (RowItem T)) → RowsFrom a its b → b ≡ a + length its
length-RowsFrom a b [] h = omega arith
length-RowsFrom a b (it ∷ its) (u, h) = omega (arith, length-RowsFrom (a + 1) b its h)

pub sizes-append : {T : Type 0} (xs ys : List (RowItem T)) → sizes (xs ++ ys) ≡ sizes xs + sizes ys
unfolding sizes
sizes-append [] ys = omega arith
sizes-append (x ∷ xs) ys = omega (arith, sizes-append xs ys)

module _ {T : Type 0} (cfg : Config) where
  pub run_of-all :
      (b : ℕ) (its : List (RowItem T))
      → All (λ x. x.seq / cfg.bucket_size ≡ b) its
      → run_of cfg b its ≡ (its, [])
  unfolding run_of bucket_of
  run_of-all b [] h = refl
  run_of-all b (it ∷ its) (h, hs) = rw (run_of-all b its hs) (ground (arith, h))

  last_seq_of-RowsFrom :
      (seq b : ℕ) (its : List (RowItem T)) → RowsFrom (seq + 1) its b → last_seq_of seq its + 1 ≡ b
  unfolding last_seq_of
  last_seq_of-RowsFrom seq b [] h = h
  last_seq_of-RowsFrom seq b (it ∷ its) (u, h) =
      last_seq_of-RowsFrom it.seq b its (subst (λ n. RowsFrom (n + 1) its b) (sym u) h)

  last_seq_of-bucket :
      (b seq : ℕ) (its : List (RowItem T))
      → seq / cfg.bucket_size ≡ b
      → All (λ x. x.seq / cfg.bucket_size ≡ b) its
      → last_seq_of seq its / cfg.bucket_size ≡ b
  unfolding last_seq_of
  last_seq_of-bucket b seq [] h k = h
  last_seq_of-bucket b seq (it ∷ its) h (k, ks) = last_seq_of-bucket b it.seq its k ks

  -- The file of a whole buffer.
  unfoldable pub whole_file : Bytes → RowItem T → List (RowItem T) → FileInfo
  whole_file ext it its = record {
    path = file_path cfg.dir (bucket_of cfg it.seq) it.seq (last_seq_of it.seq its) ext;
    bucket = bucket_of cfg it.seq;
    first_seq = it.seq;
    last_seq = last_seq_of it.seq its;
    rows = length (it ∷ its);
  }

  pub finalized-Tiled :
      (ext : Bytes) (start : ℕ) (s : Sink T) (pos : ℕ) (it : RowItem T) (its : List (RowItem T))
      → s.buf ≡ it ∷ its
      → pos < 2 ^ 64
      → Tiled cfg ext start s pos
      → Tiled cfg ext start (finalized (whole_file ext it its) [] s) pos
  unfolding finalized whole_file sizes bucket_of
  finalized-Tiled ext start s pos it its e f t =
      let (u, us) = subst (λ l. RowsFrom s.next_cursor l pos) e t.rows in
      let one = subst (OneBucket cfg.bucket_size) e t.one_bucket in
      let back : last_seq_of it.seq its + 1 ≡ pos =
        last_seq_of-RowsFrom it.seq pos its (subst (λ n. RowsFrom (n + 1) its pos) (sym u) us) in
      let size : pos ≡ s.next_cursor + length (it ∷ its) =
        omega (arith, length-RowsFrom (s.next_cursor + 1) pos its us) in
      let cursor : (last_seq_of it.seq its + 1) % 2 ^ 64 ≡ pos = omega arith in
      record {
        files = FilesFrom-append cfg ext start s.next_cursor s.catalog (_ ∷ []) _ t.files (
          u,
          omega arith,
          omega (arith, back, size),
          refl,
          last_seq_of-bucket (it.seq / cfg.bucket_size) it.seq its refl one,
          refl,
          omega (arith, size, cursor),
        );
        rows = cursor;
        one_bucket = tt;
        counted = refl;
        high = λ _. back ∙ sym cursor;
      }
