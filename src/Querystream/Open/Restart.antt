-- ===== src/Querystream/Open/Restart.antt =====
-- A sink that is opened over the files of another.
use objwal.Prelude.{
  ℕ, zero, suc, ◌+◌, ◌/◌, ◌%◌, ◌^◌, ◌≤◌, ◌<◌, ◌≡◌, ◌⊎◌, inl, inr, refl, sym, ap, subst, ◌∙◌, Bool,
  true, false, not, ◌||◌, List, [], ◌∷◌, ◌++◌, append_assoc, append-nil, none, some, map, length,
  ltb, ◌==◌, if◌then◌else◌, arith,
}
use native.Mathlib.Nat.{div-le_self}
use objwal.Std.LittleEndian.{Bytes}
use objwal.Std.Digits.{digits}
use objwal.Querystream.Names.{
  bucket_prefix, part_prefix, bucket_dir, part_name, file_path, path_base, path_dir, last_slash,
  before_last_dot, parse_part_name, parse_bucket_dir,
}
use objwal.Querystream.Names.RoundTrip.{parse_part_name_lem}
use objwal.Querystream.Sink.{Config, FileInfo, Sink}
use objwal.Querystream.Sink.Buffer.{FilesFrom, FilesFrom-le}
use objwal.Querystream.Open.{empty_sink, found, scanned, scan}

-- No '/' in a name.
unfoldable pub no_slash : Bytes → Bool
no_slash [] = true
no_slash (b ∷ bs) = let rest = no_slash bs in if b == 47 then false else rest

no_slash-append :
    (xs ys : Bytes) → no_slash xs ≡ true → no_slash ys ≡ true → no_slash (xs ++ ys) ≡ true
unfolding no_slash
no_slash-append [] ys h k = k
no_slash-append (x ∷ xs) ys h k = ground (arith, no_slash-append xs ys)

no_slash-digits : (k v : ℕ) → no_slash (digits k v) ≡ true
unfolding digits no_slash
no_slash-digits zero v = refl
no_slash-digits (suc k) v =
    no_slash-append (digits k (v / 10)) ((48 + v % 10) ∷ []) (no_slash-digits k (v / 10))
      (ground arith)

last_slash-none : (xs : Bytes) → no_slash xs ≡ true → last_slash xs ≡ none
unfolding last_slash no_slash
last_slash-none [] h = refl
last_slash-none (x ∷ xs) h = ground (arith, last_slash-none xs)

last_slash-append :
    (xs ys : Bytes) → no_slash ys ≡ true → last_slash (xs ++ 47 ∷ ys) ≡ some (xs, ys)
unfolding last_slash
last_slash-append [] ys h = rw (last_slash-none ys h, last_slash) refl
last_slash-append (x ∷ xs) ys h = rw (last_slash-append xs ys h, last_slash) refl

path_base-append : (xs ys : Bytes) → no_slash ys ≡ true → path_base (xs ++ 47 ∷ ys) ≡ ys
unfolding path_base
path_base-append xs ys h = rw (last_slash-append xs ys h, path_base) refl

path_dir-append : (xs ys : Bytes) → no_slash ys ≡ true → path_dir (xs ++ 47 ∷ ys) ≡ xs
unfolding path_dir
path_dir-append xs ys h = rw (last_slash-append xs ys h, path_dir) refl

no_slash-part_name :
    (first last : ℕ) (ext : Bytes)
    → no_slash ext ≡ true
    → no_slash (part_name first last ext) ≡ true
unfolding part_name
no_slash-part_name first last ext h = no_slash-append part_prefix _ (unfold no_slash in refl) (
    no_slash-append (digits 20 first) _ (no_slash-digits 20 first) (
      no_slash-append (45 ∷ []) (digits 20 last ++ ext) (unfold no_slash in refl)
        (no_slash-append (digits 20 last) ext (no_slash-digits 20 last) h)))

no_slash-bucket_dir : (bucket : ℕ) → no_slash (bucket_dir bucket) ≡ true
unfolding bucket_dir
no_slash-bucket_dir bucket =
    no_slash-append bucket_prefix (digits 20 bucket) (unfold no_slash in refl)
      (no_slash-digits 20 bucket)

pub path_base-file_path :
    (dir : Bytes) (bucket first last : ℕ) (ext : Bytes)
    → no_slash ext ≡ true
    → path_base (file_path dir bucket first last ext) ≡ part_name first last ext
unfolding file_path
path_base-file_path dir bucket first last ext h =
    ap path_base (sym (append_assoc dir (47 ∷ bucket_dir bucket) (47 ∷ part_name first last ext)))
    ∙ path_base-append (dir ++ 47 ∷ bucket_dir bucket) (part_name first last ext)
        (no_slash-part_name first last ext h)

path_dir-file_path :
    (dir : Bytes) (bucket first last : ℕ) (ext : Bytes)
    → no_slash ext ≡ true
    → path_dir (file_path dir bucket first last ext) ≡ dir ++ 47 ∷ bucket_dir bucket
unfolding file_path
path_dir-file_path dir bucket first last ext h =
    ap path_dir (sym (append_assoc dir (47 ∷ bucket_dir bucket) (47 ∷ part_name first last ext)))
    ∙ path_dir-append (dir ++ 47 ∷ bucket_dir bucket) (part_name first last ext)
        (no_slash-part_name first last ext h)

-- What a file's name does not carry is lost.
unfoldable pub unrowed : FileInfo → FileInfo
unrowed f = record f { rows = 0 }

-- The watermark is below `a`, the sequence that the next file begins with.
abbrev High : {T : Type 0} → Sink T → ℕ → Type 0
High s a = s.have_data ≡ true → s.visible_high + 1 ≡ a

file_name_parsed :
    (dir ext : Bytes) (f : FileInfo)
    → no_slash ext ≡ true
    → before_last_dot ext ≡ none
    → f.bucket < 2 ^ 64
    → f.first_seq < 2 ^ 64
    → f.last_seq < 2 ^ 64
    → f.path ≡ file_path dir f.bucket f.first_seq f.last_seq (46 ∷ ext)
    → (parse_part_name (path_base f.path) (46 ∷ ext) ≡ some (f.first_seq, f.last_seq))
      × (parse_bucket_dir (path_base (path_dir f.path)) ≡ (f.bucket, true))
file_name_parsed dir ext f plain one_dot b u v p =
    let sound : no_slash (46 ∷ ext) ≡ true = unfold no_slash in plain in
    let names = parse_part_name_lem f.bucket f.first_seq f.last_seq ext b u v one_dot in
    (
      ap (λ l. parse_part_name (path_base l) (46 ∷ ext)) p
          ∙ ap (λ l. parse_part_name l (46 ∷ ext))
              (path_base-file_path dir f.bucket f.first_seq f.last_seq (46 ∷ ext) sound)
          ∙ names.0,
      ap (λ l. parse_bucket_dir (path_base (path_dir l))) p
          ∙ ap (λ l. parse_bucket_dir (path_base l))
              (path_dir-file_path dir f.bucket f.first_seq f.last_seq (46 ∷ ext) sound)
          ∙ ap parse_bucket_dir
              (path_base-append dir (bucket_dir f.bucket) (no_slash-bucket_dir f.bucket))
          ∙ names.2,
    )

scanned-some :
    {T : Type 0} (f : FileInfo) (s : Sink T)
    → parse_bucket_dir (path_base (path_dir f.path)) ≡ (f.bucket, true)
    → (not s.have_data || ltb s.visible_high f.last_seq) ≡ true
    → scanned f.path (some (f.first_seq, f.last_seq)) s ≡ record s {
      catalog = s.catalog ++ (unrowed f ∷ []);
      visible_high = f.last_seq;
      have_data = true;
    }
unfolding scanned found unrowed
scanned-some f s b r = simp (b, r)

raised :
    {T : Type 0} (f : FileInfo) (s : Sink T) (a : ℕ)
    → High s a
    → a ≤ f.last_seq
    → (not s.have_data || ltb s.visible_high f.last_seq) ≡ true
raised f s a h k = ground (arith, h)

-- What is found of the files `fs`, which end at `b`.
pub record Reopened {T : Type 0} (b : ℕ) (s s' : Sink T) (fs : List FileInfo) : Type 0 where
  pub same_files : s'.catalog ≡ s.catalog ++ map unrowed fs
  pub watermark : s'.have_data ≡ true → s'.visible_high + 1 ≡ b
  pub shown : (0 < length fs) ⊎ (s.have_data ≡ true) → s'.have_data ≡ true
  pub cursor : s'.next_cursor ≡ s.next_cursor

module _ (cfg : Config) (ext : Bytes) (plain : no_slash ext ≡ true)
    (one_dot : before_last_dot ext ≡ none) (b : ℕ) (fits : b < 2 ^ 64) where
  scan-FilesFrom :
      {T : Type 0} (a : ℕ) (fs : List FileInfo) (s : Sink T)
      → High s a
      → FilesFrom cfg (46 ∷ ext) a fs b
      → Reopened b s (scan (46 ∷ ext) (map (λ f. f.path) fs) s) fs
  unfolding scan
  scan-FilesFrom a [] s h t = record {
    same_files = sym (append-nil s.catalog);
    watermark = λ k. h k ∙ t;
    shown = elim [ inl k ↦ absurd (omega arith) | inr k ↦ k ];
    cursor = refl;
  }
  scan-FilesFrom a (f ∷ fs) s h (u, n, v, x, y, p, t) =
      let le = FilesFrom-le cfg (46 ∷ ext) (a + f.rows) b fs t in
      let small : f.bucket < 2 ^ 64 =
        omega (arith, x, le, div-le_self f.first_seq cfg.bucket_size) in
      let names =
        file_name_parsed cfg.dir ext f plain one_dot small (omega (arith, le)) (omega (arith, le))
          p in
      let step =
        ap (λ o. scanned f.path o s) names.0
        ∙ scanned-some f s names.1 (raised f s a h (omega arith)) in
      let rest =
        scan-FilesFrom (a + f.rows) fs
          (record s {
            catalog = s.catalog ++ (unrowed f ∷ []);
            visible_high = f.last_seq;
            have_data = true;
          })
          (λ _. v) t in
      subst (λ z. Reopened b s (scan (46 ∷ ext) (map (λ g. g.path) fs) z) (f ∷ fs)) (sym step)
        (record {
          same_files = rest.same_files ∙ append_assoc s.catalog (unrowed f ∷ []) (map unrowed fs);
          watermark = rest.watermark;
          shown = λ _. rest.shown (inr refl);
          cursor = rest.cursor;
        })

  -- Over the paths of files that tile the sequences from `start` to `b`, below 2 ^ 64, for an
  -- extension with no '/' and no '.' but its first character, a new sink finds those files but for
  -- the numbers of their rows; with one file at least it has data, and its watermark is the last
  -- sequence below `b`. Its cursor is the one that it was opened with.
  pub scan-Reopened :
      {T : Type 0} (start cursor : ℕ) (fs : List FileInfo)
      → FilesFrom cfg (46 ∷ ext) start fs b
      → Reopened {T = T} b
          (empty_sink cursor)
          (scan (46 ∷ ext) (map (λ f. f.path) fs) (empty_sink cursor))
          fs
  scan-Reopened start cursor fs t =
      scan-FilesFrom start fs (empty_sink cursor) (λ k. absurd (cc k)) t
