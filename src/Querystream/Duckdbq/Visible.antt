-- ===== src/Querystream/Duckdbq/Visible.antt =====
-- What the query engine sees of the sink's files.
use objwal.Prelude.{
  ℕ, ◌+◌, ◌^◌, ◌<◌, ◌≡◌, refl, ap, ◌∙◌, true, List, [], ◌∷◌, Option, none, some, map, length, arith,
}
use objwal.Std.LittleEndian.{Bytes}
use objwal.Querystream.Names.{before_last_dot, file_path, path_base, parse_visible_name}
use objwal.Querystream.Names.RoundTrip.{parse_part_name_lem}
use objwal.Querystream.Sink.{Config, FileInfo, Sink}
use objwal.Querystream.Sink.Buffer.{FilesFrom, FilesFrom-le, Tiled}
use objwal.Querystream.Open.Restart.{no_slash, path_base-file_path}
use objwal.Querystream.Duckdbq.{raised_by, highest_file}

-- The highest sequence so far is below the file.
abbrev Below : Option ℕ → ℕ → Type 0
Below none a = Unit
Below (some high) a = high < a

raised_by-Below :
    (high : Option ℕ) (first last : ℕ)
    → Below high last
    → raised_by (some (first, last)) high ≡ some last
unfolding raised_by
raised_by-Below none first last h = refl
raised_by-Below (some high) first last h = ground (arith, h)

module _ (cfg : Config) (ext : Bytes) (plain : no_slash ext ≡ true)
    (one_dot : before_last_dot ext ≡ none) (b : ℕ) (fits : b < 2 ^ 64) where
  file_visible :
      (f : FileInfo)
      → f.first_seq < 2 ^ 64
      → f.last_seq < 2 ^ 64
      → f.path ≡ file_path cfg.dir f.bucket f.first_seq f.last_seq (46 ∷ ext)
      → parse_visible_name (path_base f.path) ≡ some (f.first_seq, f.last_seq)
  file_visible f u v p =
      ap (λ l. parse_visible_name (path_base l)) p
      ∙ ap parse_visible_name (
          path_base-file_path cfg.dir f.bucket f.first_seq f.last_seq (46 ∷ ext)
            (unfold no_slash in plain))
      ∙ (parse_part_name_lem 0 f.first_seq f.last_seq ext (omega arith) u v one_dot).1

  highest_file-step :
      (high : Option ℕ) (f : FileInfo) (fs : List FileInfo)
      → f.first_seq < 2 ^ 64
      → f.last_seq < 2 ^ 64
      → f.path ≡ file_path cfg.dir f.bucket f.first_seq f.last_seq (46 ∷ ext)
      → Below high f.last_seq
      → highest_file high (map (λ g. g.path) (f ∷ fs))
        ≡ highest_file (some f.last_seq) (map (λ g. g.path) fs)
  unfolding highest_file
  highest_file-step high f fs u v p h =
      ap (λ o. highest_file (raised_by o high) (map (λ g. g.path) fs)) (file_visible f u v p)
      ∙ ap (λ o. highest_file o (map (λ g. g.path) fs))
          (raised_by-Below high f.first_seq f.last_seq h)

  highest_file-FilesFrom :
      (a last : ℕ) (fs : List FileInfo)
      → FilesFrom cfg (46 ∷ ext) a fs b
      → last + 1 ≡ a
      → (high : ℕ) × (highest_file (some last) (map (λ f. f.path) fs) ≡ some high) × (high + 1 ≡ b)
  highest_file-FilesFrom a last [] t h = (last, unfold highest_file in refl, h ∙ t)
  highest_file-FilesFrom a last (f ∷ fs) (u, n, v, x, y, p, t) h =
      let le = FilesFrom-le cfg (46 ∷ ext) (a + f.rows) b fs t in
      let (high, e, k) = highest_file-FilesFrom (a + f.rows) f.last_seq fs t v in
      (
        high,
        highest_file-step (some last) f fs (omega (arith, le)) (omega (arith, le)) p
              (omega (arith, h, u, v))
            ∙ e,
        k,
      )

  pub first_file :
      (a : ℕ) (fs : List FileInfo)
      → FilesFrom cfg (46 ∷ ext) a fs b
      → 0 < length fs
      → (high : ℕ) × (highest_file none (map (λ f. f.path) fs) ≡ some high) × (high + 1 ≡ b)
  first_file a [] t n = absurd (omega arith)
  first_file a (f ∷ fs) (u, n, v, x, y, p, t) m =
      let le = FilesFrom-le cfg (46 ∷ ext) (a + f.rows) b fs t in
      let (high, e, k) = highest_file-FilesFrom (a + f.rows) f.last_seq fs t v in
      (high, highest_file-step none f fs (omega (arith, le)) (omega (arith, le)) p tt ∙ e, k)

-- For a sink that has data and one file at least, whose files tile the sequences up to its cursor,
-- below 2 ^ 64, with an extension that has no '/' and no '.' but its first character: over the
-- files' paths, the engine's visible high is the sink's watermark.
pub highest_file-Tiled :
    {T : Type 0} (cfg : Config) (ext : Bytes) (start pos : ℕ) (s : Sink T)
    → no_slash ext ≡ true
    → before_last_dot ext ≡ none
    → s.next_cursor < 2 ^ 64
    → Tiled cfg (46 ∷ ext) start s pos
    → s.have_data ≡ true
    → 0 < length s.catalog
    → highest_file none (map (λ f. f.path) s.catalog) ≡ some s.visible_high
highest_file-Tiled cfg ext start pos s plain one_dot fits t h n =
    let (high, e, k) =
      first_file cfg ext plain one_dot s.next_cursor fits start s.catalog t.files n in
    e ∙ ap some (omega (arith, k, t.high h))
