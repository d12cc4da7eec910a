-- ===== src/Cmd/Stream/Config/Validity.antt =====
-- What a configuration of the demo is that is returned without an error.
use objwal.Prelude.{
  ◌==◌, ℕ, ◌≡◌, refl, subst, ◌⊎◌, inl, inr, Bool, true, false, List, [], ◌∷◌, bytes_eq, bytes_eq→eq,
  Bool-cases, if◌then◌else◌,
}
use objwal.Error.{Result, ok, err, Error, >>=-eq-ok}
use objwal.Std.LittleEndian.{Bytes}
use objwal.Std.Paths.{or_dot, clean, path_join}
use objwal.Cmd.Stream.Config.{StreamConfig, JsonConfig, validate, producer_name, consumer_name}
use objwal.Cmd.Stream.Config.Flags.{NumberParsers, parse_flags}
use objwal.Cmd.Stream.Config.Resolve.{
  scan_config_flag, cursor_or_default, with_cursor_path, seeded, checked_config, load_config,
}

-- What `validate` checks, and the cursor path that is there.
pub record Valid (c : StreamConfig) : Type 0 where
  pub runs :
      ((c.mode ≡ producer_name) × ¬ (c.csv ≡ [])) ⊎ ((c.mode ≡ consumer_name) × ¬ (c.sql ≡ []))
  pub has_cursor : ¬ (c.cursor_path ≡ [])

not_nil : (s : Bytes) → bytes_eq s [] ≡ false → ¬ (s ≡ [])
unfolding bytes_eq
not_nil [] h e = absurd (cc h)
not_nil (b ∷ bs) h e = cc e

given-ok :
    (b : Bool) (e : Error)
    → ◌≡◌ {A = Result (Unit {0})} (if b then err e else ok tt) (ok tt)
    → b ≡ false
given-ok true e h = absurd (cc h)
given-ok false e h = refl

refused-ok :
    (b : Bool) (e e' : Error)
    → ◌≡◌ {A = Result (Unit {0})} (if b then err e else err e') (ok tt)
    → ⊥
refused-ok true e e' h = cc h
refused-ok false e e' h = cc h

validate-runs :
    (c : StreamConfig)
    → validate c ≡ ok tt
    → ((c.mode ≡ producer_name) × ¬ (c.csv ≡ [])) ⊎ ((c.mode ≡ consumer_name) × ¬ (c.sql ≡ []))
unfolding validate
validate-runs c h = elim (Bool-cases (bytes_eq c.mode producer_name)) [
  | inl produces ↦ inl (
    bytes_eq→eq c.mode producer_name produces,
    not_nil c.csv (given-ok (bytes_eq c.csv []) _ (rw produces at h)),
  )
  | inr not_producer ↦ elim (Bool-cases (bytes_eq c.mode consumer_name)) [
    | inl consumes ↦ inr (
      bytes_eq→eq c.mode consumer_name consumes,
      not_nil c.sql (given-ok (bytes_eq c.sql []) _ (rw (not_producer, consumes) at h)),
    )
    | inr other ↦ absurd (refused-ok (bytes_eq c.mode []) _ _ (rw (not_producer, other) at h))
  ]
]

or_dot-some : (s : Bytes) → ¬ (or_dot s ≡ [])
unfolding or_dot
or_dot-some [] e = cc e
or_dot-some (b ∷ bs) e = cc e

clean-some : (s : Bytes) → ¬ (clean s ≡ [])
unfolding clean
clean-some [] e = cc e
clean-some (b ∷ bs) e = elim (Bool-cases (b == 47)) [
  | inl rooted ↦ let k = rw rooted at e in cc k
  | inr relative ↦ or_dot-some _ (rw relative at e)
]

path_join-some : (s : Bytes) (c : ℕ) (cs : Bytes) → ¬ (path_join s (c ∷ cs) ≡ [])
unfolding path_join
path_join-some [] c cs e = clean-some (c ∷ cs) e
path_join-some (b ∷ bs) c cs e = clean-some _ e

cursor_or_default-some : (out_dir path : Bytes) → ¬ (cursor_or_default out_dir path ≡ [])
unfolding cursor_or_default
cursor_or_default-some out_dir [] e = path_join-some out_dir _ _ e
cursor_or_default-some out_dir (b ∷ bs) e = cc e

checked_config-Valid : (c d : StreamConfig) → checked_config (with_cursor_path c) ≡ ok d → Valid d
unfolding checked_config with_cursor_path
checked_config-Valid c d h =
    let (u, valid, same) = >>=-eq-ok (validate (with_cursor_path c)) _ h in
    let e : with_cursor_path c ≡ d = cc same in
    subst Valid e (record {
      runs = validate-runs (with_cursor_path c) valid;
      has_cursor = cursor_or_default-some c.out_dir c.cursor_path;
    })

module _ (read_file : Bytes → Result Bytes) (unmarshal : Bytes → Result JsonConfig)
    (parsers : NumberParsers) where
  -- A configuration that is returned without an error is of a mode that the program has, with the
  -- input of that mode, and has a path for the cursor.
  pub load_config-Valid :
      (args : List Bytes) (d : StreamConfig)
      → load_config read_file unmarshal parsers args ≡ ok d
      → Valid d
  unfolding load_config
  load_config-Valid args d h =
      let (c, _, k) = >>=-eq-ok (seeded read_file unmarshal parsers (scan_config_flag args)) _ h in
      let (e, _, last) = >>=-eq-ok (parse_flags parsers args c) _ k in checked_config-Valid e d last
