-- ===== src/ObjectStore/S3/Etags.antt =====
-- ETags: what `Get` reads is what `PutOpts` sends.
use objwal.Prelude.{
  ℕ, ◌≡◌, refl, ap, ◌∙◌, Bool, true, false, [], ◌∷◌, ◌++◌, ◌==◌, bytes_eq, if◌then◌else◌, arith,
}
use objwal.Std.LittleEndian.{Bytes}
use objwal.ObjectStore.S3.{trim_front, trim_back, trim_quotes, quoted}

-- No '"' in the bytes.
unfoldable pub no_quote : Bytes → Bool
no_quote [] = true
no_quote (b ∷ bs) = let rest = no_quote bs in if b == 34 then false else rest

-- An ETag as it stands in a header.
abbrev pub in_quotes : Bytes → Bytes
in_quotes e = 34 ∷ (e ++ (34 ∷ []))

trim_back-append :
    (b : ℕ) (e : Bytes) → no_quote (b ∷ e) ≡ true → trim_back (b ∷ (e ++ 34 ∷ [])) ≡ b ∷ e
unfolding trim_back no_quote
trim_back-append b [] h = ground arith
trim_back-append b (c ∷ e) h = rw (trim_back-append c e (ground (arith, h)), trim_back) refl

pub trim_quotes-in_quotes :
    (b : ℕ) (e : Bytes) → no_quote (b ∷ e) ≡ true → trim_quotes (in_quotes (b ∷ e)) ≡ b ∷ e
unfolding trim_quotes trim_front no_quote
trim_quotes-in_quotes b e h =
    let plain : (b == 34) ≡ false = ground (arith, h) in
    ap trim_back (simp (plain)) ∙ trim_back-append b e h

pub quoted-in_quotes :
    (b : ℕ) (e : Bytes) → no_quote (b ∷ e) ≡ true → quoted (b ∷ e) ≡ in_quotes (b ∷ e)
unfolding quoted no_quote
quoted-in_quotes b e h = ground (arith, h)

-- Headers are equal exactly if the ETags are.
pub bytes_eq-in_quotes :
    (x y : Bytes)
    → no_quote x ≡ true
    → no_quote y ≡ true
    → bytes_eq (x ++ 34 ∷ []) (y ++ 34 ∷ []) ≡ bytes_eq x y
unfolding bytes_eq no_quote
bytes_eq-in_quotes [] [] h k = refl
bytes_eq-in_quotes [] (c ∷ y) h k = ground (arith, k)
bytes_eq-in_quotes (b ∷ x) [] h k = ground (arith, h)
bytes_eq-in_quotes (b ∷ x) (c ∷ y) h k = ground (arith, bytes_eq-in_quotes x y, h, k)
