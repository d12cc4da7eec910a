-- ===== src/Wal/Producer/Commit/Batch.antt =====
-- What the commit of a group appends to the manifest.
use objwal.Prelude.{
  ℕ, ◌+◌, ◌<◌, ◌^◌, ◌≡◌, sym, ap, List, [], ◌∷◌, ◌++◌, append-nil, append_assoc, map, length, All,
  arith,
}
use objwal.Error.{ok, >>=-eq-ok}
use objwal.Wal.Entry.{Entry, IsMeta}
use objwal.Wal.Manifest.{Manifest, append}
use objwal.Wal.Manifest.Holds.{Holds}
use objwal.Wal.Manifest.Append.{entry_of, append-Holds}
use objwal.Wal.Producer.Types.{SegPlan}
use objwal.Wal.Producer.Commit.{append_plans}

-- The plans' entries, of consecutive sequences from `next` on.
unfoldable pub plan_entries : ℕ → List SegPlan → List Entry
plan_entries next [] = []
plan_entries next (pl ∷ pls) =
    entry_of next (length pl.records) pl.location pl.metas
    ∷ plan_entries (next + length pl.records) pls

unfoldable pub records_in : List SegPlan → ℕ
records_in [] = 0
records_in (pl ∷ pls) = length pl.records + records_in pls

abbrev AllMetas : List SegPlan → Type 0
AllMetas = All (λ pl. All IsMeta pl.metas)

-- What a group's plans leave of a manifest that holds `es`.
pub record Grouped (m' : Manifest) (first next : ℕ) (es : List Entry) (plans : List SegPlan)
    (seqs : List ℕ) : Type 0 where
  pub holds : Holds m' first (es ++ plan_entries next plans)
  pub sequences : seqs ≡ map (λ e. e.sequence) (plan_entries next plans)
  pub next_after : m'.next_sequence ≡ next + records_in plans

Grouped-step :
    (first next : ℕ) (es : List Entry) (pl : SegPlan) (pls : List SegPlan) (s : ℕ) (ss : List ℕ)
    (m : Manifest)
    → s ≡ next
    → Grouped m first
        (s + length pl.records)
        (es ++ entry_of s (length pl.records) pl.location pl.metas ∷ [])
        pls
        ss
    → Grouped m first next es (pl ∷ pls) (s ∷ ss)
unfolding plan_entries records_in
Grouped-step first next es pl pls s ss m same g =
    let e = entry_of s (length pl.records) pl.location pl.metas in
    rw (sym same) (record {
      holds = rw (append_assoc es (e ∷ []) (plan_entries (s + length pl.records) pls)) at g.holds;
      sequences = ap (λ xs. s ∷ xs) g.sequences;
      next_after = omega (arith, g.next_after);
    })

-- Appending a group's plans, if it succeeds, to a manifest that holds a log whose sequences stay
-- below 2 ^ 64 adds one entry for each plan at the log's end, in order, each with as many
-- sequences as its plan has records, and returns the entries' first sequences, which follow each
-- other without a gap. The metadata ranges are of numbers that fit their words.
pub append_plans-Grouped :
    {first : ℕ} (m : Manifest) (es : List Entry) (plans : List SegPlan) (seqs : List ℕ)
    (m' : Manifest)
    → Holds m first es
    → AllMetas plans
    → m.next_sequence + records_in plans < 2 ^ 64
    → append_plans m plans ≡ ok (seqs, m')
    → Grouped m' first m.next_sequence es plans seqs
unfolding append_plans plan_entries records_in
append_plans-Grouped {first} m es [] seqs m' h metas room a =
    let same : m' ≡ m = cc a in
    record {
      holds = rw (same, append-nil es) h;
      sequences = cc a;
      next_after = rw same (omega arith);
    }
append_plans-Grouped {first} m es (pl ∷ pls) seqs m' h (md, mds) room a =
    let ((s, m₁), b, a₁) = >>=-eq-ok (append m pl.location pl.metas (length pl.records)) _ a in
    let ((ss, m₂), c, a₂) = >>=-eq-ok (append_plans m₁ pls) _ a₁ in
    let (s_eq, h₁, n₁) =
      append-Holds pl.location pl.metas (length pl.records) s m₁ h md (omega arith) b in
    let next_eq : m₁.next_sequence ≡ m.next_sequence + length pl.records =
      omega (arith, s_eq, n₁) in
    let g =
      append_plans-Grouped m₁ (es ++ entry_of s (length pl.records) pl.location pl.metas ∷ []) pls
        ss m₂ h₁ mds (omega (arith, next_eq)) c in
    let m_eq : m' ≡ m₂ = cc a₂ in
    let seqs_eq : seqs ≡ s ∷ ss = cc a₂ in
    rw (m_eq, seqs_eq) (Grouped-step first m.next_sequence es pl pls s ss m₂ s_eq (rw n₁ at g))
