-- ===== src/Cmd/Stream/Producer/Streamed.antt =====
-- What a pass of the demo's producer appends.
use objwal.Prelude.{
  ℕ, zero, suc, ◌+◌, ◌%◌, ◌^◌, ◌≤◌, ◌<◌, ◌≡◌, refl, sym, ap, ◌∙◌, ◌⊎◌, inl, inr, List, [], ◌∷◌,
  ◌++◌, none, some, map, append-nil, append_assoc, length, ltb, leb, ◌||◌, Bool-cases, arith,
  if◌then◌else◌, Option-cases,
}
use mathlib.Core.List.{map-append}
use objwal.Prelude.Slices.{take, slice, take_past, take-append_slice}
use objwal.Error.{Result, ok, err, Error, context_canceled}
use objwal.Std.LittleEndian.{Bytes}
use objwal.Wal.Entry.{u64_mod}
use objwal.Wal.Producer.Types.{SeqRange}
use objwal.Cmd.Stream.Schema.{Review}
use objwal.Cmd.Stream.Config.{StreamConfig}
use objwal.Cmd.Stream.Producer.{
  Publisher, Waiting, encode_batch, batch_end, delays, after_pause, after_range, after_append,
  append_batch, stream_batch, stream_from, stream_pass,
}

-- A log of the records appended, in the world. An Append that fails may have taken the batch.
pub record Publishing {W D : Type 0} (p : Publisher W D) (ctx : Waiting W) (log : W → List Bytes)
    : Type 0 where
  pub append_logs :
      (batch : List Bytes) (w : W)
      → (log (p.append_to_log batch w).1 ≡ log w ++ batch)
        ⊎ ((log (p.append_to_log batch w).1 ≡ log w)
            × ((d : D) → ¬ ((p.append_to_log batch w).0 ≡ ok d)))
  pub wait_keeps : (d : D) (w : W) → log (p.await_range d w).1 ≡ log w
  pub pause_keeps : (n : ℕ) (w : W) → log (ctx.pause_for n w).1 ≡ log w

pub encode_batch-ok :
    (encode : Review → Result Bytes) (payload : Review → Bytes) (rows : List Review)
    → ((r : Review) → encode r ≡ ok (payload r))
    → encode_batch encode rows ≡ ok (map payload rows)
unfolding encode_batch
encode_batch-ok encode payload [] h = refl
encode_batch-ok encode payload (r ∷ rows) h = rw (h r, encode_batch-ok encode payload rows h) refl

-- A batch goes on to where the next begins, or to the end.
batch_end-take :
    (c : StreamConfig) (rows : List Review) (i end : ℕ)
    → i < length rows
    → batch_end c rows i ≡ some end
    → (i ≤ end) × (take end rows ≡ take ((i + c.batch_size) % u64_mod) rows)
unfolding batch_end
batch_end-take c rows i end inside h =
    let next = (i + c.batch_size) % u64_mod in
    elim (Bool-cases (leb (2 ^ 63) next || ltb next i)) [
      | inl bad ↦ let none_is : none ≡ some end = rw bad at h in absurd (cc none_is)
      | inr good ↦
          let at : some (if ltb (length rows) next then length rows else next) ≡ some end =
            rw good at h in
          elim (Bool-cases (ltb (length rows) next)) [
            | inl past ↦
                let e : some (length rows) ≡ some end = rw past at at in
                let same : length rows ≡ end = cc e in
                (
                  omega (arith, same, inside),
                  ap (λ n. take n rows) (sym same)
                      ∙ take_past (length rows) rows (omega arith)
                      ∙ sym (take_past next rows (ground (arith, past))),
                )
            | inr within ↦
                let e : some next ≡ some end = rw within at at in
                let same : next ≡ end = cc e in
                (ground (arith, good, same), ap (λ n. take n rows) (sym same))
          ]
    ]

module _ {W D : Type 0} (p : Publisher W D) (ctx : Waiting W) (encode : Review → Result Bytes)
    (c : StreamConfig) (log : W → List Bytes) (publishing : Publishing p ctx log)
    (payload : Review → Bytes) (encodes : (r : Review) → encode r ≡ ok (payload r))
    (rows : List Review) (base : List Bytes) where
  -- The first rows have been appended, in order, behind what was there.
  abbrev Sent : ℕ → W → Type 0
  Sent n w = log w ≡ base ++ map payload (take n rows)

  -- Some of the first rows have; all of them, if there was no error.
  pub record Streamed (out : Result (Unit {0}) × W) : Type 0 where
    pub count : ℕ
    pub sent : Sent count out.1
    pub whole : out.0 ≡ ok tt → log out.1 ≡ base ++ map payload rows

  failed : (n : ℕ) (e : Error) (w : W) → Sent n w → Streamed (err e, w)
  failed n e w h = record { count = n; sent = h; whole = λ k. absurd (cc k) }

  module _ (more : W → Result (Unit {0}) × W) (n : ℕ)
      (go : (w : W) → Sent n w → Streamed (more w)) where
    after_pause-Streamed :
        (d : Result (Unit {0}) × W) → Sent n d.1 → Streamed (after_pause p ctx encode c more d)
    unfolding after_pause
    after_pause-Streamed (err e, w) h = failed n context_canceled w h
    after_pause-Streamed (ok u, w) h = go w h

    after_range-Streamed :
        (d : Result SeqRange × W) → Sent n d.1 → Streamed (after_range p ctx encode c more d)
    unfolding after_range
    after_range-Streamed (err e, w) h = failed n _ w h
    after_range-Streamed (ok r, w) h = elim (Bool-cases (delays c)) [
      | inl slow ↦
          rw (slow, after_range)
            (after_pause-Streamed (ctx.pause_for c.append_delay w)
              (publishing.pause_keeps c.append_delay w ∙ h))
      | inr fast ↦ rw (fast, after_range) (go w h)
    ]

    after_append-Streamed :
        (i : ℕ) (d : Result D × W)
        → (Sent n d.1 ⊎ (Sent i d.1 × ((x : D) → ¬ (d.0 ≡ ok x))))
        → Streamed (after_append p ctx encode c more d)
    unfolding after_append
    after_append-Streamed i (err e, w) (inl h) = failed n _ w h
    after_append-Streamed i (err e, w) (inr (h, _)) = failed i _ w h
    after_append-Streamed i (ok x, w) (inl h) =
        after_range-Streamed (p.await_range x w) (publishing.wait_keeps x w ∙ h)
    after_append-Streamed i (ok x, w) (inr (_, no_handle)) = absurd (no_handle x refl)

  -- The batch behind the rows that have been appended.
  batch-Sent :
      (i end : ℕ) (w v : W)
      → i ≤ end
      → Sent i w
      → log v ≡ log w ++ map payload (slice rows i end)
      → Sent end v
  batch-Sent i end w v h sent e =
      e
      ∙ ap (λ l. l ++ map payload (slice rows i end)) sent
      ∙ append_assoc base (map payload (take i rows)) (map payload (slice rows i end))
      ∙ ap (λ l. base ++ l)
          (sym (map-append payload (take i rows) (slice rows i end))
            ∙ ap (map payload) (take-append_slice i end rows h))

  stream_batch-Streamed :
      (more : ℕ → W → Result (Unit {0}) × W) (i : ℕ) (w : W)
      → i < length rows
      → ((n : ℕ) (v : W) → Sent n v → Streamed (more n v))
      → Sent i w
      → Streamed (stream_batch p ctx encode c more rows i w)
  unfolding stream_batch append_batch
  stream_batch-Streamed more i w inside go h = elim (Bool-cases (ctx.ended w)) [
    | inl over ↦ rw (over, stream_batch) (failed i _ w h)
    | inr live ↦ elim (Option-cases (batch_end c rows i)) [
      | inl negative ↦ rw (live, negative, stream_batch) (failed i _ w h)
      | inr (end, at) ↦
          let next = (i + c.batch_size) % u64_mod in
          let (up, same) = batch_end-take c rows i end inside at in
          let onward : (v : W) → Sent end v → Sent next v =
            λ v k. k ∙ ap (λ l. base ++ map payload l) same in
          rw (live, at, encode_batch-ok encode payload (slice rows i end) encodes, append_batch)
            (after_append-Streamed (more next) next (go next) i _
              (elim (publishing.append_logs (map payload (slice rows i end)) w) [
                | inl taken ↦ inl (onward _ (batch-Sent i end w _ up h taken))
                | inr (kept, refused) ↦ inr (kept ∙ h, refused)
              ]))
    ]
  ]

  stream_from-Streamed :
      (fuel i : ℕ) (w : W) → Sent i w → Streamed (stream_from p ctx encode c fuel rows i w)
  unfolding stream_from
  stream_from-Streamed zero i w h = failed i _ w h
  stream_from-Streamed (suc fuel) i w h = elim (Bool-cases (ltb i (length rows))) [
    | inl inside ↦
        rw (inside, stream_from)
          (stream_batch-Streamed (stream_from p ctx encode c fuel rows) i w (ground (arith, inside))
            (λ n v k. stream_from-Streamed fuel n v k) h)
    | inr past ↦
        rw (past, stream_from)
          (record {
            count = i;
            sent = h;
            whole =
                λ _. h ∙ ap (λ l. base ++ map payload l) (take_past i rows (ground (arith, past)));
          })
  ]

  -- For rows that all encode, over a producer that logs what is appended (even by an Append that
  -- fails): whatever fails in a pass, and whenever the context ends, what it has appended is the
  -- payloads of the first rows of the file, each once and in order, and those of all the rows if it
  -- returns no error.
  pub stream_pass-Streamed : (w : W) → log w ≡ base → Streamed (stream_pass p ctx encode c rows w)
  unfolding stream_pass take
  stream_pass-Streamed w h =
      stream_from-Streamed (suc (length rows)) 0 w (h ∙ sym (append-nil base))
