-- ===== src/Cmd/Stream/Producer/Complete.antt =====
-- A pass of the demo's producer ends, over a producer that answers.
use objwal.Prelude.{
  ℕ, zero, suc, ◌+◌, ◌-◌, ◌%◌, ◌^◌, ◌≤◌, ◌<◌, ◌≡◌, refl, ap, inl, inr, false, List, [], ◌∷◌, ◌++◌,
  some, map, length, ltb, leb, ◌||◌, Bool-cases, arith,
}
use objwal.Prelude.Slices.{drop, slice, length-take, length-drop}
use objwal.Error.{Result, ok, err}
use objwal.Std.LittleEndian.{Bytes}
use objwal.Wal.Entry.{u64_mod}
use objwal.Wal.Producer.Types.{SeqRange}
use objwal.Cmd.Stream.Schema.{Review}
use objwal.Cmd.Stream.Config.{StreamConfig}
use objwal.Cmd.Stream.Producer.{
  Publisher, Waiting, batch_end, delays, after_pause, after_range, after_append, append_batch,
  stream_batch, stream_from, stream_pass,
}
use objwal.Cmd.Stream.Producer.Streamed.{Publishing, stream_pass-Streamed, encode_batch-ok}

-- The context does not end, and every batch of a record or more becomes durable.
pub record Reliable {W D : Type 0} (p : Publisher W D) (ctx : Waiting W) : Type 0 where
  pub lives : (w : W) → ctx.ended w ≡ false
  pub pauses : (n : ℕ) (w : W) → (ctx.pause_for n w).0 ≡ ok tt
  pub appends :
      (batch : List Bytes) (w : W)
      → 0 < length batch
      → (d : D) × ((p.append_to_log batch w).0 ≡ ok d)
  pub waits : (d : D) (w : W) → (r : SeqRange) × ((p.await_range d w).0 ≡ ok r)

length-map : {A B : Type 0} (f : A → B) (xs : List A) → length (map f xs) ≡ length xs
length-map f [] = refl
length-map f (x ∷ xs) = ap suc (length-map f xs)

-- A batch of a positive size, and no more than the rows that are left.
batch_end-inside :
    (c : StreamConfig) (rows : List Review) (i : ℕ)
    → 0 < c.batch_size
    → length rows + c.batch_size < 2 ^ 63
    → i < length rows
    → (end : ℕ) × (batch_end c rows i ≡ some end) × (i < end) × (end ≤ length rows)
unfolding batch_end
batch_end-inside c rows i positive small inside =
    let next = (i + c.batch_size) % u64_mod in
    let plain : next ≡ i + c.batch_size = omega arith in
    let good : (leb (2 ^ 63) next || ltb next i) ≡ false = ground (arith, plain) in
    elim (Bool-cases (ltb (length rows) next)) [
      | inl past ↦ (length rows, rw (good, past) refl, inside, omega arith)
      | inr within ↦ (next, rw (good, within) refl, omega (arith, plain), ground (arith, within))
    ]

module _ {W D : Type 0} (p : Publisher W D) (ctx : Waiting W) (encode : Review → Result Bytes)
    (c : StreamConfig) (reliable : Reliable p ctx) (payload : Review → Bytes)
    (encodes : (r : Review) → encode r ≡ ok (payload r)) where
  module _ (more : W → Result (Unit {0}) × W) (go : (w : W) → (more w).0 ≡ ok tt) where
    after_pause-ok :
        (d : Result (Unit {0}) × W) → d.0 ≡ ok tt → (after_pause p ctx encode c more d).0 ≡ ok tt
    unfolding after_pause
    after_pause-ok (err e, w) h = absurd (cc h)
    after_pause-ok (ok u, w) h = go w

    after_range-ok :
        (d : Result SeqRange × W) (r : SeqRange)
        → d.0 ≡ ok r
        → (after_range p ctx encode c more d).0 ≡ ok tt
    unfolding after_range
    after_range-ok (err e, w) r h = absurd (cc h)
    after_range-ok (ok s, w) r h = elim (Bool-cases (delays c)) [
      | inl slow ↦
          rw (slow, after_range)
            (after_pause-ok (ctx.pause_for c.append_delay w) (reliable.pauses c.append_delay w))
      | inr fast ↦ rw (fast, after_range) (go w)
    ]

    after_append-ok :
        (r : Result D × W) (d : D) → r.0 ≡ ok d → (after_append p ctx encode c more r).0 ≡ ok tt
    unfolding after_append
    after_append-ok (err e, w) d h = absurd (cc h)
    after_append-ok (ok x, w) d h =
        let (range, e) = reliable.waits x w in after_range-ok (p.await_range x w) range e

  stream_batch-ok :
      (more : ℕ → W → Result (Unit {0}) × W) (rows : List Review) (i : ℕ) (w : W)
      → 0 < c.batch_size
      → length rows + c.batch_size < 2 ^ 63
      → i < length rows
      → ((v : W) → (more ((i + c.batch_size) % u64_mod) v).0 ≡ ok tt)
      → (stream_batch p ctx encode c more rows i w).0 ≡ ok tt
  unfolding stream_batch append_batch slice
  stream_batch-ok more rows i w positive small inside go =
      let (end, at, up, within) = batch_end-inside c rows i positive small inside in
      let batch = map payload (slice rows i end) in
      let size : 0 < length batch = omega (
        arith,
        length-map payload (slice rows i end),
        length-take (end - i) (drop i rows) (omega (arith, length-drop i rows)),
      ) in
      let (d, e) = reliable.appends batch w size in
      rw
        (
          reliable.lives w,
          at,
          encode_batch-ok encode payload (slice rows i end) encodes,
          append_batch,
        )
        (after_append-ok (more ((i + c.batch_size) % u64_mod)) go (p.append_to_log batch w) d e)

  stream_from-ok :
      (fuel : ℕ) (rows : List Review) (i : ℕ) (w : W)
      → 0 < c.batch_size
      → length rows + c.batch_size < 2 ^ 63
      → 0 < fuel
      → length rows < i + fuel
      → (stream_from p ctx encode c fuel rows i w).0 ≡ ok tt
  unfolding stream_from
  stream_from-ok zero rows i w positive small some_left enough = absurd (omega arith)
  stream_from-ok (suc fuel) rows i w positive small some_left enough =
      elim (Bool-cases (ltb i (length rows))) [
        | inl inside ↦
            let below : i < length rows = ground (arith, inside) in
            rw (inside, stream_from)
              (stream_batch-ok (stream_from p ctx encode c fuel rows) rows i w positive small below
                (λ v.
                  stream_from-ok fuel rows ((i + c.batch_size) % u64_mod) v positive small
                    (omega (arith, below)) (omega (arith, below))))
        | inr past ↦ rw (past, stream_from) refl
      ]

  -- For rows that all encode, a batch size above 0 and rows and a batch that an int can count: over
  -- a producer that makes every batch durable and logs it, with a context that does not end, a pass
  -- returns no error and has appended the payloads of all rows, each once and in order.
  pub stream_pass_complete :
      (log : W → List Bytes) (rows : List Review) (w : W)
      → Publishing p ctx log
      → 0 < c.batch_size
      → length rows + c.batch_size < 2 ^ 63
      → ((stream_pass p ctx encode c rows w).0 ≡ ok tt)
        × (log (stream_pass p ctx encode c rows w).1 ≡ log w ++ map payload rows)
  unfolding stream_pass
  stream_pass_complete log rows w publishing positive small =
      let good =
        stream_from-ok (suc (length rows)) rows 0 w positive small (omega arith) (omega arith) in
      let sent =
        stream_pass-Streamed p ctx encode c log publishing payload encodes rows (log w) w refl in
      (good, sent.whole good)
