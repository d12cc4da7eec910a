-- ===== src/Wal/Replica/Tailing/Passing.antt =====
-- The loop of a pass, from its cursor on: the world ends where the cursor does.
use objwal.Prelude.{
  ℕ, ◌+◌, ◌^◌, ◌≤◌, ◌<◌, ◌≡◌, refl, sym, ap, subst, ◌∙◌, inl, inr, List, [], ◌∷◌, length, All, ltb,
  leb, ◌&&◌, Bool-cases, arith,
}
use objwal.Error.{Result, ok, err}
use objwal.Std.LittleEndian.{Bytes}
use objwal.ObjectStore.{GetResult}
use objwal.Wal.Entry.{Entry, end, range_size}
use objwal.Wal.Segment.{decode_segment}
use objwal.Wal.Manifest.Locate.{end-Tiles, Tiles-le}
use objwal.Wal.Replica.Position.{saved-next}
use objwal.Wal.Replica.{
  Record, ReplicaEnv, ReplicaConfig, Pass, deliver, saved, save_cursor, after_save, Passed, finish,
  paced, after_delivery, after_decode, after_get, poll_loop,
}
use objwal.Wal.Replica.Tailing.{
  LogFrom, highest, Rest, LogFrom-Rest, Tiles-Rest, Ends, Keeps, Sized, Genuine, deliver-Ends,
}

module _ {W : Type 0} (env : ReplicaEnv W) (G : Record → Type 0) (P : ℕ → W → Type 0)
    (keeps : Keeps env G P) where
  -- How a pass ends: the world stands where the cursor does, unless there was an error.
  abbrev pub PassEnds : Passed W → Type 0
  PassEnds out = Ends P out.0.1.next out.0.0 out.1

  after_save-PassEnds :
      (more : Pass → W → Passed W) (p : Pass) (d : Result (Unit {0}) × W)
      → ((q : Pass) (w : W) → q.next ≡ p.next → P p.next w → PassEnds (more q w))
      → P p.next d.1
      → PassEnds (after_save env more p d)
  unfolding after_save
  after_save-PassEnds more p (err x, w) go h = record { at = p.next; held = h; good = λ _. refl }
  after_save-PassEnds more p (ok u, w) go h = go (saved env p) w (saved-next env p) h

  finish-PassEnds : (p : Pass) (w : W) → P p.next w → PassEnds (finish env p w)
  unfolding finish
  finish-PassEnds p w h = elim (Bool-cases (ltb 0 p.since_save)) [
    | inl some_left ↦
        rw (some_left, finish)
          (after_save-PassEnds _ p (save_cursor env p.next w)
            (λ q v e k. record { at = p.next; held = k; good = λ _. sym e })
            (keeps.save_keeps p.next p.next w h))
    | inr clean ↦ rw (clean, finish) (record { at = p.next; held = h; good = λ _. refl })
  ]

  module _ (cfg : ReplicaConfig) (r : ℕ) (e : Entry) (es : List Entry)
      (fits : e.sequence + range_size e < 2 ^ 64)
      (later : (p : Pass) (w : W)
        → p.next ≡ end e
        → P p.next w
        → PassEnds (poll_loop env cfg r es p w)) where
    paced-PassEnds :
        (p : Pass) (w : W)
        → p.next ≡ end e
        → P p.next w
        → PassEnds (paced env cfg r (poll_loop env cfg r es) p w)
    unfolding paced
    paced-PassEnds p w n h =
        elim (Bool-cases
          (ltb 0 cfg.max_records_per_poll && leb cfg.max_records_per_poll p.applied)) [
            | inl spent ↦ rw (spent, paced) (finish-PassEnds p w h)
            | inr open_ ↦ rw (open_, paced) (later p w n h)
          ]

    after_delivery-PassEnds :
        (p : Pass) (d : (Result (Unit {0}) × ℕ) × W)
        → Ends P (end e) d.0.0 d.1
        → PassEnds (after_delivery env cfg r e (poll_loop env cfg r es) p d)
    unfolding after_delivery
    after_delivery-PassEnds p ((err x, n), w) h = record {
      at = h.at;
      held = h.held;
      good = λ k. absurd (cc k);
    }
    after_delivery-PassEnds p ((ok u, n), w) h =
        let here : P (end e) w = subst (λ m. P m w) (h.good refl) h.held in
        elim (Bool-cases (leb cfg.cursor_save_interval (p.since_save + 1))) [
          | inl due ↦
              rw (due, after_delivery)
                (after_save-PassEnds (paced env cfg r (poll_loop env cfg r es)) _ _
                  (λ q v m k. paced-PassEnds q v m (subst (λ x. P x v) (sym m) k))
                  (keeps.save_keeps (end e) (end e) w here))
          | inr not_due ↦ rw (not_due, after_delivery) (paced-PassEnds _ w refl here)
        ]

    delivered-Ends :
        (p : Pass) (records : List Bytes) (w : W)
        → highest r e.sequence ≡ p.next
        → r < e.sequence + range_size e
        → (length records ≡ range_size e) × Genuine G e 0 records
        → P p.next w
        → Ends P
            (end e)
            (deliver env e r 0 records p.applied w).0.0
            (deliver env e r 0 records p.applied w).1
    unfolding highest end
    delivered-Ends p records w n l (size, given) h =
        subst
          (λ m.
            Ends P m (deliver env e r 0 records p.applied w).0.0
              (deliver env e r 0 records p.applied w).1)
          (ground (arith, size, l, fits))
          (deliver-Ends env G P keeps e r fits 0 records p.applied w (omega (arith, size)) given
            (subst (λ m. P m w) (sym n ∙ ap (highest r) (omega arith)) h))

    after_decode-PassEnds :
        (p : Pass) (d : Result (List Bytes)) (w : W)
        → highest r e.sequence ≡ p.next
        → r < e.sequence + range_size e
        → ((records : List Bytes)
            → d ≡ ok records
            → (length records ≡ range_size e) × Genuine G e 0 records)
        → P p.next w
        → PassEnds (after_decode env cfg r e (poll_loop env cfg r es) p d w)
    unfolding after_decode
    after_decode-PassEnds p (err x) w n l size h = record {
      at = p.next;
      held = h;
      good = λ k. absurd (cc k);
    }
    after_decode-PassEnds p (ok records) w n l size h =
        after_delivery-PassEnds p _ (delivered-Ends p records w n l (size records refl) h)

    after_get-PassEnds :
        (p : Pass) (d : Result GetResult × W)
        → highest r e.sequence ≡ p.next
        → r < e.sequence + range_size e
        → ((res : GetResult) (records : List Bytes)
            → d.0 ≡ ok res
            → decode_segment env.zstd res.contents ≡ ok records
            → (length records ≡ range_size e) × Genuine G e 0 records)
        → P p.next d.1
        → PassEnds (after_get env cfg r e (poll_loop env cfg r es) p d)
    unfolding after_get
    after_get-PassEnds p (err x, w) n l size h = record {
      at = p.next;
      held = h;
      good = λ k. absurd (cc k);
    }
    after_get-PassEnds p (ok res, w) n l size h =
        after_decode-PassEnds p _ w n l (λ records k. size res records refl k) h

  poll_loop-Rest :
      (cfg : ReplicaConfig) (r b : ℕ) (es : List Entry) (p : Pass) (w : W)
      → b < 2 ^ 64
      → Rest r p.next es b
      → All (Sized env G P) es
      → P p.next w
      → PassEnds (poll_loop env cfg r es p w)
  unfolding poll_loop
  poll_loop-Rest cfg r b [] p w f rest sized h = finish-PassEnds p w h
  poll_loop-Rest cfg r b (e ∷ es) p w f (n, l, t) (size, sizes) h =
      let stop : e.sequence + range_size e ≤ b = Tiles-le (e.sequence + range_size e) b es t in
      let stands : end e ≡ e.sequence + range_size e = end-Tiles e.sequence b e es (refl, t) f in
      after_get-PassEnds cfg r e es (omega (arith, stop))
        (λ q v m k.
          poll_loop-Rest cfg r b es q v f
            (subst (λ x. Rest r x es b) (sym (m ∙ stands))
              (Tiles-Rest r (e.sequence + range_size e) es b l t))
            sizes k)
        p (env.os.get e.location w) n l (λ res records. size p.next w res records h)
        (keeps.get_keeps p.next e.location w h)

  pub poll_loop-PassEnds :
      (cfg : ReplicaConfig) (b : ℕ) (es : List Entry) (p : Pass) (w : W)
      → b < 2 ^ 64
      → LogFrom p.next es b
      → All (Sized env G P) es
      → P p.next w
      → PassEnds (poll_loop env cfg p.next es p w)
  poll_loop-PassEnds cfg b es p w f h =
      poll_loop-Rest cfg p.next b es p w f (LogFrom-Rest p.next es b h)
