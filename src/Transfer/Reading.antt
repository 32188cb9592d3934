-- ===== src/Transfer/Reading.antt =====
-- `read_full` fills the buffer from the stream.
use mathlib.Core.Option.{some-injective}
use cs739_distributed_system.Base.{
  ℕ, zero, suc, ◌+◌, ◌-◌, ◌^◌, ◌≤◌, ◌≡◌, refl, sym, subst, ◌∙◌, inl, inr, some, List, [], ◌++◌,
  append_assoc, append-nil, arith, ltb, Bool-cases, length, length-append, ℤ, pos, negsuc, Partial,
  some-injective,
}
use cs739_distributed_system.Transfer.{
  Stream, Chunk, failed, chunk, after_read, read_rest, stored_bytes, read_once, read_full,
}
use cs739_distributed_system.Transfer.Laws.{StreamLaws}

module _ {W : Type 0} (io : Stream W) (output input : W → List ℕ)
    (laws : StreamLaws io output input) (fd : ℤ) where
  open laws use {read_some, read_none}

  -- What the value that is returned says of the number of bytes stored.
  abbrev pub Judged : ℕ → ℕ → ℤ → ℕ → Type 0
  Judged size wanted (pos n) stored = (n ≡ size) × (stored ≡ wanted)
  Judged size wanted (negsuc k) stored = stored ≤ wanted

  -- The bytes that were stored behind those of before are the next ones of the input.
  pub record Gathered (size wanted : ℕ) (filled : List ℕ) (w : W) (r : (ℤ × List ℕ) × W)
      : Type 0 where
    pub taken : List ℕ
    pub stored : r.0.1 ≡ filled ++ taken
    pub consumed : input w ≡ taken ++ input r.1
    pub judged : Judged size wanted r.0.0 (length taken)

  abbrev Moved : ℕ → W → Chunk → W → Type 0
  Moved wanted w failed w' = input w ≡ input w'
  Moved wanted w (chunk bytes) w' = (length bytes ≤ wanted) × (input w ≡ bytes ++ input w')

  read-Moved :
      (wanted : ℕ) (w : W) (c : Chunk)
      → (io.read fd wanted w).0 ≡ c
      → Moved wanted w c (io.read fd wanted w).1
  read-Moved wanted w failed e = read_none fd wanted w e
  read-Moved wanted w (chunk bytes) e = read_some fd wanted w bytes e

  Judged-add :
      (size wanted k : ℕ) (z : ℤ) (n : ℕ)
      → k ≤ wanted
      → Judged size (wanted - k) z n
      → Judged size wanted z (k + n)
  Judged-add size wanted k (pos v) n h j = omega arith
  Judged-add size wanted k (negsuc v) n h j = omega arith

  Gathered-append :
      (size wanted : ℕ) (filled bytes : List ℕ) (w w1 : W) (r : (ℤ × List ℕ) × W)
      → Moved wanted w (chunk bytes) w1
      → Gathered size (wanted - length bytes) (filled ++ bytes) w1 r
      → Gathered size wanted filled w r
  Gathered-append size wanted filled bytes w w1 r (small, input_is) g = record {
    taken = bytes ++ g.taken;
    stored = g.stored ∙ append_assoc filled bytes g.taken;
    consumed = input_is ∙ (rw g.consumed (sym (append_assoc bytes g.taken (input r.1))));
    judged =
        rw (length-append bytes g.taken)
          (Judged-add size wanted (length bytes) r.0.0 (length g.taken) small g.judged);
  }

  after_read-Gathered :
      (size : ℕ) (loop : ℕ → List ℕ → Partial W (ℤ × List ℕ)) (wanted : ℕ) (filled : List ℕ)
      (w w1 : W) (c : Chunk) (r : (ℤ × List ℕ) × W)
      → Moved wanted w c w1
      → ((k : ℕ) (l : List ℕ) → loop k l w1 ≡ some r → Gathered size k l w1 r)
      → after_read size loop wanted filled c w1 ≡ some r
      → Gathered size wanted filled w r
  unfolding after_read
  after_read-Gathered size loop wanted filled w w1 failed r moved more h =
      subst (Gathered size wanted filled w) (some-injective _ _ h) (record {
        taken = [];
        stored = sym (append-nil filled);
        consumed = moved;
        judged = omega arith;
      })
  after_read-Gathered size loop wanted filled w w1 (chunk bytes) r moved more h =
      elim (Bool-cases (ltb (length bytes) wanted)) [
        | inl e ↦ Gathered-append size wanted filled bytes w w1 r moved (more _ _ (rw e at h))
        | inr e ↦ subst (Gathered size wanted filled w) (some-injective _ _ (rw e at h)) (record {
          taken = bytes;
          stored = refl;
          consumed = moved.1;
          judged = (refl, ground arith);
        })
      ]

  pub read_rest-Gathered :
      (size calls wanted : ℕ) (filled : List ℕ) (w : W) (r : (ℤ × List ℕ) × W)
      → read_rest io fd size calls wanted filled w ≡ some r
      → Gathered size wanted filled w r
  unfolding read_rest
  read_rest-Gathered size zero wanted filled w r h = cc
  read_rest-Gathered size (suc calls) wanted filled w r h =
      let c = io.read fd wanted w in
      after_read-Gathered size (read_rest io fd size calls) wanted filled w c.1 c.0 r
        (read-Moved wanted w c.0 refl) (λ k l e. read_rest-Gathered size calls k l c.1 r e) h

  Moved-part :
      (size k : ℕ) (w w' : W) (c : Chunk)
      → Moved size w c w'
      → Gathered size size [] w ((negsuc k, stored_bytes c), w')
  unfolding stored_bytes
  Moved-part size k w w' failed moved = record {
    taken = [];
    stored = refl;
    consumed = moved;
    judged = omega arith;
  }
  Moved-part size k w w' (chunk bytes) moved = record {
    taken = bytes;
    stored = refl;
    consumed = moved.1;
    judged = moved.0;
  }

  read_once-Gathered :
      (size : ℕ) (w : W) (r : (ℤ × List ℕ) × W)
      → read_once io fd size w ≡ some r
      → Gathered size size [] w r
  unfolding read_once
  read_once-Gathered size w r h =
      let c = io.read fd size w in
      subst (Gathered size size [] w) (some-injective _ _ h)
        (Moved-part size _ w c.1 c.0 (read-Moved size w c.0 refl))

  -- A `read_full` that returns has returned the size, and then it stored exactly as many bytes,
  -- the next ones of the stream; or it has returned a negative number, and stored no more than
  -- that. In both cases the stream lost the bytes that were stored and no others.
  pub read_full-Gathered :
      (calls size : ℕ) (w : W) (r : (ℤ × List ℕ) × W)
      → read_full io calls fd size w ≡ some r
      → Gathered size size [] w r
  unfolding read_full
  read_full-Gathered calls size w r h = elim (Bool-cases (ltb size (2 ^ 31))) [
    | inl e ↦ read_rest-Gathered size calls size [] w r (rw e at h)
    | inr e ↦ read_once-Gathered size w r (rw e at h)
  ]
