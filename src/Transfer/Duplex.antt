-- ===== src/Transfer/Duplex.antt =====
-- What `write_full` leaves alone of the input, and `read_full` of the output.
use cs739_distributed_system.Base.{
  ℕ, zero, suc, ◌^◌, ◌≡◌, sym, ap, ◌∙◌, inl, inr, some, List, [], ltb, Bool-cases, length, drop, ℤ,
  pos, negsuc, Partial, some-injective,
}
use cs739_distributed_system.Transfer.{
  Stream, Chunk, failed, chunk, after_write, after_read, write_rest, read_rest, write_once,
  read_once, write_full, read_full,
}

-- The two directions of a connection are independent.
pub record DuplexLaws {W : Type 0} (io : Stream W) (output input : W → List ℕ) : Type 0 where
  pub write_keeps : (fd : ℤ) (bytes : List ℕ) (w : W) → input (io.write fd bytes w).1 ≡ input w
  pub read_keeps : (fd : ℤ) (size : ℕ) (w : W) → output (io.read fd size w).1 ≡ output w

module _ {W : Type 0} (io : Stream W) (output input : W → List ℕ)
    (duplex : DuplexLaws io output input) (fd : ℤ) where
  after_write-keeps :
      (size : ℕ) (loop : List ℕ → Partial W ℤ) (rest : List ℕ) (z : ℤ) (w : W) (r : ℤ × W)
      → ((l : List ℕ) → loop l w ≡ some r → input r.1 ≡ input w)
      → after_write size loop rest z w ≡ some r
      → input r.1 ≡ input w
  unfolding after_write
  after_write-keeps size loop rest (negsuc k) w r more h =
      ap (λ p. input p.1) (sym (some-injective _ _ h))
  after_write-keeps size loop rest (pos n) w r more h = elim (Bool-cases (ltb n (length rest))) [
    | inl e ↦ more (drop n rest) (rw e at h)
    | inr e ↦ ap (λ p. input p.1) (sym (some-injective _ _ (rw e at h)))
  ]

  pub write_rest-keeps :
      (size calls : ℕ) (rest : List ℕ) (w : W) (r : ℤ × W)
      → write_rest io fd size calls rest w ≡ some r
      → input r.1 ≡ input w
  unfolding write_rest
  write_rest-keeps size zero rest w r h = cc
  write_rest-keeps size (suc calls) rest w r h =
      let c = io.write fd rest w in
      after_write-keeps size (write_rest io fd size calls) rest c.0 c.1 r
        (λ l e. write_rest-keeps size calls l c.1 r e) h
      ∙ duplex.write_keeps fd rest w

  after_read-keeps :
      (size : ℕ) (loop : ℕ → List ℕ → Partial W (ℤ × List ℕ)) (wanted : ℕ) (filled : List ℕ)
      (c : Chunk) (w : W) (r : (ℤ × List ℕ) × W)
      → ((k : ℕ) (l : List ℕ) → loop k l w ≡ some r → output r.1 ≡ output w)
      → after_read size loop wanted filled c w ≡ some r
      → output r.1 ≡ output w
  unfolding after_read
  after_read-keeps size loop wanted filled failed w r more h =
      ap (λ p. output p.1) (sym (some-injective _ _ h))
  after_read-keeps size loop wanted filled (chunk bytes) w r more h =
      elim (Bool-cases (ltb (length bytes) wanted)) [
        | inl e ↦ more _ _ (rw e at h)
        | inr e ↦ ap (λ p. output p.1) (sym (some-injective _ _ (rw e at h)))
      ]

  pub read_rest-keeps :
      (size calls wanted : ℕ) (filled : List ℕ) (w : W) (r : (ℤ × List ℕ) × W)
      → read_rest io fd size calls wanted filled w ≡ some r
      → output r.1 ≡ output w
  unfolding read_rest
  read_rest-keeps size zero wanted filled w r h = cc
  read_rest-keeps size (suc calls) wanted filled w r h =
      let c = io.read fd wanted w in
      after_read-keeps size (read_rest io fd size calls) wanted filled c.0 c.1 r
        (λ k l e. read_rest-keeps size calls k l c.1 r e) h
      ∙ duplex.read_keeps fd wanted w

  pub write_full-keeps :
      (calls : ℕ) (buff : List ℕ) (w : W) (r : ℤ × W)
      → write_full io calls fd buff w ≡ some r
      → input r.1 ≡ input w
  unfolding write_full write_once
  write_full-keeps calls buff w r h = elim (Bool-cases (ltb (length buff) (2 ^ 31))) [
    | inl e ↦ write_rest-keeps (length buff) calls buff w r (rw e at h)
    | inr e ↦
        ap (λ p. input p.1) (sym (some-injective _ _ (rw e at h))) ∙ duplex.write_keeps fd buff w
  ]

  pub read_full-keeps :
      (calls size : ℕ) (w : W) (r : (ℤ × List ℕ) × W)
      → read_full io calls fd size w ≡ some r
      → output r.1 ≡ output w
  unfolding read_full read_once
  read_full-keeps calls size w r h = elim (Bool-cases (ltb size (2 ^ 31))) [
    | inl e ↦ read_rest-keeps size calls size [] w r (rw e at h)
    | inr e ↦
        ap (λ p. output p.1) (sym (some-injective _ _ (rw e at h))) ∙ duplex.read_keeps fd size w
  ]
