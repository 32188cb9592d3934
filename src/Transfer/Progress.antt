-- ===== src/Transfer/Progress.antt =====
-- When the two loops end, and when they do not.
use cs739_distributed_system.Base.{
  ℕ, zero, suc, ◌-◌, ◌^◌, ◌<◌, ◌≡◌, refl, ap, ◌≢◌, inl, inr, Option, none, some, List, [], ◌∷◌,
  arith, ltb, lt→ltb, Bool-cases, length, drop, length-drop, ℤ, pos, negsuc, Partial,
}
use cs739_distributed_system.Transfer.{
  Stream, Chunk, failed, chunk, after_write, after_read, write_rest, read_rest, write_once,
  read_once, write_full, read_full,
}

-- A stream that blocks until it can move at least one byte, if it is asked for any.
pub record Moving {W : Type 0} (io : Stream W) : Type 0 where
  pub write_moves :
      (fd : ℤ) (bytes : List ℕ) (w : W) → 0 < length bytes → (io.write fd bytes w).0 ≢ pos 0
  pub read_moves : (fd : ℤ) (size : ℕ) (w : W) → 0 < size → (io.read fd size w).0 ≢ chunk []

module _ {W : Type 0} (io : Stream W) (moving : Moving io) (fd : ℤ) where
  open moving use {write_moves, read_moves}

  abbrev pub Returns {ℓ} : {A : Type ℓ} → Option A → Type ℓ
  Returns {A = A} o = (a : A) × (o ≡ some a)

  after_write-Returns :
      (size calls : ℕ) (loop : List ℕ → Partial W ℤ) (rest : List ℕ) (w : W) (z : ℤ)
      → length rest < suc calls
      → (0 < length rest → z ≢ pos 0)
      → ((l : List ℕ) → length l < calls → Returns (loop l w))
      → Returns (after_write size loop rest z w)
  unfolding after_write
  after_write-Returns size calls loop rest w (negsuc k) h moves more = (_, refl)
  after_write-Returns size calls loop rest w (pos n) h moves more =
      elim (Bool-cases (ltb n (length rest))) [
        | inl e ↦
            let lt : n < length rest = ground arith in
            let some_bytes : n ≢ 0 = λ z. moves (omega arith) (ap pos z) in
            rw e (more (drop n rest) (omega (arith, length-drop n rest)))
        | inr e ↦ rw e (_, refl)
      ]

  write_rest-Returns :
      (size calls : ℕ) (rest : List ℕ) (w : W)
      → length rest < calls
      → Returns (write_rest io fd size calls rest w)
  unfolding write_rest
  write_rest-Returns size zero rest w h = absurd (omega arith)
  write_rest-Returns size (suc calls) rest w h =
      let c = io.write fd rest w in
      after_write-Returns size calls (write_rest io fd size calls) rest c.1 c.0 h
        (write_moves fd rest w) (λ l lt. write_rest-Returns size calls l c.1 lt)

  after_read-Returns :
      (size calls : ℕ) (loop : ℕ → List ℕ → Partial W (ℤ × List ℕ)) (wanted : ℕ) (filled : List ℕ)
      (w : W) (c : Chunk)
      → wanted < suc calls
      → (0 < wanted → c ≢ chunk [])
      → ((k : ℕ) (l : List ℕ) → k < calls → Returns (loop k l w))
      → Returns (after_read size loop wanted filled c w)
  unfolding after_read
  after_read-Returns size calls loop wanted filled w failed h moves more = (_, refl)
  after_read-Returns size calls loop wanted filled w (chunk []) h moves more =
      elim (Bool-cases (ltb 0 wanted)) [
        | inl e ↦ absurd (moves (ground arith) refl)
        | inr e ↦ rw e (_, refl)
      ]
  after_read-Returns size calls loop wanted filled w (chunk (b ∷ bs)) h moves more =
      elim (Bool-cases (ltb (length (b ∷ bs)) wanted)) [
        | inl e ↦ rw e (more _ _ (ground arith))
        | inr e ↦ rw e (_, refl)
      ]

  read_rest-Returns :
      (size calls wanted : ℕ) (filled : List ℕ) (w : W)
      → wanted < calls
      → Returns (read_rest io fd size calls wanted filled w)
  unfolding read_rest
  read_rest-Returns size zero wanted filled w h = absurd (omega arith)
  read_rest-Returns size (suc calls) wanted filled w h =
      let c = io.read fd wanted w in
      after_read-Returns size calls (read_rest io fd size calls) wanted filled c.1 c.0 h
        (read_moves fd wanted w) (λ k l lt. read_rest-Returns size calls k l c.1 lt)

  write_full-Returns :
      (calls : ℕ) (buff : List ℕ) (w : W)
      → length buff < calls
      → Returns (write_full io calls fd buff w)
  unfolding write_full write_once
  write_full-Returns calls buff w h = elim (Bool-cases (ltb (length buff) (2 ^ 31))) [
    | inl e ↦ rw e (write_rest-Returns (length buff) calls buff w h)
    | inr e ↦ rw e (_, refl)
  ]

  read_full-Returns :
      (calls size : ℕ) (w : W) → size < calls → Returns (read_full io calls fd size w)
  unfolding read_full read_once
  read_full-Returns calls size w h = elim (Bool-cases (ltb size (2 ^ 31))) [
    | inl e ↦ rw e (read_rest-Returns size calls size [] w h)
    | inr e ↦ rw e (_, refl)
  ]

  -- On a stream that always moves, one call more than there are bytes is enough for both.
  pub transfer-Returns :
      (calls : ℕ) (buff : List ℕ) (size : ℕ) (w : W)
      → length buff < calls
      → size < calls
      → Returns (write_full io calls fd buff w) × Returns (read_full io calls fd size w)
  transfer-Returns calls buff size w h k =
      (write_full-Returns calls buff w h, read_full-Returns calls size w k)

module _ {W : Type 0} (io : Stream W) (fd : ℤ) where
  read_rest-none :
      ((size : ℕ) (w : W) → (io.read fd size w).0 ≡ chunk [])
      → (size calls wanted : ℕ) (filled : List ℕ) (w : W) → 0 < wanted
      → read_rest io fd size calls wanted filled w ≡ none
  unfolding read_rest after_read
  read_rest-none ended size zero wanted filled w h = refl
  read_rest-none ended size (suc calls) wanted filled w h =
      rw (ended wanted w)
        (rw (lt→ltb 0 wanted h) (read_rest-none ended size calls (wanted - 0) _ _ (omega arith)))

  -- Once the peer has closed the connection, so that every `read` returns 0, a `read_full` of at
  -- least one byte and less than 2^31 never returns: the loop does not notice the end of the input.
  pub read_full-none :
      ((size : ℕ) (w : W) → (io.read fd size w).0 ≡ chunk [])
      → (calls size : ℕ) (w : W) → 0 < size
      → size < 2 ^ 31
      → read_full io calls fd size w ≡ none
  unfolding read_full
  read_full-none ended calls size w h small =
      rw (lt→ltb size (2 ^ 31) small) (read_rest-none ended size calls size [] w h)
