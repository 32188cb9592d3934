-- ===== src/Transfer/Flow.antt =====
-- What the two loops come to on a connection that works.
use cs739_distributed_system.Base.{
  ℕ, zero, suc, ◌-◌, ◌^◌, ◌≤◌, ◌<◌, ◌≡◌, refl, sym, ap, ◌∙◌, ◌≢◌, inl, inr, some, List, [], ◌∷◌,
  ◌++◌, arith, ltb, ltb→lt, lt→ltb, Bool-cases, length, drop, length-append, length-drop, ℤ, pos,
  Partial,
}
use cs739_distributed_system.Transfer.{
  Stream, chunk, after_write, after_read, write_rest, read_rest, write_full, read_full,
}
use cs739_distributed_system.Transfer.Laws.{StreamLaws, write_rest-Wrote}
use cs739_distributed_system.Transfer.Reading.{read_rest-Gathered}
use cs739_distributed_system.Transfer.Duplex.{DuplexLaws, write_rest-keeps, read_rest-keeps}

-- No call fails, a `write` of some bytes moves at least one, and so does a `read` of some bytes as
-- long as there is input.
pub record Flowing {W : Type 0} (io : Stream W) (input : W → List ℕ) : Type 0 where
  pub write_works : (fd : ℤ) (bytes : List ℕ) (w : W) → (n : ℕ) × ((io.write fd bytes w).0 ≡ pos n)
  pub write_moves :
      (fd : ℤ) (bytes : List ℕ) (w : W) → 0 < length bytes → (io.write fd bytes w).0 ≢ pos 0
  pub read_moves :
      (fd : ℤ) (size : ℕ) (w : W)
      → 0 < size
      → 0 < length (input w)
      → (b : ℕ) × (bs : List ℕ) × ((io.read fd size w).0 ≡ chunk (b ∷ bs))

-- Lists that agree as wholes and in the length of their first parts.
pub append-cancel :
    (xs xs' ys ys' : List ℕ)
    → xs ++ ys ≡ xs' ++ ys'
    → length xs ≡ length xs'
    → (xs ≡ xs') × (ys ≡ ys')
append-cancel [] [] ys ys' h e = (refl, h)
append-cancel [] (x ∷ xs') ys ys' h e = absurd (omega arith)
append-cancel (x ∷ xs) [] ys ys' h e = absurd (omega arith)
append-cancel (x ∷ xs) (x' ∷ xs') ys ys' h e =
    let heads : x ≡ x' = cc in
    let tails : xs ++ ys ≡ xs' ++ ys' = cc in
    let r = append-cancel xs xs' ys ys' tails (omega arith) in (rw (heads, r.0) refl, r.1)

module _ {W : Type 0} (io : Stream W) (output input : W → List ℕ)
    (laws : StreamLaws io output input) (duplex : DuplexLaws io output input)
    (flowing : Flowing io input) (fd : ℤ) where
  open flowing use {write_works, write_moves, read_moves}

  after_write_works :
      (size calls : ℕ) (loop : List ℕ → Partial W ℤ) (rest : List ℕ) (w : W) (n : ℕ)
      → length rest < suc calls
      → (0 < length rest → pos n ≢ pos 0)
      → ((l : List ℕ) → length l < calls → (v : W) × (loop l w ≡ some (pos size, v)))
      → (v : W) × (after_write size loop rest (pos n) w ≡ some (pos size, v))
  unfolding after_write
  after_write_works size calls loop rest w n h moves more =
      elim (Bool-cases (ltb n (length rest))) [
        | inl e ↦
            let lt : n < length rest = ground arith in
            let some_bytes : n ≢ 0 = λ z. moves (omega arith) (ap pos z) in
            rw e (more (drop n rest) (omega (arith, length-drop n rest)))
        | inr e ↦ (w, rw e refl)
      ]

  write_rest_works :
      (size calls : ℕ) (rest : List ℕ) (w : W)
      → length rest < calls
      → (v : W) × (write_rest io fd size calls rest w ≡ some (pos size, v))
  unfolding write_rest
  write_rest_works size zero rest w h = absurd (omega arith)
  write_rest_works size (suc calls) rest w h =
      let c = io.write fd rest w in
      let (n, e) = write_works fd rest w in
      let next =
        after_write_works size calls (write_rest io fd size calls) rest c.1 n h
          (λ p z. write_moves fd rest w p (e ∙ z)) (λ l lt. write_rest_works size calls l c.1 lt) in
      (next.0, rw (e, write_rest) next.1)

  -- The whole buffer is written, and the input is left alone.
  pub write_full_works :
      (calls : ℕ) (buff : List ℕ) (w : W)
      → length buff < calls
      → length buff < 2 ^ 31
      → (v : W) × (write_full io calls fd buff w ≡ some (pos (length buff), v))
        × (output v ≡ output w ++ buff)
        × (input v ≡ input w)
  unfolding write_full
  write_full_works calls buff w h small =
      let (v, e) = write_rest_works (length buff) calls buff w h in
      (
        v,
        rw (lt→ltb _ _ small) e,
        (write_rest-Wrote io output input laws fd (length buff) calls buff w (pos (length buff), v)
            e).1,
        write_rest-keeps io output input duplex fd (length buff) calls buff w (pos (length buff), v)
            e,
      )

  read_rest_works :
      (size calls wanted : ℕ) (filled : List ℕ) (w : W)
      → 0 < wanted
      → wanted < calls
      → wanted ≤ length (input w)
      → (bytes : List ℕ) × (v : W) × (read_rest io fd size calls wanted filled w
          ≡ some ((pos size, bytes), v))
  unfolding read_rest after_read
  read_rest_works size zero wanted filled w p h k = absurd (omega arith)
  read_rest_works size (suc calls) wanted filled w p h k =
      let c = io.read fd wanted w in
      let (b, bs, e) = read_moves fd wanted w p (omega arith) in
      let moved = laws.read_some fd wanted w (b ∷ bs) e in
      let sum = ap length moved.1 ∙ length-append (b ∷ bs) (input c.1) in
      elim (Bool-cases (ltb (length (b ∷ bs)) wanted)) [
        | inl t ↦
            let lt : length (b ∷ bs) < wanted = ltb→lt (length (b ∷ bs)) wanted t in
            let (bytes, v, next) =
              read_rest_works size calls (wanted - length (b ∷ bs)) (filled ++ b ∷ bs) c.1
                (omega arith) (omega arith) (omega arith) in
            (bytes, v, rw (e, read_rest) (rw t next))
        | inr t ↦ (filled ++ b ∷ bs, c.1, rw (e, read_rest) (rw t refl))
      ]

  -- As many bytes as are wanted are read, the next ones of the input, and the output is left alone.
  pub read_full_works :
      (calls : ℕ) (bytes rest : List ℕ) (w : W)
      → 0 < length bytes
      → length bytes < calls
      → length bytes < 2 ^ 31
      → input w ≡ bytes ++ rest
      → (v : W) × (read_full io calls fd (length bytes) w ≡ some ((pos (length bytes), bytes), v))
        × (input v ≡ rest)
        × (output v ≡ output w)
  unfolding read_full
  read_full_works calls bytes rest w p h small coming =
      let size = length bytes in
      let (got, v, e) =
        read_rest_works size calls size [] w p h
          (omega (arith, ap length coming, length-append bytes rest)) in
      let g =
        read_rest-Gathered io output input laws fd size calls size [] w ((pos size, got), v) e in
      let stored : g.taken ≡ got = sym g.stored in
      let same = append-cancel g.taken bytes (input v) rest (sym g.consumed ∙ coming) g.judged.1 in
      (
        v,
        (rw (lt→ltb _ _ small) e) ∙ ap (λ l. some ((pos size, l), v)) (sym stored ∙ same.0),
        same.1,
        read_rest-keeps io output input duplex fd size calls size [] w ((pos size, got), v) e,
      )
