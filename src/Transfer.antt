-- ===== src/Transfer.antt =====
-- HW1/part1/Generic.h and HW1/part2/Generic.h: whole transfers over a stream, `write_full` and
-- `read_full`. The progress messages that the loops print are left out.
pub mod Laws
pub mod Reading
pub mod Progress
pub mod Duplex
pub mod Flow
mod Tests
use cs739_distributed_system.Base.{
  ℕ, zero, suc, ◌+◌, ◌-◌, ◌*◌, ◌/◌, ◌%◌, ◌^◌, ◌≤◌, ◌<◌, min, max, ◌≡◌, refl, sym, ap, subst, ◌∙◌,
  ◌≢◌, ◌↔◌, ◌⊎◌, inl, inr, Bool, true, false, not, ◌&&◌, ◌||◌, Option, none, some, List, [], ◌∷◌,
  ◌++◌, map, append_assoc, append-nil, arith, dec_lt, ℕ_discrete, ltb, leb, ◌==◌, if◌then◌else◌,
  ltb→lt, lt→ltb, le→ltb, Bool-cases, Option-cases, length, take, drop, replicate, All,
  length-append, take-append-drop, length-take, length-drop, length-replicate, take_all, take-add,
  All-mono, ℤ, pos, negsuc, minus_one, is_neg, of_bool, to_u32, IsInt, to_u32-lt, State, Partial,
  ◌>>=◌, ◌>>◌, pure, finish, after, after-eq-some, Yields, Yields-chain, Yields-after, Yields-mono,
  Yields-some, Allows, Allows-chain, Allows-after, Allows-chain_of, Allows-after_of, Allows-mono,
  Allows-nothing, chain-eq-some, chain_of_some, after_of_some, some-injective, chain,
}

-- What `read` did: it failed, or it stored so many bytes, none at the end of the input.
pub data Chunk : Type 0 where
  failed : Chunk
  chunk : List ℕ → Chunk

-- The two calls of the system, over the state `W` of the world.
pub record Stream (W : Type 0) : Type 0 where
  pub write : ℤ → List ℕ → State W ℤ
  pub read : ℤ → ℕ → State W Chunk

module _ {W : Type 0} (size : ℕ) where
  -- What follows a call of `write` that returned the number: `return rem`, the loop once more on
  -- the rest of the buffer, or `return size`.
  unfoldable pub after_write : (List ℕ → Partial W ℤ) → List ℕ → ℤ → Partial W ℤ
  after_write loop rest (negsuc k) w = some (negsuc k, w)
  after_write loop rest (pos n) w =
      if ltb n (length rest) then loop (drop n rest) w else some (pos size, w)

  -- The same for `read`, where `read_size` bytes are missing and the buffer holds `filled` so far.
  -- A call that fails is below `read_size` as an `int`.
  unfoldable pub after_read :
      (ℕ → List ℕ → Partial W (ℤ × List ℕ)) → ℕ → List ℕ → Chunk → Partial W (ℤ × List ℕ)
  after_read loop read_size filled failed w = some ((minus_one, filled), w)
  after_read loop read_size filled (chunk bytes) w =
      if ltb (length bytes) read_size
      then loop (read_size - length bytes) (filled ++ bytes) w
      else some ((pos size, filled ++ bytes), w)

module _ {W : Type 0} (io : Stream W) (fd : ℤ) (size : ℕ) where
  -- `while ((rem = write(fd, buff, write_size)) < write_size) { ... } return size;`, where the list
  -- is the part of the buffer that is still to be written: after at most so many calls.
  unfoldable pub write_rest : ℕ → List ℕ → Partial W ℤ
  unfolding after_write
  write_rest zero rest w = none
  write_rest (suc calls) rest w =
      let r = io.write fd rest w in after_write size (λ l. write_rest calls l) rest r.0 r.1

  -- The same loop around `read`.
  unfoldable pub read_rest : ℕ → ℕ → List ℕ → Partial W (ℤ × List ℕ)
  unfolding after_read
  read_rest zero read_size filled w = none
  read_rest (suc calls) read_size filled w =
      let r = io.read fd read_size w in
      after_read size (λ k l. read_rest calls k l) read_size filled r.0 r.1

-- `int write_size = size` is negative from 2^31 on, and then every result of `write` ends the loop at
-- once; `return size` is the same negative number. The count that `write` gets is then larger than
-- the buffer, but the system moves less than 2^31 bytes in one call, so that the bytes of the buffer
-- are all that count.
unfoldable pub write_once : {W : Type 0} → Stream W → ℤ → List ℕ → Partial W ℤ
write_once io fd buff w =
    let r = io.write fd buff w in some (negsuc (2 ^ 32 - 1 - length buff), r.1)

-- What a call of `read` stored.
unfoldable pub stored_bytes : Chunk → List ℕ
stored_bytes failed = []
stored_bytes (chunk bytes) = bytes

unfoldable pub read_once : {W : Type 0} → Stream W → ℤ → ℕ → Partial W (ℤ × List ℕ)
read_once io fd size w =
    let r = io.read fd size w in some ((negsuc (2 ^ 32 - 1 - size), stored_bytes r.0), r.1)

-- `write_full(fd, buff, size)` on the `size` bytes of the list, where `size` is a `uint`.
unfoldable pub write_full : {W : Type 0} → Stream W → ℕ → ℤ → List ℕ → Partial W ℤ
write_full io calls fd buff =
    if ltb (length buff) (2 ^ 31)
    then write_rest io fd (length buff) calls buff
    else write_once io fd buff

-- `read_full(fd, buff, size)`: the result, and the bytes that were stored.
unfoldable pub read_full : {W : Type 0} → Stream W → ℕ → ℤ → ℕ → Partial W (ℤ × List ℕ)
read_full io calls fd size =
    if ltb size (2 ^ 31) then read_rest io fd size calls size [] else read_once io fd size
