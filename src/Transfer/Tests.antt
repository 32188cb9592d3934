-- ===== src/Transfer/Tests.antt =====
-- Transfers over a stream that moves at most two bytes at a time.
use cs739_distributed_system.Base.{
  ℕ, ◌≤◌, ◌<◌, min, ◌≡◌, refl, sym, ap, ◌≢◌, none, some, List, [], ◌∷◌, ◌++◌, arith, length, take,
  drop, take-append-drop, length-take, pos,
}
use cs739_distributed_system.Transfer.{
  Stream, Chunk, failed, chunk, after_write, after_read, write_rest, read_rest, write_full,
  read_full,
}
use cs739_distributed_system.Transfer.Laws.{StreamLaws, Wrote, write_full-Wrote}
use cs739_distributed_system.Transfer.Reading.{Gathered, read_full-Gathered}
use cs739_distributed_system.Transfer.Progress.{Moving, Returns, transfer-Returns, read_full-none}

-- The bytes that were written and those that can be read.
abbrev Pipe : Type 0
Pipe = List ℕ × List ℕ

abbrev read_pair : ℕ → Pipe → Chunk × Pipe
read_pair size (out, []) = (failed, (out, []))
read_pair size (out, b ∷ bs) =
    let n = min size 2 in (chunk (take n (b ∷ bs)), (out, drop n (b ∷ bs)))

-- A read at the end of the input fails.
abbrev pipe : Stream Pipe
pipe = record {
  write = λ fd bytes (out, input).
      let n = min (length bytes) 2 in (pos n, (out ++ take n bytes, input));
  read = λ fd size w. read_pair size w;
}

read_pair_some :
    (size : ℕ) (w : Pipe) (bytes : List ℕ)
    → (read_pair size w).0 ≡ chunk bytes
    → (length bytes ≤ size) × (w.1 ≡ bytes ++ (read_pair size w).1.1)
read_pair_some size (out, []) bytes h = cc
read_pair_some size (out, b ∷ bs) bytes h =
    let e : take (min size 2) (b ∷ bs) ≡ bytes = cc in
    rw (← e) (
      omega (arith, length-take (min size 2) (b ∷ bs)),
      sym (take-append-drop (min size 2) (b ∷ bs)),
    )

read_pair_none :
    (size : ℕ) (w : Pipe) → (read_pair size w).0 ≡ failed → w.1 ≡ (read_pair size w).1.1
read_pair_none size (out, []) h = refl
read_pair_none size (out, b ∷ bs) h = cc

read_pair_moves : (size : ℕ) (w : Pipe) → 0 < size → (read_pair size w).0 ≢ chunk []
read_pair_moves size (out, []) h = λ e. cc
read_pair_moves size (out, b ∷ bs) h = λ e.
    let none_left : take (min size 2) (b ∷ bs) ≡ [] = cc in
    absurd (omega (arith, ap length none_left, length-take (min size 2) (b ∷ bs)))

pipe-StreamLaws : StreamLaws pipe (λ w. w.0) (λ w. w.1)
pipe-StreamLaws = record {
  write_some =
      λ fd bytes w n e. let same : min (length bytes) 2 ≡ n = cc in rw (← same) (omega arith, refl);
  write_none = λ fd bytes w k e. cc;
  read_some = λ fd size w bytes e. read_pair_some size w bytes e;
  read_none = λ fd size w e. read_pair_none size w e;
}

pipe-Moving : Moving pipe
pipe-Moving = record {
  write_moves =
      λ fd bytes w h e. let none_moved : min (length bytes) 2 ≡ 0 = cc in absurd (omega arith);
  read_moves = λ fd size w h. read_pair_moves size w h;
}

abbrev five : List ℕ
five = 1 ∷ 2 ∷ 3 ∷ 4 ∷ 5 ∷ []

write_five : write_full pipe 3 (pos 4) five ([], []) ≡ some (pos 5, (five, []))
unfolding write_full write_rest after_write
write_five = refl

write_full-Wrote_example :
    Wrote pipe (λ w. w.0) (λ w. w.1) pipe-StreamLaws (pos 4) 5 five ([], []) (pos 5, (five, []))
write_full-Wrote_example =
    write_full-Wrote pipe (λ w. w.0) (λ w. w.1) pipe-StreamLaws (pos 4) 3 five ([], [])
      (pos 5, (five, [])) write_five

read_four : read_full pipe 3 (pos 4) 4 ([], five) ≡ some ((pos 4, 1 ∷ 2 ∷ 3 ∷ 4 ∷ []), ([], 5 ∷ []))
unfolding read_full read_rest after_read
read_four = refl

read_full-Gathered_example :
    Gathered pipe
      (λ w. w.0)
      (λ w. w.1)
      pipe-StreamLaws
      (pos 4)
      4
      4
      []
      ([], five)
      ((pos 4, 1 ∷ 2 ∷ 3 ∷ 4 ∷ []), ([], 5 ∷ []))
read_full-Gathered_example =
    read_full-Gathered pipe (λ w. w.0) (λ w. w.1) pipe-StreamLaws (pos 4) 3 4 ([], five)
      ((pos 4, 1 ∷ 2 ∷ 3 ∷ 4 ∷ []), ([], 5 ∷ [])) read_four

transfer-Returns_example :
    Returns pipe pipe-Moving (pos 4) (write_full pipe 6 (pos 4) five ([], five))
    × Returns pipe pipe-Moving (pos 4) (read_full pipe 6 (pos 4) 5 ([], five))
transfer-Returns_example =
    transfer-Returns pipe pipe-Moving (pos 4) 6 five 5 ([], five) (omega arith) (omega arith)

-- A connection that the peer has closed.
abbrev closed : Stream Pipe
closed = record pipe { read = λ fd size w. (chunk [], w) }

read_full-none_example : read_full closed 1000 (pos 4) 5 ([], []) ≡ none
read_full-none_example =
    read_full-none closed (pos 4) (λ size w. refl) 1000 5 ([], []) (omega arith) (omega arith)
