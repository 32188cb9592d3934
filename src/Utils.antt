-- ===== src/Utils.antt =====
-- HW1/part1/utils/snappy_test.cpp and HW1/part1/utils/create_file.cpp. A function that prints
-- returns what it prints; Snappy and `fopen` are parameters.
pub mod Laws
mod Tests
use cs739_distributed_system.Base.{
  ℕ, zero, suc, ◌+◌, ◌-◌, ◌*◌, ◌/◌, ◌%◌, ◌^◌, ◌≤◌, ◌<◌, min, max, ◌≡◌, refl, sym, ap, subst, ◌∙◌,
  ◌≢◌, ◌↔◌, ◌⊎◌, inl, inr, Bool, true, false, not, ◌&&◌, ◌||◌, Option, none, some, List, [], ◌∷◌,
  ◌++◌, map, append_assoc, append-nil, arith, dec_lt, ℕ_discrete, ltb, leb, ◌==◌, if◌then◌else◌,
  ltb→lt, lt→ltb, le→ltb, Bool-cases, Option-cases, length, take, drop, replicate, All,
  length-append, take-append-drop, length-take, length-drop, length-replicate, take_all, take-add,
  All-mono, ℤ, pos, negsuc, minus_one, is_neg, of_bool, to_u32, IsInt, to_u32-lt, State, Partial,
  ◌>>=◌, ◌>>◌, pure, finish, after, after-eq-some, Yields, Yields-chain, Yields-after, Yields-some,
  Allows, Allows-chain, Allows-after, chain-eq-some, chain_of_some, after_of_some, some-injective,
  chain,
}
use cs739_distributed_system.Bench.Loop.{Machine}
use cs739_distributed_system.Bench.Timed.{same_bytes}
use cs739_distributed_system.Tcp.Net.{Outcome, faulted, value}

-- The loop of `compress_data`: the rounds that are left, `i`, and `input`.
unfoldable pub add_letters : ℕ → ℕ → List ℕ → List ℕ
add_letters zero i input = input
add_letters (suc n) i input = add_letters n (i + 1) (input ++ (b' ' + i % 95) ∷ [])

-- What `compress_data` prints: the sizes, and `Equal` or `ERROR: not equal`.
pub record Compared : Type 0 where
  pub input_size : ℕ
  pub output_size : ℕ
  pub equal : Bool

-- `input` of `compress_data`.
abbrev pub letters : List ℕ
letters = add_letters 1023 0 (b'a' ∷ [])

-- `compress_data()`, which is all that `main` does.
unfoldable pub compress_data : {W : Type 0} → Machine W → State W Compared
compress_data m = do
  output ← m.compress letters
  output_uncom ← m.uncompress output
  pure (record {
    input_size = length letters;
    output_size = length output;
    equal = same_bytes letters output_uncom;
  })

-- An open file: its bytes, and the position.
pub record File : Type 0 where
  pub bytes : List ℕ
  pub position : ℕ

-- `fseek(fp, offset, SEEK_SET)`.
abbrev pub fseek : ℕ → File → File
fseek offset fp = record fp { position = offset }

-- `fputc(c, fp)`: a gap behind the end is filled with zeros.
unfoldable pub fputc : ℕ → File → File
fputc c fp = record {
  bytes =
      take fp.position fp.bytes
      ++ replicate (fp.position - length fp.bytes) 0
      ++ c ∷ drop (fp.position + 1) fp.bytes;
  position = fp.position + 1;
}

-- `main` of create_file.cpp, for what `fopen` returns: the bytes of the file. A null pointer is
-- dereferenced.
unfoldable pub create_file : Option File → Outcome (List ℕ)
create_file none = faulted
create_file (some fp) = value (fputc 0 (fseek (1024 - 1) fp)).bytes
