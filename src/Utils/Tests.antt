-- ===== src/Utils/Tests.antt =====
-- The utilities with a coder that reverses nothing, and an empty file.
use cs739_distributed_system.Base.{
  ◌≡◌, refl, ◌↔◌, true, some, [], ◌∷◌, length, drop, replicate, pos,
}
use cs739_distributed_system.Bench.Loop.{Machine}
use cs739_distributed_system.Bench.Timed.{compress_input}
use cs739_distributed_system.Tcp.Net.{value}
use cs739_distributed_system.Utils.{compress_data, fputc, create_file}
use cs739_distributed_system.Utils.Laws.{compress_data_lem}

-- A coder that stores the text in front of a mark.
abbrev marking : Machine (Unit {0})
marking = record {
  clock = λ w. (record { tv_sec = 0; tv_nsec = 0 }, w);
  lock = λ w. (tt, w);
  unlock = λ w. (tt, w);
  compress = λ input w. (0 ∷ input, w);
  uncompress = λ input w. (drop 1 input, w);
  memcpy = λ w. (tt, w);
  open_file = λ w. (pos 3, w);
  read_file = λ fd size w. (pos size, w);
  close_file = λ fd w. (tt, w);
  cerr = λ w. (tt, w);
}

compress_data_lem_example :
    let r = (compress_data marking tt).0 in
    (r.input_size ≡ 1024)
    × (r.output_size ≡ length (0 ∷ compress_input))
    × ((r.equal ≡ true) ↔ (drop 1 (0 ∷ compress_input) ≡ compress_input))
compress_data_lem_example = compress_data_lem marking tt

create_file-zeros :
    create_file (some (record { bytes = []; position = 0 })) ≡ value (replicate 1024 0)
unfolding create_file fputc
create_file-zeros = refl
