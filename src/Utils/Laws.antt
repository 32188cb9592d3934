-- ===== src/Utils/Laws.antt =====
-- What the utilities of HW1/part1/utils print and write.
use cs739_distributed_system.Base.{
  ℕ, zero, suc, ◌+◌, ◌%◌, ◌≡◌, refl, sym, ap, subst, ◌∙◌, ◌↔◌, true, List, [], ◌∷◌, ◌++◌,
  append_assoc, append-nil, length,
}
use cs739_distributed_system.Bench.Loop.{Machine}
use cs739_distributed_system.Bench.Timed.{printable, compress_input, same_bytes}
use cs739_distributed_system.Bench.Counts.{same_bytes_refl, same_bytes→eq, printable-All}
use cs739_distributed_system.Utils.{add_letters, letters, compress_data}

add_letters-printable : (n i : ℕ) (input : List ℕ) → add_letters n i input ≡ input ++ printable n i
unfolding add_letters printable
add_letters-printable zero i input = sym (append-nil input)
add_letters-printable (suc n) i input =
    add_letters-printable n (i + 1) (input ++ (b' ' + i % 95) ∷ [])
    ∙ append_assoc input ((b' ' + i % 95) ∷ []) (printable n (i + 1))

letters-compress_input : letters ≡ compress_input
letters-compress_input = add_letters-printable 1023 0 (b'a' ∷ [])

same_bytes_iff : (xs ys : List ℕ) → (same_bytes xs ys ≡ true) ↔ (ys ≡ xs)
same_bytes_iff xs ys =
    (λ h. sym (same_bytes→eq xs ys h), λ e. ap (same_bytes xs) e ∙ same_bytes_refl xs)

-- The program prints that its input has 1024 bytes, the size that Snappy compressed the input of
-- `print_compress_uncompress_data` in part1.cpp to, and `Equal` exactly when Snappy gives that
-- input back.
pub compress_data_lem :
    {W : Type 0} (m : Machine W) (w : W)
    → let r = (compress_data m w).0 in
      let stored = m.compress compress_input w in
      (r.input_size ≡ 1024)
      × (r.output_size ≡ length stored.0)
      × ((r.equal ≡ true) ↔ ((m.uncompress stored.0 stored.1).0 ≡ compress_input))
unfolding compress_data
compress_data_lem m w =
    subst
      (λ l.
        (length letters ≡ 1024)
        × (length (m.compress letters w).0 ≡ length (m.compress l w).0)
        × ((same_bytes letters (m.uncompress (m.compress letters w).0 (m.compress letters w).1).0
              ≡ true)
            ↔ ((m.uncompress (m.compress l w).0 (m.compress l w).1).0 ≡ l)))
      letters-compress_input
      (
        ap length letters-compress_input ∙ ap suc (printable-All 1023 0).0,
        refl,
        same_bytes_iff letters (m.uncompress (m.compress letters w).0 (m.compress letters w).1).0,
      )
