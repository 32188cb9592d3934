-- ===== src/Tcp/Session.antt =====
-- The latency measurement of HW1/part1/client_server over a connection that works.
use cs739_distributed_system.Base.{
  ℕ, zero, suc, ◌+◌, ◌-◌, ◌*◌, ◌≤◌, ◌≡◌, refl, ap, ◌∙◌, List, ◌∷◌, ◌++◌, arith, length, take, drop,
  replicate, length-replicate, take_all, ℤ,
}
use cs739_distributed_system.Udp.Net.{overlay}
use cs739_distributed_system.Tcp.Net.{TcpNet}

-- So many bytes of the pattern that the server fills its buffer with.
abbrev pub pattern_bytes : ℕ → List ℕ
pattern_bytes n = replicate n b'e'

pub take-pattern_bytes : (n k : ℕ) → n ≤ k → take n (pattern_bytes k) ≡ pattern_bytes n
take-pattern_bytes zero k h = refl
take-pattern_bytes (suc n) zero h = absurd (omega arith)
take-pattern_bytes (suc n) (suc k) h = ap (◌∷◌ b'e') (take-pattern_bytes n k (omega arith))

pub drop-pattern_bytes : (n k : ℕ) → n ≤ k → drop n (pattern_bytes k) ≡ pattern_bytes (k - n)
drop-pattern_bytes zero k h = ap pattern_bytes (omega arith)
drop-pattern_bytes (suc n) zero h = absurd (omega arith)
drop-pattern_bytes (suc n) (suc k) h =
    let same : k - n ≡ suc k - suc n = omega arith in
    drop-pattern_bytes n k (omega arith) ∙ ap pattern_bytes same

pub pattern_bytes-append : (n k : ℕ) → pattern_bytes n ++ pattern_bytes k ≡ pattern_bytes (n + k)
pattern_bytes-append zero k = ap pattern_bytes (omega arith)
pattern_bytes-append (suc n) k =
    let same : suc (n + k) ≡ suc n + k = omega arith in
    ap (◌∷◌ b'e') (pattern_bytes-append n k) ∙ ap pattern_bytes same

pub length-pattern_bytes : (n : ℕ) → length (pattern_bytes n) ≡ n
length-pattern_bytes n = length-replicate n b'e'

-- The packets of a round and of those that follow.
pub pattern_bytes_rounds :
    (size n : ℕ) → pattern_bytes size ++ pattern_bytes (n * size) ≡ pattern_bytes (suc n * size)
pattern_bytes_rounds size n =
    let total : size + n * size ≡ suc n * size = omega arith in
    pattern_bytes-append size (n * size) ∙ ap pattern_bytes total

-- Storing the pattern into a buffer of the pattern changes nothing.
pub overlay-pattern_bytes :
    (n k : ℕ) → n ≤ k → overlay (pattern_bytes n) (pattern_bytes k) ≡ pattern_bytes k
unfolding overlay
overlay-pattern_bytes n k h =
    let e : take (length (pattern_bytes k)) (pattern_bytes n) ≡ pattern_bytes n =
      take_all (length (pattern_bytes k)) (pattern_bytes n)
        (omega (arith, length-pattern_bytes n, length-pattern_bytes k)) in
    let whole : n + (k - n) ≡ k = omega arith in
    rw (e, length-pattern_bytes n, drop-pattern_bytes n k h, pattern_bytes-append n (k - n))
      (ap pattern_bytes whole)

-- The calls beside the stream do not touch it.
pub record Aside {W : Type 0} (net : TcpNet W) (output input : W → List ℕ) : Type 0 where
  pub clock_output : (w : W) → output (net.clock_gettime w).1 ≡ output w
  pub clock_input : (w : W) → input (net.clock_gettime w).1 ≡ input w
  pub close_output : (fd : ℤ) (w : W) → output (net.close fd w).1 ≡ output w
  pub close_input : (fd : ℤ) (w : W) → input (net.close fd w).1 ≡ input w
