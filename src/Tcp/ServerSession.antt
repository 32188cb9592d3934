-- ===== src/Tcp/ServerSession.antt =====
-- The server's part of a measurement over a connection that works.
use cs739_distributed_system.Base.{
  ℕ, zero, suc, ◌*◌, ◌/◌, ◌^◌, ◌≤◌, ◌<◌, ◌≡◌, refl, sym, ap, subst, ◌∙◌, true, false, some, List,
  ◌++◌, append_assoc, append-nil, arith, ltb, ◌==◌, le→ltb, length, take, length-take, ℤ, pos,
  chain_of_some, after_of_some,
}
use cs739_distributed_system.Clock.{elapsed}
use cs739_distributed_system.Stats.{Stats, fresh, sample}
use cs739_distributed_system.Transfer.{write_full, read_full}
use cs739_distributed_system.Transfer.Laws.{StreamLaws}
use cs739_distributed_system.Transfer.Duplex.{DuplexLaws}
use cs739_distributed_system.Transfer.Flow.{Flowing, write_full_works, read_full_works}
use cs739_distributed_system.Udp.Net.{encode32}
use cs739_distributed_system.Udp.Bytes.{decode32-encode32}
use cs739_distributed_system.Tcp.Net.{TcpNet, value, num_trials, chain_value_of_some}
use cs739_distributed_system.Tcp.Server.{
  Latency, write_from, read_into, read_again, trial, trials, measure_latency, compare_sizes,
  read_response, serve_handshake,
}
use cs739_distributed_system.Tcp.Session.{
  pattern_bytes, length-pattern_bytes, take-pattern_bytes, overlay-pattern_bytes,
  pattern_bytes_rounds, Aside,
}

module _ {W : Type 0} (net : TcpNet W) (output input : W → List ℕ)
    (laws : StreamLaws net.stream output input) (duplex : DuplexLaws net.stream output input)
    (flowing : Flowing net.stream input) (aside : Aside net output input) (calls size : ℕ)
    (positive : 0 < size) (enough : size < calls) (small : size < 2 ^ 31) where
  -- The connection has moved these bytes in the two directions.
  abbrev pub Moved : W → W → List ℕ → List ℕ → Type 0
  Moved w v sent rest = (output v ≡ output w ++ sent) × (input v ≡ rest)

  inside : (k : ℕ) → size ≤ k → ltb (length (pattern_bytes k)) size ≡ false
  inside k fits = le→ltb _ _ (omega (arith, length-pattern_bytes k))

  read_into_works :
      (fd : ℤ) (k : ℕ) (rest : List ℕ) (w : W)
      → size ≤ k
      → input w ≡ pattern_bytes size ++ rest
      → (v : W) × (read_into net calls fd size (pattern_bytes k) w
          ≡ some (value (pos size, pattern_bytes k), v))
        × (output v ≡ output w)
        × (input v ≡ rest)
  unfolding read_into
  read_into_works fd k rest w fits coming =
      let len = length-pattern_bytes size in
      let (v, e, i, o) =
        read_full_works net.stream output input laws duplex flowing fd calls (pattern_bytes size)
          rest w (omega (arith, len)) (omega (arith, len)) (omega (arith, len, small)) coming in
      let e' : read_full net.stream calls fd size w ≡ some ((pos size, pattern_bytes size), v) =
        subst (λ n. read_full net.stream calls fd n w ≡ some ((pos n, pattern_bytes size), v)) len
          e in
      (
        v,
        rw (inside k fits) (
            after_of_some (read_full net.stream calls fd size) _ w v (pos size, pattern_bytes size)
              e'
            ∙ ap (λ b. some (value (pos size, b), v)) (overlay-pattern_bytes size k fits)),
        o,
        i,
      )

  read_again_works :
      (tries : ℕ) (fd : ℤ) (k : ℕ) (rest : List ℕ) (w : W)
      → size ≤ k
      → input w ≡ pattern_bytes size ++ rest
      → (v : W) × (read_again net (suc tries) calls fd size (pattern_bytes k) w
          ≡ some (value (pattern_bytes k), v))
        × (output v ≡ output w)
        × (input v ≡ rest)
  unfolding read_again
  read_again_works tries fd k rest w fits coming =
      let (v, e, o, i) = read_into_works fd k rest w fits coming in
      (
        v,
        chain_value_of_some (read_into net calls fd size (pattern_bytes k)) _ w v
            (pos size, pattern_bytes k) e,
        o,
        i,
      )

  write_from_works :
      (fd : ℤ) (k : ℕ) (w : W)
      → size ≤ k
      → (n : ℕ) × (v : W) × (write_from net calls fd size (pattern_bytes k) w
          ≡ some (value (pos n), v))
        × (output v ≡ output w ++ pattern_bytes size)
        × (input v ≡ input w)
  unfolding write_from
  write_from_works fd k w fits =
      let packet = take size (pattern_bytes k) in
      let shorter = length-take size (pattern_bytes k) in
      let (v, e, o, i) =
        write_full_works net.stream output input laws duplex flowing fd calls packet w
          (omega (arith, shorter)) (omega (arith, shorter, small)) in
      (
        length packet,
        v,
        rw (inside k fits)
            (after_of_some (write_full net.stream calls fd packet) _ w v (pos (length packet)) e),
        o ∙ ap (◌++◌ (output w)) (take-pattern_bytes size k fits),
        i,
      )

  trial_works :
      (tries : ℕ) (fd : ℤ) (k : ℕ) (rest : List ℕ) (w : W)
      → size ≤ k
      → input w ≡ pattern_bytes size ++ rest
      → (d : ℕ) × (v : W) × (trial net (suc tries) calls fd size (pattern_bytes k) w
          ≡ some (value (d, pattern_bytes k), v))
        × Moved w v (pattern_bytes size) rest
  unfolding trial
  trial_works tries fd k rest w fits coming =
      let start = net.clock_gettime w in
      let (n, v, e, o, i) = write_from_works fd k start.1 fits in
      let end = net.clock_gettime v in
      let (u, f, o', i') =
        read_again_works tries fd k rest end.1 fits
          (aside.clock_input v ∙ i ∙ aside.clock_input w ∙ coming) in
      (
        elapsed start.0 end.0,
        u,
        chain_value_of_some (write_from net calls fd size (pattern_bytes k)) _ start.1 v (pos n) e
            ∙ chain_value_of_some (read_again net (suc tries) calls fd size (pattern_bytes k)) _
                end.1 u (pattern_bytes k) f,
        (o' ∙ aside.clock_output v ∙ o ∙ (rw (aside.clock_output w) refl), i'),
      )

  trials_works :
      (n tries : ℕ) (fd : ℤ) (k : ℕ) (rest : List ℕ) (s : Stats) (w : W)
      → size ≤ k
      → input w ≡ pattern_bytes (n * size) ++ rest
      → (s' : Stats) × (v : W) × (trials net n (suc tries) calls fd size (pattern_bytes k) s w
          ≡ some (value s', v))
        × Moved w v (pattern_bytes (n * size)) rest
  unfolding trials
  trials_works zero tries fd k rest s w fits coming =
      let none_sent : 0 * size ≡ 0 = omega arith in
      (s, w, refl, (rw none_sent (sym (append-nil (output w))), coming ∙ (rw none_sent refl)))
  trials_works (suc n) tries fd k rest s w fits coming =
      let both = pattern_bytes_rounds size n in
      let first_coming : input w ≡ pattern_bytes size ++ (pattern_bytes (n * size) ++ rest) =
        coming
        ∙ ap (λ l. l ++ rest) (sym both)
        ∙ append_assoc (pattern_bytes size) (pattern_bytes (n * size)) rest in
      let (d, v, e, (o, i)) =
        trial_works tries fd k (pattern_bytes (n * size) ++ rest) w fits first_coming in
      let (s', u, f, (o', i')) = trials_works n tries fd k rest (sample s d) v fits i in
      (
        s',
        u,
        chain_value_of_some (trial net (suc tries) calls fd size (pattern_bytes k)) _ w v
              (d, pattern_bytes k) e
            ∙ f,
        (
          o'
              ∙ (rw o (append_assoc (output w) (pattern_bytes size) (pattern_bytes (n * size))))
              ∙ ap (◌++◌ (output w)) both,
          i',
        ),
      )

  measure_latency_works :
      (tries : ℕ) (fds : ℤ × ℤ) (k : ℕ) (rest : List ℕ) (w : W)
      → size ≤ k
      → input w ≡ pattern_bytes (num_trials * size) ++ rest
      → (l : Latency) × (v : W) × (measure_latency net
            (suc tries)
            calls
            fds
            size
            (pattern_bytes k)
            w
          ≡ some (value l, v))
        × Moved w v (pattern_bytes (num_trials * size)) rest
  unfolding measure_latency
  measure_latency_works tries fds k rest w fits coming =
      let (s, v, e, (o, i)) = trials_works num_trials tries fds.1 k rest fresh w fits coming in
      let closed = net.close fds.1 (net.close fds.0 v).1 in
      (
        record { min = s.min; max = s.max; average = s.sum / num_trials },
        closed.1,
        chain_value_of_some
            (trials net num_trials (suc tries) calls fds.1 size (pattern_bytes k) fresh) _ w v s e,
        (
          aside.close_output fds.1 _ ∙ aside.close_output fds.0 v ∙ o,
          aside.close_input fds.1 _ ∙ aside.close_input fds.0 v ∙ i,
        ),
      )

module _ {W : Type 0} (net : TcpNet W) (output input : W → List ℕ)
    (laws : StreamLaws net.stream output input) (duplex : DuplexLaws net.stream output input)
    (flowing : Flowing net.stream input) (aside : Aside net output input) (calls size : ℕ)
    (positive : 0 < size) (enough : size < calls) (small : size < 2 ^ 31) (wide : 4 < calls) where
  compare_sizes_same :
      (tries : ℕ) (fds : ℤ × ℤ) (buffer : List ℕ) (w : W)
      → compare_sizes net tries calls fds size buffer size w
        ≡ measure_latency net tries calls fds size buffer w
  unfolding compare_sizes
  compare_sizes_same tries fds buffer w =
      let same : (size == size) ≡ true = ground arith in rw (same, compare_sizes) refl

  read_response_works :
      (tries : ℕ) (fds : ℤ × ℤ) (k n : ℕ) (rest : List ℕ) (w : W)
      → size ≤ k
      → input w ≡ encode32 size ++ (pattern_bytes (num_trials * size) ++ rest)
      → (l : Latency) × (v : W) × (read_response net
            (suc tries)
            calls
            fds
            size
            (pattern_bytes k)
            (pos n)
            w
          ≡ some (value l, v))
        × (output v ≡ output w ++ pattern_bytes (num_trials * size))
        × (input v ≡ rest)
  unfolding read_response
  read_response_works tries fds k n rest w fits coming =
      let (v, e, i, o) =
        read_full_works net.stream output input laws duplex flowing fds.1 calls (encode32 size) _ w
          (unfold encode32 in omega arith) (unfold encode32 in wide)
          (unfold encode32 in omega arith) coming in
      let e' : read_full net.stream calls fds.1 4 w ≡ some ((pos 4, encode32 size), v) =
        unfold encode32 in e in
      let (l, u, f, (o', i')) =
        measure_latency_works net output input laws duplex flowing aside calls size positive enough
          small tries fds k rest v fits i in
      (
        l,
        u,
        chain_of_some (read_full net.stream calls fds.1 4) _ w v (pos 4, encode32 size) e'
            ∙ (rw (decode32-encode32 size (omega (arith, small)))
                (compare_sizes_same (suc tries) fds (pattern_bytes k) v ∙ f)),
        o' ∙ ap (λ x. x ++ pattern_bytes (num_trials * size)) o,
        i',
      )

  -- The handshake and the measurement.
  pub serve_handshake_works :
      (tries : ℕ) (fds : ℤ × ℤ) (k : ℕ) (rest : List ℕ) (w : W)
      → size ≤ k
      → input w ≡ encode32 size ++ (pattern_bytes (num_trials * size) ++ rest)
      → (l : Latency) × (v : W) × (serve_handshake net
            (suc tries)
            calls
            fds
            size
            (pattern_bytes k)
            w
          ≡ some (value l, v))
        × (output v ≡ output w ++ (encode32 size ++ pattern_bytes (num_trials * size)))
        × (input v ≡ rest)
  unfolding serve_handshake
  serve_handshake_works tries fds k rest w fits coming =
      let (v, e, o, i) =
        write_full_works net.stream output input laws duplex flowing fds.1 calls (encode32 size) w
          (unfold encode32 in wide) (unfold encode32 in omega arith) in
      let (l, u, f, o', i') =
        read_response_works tries fds k (length (encode32 size)) rest v fits (i ∙ coming) in
      (
        l,
        u,
        chain_of_some (write_full net.stream calls fds.1 (encode32 size)) _ w v
              (pos (length (encode32 size))) e
            ∙ f,
        o'
            ∙ ap (λ x. x ++ pattern_bytes (num_trials * size)) o
            ∙ append_assoc (output w) (encode32 size) _,
        i',
      )
