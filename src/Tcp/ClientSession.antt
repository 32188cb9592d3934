-- ===== src/Tcp/ClientSession.antt =====
-- The client's part of a measurement over a connection that works.
use cs739_distributed_system.Base.{
  ℕ, zero, suc, ◌*◌, ◌^◌, ◌≤◌, ◌<◌, ◌≡◌, refl, sym, ap, subst, ◌∙◌, some, List, ◌++◌, append_assoc,
  append-nil, arith, if◌then◌else◌, le→ltb, length, take, ℤ, pos, Partial, ◌>>=◌, pure, after,
  chain_of_some, after_of_some,
}
use cs739_distributed_system.Transfer.{write_full, read_full}
use cs739_distributed_system.Transfer.Laws.{StreamLaws}
use cs739_distributed_system.Transfer.Duplex.{DuplexLaws}
use cs739_distributed_system.Transfer.Flow.{Flowing, write_full_works, read_full_works}
use cs739_distributed_system.Udp.Net.{overlay, encode32}
use cs739_distributed_system.Udp.Bytes.{decode32-encode32, overlay-full}
use cs739_distributed_system.Tcp.Net.{TcpNet, Outcome, value, faulted, num_trials, buff_size}
use cs739_distributed_system.Tcp.Client.{told, echo, echo_trials, echo_packets, answer_handshake}
use cs739_distributed_system.Tcp.Session.{
  pattern_bytes, length-pattern_bytes, take-pattern_bytes, overlay-pattern_bytes,
  pattern_bytes_rounds, Aside,
}

module _ {W : Type 0} (net : TcpNet W) (output input : W → List ℕ)
    (laws : StreamLaws net.stream output input) (duplex : DuplexLaws net.stream output input)
    (flowing : Flowing net.stream input) (aside : Aside net output input) (fd : ℤ) (calls size : ℕ)
    (positive : 0 < size) (enough : size < calls) (small : size < 2 ^ 31) where
  echo_works :
      (k errors : ℕ) (rest : List ℕ) (w : W)
      → size ≤ k
      → input w ≡ pattern_bytes size ++ rest
      → (v : W) × (echo net calls fd size (pattern_bytes k) errors w
          ≡ some ((pattern_bytes k, errors), v))
        × (output v ≡ output w ++ pattern_bytes size)
        × (input v ≡ rest)
  unfolding echo told
  echo_works k errors rest w fits coming =
      let len = length-pattern_bytes size in
      let (v, e, i, o) =
        read_full_works net.stream output input laws duplex flowing fd calls (pattern_bytes size)
          rest w (omega (arith, len)) (omega (arith, len)) (omega (arith, len, small)) coming in
      let e' : read_full net.stream calls fd size w ≡ some ((pos size, pattern_bytes size), v) =
        subst (λ n. read_full net.stream calls fd n w ≡ some ((pos n, pattern_bytes size), v)) len
          e in
      let same = overlay-pattern_bytes size k fits in
      let packet = take size (overlay (pattern_bytes size) (pattern_bytes k)) in
      let packet_is : packet ≡ pattern_bytes size = (rw same (take-pattern_bytes size k fits)) in
      let (u, f, o', i') =
        write_full_works net.stream output input laws duplex flowing fd calls packet v
          (omega (arith, ap length packet_is, len))
          (omega (arith, ap length packet_is, len, small)) in
      (
        u,
        chain_of_some (read_full net.stream calls fd size) _ w v (pos size, pattern_bytes size) e'
            ∙ chain_of_some (write_full net.stream calls fd packet) _ v u (pos (length packet)) f
            ∙ ap (λ b. some ((b, errors), u)) same,
        o' ∙ (rw (o, packet_is) refl),
        i' ∙ i,
      )

  echo_trials_works :
      (n k errors : ℕ) (rest : List ℕ) (w : W)
      → size ≤ k
      → input w ≡ pattern_bytes (n * size) ++ rest
      → (v : W) × (echo_trials net n calls fd size (pattern_bytes k) errors w
          ≡ some ((pattern_bytes k, errors), v))
        × (output v ≡ output w ++ pattern_bytes (n * size))
        × (input v ≡ rest)
  unfolding echo_trials
  echo_trials_works zero k errors rest w fits coming =
      let none_sent : 0 * size ≡ 0 = omega arith in
      (w, refl, rw none_sent (sym (append-nil (output w))), coming ∙ (rw none_sent refl))
  echo_trials_works (suc n) k errors rest w fits coming =
      let both = pattern_bytes_rounds size n in
      let first_coming : input w ≡ pattern_bytes size ++ (pattern_bytes (n * size) ++ rest) =
        coming
        ∙ ap (λ l. l ++ rest) (sym both)
        ∙ append_assoc (pattern_bytes size) (pattern_bytes (n * size)) rest in
      let (v, e, o, i) =
        echo_works k errors (pattern_bytes (n * size) ++ rest) w fits first_coming in
      let (u, f, o', i') = echo_trials_works n k errors rest v fits i in
      (
        u,
        chain_of_some (echo net calls fd size (pattern_bytes k) errors) _ w v
              (pattern_bytes k, errors) e
            ∙ f,
        o'
            ∙ (rw o (append_assoc (output w) (pattern_bytes size) (pattern_bytes (n * size))))
            ∙ ap (◌++◌ (output w)) both,
        i',
      )

  echo_packets_works :
      (rest : List ℕ) (w : W)
      → size ≤ buff_size
      → input w ≡ pattern_bytes (num_trials * size) ++ rest
      → (v : W) × (echo_packets net calls fd size w ≡ some (value 0, v))
        × (output v ≡ output w ++ pattern_bytes (num_trials * size))
        × (input v ≡ rest)
  unfolding echo_packets
  echo_packets_works rest w fits coming =
      let (v, e, o, i) = echo_trials_works num_trials buff_size 0 rest w fits coming in
      let echoes : Partial W (Outcome ℕ) =
        after (echo_trials net num_trials calls fd size (pattern_bytes buff_size) 0)
          (λ r. do _ ← net.close fd; pure (value r.1)) in
      let inside : echo_packets net calls fd size w ≡ echoes w =
        ap (λ b. if b then some (faulted, w) else echoes w) (le→ltb buff_size size fits) in
      (
        (net.close fd v).1,
        inside
            ∙ after_of_some (echo_trials net num_trials calls fd size (pattern_bytes buff_size) 0) _
                w v (pattern_bytes buff_size, 0) e,
        aside.close_output fd v ∙ o,
        aside.close_input fd v ∙ i,
      )

  -- The handshake and the echoes.
  pub answer_handshake_works :
      (rest : List ℕ) (w : W)
      → size ≤ buff_size
      → 4 < calls
      → input w ≡ encode32 size ++ (pattern_bytes (num_trials * size) ++ rest)
      → (v : W) × (answer_handshake net calls fd w ≡ some (value 0, v))
        × (output v ≡ output w ++ (encode32 size ++ pattern_bytes (num_trials * size)))
        × (input v ≡ rest)
  unfolding answer_handshake
  answer_handshake_works rest w fits wide coming =
      let (v, e, i, o) =
        read_full_works net.stream output input laws duplex flowing fd calls (encode32 size) _ w
          (unfold encode32 in omega arith) (unfold encode32 in wide)
          (unfold encode32 in omega arith) coming in
      let e' : read_full net.stream calls fd 4 w ≡ some ((pos 4, encode32 size), v) =
        unfold encode32 in e in
      let packet : overlay (encode32 size) (encode32 0) ≡ encode32 size =
        overlay-full (encode32 size) (encode32 0) (unfold encode32 in refl) in
      let (u, f, o', i') =
        write_full_works net.stream output input laws duplex flowing fd calls (encode32 size) v
          (unfold encode32 in wide) (unfold encode32 in omega arith) in
      let (x, g, o'', i'') = echo_packets_works rest u fits (i' ∙ i) in
      (
        x,
        chain_of_some (read_full net.stream calls fd 4) _ w v (pos 4, encode32 size) e'
            ∙ (rw (packet, decode32-encode32 size (omega arith))
                (chain_of_some (write_full net.stream calls fd (encode32 size)) _ v u
                    (pos (length (encode32 size))) f
                  ∙ g)),
        o'' ∙ (rw (o', o) (append_assoc (output w) (encode32 size) _)),
        i'',
      )
