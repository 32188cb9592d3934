-- ===== src/Tcp/EchoLoop.antt =====
-- The latency loop of HW1/part1/client_server/SocketClient.c echoes every packet.
use cs739_distributed_system.Base.{
  ℕ, zero, suc, ◌+◌, ◌*◌, ◌≤◌, ◌<◌, ◌≡◌, refl, sym, ap, subst, ◌∙◌, ◌⊎◌, inl, inr, some, List, [],
  append-nil, arith, length, take, ℤ, pos, negsuc, Partial, ◌>>=◌, pure, finish, chain-eq-some,
  some-injective, chain,
}
use cs739_distributed_system.Transfer.{write_full, read_full}
use cs739_distributed_system.Transfer.Laws.{StreamLaws}
use cs739_distributed_system.Udp.Net.{overlay}
use cs739_distributed_system.Udp.Bytes.{length-overlay}
use cs739_distributed_system.Tcp.Net.{TcpNet}
use cs739_distributed_system.Tcp.Client.{told, echo, echo_trials}
use cs739_distributed_system.Transfer.Duplex.{DuplexLaws}
use cs739_distributed_system.Tcp.Echo.{Echoed, Echoed-append, echo_write-Echoed}

module _ {W : Type 0} (net : TcpNet W) (output input : W → List ℕ)
    (laws : StreamLaws net.stream output input) (duplex : DuplexLaws net.stream output input)
    (fd : ℤ) where
  -- A round that printed a message, or echoed.
  abbrev Round : ℕ → ℕ → List ℕ → W → (List ℕ × ℕ) × W → Type 0
  Round size errors buffer w r =
      (length r.0.0 ≡ length buffer)
      × ((errors < r.0.1) ⊎ ((r.0.1 ≡ errors) × Echoed output input size w r.1))

  -- The end of a round: the buffer, and at least as many messages.
  finish_le :
      (z : ℤ) (base : ℕ) (stored : List ℕ) (v : W) (r : (List ℕ × ℕ) × W)
      → finish (do errors ← told net z base; pure (stored, errors)) v ≡ some r
      → (r.0.0 ≡ stored) × (base ≤ r.0.1)
  unfolding told
  finish_le (pos n) base stored v r h =
      subst (λ p. (p.0.0 ≡ stored) × (base ≤ p.0.1)) (some-injective _ _ h) (refl, omega arith)
  finish_le (negsuc n) base stored v r h =
      subst (λ p. (p.0.0 ≡ stored) × (base ≤ p.0.1)) (some-injective _ _ h) (refl, omega arith)

  -- A round after `read_full` returned.
  abbrev write_back : ℕ → ℕ → List ℕ → ℕ → ℤ × List ℕ → Partial W (List ℕ × ℕ)
  write_back calls size buffer errors r = do
    errors ← told net r.0 errors
    chain (write_full net.stream calls fd (take size (overlay r.1 buffer)))
        (λ ret. do errors ← told net ret errors; finish (pure (overlay r.1 buffer, errors)))

  write_back-Round :
      (calls size errors : ℕ) (buffer bytes : List ℕ) (w v : W) (ret : ℤ) (r : (List ℕ × ℕ) × W)
      → size ≤ length buffer
      → read_full net.stream calls fd size w ≡ some ((ret, bytes), v)
      → write_back calls size buffer errors (ret, bytes) v ≡ some r
      → Round size errors buffer w r
  unfolding told
  write_back-Round calls size errors buffer bytes w v (negsuc n) r fits got h =
      let (z, v', wrote, h2) =
        chain-eq-some (write_full net.stream calls fd (take size (overlay bytes buffer))) _ _ r.0
          r.1 h in
      let ends = finish_le z (errors + 1) (overlay bytes buffer) v' r h2 in
      (ap length ends.0 ∙ length-overlay bytes buffer, inl (omega (arith, ends.1)))
  write_back-Round calls size errors buffer bytes w v (pos n) r fits got h =
      let (z, v', wrote, h2) =
        chain-eq-some (write_full net.stream calls fd (take size (overlay bytes buffer))) _ _ r.0
          r.1 h in
      let ends = finish_le z errors (overlay bytes buffer) v' r h2 in
      (
        ap length ends.0 ∙ length-overlay bytes buffer,
        echo_write-Echoed net output input laws duplex fd calls size errors buffer bytes w v v'
            (pos n) r fits refl got z wrote h2,
      )

  echo-Round :
      (calls size errors : ℕ) (buffer : List ℕ) (w : W) (r : (List ℕ × ℕ) × W)
      → size ≤ length buffer
      → echo net calls fd size buffer errors w ≡ some r
      → Round size errors buffer w r
  unfolding echo
  echo-Round calls size errors buffer w r fits h =
      let ((ret, bytes), v, got, h1) =
        chain-eq-some (read_full net.stream calls fd size) _ w r.0 r.1 h in
      write_back-Round calls size errors buffer bytes w v ret r fits got h1

  echo_trials_le :
      (n calls size errors : ℕ) (buffer : List ℕ) (w : W) (r : (List ℕ × ℕ) × W)
      → size ≤ length buffer
      → echo_trials net n calls fd size buffer errors w ≡ some r
      → errors ≤ r.0.1
  unfolding echo_trials
  echo_trials_le zero calls size errors buffer w r fits h =
      subst (λ p. errors ≤ p.0.1) (some-injective _ _ h) (omega arith)
  echo_trials_le (suc n) calls size errors buffer w r fits h =
      let (a, v, first, rest) =
        chain-eq-some (echo net calls fd size buffer errors) _ w r.0 r.1 h in
      let one = echo-Round calls size errors buffer w (a, v) fits first in
      let more = echo_trials_le n calls size a.1 a.0 v r (omega (arith, one.0)) rest in
      elim one.1 [ inl lt ↦ omega arith | inr (e, echoed) ↦ omega arith ]

  -- If the latency loop of the client returns and has printed no message about a failed call, it
  -- has read exactly as many bytes as its packets have, the next ones of the stream, and has
  -- written back the same bytes in the same order, and nothing else.
  pub echo_trials-Echoed :
      (n calls size errors : ℕ) (buffer : List ℕ) (w : W) (r : (List ℕ × ℕ) × W)
      → size ≤ length buffer
      → echo_trials net n calls fd size buffer errors w ≡ some r
      → r.0.1 ≡ errors
      → Echoed output input (n * size) w r.1
  unfolding echo_trials
  echo_trials-Echoed zero calls size errors buffer w r fits h quiet =
      subst (λ p. Echoed output input (0 * size) w p.1) (some-injective _ _ h)
        (record {
          bytes = [];
          counted = omega arith;
          consumed = refl;
          produced = sym (append-nil (output w));
        })
  echo_trials-Echoed (suc n) calls size errors buffer w r fits h quiet =
      let (a, v, first, rest) =
        chain-eq-some (echo net calls fd size buffer errors) _ w r.0 r.1 h in
      let one = echo-Round calls size errors buffer w (a, v) fits first in
      let more = echo_trials_le n calls size a.1 a.0 v r (omega (arith, one.0)) rest in
      elim one.1 [
        | inl lt ↦ absurd (omega arith)
        | inr (e, echoed) ↦
            let tail =
              echo_trials-Echoed n calls size a.1 a.0 v r (omega (arith, one.0)) rest
                (omega arith) in
            let total : size + n * size ≡ suc n * size = omega arith in
            subst (λ k. Echoed output input k w r.1) total (Echoed-append echoed tail)
      ]
