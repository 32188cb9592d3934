-- ===== src/Tcp/Echo.antt =====
-- The client of HW1/part1/client_server/SocketClient.c echoes.
use cs739_distributed_system.Base.{
  ℕ, ◌+◌, ◌≤◌, ◌<◌, ◌≡◌, refl, sym, ap, subst, ◌∙◌, ◌⊎◌, inl, inr, false, some, List, [], ◌∷◌, ◌++◌,
  append_assoc, arith, length, take, drop, length-append, take_all, ℤ, pos, negsuc, is_neg, ◌>>=◌,
  pure, finish, some-injective,
}
use cs739_distributed_system.Transfer.{write_full, read_full}
use cs739_distributed_system.Transfer.Laws.{StreamLaws, write_full-Wrote}
use cs739_distributed_system.Transfer.Reading.{read_full-Gathered}
use cs739_distributed_system.Transfer.Duplex.{DuplexLaws, write_full-keeps, read_full-keeps}
use cs739_distributed_system.Udp.Net.{overlay}
use cs739_distributed_system.Tcp.Net.{TcpNet}
use cs739_distributed_system.Tcp.Client.{told}

take-append_self : (xs ys : List ℕ) → take (length xs) (xs ++ ys) ≡ xs
take-append_self [] ys = refl
take-append_self (x ∷ xs) ys = ap (◌∷◌ x) (take-append_self xs ys)

take-overlay :
    (bytes buffer : List ℕ)
    → length bytes ≤ length buffer
    → take (length bytes) (overlay bytes buffer) ≡ bytes
unfolding overlay
take-overlay bytes buffer h =
    rw (take_all (length buffer) bytes h) (take-append_self bytes (drop (length bytes) buffer))

module _ {W : Type 0} (net : TcpNet W) where
  -- Whether a message was printed.
  told-cases :
      (ret : ℤ) (errors : ℕ) (w : W)
      → ((told net ret errors w).0 ≡ errors + 1)
        ⊎ ((is_neg ret ≡ false) × (told net ret errors w ≡ (errors, w)))
  unfolding told
  told-cases (pos n) errors w = inr (refl, refl)
  told-cases (negsuc n) errors w = inl refl

-- What an echo comes to: it printed a message, or it stored bytes of the number and wrote back the
-- same bytes.
pub record Echoed {W : Type 0} (output input : W → List ℕ) (size : ℕ) (w w' : W) : Type 0 where
  pub bytes : List ℕ
  pub counted : length bytes ≡ size
  pub consumed : input w ≡ bytes ++ input w'
  pub produced : output w' ≡ output w ++ bytes

pub Echoed-append :
    {W : Type 0} {output input : W → List ℕ} {k n : ℕ} {w v w' : W}
    → Echoed output input k w v
    → Echoed output input n v w'
    → Echoed output input (k + n) w w'
Echoed-append {W} {output} {input} {w = w} {w' = w'} a b = record {
  bytes = a.bytes ++ b.bytes;
  counted = omega (arith, a.counted, b.counted, length-append a.bytes b.bytes);
  consumed = a.consumed ∙ (rw b.consumed (sym (append_assoc a.bytes b.bytes (input w'))));
  produced = b.produced ∙ (rw a.produced (append_assoc (output w) a.bytes b.bytes));
}

module _ {W : Type 0} (net : TcpNet W) (output input : W → List ℕ)
    (laws : StreamLaws net.stream output input) (duplex : DuplexLaws net.stream output input)
    (fd : ℤ) where
  -- The two transfers of a round, if neither failed.
  transfers-Echoed :
      (calls size : ℕ) (buffer bytes : List ℕ) (w v w' : W) (n k : ℕ)
      → size ≤ length buffer
      → read_full net.stream calls fd size w ≡ some ((pos n, bytes), v)
      → write_full net.stream calls fd (take size (overlay bytes buffer)) v ≡ some (pos k, w')
      → Echoed output input size w w'
  transfers-Echoed calls size buffer bytes w v w' n k fits got wrote =
      let g =
        read_full-Gathered net.stream output input laws fd calls size w ((pos n, bytes), v) got in
      let out = write_full-Wrote net.stream output input laws fd calls _ v (pos k, w') wrote in
      let kept = read_full-keeps net.stream output input duplex fd calls size w _ got in
      let same = write_full-keeps net.stream output input duplex fd calls _ v _ wrote in
      let stored : g.taken ≡ bytes = sym g.stored in
      let counted : length bytes ≡ size = ap length (sym stored) ∙ g.judged.1 in
      let all_taken : take size (overlay bytes buffer) ≡ bytes =
        subst (λ m. take m (overlay bytes buffer) ≡ bytes) counted
          (take-overlay bytes buffer (omega (arith, counted))) in
      record {
        bytes = bytes;
        counted = counted;
        consumed = g.consumed ∙ ap (λ l. l ++ input v) stored ∙ ap (◌++◌ bytes) (sym same);
        produced = out.1 ∙ (rw (kept, all_taken) refl);
      }

  -- The second half of a round.
  pub echo_write-Echoed :
      (calls size errors : ℕ) (buffer bytes : List ℕ) (w v v' : W) (ret : ℤ) (r : (List ℕ × ℕ) × W)
      → size ≤ length buffer
      → is_neg ret ≡ false
      → read_full net.stream calls fd size w ≡ some ((ret, bytes), v)
      → (z : ℤ) → write_full net.stream calls fd (take size (overlay bytes buffer)) v ≡ some (z, v')
      → finish (do errors ← told net z errors; pure (overlay bytes buffer, errors)) v' ≡ some r
      → (errors < r.0.1) ⊎ ((r.0.1 ≡ errors) × Echoed output input size w r.1)
  unfolding told
  echo_write-Echoed calls size errors buffer bytes w v v' (negsuc n) r fits good got z wrote h = cc
  echo_write-Echoed calls size errors buffer bytes w v v' (pos n) r fits good got (negsuc k) wrote
        h =
      inl (subst (λ p. errors < p.0.1) (some-injective _ _ h) (omega arith))
  echo_write-Echoed calls size errors buffer bytes w v v' (pos n) r fits good got (pos k) wrote h =
      inr (
        subst (λ p. (p.0.1 ≡ errors) × Echoed output input size w p.1) (some-injective _ _ h)
          (refl, transfers-Echoed calls size buffer bytes w v v' n k fits got wrote))
