-- ===== src/Driver/Session/Writes.antt =====
-- `WriteData` of the server over a network that loses nothing.
use cs739_distributed_system.Base.{
  ℕ, zero, suc, ◌+◌, ◌*◌, ◌%◌, ◌^◌, ◌≤◌, ◌<◌, ◌≡◌, refl, sym, ap, subst, ◌∙◌, inl, inr, true, false,
  List, [], ◌∷◌, ◌++◌, append_assoc, append-nil, arith, ltb, le→ltb, Bool-cases, length, replicate,
  pos, to_u32, Yields, Yields-chain, Yields-after, Yields-mono,
}
use cs739_distributed_system.Clock.{billion, TimeSpec}
use cs739_distributed_system.Udp.Net.{SockAddr, is_ack}
use cs739_distributed_system.Udp.Bytes.{is_ack-encode32}
use cs739_distributed_system.Udp.Drop.{is_dropped, drop_packet, random_number, get_current_time}
use cs739_distributed_system.Udp.Retry.{
  Peer, Finish, acknowledged, continues, await, send_and_await, round, conclude, write_loop,
}
use cs739_distributed_system.Udp.Protocol.{Message}
use cs739_distributed_system.Udp.Joint.{head_or, tail, reader_addr}
use cs739_distributed_system.Udp.Server.{
  ServerSocket, server_peer, set_timeout, server_after_loop, server_write_connected,
  server_write_data,
}
use cs739_distributed_system.Driver.Plan.{Group, slice}
use cs739_distributed_system.Driver.Server.{write_times, timed_writes}
use cs739_distributed_system.Driver.Session.{reads, Outlet, one_nanosecond, outlet_net}

-- How many random numbers and times are still given.
abbrev pub pending : Outlet → ℕ
pending w = length w.numbers + length w.readings

-- From one state to another these messages were sent, and all of them were answered.
pub record Wrote (w v : Outlet) (ms : List Message) : Type 0 where
  pub sent_them : v.sent ≡ w.sent ++ ms
  pub answered : v.caller ≡ reads 0
  pub fewer : pending v ≤ pending w

pub Wrote-nothing : (w : Outlet) → w.caller ≡ reads 0 → Wrote w w []
Wrote-nothing w h = record {
  sent_them = sym (append-nil w.sent);
  answered = h;
  fewer = omega arith;
}

pub Wrote-both :
    (w u v : Outlet) (ms ns : List Message) → Wrote w u ms → Wrote u v ns → Wrote w v (ms ++ ns)
Wrote-both w u v ms ns h k = record {
  sent_them = k.sent_them ∙ ap (λ l. l ++ ns) h.sent_them ∙ append_assoc w.sent ms ns;
  answered = k.answered;
  fewer = omega (arith, h.fewer, k.fewer);
}

-- The server is connected and drops so many percent.
pub record Willing (percent : ℕ) (s : ServerSocket) : Type 0 where
  pub connected : s.accepted_connection ≡ true
  pub dropping : s.percent_drop ≡ pos percent

-- The nanoseconds of a reading, as the macro computes them.
abbrev pub time_of : TimeSpec → ℕ
time_of t = t.tv_sec * billion + t.tv_nsec

-- A packet is dropped only while numbers or times are given.
pub dropped-shorter :
    (percent : ℕ) (ns : List ℕ) (ts : List TimeSpec)
    → percent ≤ 99
    → is_dropped ((head_or 99 ns * time_of (head_or one_nanosecond ts)) % 2 ^ 32) (pos percent)
      ≡ true
    → length (tail ns) + length (tail ts) < length ns + length ts
unfolding is_dropped
dropped-shorter percent [] [] h dropped = absurd (
    let kept : ltb 99 (to_u32 (pos percent)) ≡ false =
      le→ltb 99 (to_u32 (pos percent)) (omega arith) in
    cc)
dropped-shorter percent [] (t ∷ ts) h dropped = omega arith
dropped-shorter percent (n ∷ ns) [] h dropped = omega arith
dropped-shorter percent (n ∷ ns) (t ∷ ts) h dropped = omega arith

-- The state after a drawing.
abbrev drawn : Outlet → Outlet
drawn w = record w { numbers = tail w.numbers; readings = tail w.readings }

-- The state after a packet was sent and its acknowledgement read.
abbrev delivered : Message → Outlet → Outlet
delivered m w = record w { sent = w.sent ++ m ∷ []; caller = reads 0 }

pub tail-shorter : {A : Type 0} (l : List A) → length (tail l) ≤ length l
tail-shorter [] = omega arith
tail-shorter (x ∷ xs) = omega arith

module _ (percent : ℕ) (few : percent ≤ 99) where
  drop_packet-drawn : (w : Outlet) → (drop_packet outlet_net (pos percent) w).1 ≡ drawn w
  unfolding drop_packet random_number get_current_time
  drop_packet-drawn w = refl

  drop_packet-shorter :
      (w : Outlet)
      → (drop_packet outlet_net (pos percent) w).0 ≡ true
      → pending (drawn w) < pending w
  unfolding drop_packet random_number get_current_time
  drop_packet-shorter w e = dropped-shorter percent w.numbers w.readings few e

  -- How a round ends: it was dropped, or the message was delivered.
  round-dropped :
      (p : Peer) (m : Message) (w : Outlet)
      → p.percent_drop ≡ pos percent
      → w.caller ≡ reads 0
      → (drop_packet outlet_net (pos percent) w).0 ≡ true
      → round outlet_net p m (pos 0) w ≡ (continues (pos 0) false p.addr, drawn w)
  unfolding round await drop_packet random_number get_current_time is_ack
  round-dropped p m w e none_waiting dropped = rw (e, dropped, none_waiting) refl

  round-delivered :
      (p : Peer) (m : Message) (w : Outlet)
      → p.percent_drop ≡ pos percent
      → w.caller ≡ reads 0
      → (drop_packet outlet_net (pos percent) w).0 ≡ false
      → round outlet_net p m (pos 0) w ≡ (continues (pos 0) true reader_addr, delivered m (drawn w))
  unfolding round await send_and_await drop_packet random_number get_current_time
  round-delivered p m w e none_waiting kept =
      rw (e, kept, none_waiting, is_ack-encode32 reader_addr) refl

  Wrote-drawn : (w : Outlet) → w.caller ≡ reads 0 → Wrote w (drawn w) []
  Wrote-drawn w h = record {
    sent_them = sym (append-nil w.sent);
    answered = h;
    fewer = omega (arith, tail-shorter w.numbers, tail-shorter w.readings);
  }

  Wrote-delivered : (m : Message) (w : Outlet) → Wrote w (delivered m (drawn w)) (m ∷ [])
  Wrote-delivered m w = record {
    sent_them = refl;
    answered = refl;
    fewer = omega (arith, tail-shorter w.numbers, tail-shorter w.readings);
  }

  -- The loop ended because of an acknowledgement, and the message was sent once.
  abbrev Delivered : Outlet → Message → Finish → Outlet → Type 0
  Delivered w m f v = ((a : SockAddr) × (f ≡ acknowledged (pos 0) a)) × Wrote w v (m ∷ [])

  write_loop-Delivered :
      (rounds : ℕ) (p : Peer) (m : Message) (w : Outlet)
      → p.percent_drop ≡ pos percent
      → w.caller ≡ reads 0
      → pending w < rounds
      → Yields (Delivered w m) (write_loop outlet_net rounds p m (pos 0) w)
  unfolding write_loop conclude
  write_loop-Delivered zero p m w e h enough = absurd (omega arith)
  write_loop-Delivered (suc rounds) p m w e h enough =
      elim (Bool-cases (drop_packet outlet_net (pos percent) w).0) [
        | inl dropped ↦
            let ended =
              write_loop-Delivered rounds p m (drawn w) e h
                (omega (arith, drop_packet-shorter w dropped)) in
            rw (round-dropped p m w e h dropped) (
              Yields-mono (Delivered w m) (write_loop outlet_net rounds p m (pos 0) (drawn w))
                (λ f v d. (d.0, Wrote-both w (drawn w) v [] (m ∷ []) (Wrote-drawn w h) d.1)) ended)
        | inr kept ↦ rw (round-delivered p m w e h kept) ((reader_addr, refl), Wrote-delivered m w)
      ]

  server_after_loop-Willing :
      (s : ServerSocket) (w v : Outlet) (m : Message) (f : Finish)
      → Willing percent s
      → Delivered w m f v
      → let r = server_after_loop outlet_net s f v in Willing percent r.0.1 × Wrote w r.1 (m ∷ [])
  unfolding server_after_loop set_timeout
  server_after_loop-Willing s w v m f h ((a, e), wrote) =
      rw e (record { connected = h.connected; dropping = h.dropping }, wrote)

  server_write_connected-Willing :
      (rounds : ℕ) (s : ServerSocket) (m : Message) (w : Outlet)
      → Willing percent s
      → w.caller ≡ reads 0
      → pending w < rounds
      → Yields
          (λ r v. Willing percent r.1 × Wrote w v (m ∷ []))
          (server_write_connected outlet_net rounds s m w)
  unfolding server_write_connected set_timeout
  server_write_connected-Willing rounds s m w h none_waiting enough =
      Yields-after (λ r v. Willing percent r.1 × Wrote w v (m ∷ []))
        (write_loop outlet_net rounds (server_peer s) m (pos 0)) (server_after_loop outlet_net s) w
        (write_loop-Delivered rounds (server_peer s) m w h.dropping none_waiting enough)
        (λ f v d. server_after_loop-Willing s w v m f h d)

  -- The call returns, and has sent its message once, which was answered.
  pub server_write_data-Wrote :
      (rounds : ℕ) (s : ServerSocket) (m : Message) (w : Outlet)
      → Willing percent s
      → w.caller ≡ reads 0
      → pending w < rounds
      → Yields
          (λ r v. Willing percent r.1 × Wrote w v (m ∷ []))
          (server_write_data outlet_net rounds s m w)
  unfolding server_write_data
  server_write_data-Wrote rounds s m w h none_waiting enough =
      let called = server_write_connected-Willing rounds s m w h none_waiting enough in
      let same : server_write_data outlet_net rounds s m w
          ≡ server_write_connected outlet_net rounds s m w =
        simp (h.connected) in
      subst (λ r. Yields (λ r v. Willing percent r.1 × Wrote w v (m ∷ [])) r) (sym same) called

  write_times-Wrote :
      (n rounds : ℕ) (s : ServerSocket) (m : Message) (w : Outlet)
      → Willing percent s
      → w.caller ≡ reads 0
      → pending w < rounds
      → Yields
          (λ s' v. Willing percent s' × Wrote w v (replicate n m))
          (write_times outlet_net rounds n s m w)
  unfolding write_times
  write_times-Wrote zero rounds s m w h none_waiting enough = (h, Wrote-nothing w none_waiting)
  write_times-Wrote (suc n) rounds s m w h none_waiting enough =
      Yields-chain (λ s' v. Willing percent s' × Wrote w v (replicate (suc n) m))
        (server_write_data outlet_net rounds s m) _ w
        (server_write_data-Wrote rounds s m w h none_waiting enough)
        (λ r u k.
          Yields-mono (λ s' v. Willing percent s' × Wrote w v (replicate (suc n) m))
            (write_times outlet_net rounds n r.1 m u)
            (λ s' v l. (l.0, Wrote-both w u v (m ∷ []) (replicate n m) k.1 l.1))
            (write_times-Wrote n rounds r.1 m u k.0 k.1.answered (omega (arith, k.1.fewer))))

  -- A loop of `WriteData` between two readings of the clock.
  pub timed_writes-Wrote :
      (rounds : ℕ) (g : Group) (s : ServerSocket) (buffer : List ℕ) (w : Outlet)
      → Willing percent s
      → w.caller ≡ reads 0
      → pending w < rounds
      → Yields
          (λ r v. Willing percent r.1 × Wrote w v (replicate g.count (slice g buffer)))
          (timed_writes outlet_net rounds g s buffer w)
  unfolding timed_writes
  timed_writes-Wrote rounds g s buffer w h none_waiting enough =
      let start : Outlet = record w { readings = tail w.readings } in
      Yields-chain (λ r v. Willing percent r.1 × Wrote w v (replicate g.count (slice g buffer)))
        (write_times outlet_net rounds g.count s (slice g buffer)) _ start
        (write_times-Wrote g.count rounds s (slice g buffer) start h none_waiting
          (omega (arith, tail-shorter w.readings)))
        (λ s' v k. (
          k.0,
          record {
            sent_them = k.1.sent_them;
            answered = k.1.answered;
            fewer = omega (arith, k.1.fewer, tail-shorter w.readings, tail-shorter v.readings);
          },
        ))
