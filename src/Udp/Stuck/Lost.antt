-- ===== src/Udp/Stuck/Lost.antt =====
-- Without an acknowledgement in flight neither loop ends.
use cs739_distributed_system.Base.{
  ℕ, ◌≡◌, inl, inr, Option, none, some, List, [], ◌∷◌, ◌++◌, Bool-cases, Option-cases, All, ℤ,
}
use cs739_distributed_system.Udp.Net.{SockAddr, is_ack}
use cs739_distributed_system.Udp.Drop.{drop_packet, random_number, get_current_time}
use cs739_distributed_system.Udp.Retry.{Peer, await}
use cs739_distributed_system.Udp.Protocol.{Message}
use cs739_distributed_system.Udp.Protocol.Delivery.{Picks-All}
use cs739_distributed_system.Udp.Joint.{take_at, reader_addr, writer_addr}
use cs739_distributed_system.Udp.Joint.Wiring.{take_at-Picks}
use cs739_distributed_system.Udp.Stuck.{
  halted, goes_on, Loop, at_head, listening, over, settle, first_half, second_half, advance,
}
use cs739_distributed_system.Udp.Stuck.Wire.{
  Wire, flip, Luck, fetch, arrive, wire_net, Pair, Event, server_moves, client_moves, lose_incoming,
  lose_outgoing, without, happen, happens, NoAck, IsRunning, IsQuiet,
}

All-snoc : (ms : List Message) (m : Message) → All NoAck ms → NoAck m → All NoAck (ms ++ m ∷ [])
All-snoc [] m h k = (k, tt)
All-snoc (x ∷ xs) m h k = (h.0, All-snoc xs m h.1 k)

flip-IsQuiet : (w : Wire) → IsQuiet w → IsQuiet (flip w)
flip-IsQuiet w h = record { none_incoming = h.none_outgoing; none_outgoing = h.none_incoming }

without-NoAck : (k : ℕ) (ms : List Message) → All NoAck ms → All NoAck (without k ms)
unfolding without
without-NoAck k ms h = elim (Option-cases (take_at k ms)) [
  | inl e ↦ rw (e, All) h
  | inr ((m, rest), e) ↦ rw (e, All) (Picks-All NoAck (take_at-Picks k ms m rest e) h).1
]

fetch-NoAck :
    (place : Option ℕ) (ms : List Message) (m : Message) (rest : List Message)
    → All NoAck ms
    → fetch place ms ≡ some (m, rest)
    → NoAck m × All NoAck rest
unfolding fetch
fetch-NoAck none ms m rest h e = absurd (cc)
fetch-NoAck (some k) ms m rest h e = Picks-All NoAck (take_at-Picks k ms m rest e) h

module _ (other : SockAddr) (luck : Luck) where
  -- A `recvfrom` brings no acknowledgement.
  await-IsRunning :
      (p : Peer) (ret : ℤ) (w : Wire)
      → IsQuiet w
      → let r = await (wire_net other luck) p ret w in IsRunning (settle p r.0) × IsQuiet r.1
  unfolding await settle arrive is_ack
  await-IsRunning p ret w h = elim (Option-cases (fetch luck.place w.incoming)) [
    | inl e ↦ rw e (tt, h)
    | inr ((m, rest), e) ↦
        let (harmless, left) = fetch-NoAck luck.place w.incoming m rest h.none_incoming e in
        rw (e, harmless) (tt, record { none_incoming = left; none_outgoing = h.none_outgoing })
  ]

  first_half-IsRunning :
      (p : Peer) (m : Message) (ret : ℤ) (w : Wire)
      → NoAck m
      → IsQuiet w
      → let r = first_half (wire_net other luck) p m ret w in
        IsRunning (listening p r.0) × IsQuiet r.1
  unfolding first_half drop_packet random_number get_current_time
  first_half-IsRunning p m ret w harmless h =
      elim (Bool-cases (drop_packet (wire_net other luck) p.percent_drop w).0) [
        | inl e ↦ rw e (tt, h)
        | inr e ↦ rw e (
          tt,
          record {
            none_incoming = h.none_incoming;
            none_outgoing = All-snoc w.outgoing m h.none_outgoing harmless;
          },
        )
      ]

  advance-IsRunning :
      (m : Message) (l : Loop) (w : Wire)
      → NoAck m
      → IsRunning l
      → IsQuiet w
      → let r = advance (wire_net other luck) m l w in IsRunning r.0 × IsQuiet r.1
  unfolding advance second_half
  advance-IsRunning m (at_head p ret) w harmless running h =
      first_half-IsRunning p m ret w harmless h
  advance-IsRunning m (listening p (goes_on ret)) w harmless running h = await-IsRunning p ret w h
  advance-IsRunning m (listening p (halted v)) w harmless running h = absurd running
  advance-IsRunning m (over f) w harmless running h = absurd running

-- Both loops go on, and no acknowledgement is in flight.
pub record IsStuck (s : Pair) : Type 0 where
  pub server_runs : IsRunning s.server
  pub client_runs : IsRunning s.client
  pub quiet : IsQuiet s.wire

module _ (packet handshake : Message) (no_packet : NoAck packet)
    (no_handshake : NoAck handshake) where
  happen-IsStuck : (e : Event) (s : Pair) → IsStuck s → IsStuck (happen packet handshake e s)
  unfolding happen
  happen-IsStuck (server_moves luck) s h =
      let (runs, quiet) =
        advance-IsRunning reader_addr luck packet s.server s.wire no_packet h.server_runs h.quiet in
      record { server_runs = runs; client_runs = h.client_runs; quiet = quiet }
  happen-IsStuck (client_moves luck) s h =
      let (runs, quiet) =
        advance-IsRunning writer_addr luck handshake s.client (flip s.wire) no_handshake
          h.client_runs (flip-IsQuiet s.wire h.quiet) in
      record { server_runs = h.server_runs; client_runs = runs; quiet = flip-IsQuiet _ quiet }
  happen-IsStuck (lose_incoming k) s h = record {
    server_runs = h.server_runs;
    client_runs = h.client_runs;
    quiet = record {
      none_incoming = without-NoAck k s.wire.incoming h.quiet.none_incoming;
      none_outgoing = h.quiet.none_outgoing;
    };
  }
  happen-IsStuck (lose_outgoing k) s h = record {
    server_runs = h.server_runs;
    client_runs = h.client_runs;
    quiet = record {
      none_incoming = h.quiet.none_incoming;
      none_outgoing = without-NoAck k s.wire.outgoing h.quiet.none_outgoing;
    };
  }

  -- When both are in `WriteData` and no acknowledgement is in flight, no order of events lets
  -- either of them return.
  pub happens-IsStuck :
      (es : List Event) (s : Pair) → IsStuck s → IsStuck (happens packet handshake es s)
  unfolding happens
  happens-IsStuck [] s h = h
  happens-IsStuck (e ∷ es) s h =
      happens-IsStuck es (happen packet handshake e s) (happen-IsStuck e s h)
