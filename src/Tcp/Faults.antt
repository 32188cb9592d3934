-- ===== src/Tcp/Faults.antt =====
-- The server of HW1/part2/server.c leaves its buffer whatever happens.
use cs739_distributed_system.Base.{
  ℕ, ◌-◌, ◌<◌, ◌≡◌, refl, ap, inl, inr, some, List, [], ◌∷◌, ◌++◌, arith, if◌then◌else◌, lt→ltb,
  Option-cases, replicate, to_u32,
}
use cs739_distributed_system.PacketSize.{get_packet_size}
use cs739_distributed_system.Tcp.Net.{TcpNet, faulted, value, buff_size, set_cpu_core}
use cs739_distributed_system.Tcp.Server.{fill_buffer, serve, latency_main, part2_server_main}

-- A small array is left by `memset`.
fill_buffer-faulted : (size : ℕ) → size < buff_size → fill_buffer size ≡ faulted
unfolding fill_buffer
fill_buffer-faulted size h =
    let filled : List ℕ = replicate buff_size b'e' ++ replicate (size - buff_size) 0 in
    ap (λ b. if b then faulted else value filled) (lt→ltb size buff_size h)

module _ {W : Type 0} (net : TcpNet W) where
  -- A buffer that is too small is left before the first connection.
  serve-faulted :
      (size tries calls port packet_size : ℕ) (w : W)
      → size < buff_size
      → serve net size tries calls port packet_size w ≡ some (faulted, w)
  unfolding serve
  serve-faulted size tries calls port packet_size w h = rw (fill_buffer-faulted size h, serve) refl

  latency_main-faulted :
      (size tries calls : ℕ) (program port packet_size : List ℕ) (w : W)
      → size < buff_size
      → (w' : W) × (latency_main net size tries calls (program ∷ port ∷ packet_size ∷ []) w
          ≡ some (faulted, w'))
  unfolding latency_main
  latency_main-faulted size tries calls program port packet_size w h =
      elim (Option-cases (get_packet_size net.atoi packet_size)) [
        | inl e ↦ ((set_cpu_core net 0 2 w).1, rw e refl)
        | inr (r, e) ↦ (
          (set_cpu_core net 0 2 w).1,
          rw e (serve-faulted size tries calls (to_u32 (net.atoi port)) (to_u32 r.0) _ h),
        )
      ]

  -- Called with its two arguments, whatever they are, the server of HW1/part2/server.c writes
  -- behind the end of its local buffer, or reads before the beginning of an empty argument.
  pub part2_server_main-faulted :
      (tries calls : ℕ) (program port packet_size : List ℕ) (w : W)
      → (w' : W) × (part2_server_main net tries calls (program ∷ port ∷ packet_size ∷ []) w
          ≡ some (faulted, w'))
  unfolding part2_server_main
  part2_server_main-faulted tries calls program port packet_size w =
      latency_main-faulted 10000 tries calls program port packet_size w (omega arith)
