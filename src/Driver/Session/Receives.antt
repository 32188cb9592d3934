-- ===== src/Driver/Session/Receives.antt =====
-- What HW1/part2/SocketClient.cpp reads of a network that loses nothing.
use cs739_distributed_system.Base.{
  ℕ, zero, suc, ◌≡◌, refl, sym, ap, subst, ◌∙◌, inl, inr, true, List, [], ◌∷◌, ◌++◌, append_assoc,
  append-nil, arith, Bool-cases, length, replicate, All, take_all, ℤ, pos,
}
use cs739_distributed_system.Udp.Net.{encode32, ack_word}
use cs739_distributed_system.Udp.Bytes.{overlay-full}
use cs739_distributed_system.Udp.Server.{is_bad_percentage}
use cs739_distributed_system.Udp.Client.{
  ClientSocket, client_set_drop_percentage, client_acknowledge, client_store, client_read_connected,
  client_read_data,
}
use cs739_distributed_system.Udp.Protocol.{Message}
use cs739_distributed_system.Udp.Joint.{writer_addr}
use cs739_distributed_system.Driver.Plan.{Group, Lossy, slice, store_slice}
use cs739_distributed_system.Driver.Client.{read_times, read_groups, read_lossy}
use cs739_distributed_system.Driver.Agreement.{IsInside, length-slice, length-store_slice}
use cs739_distributed_system.Driver.Session.{Inlet, inlet_net}
use cs739_distributed_system.Driver.Session.Sends.{sent_by, groups_of}

abbrev pub acks_for : List Message → List Message
acks_for [] = []
acks_for (m ∷ ms) = encode32 ack_word ∷ acks_for ms

acks_for-append : (ms ns : List Message) → acks_for (ms ++ ns) ≡ acks_for ms ++ acks_for ns
acks_for-append [] ns = refl
acks_for-append (m ∷ ms) ns = ap (◌∷◌ (encode32 ack_word)) (acks_for-append ms ns)

-- There are as many acknowledgements as datagrams.
pub acks_for-replicate :
    (ms : List Message) → acks_for ms ≡ replicate (length ms) (encode32 ack_word)
acks_for-replicate [] = refl
acks_for-replicate (m ∷ ms) = ap (◌∷◌ (encode32 ack_word)) (acks_for-replicate ms)

-- From one state to another these datagrams were read, each as a whole, and acknowledged; the rest
-- is still to come.
pub record Took (w v : Inlet) (ms rest : List Message) : Type 0 where
  pub remaining : v.incoming ≡ rest
  pub handed_them : v.handed ≡ w.handed ++ ms
  pub answered_them : v.sent ≡ w.sent ++ acks_for ms

pub Took-nothing : (w : Inlet) (rest : List Message) → w.incoming ≡ rest → Took w w [] rest
Took-nothing w rest h = record {
  remaining = h;
  handed_them = sym (append-nil w.handed);
  answered_them = sym (append-nil w.sent);
}

pub Took-both :
    (w u v : Inlet) (ms ns middle rest : List Message)
    → Took w u ms middle
    → Took u v ns rest
    → Took w v (ms ++ ns) rest
Took-both w u v ms ns middle rest h k = record {
  remaining = k.remaining;
  handed_them = k.handed_them ∙ ap (λ l. l ++ ns) h.handed_them ∙ append_assoc w.handed ms ns;
  answered_them =
      k.answered_them
      ∙ ap (λ l. l ++ acks_for ns) h.answered_them
      ∙ append_assoc w.sent (acks_for ms) (acks_for ns)
      ∙ ap (λ l. w.sent ++ l) (sym (acks_for-append ms ns));
}

-- The client has sent something.
abbrev pub Speaking : Inlet → Type 0
Speaking w = (first : Message) × (more : List Message) × (w.sent ≡ first ∷ more)

pub Took-Speaking :
    (w v : Inlet) (ms rest : List Message) → Speaking w → Took w v ms rest → Speaking v
Took-Speaking w v ms rest (first, more, e) t =
    (first, more ++ acks_for ms, t.answered_them ∙ ap (λ l. l ++ acks_for ms) e)

-- The state after a datagram was read.
abbrev taken : Message → List Message → Inlet → Inlet
taken m ms w = record {
  incoming = ms;
  handed = w.handed ++ m ∷ [];
  sent = w.sent ++ encode32 ack_word ∷ [];
  numbers = w.numbers;
  readings = w.readings;
}

-- A `ReadData` of the size of the datagram.
client_read_data-taken :
    (s : ClientSocket) (buff : List ℕ) (m : Message) (ms : List Message) (w : Inlet)
    → s.accepted_connection ≡ true
    → Speaking w
    → w.incoming ≡ m ∷ ms
    → length m ≡ length buff
    → client_read_data inlet_net s buff w
      ≡ ((pos (length m), record s { server_addr = writer_addr }, m), taken m ms w)
unfolding client_read_data client_read_connected client_store client_acknowledge
client_read_data-taken s buff m ms w connected (first, more, spoken) coming fits =
    simp
      (connected, spoken, coming, take_all (length buff) m (omega arith), overlay-full m buff fits)

-- The buffer after so many packets of one text were stored at a group.
unfoldable pub store_times : ℕ → Group → List ℕ → Message → List ℕ
store_times zero g buffer m = buffer
store_times (suc n) g buffer m = store_times n g (store_slice g buffer m) m

-- The buffer after the packets of the groups were stored, which come from another buffer.
unfoldable pub store_groups : List Group → List ℕ → List ℕ → List ℕ
store_groups [] source buffer = buffer
store_groups (g ∷ gs) source buffer =
    store_groups gs source (store_times g.count g buffer (slice g source))

-- The client is connected, and its buffer has this size.
abbrev Listening : ℕ → ClientSocket × List ℕ → Type 0
Listening size r = (r.0.accepted_connection ≡ true) × (length r.1 ≡ size)

read_times-Took :
    (n : ℕ) (g : Group) (s : ClientSocket) (buffer : List ℕ) (m : Message) (rest : List Message)
    (w : Inlet)
    → s.accepted_connection ≡ true
    → Speaking w
    → IsInside (length buffer) g
    → length m ≡ g.pkt_size
    → w.incoming ≡ replicate n m ++ rest
    → let r = read_times inlet_net n g s buffer w in
      Listening (length buffer) r.0
      × (r.0.1 ≡ store_times n g buffer m)
      × Took w r.1 (replicate n m) rest
unfolding read_times store_times
read_times-Took zero g s buffer m rest w connected speaking inside fits coming =
    ((connected, refl), refl, Took-nothing w rest coming)
read_times-Took (suc n) g s buffer m rest w connected speaking inside fits coming =
    let ms = replicate n m ++ rest in
    let whole : length m ≡ length (slice g buffer) = fits ∙ sym (length-slice g buffer inside) in
    let kept : length (store_slice g buffer m) ≡ length buffer =
      length-store_slice g buffer m inside fits in
    let first : Took w (taken m ms w) (m ∷ []) ms = record {
      remaining = refl;
      handed_them = refl;
      answered_them = refl;
    } in
    let (l, q, t) =
      read_times-Took n g (record s { server_addr = writer_addr }) (store_slice g buffer m) m rest
        (taken m ms w) connected (Took-Speaking w (taken m ms w) (m ∷ []) ms speaking first)
        (subst (λ n. IsInside n g) (sym kept) inside) fits refl in
    rw
      (client_read_data-taken s (slice g buffer) m ms w connected speaking coming whole, read_times)
      ((l.0, l.1 ∙ kept), q, Took-both w (taken m ms w) _ (m ∷ []) (replicate n m) ms rest first t)

-- A group whose packets come from one buffer and go into another of this size.
abbrev pub Carries : ℕ → List ℕ → Group → Type 0
Carries size source g = IsInside size g × (length (slice g source) ≡ g.pkt_size)

pub read_groups-Took :
    (gs : List Group) (size : ℕ) (source : List ℕ) (s : ClientSocket) (buffer : List ℕ)
    (rest : List Message) (w : Inlet)
    → All (Carries size source) gs
    → s.accepted_connection ≡ true
    → Speaking w
    → length buffer ≡ size
    → w.incoming ≡ sent_by gs source ++ rest
    → let r = read_groups inlet_net gs s buffer w in
      (r.0.0.accepted_connection ≡ true)
      × (r.0.1 ≡ store_groups gs source buffer)
      × Took w r.1 (sent_by gs source) rest
unfolding read_groups sent_by store_groups
read_groups-Took [] size source s buffer rest w all connected speaking sized coming =
    (connected, refl, Took-nothing w rest coming)
read_groups-Took (g ∷ gs) size source s buffer rest w ((inside, fits), all) connected speaking sized
      coming =
    let m = slice g source in
    let later = sent_by gs source ++ rest in
    let r = read_times inlet_net g.count g s buffer w in
    let (l, q, t) =
      read_times-Took g.count g s buffer m later w connected speaking
        (subst (λ n. IsInside n g) (sym sized) inside) fits
        (coming ∙ append_assoc (replicate g.count m) (sent_by gs source) rest) in
    let (c, p, u) =
      read_groups-Took gs size source r.0.0 r.0.1 rest r.1 all l.0
        (Took-Speaking w r.1 _ later speaking t) (l.1 ∙ sized) t.remaining in
    (
      c,
      p ∙ ap (store_groups gs source) q,
      Took-both w r.1 _ (replicate g.count m) (sent_by gs source) later rest t u,
    )

client_set_drop_percentage-kept :
    (s : ClientSocket) (percentage : ℤ) (w : Inlet)
    → let r = client_set_drop_percentage inlet_net s percentage w in
      (r.0.accepted_connection ≡ s.accepted_connection) × (r.1 ≡ w)
unfolding client_set_drop_percentage
client_set_drop_percentage-kept s percentage w = elim (Bool-cases (is_bad_percentage percentage)) [
  | inl e ↦ rw e (refl, refl)
  | inr e ↦ rw e (refl, refl)
]

pub read_lossy-Took :
    (ls : List Lossy) (size : ℕ) (source : List ℕ) (s : ClientSocket) (buffer : List ℕ)
    (rest : List Message) (w : Inlet)
    → All (λ l. Carries size source l.group) ls
    → s.accepted_connection ≡ true
    → Speaking w
    → length buffer ≡ size
    → w.incoming ≡ sent_by (groups_of ls) source ++ rest
    → let r = read_lossy inlet_net ls s buffer w in Took w r.1 (sent_by (groups_of ls) source) rest
unfolding read_lossy sent_by
read_lossy-Took [] size source s buffer rest w all connected speaking sized coming =
    Took-nothing w rest coming
read_lossy-Took (l ∷ ls) size source s buffer rest w ((inside, fits), all) connected speaking sized
      coming =
    let g = l.group in
    let m = slice g source in
    let later = sent_by (groups_of ls) source ++ rest in
    let p = client_set_drop_percentage inlet_net s (pos l.drop_percent) w in
    let (kept, same) = client_set_drop_percentage-kept s (pos l.drop_percent) w in
    let r = read_times inlet_net g.count g p.0 buffer p.1 in
    let (h, q, t) =
      read_times-Took g.count g p.0 buffer m later p.1 (kept ∙ connected)
        (subst Speaking (sym same) speaking) (subst (λ n. IsInside n g) (sym sized) inside) fits
        (ap (λ v. v.incoming) same
          ∙ coming
          ∙ append_assoc (replicate g.count m) (sent_by (groups_of ls) source) rest) in
    let t' = subst (λ v. Took v r.1 (replicate g.count m) later) same t in
    let u =
      read_lossy-Took ls size source r.0.0 r.0.1 rest r.1 all h.0
        (Took-Speaking w r.1 _ later speaking t') (h.1 ∙ sized) t'.remaining in
    Took-both w r.1 _ (replicate g.count m) (sent_by (groups_of ls) source) later rest t' u
