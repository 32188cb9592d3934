-- ===== src/Udp/Joint.antt =====
-- A `ServerSocket` that calls `WriteData` and a `ClientSocket` that calls `ReadData`, both of
-- HW1/part2/Socket.h, over one network: the code of the two classes on systems whose `sendto` and
-- `recvfrom` meet. What the network and the reader do while the writer waits is written down
-- beforehand, as a plan, so that a statement about all plans is one about all orders of events.
pub mod Wiring
pub mod Refines
pub mod Rounds
pub mod Delivers
pub mod Arrives
mod Tests
use cs739_distributed_system.Base.{
  ℕ, zero, suc, ◌+◌, ◌-◌, ◌*◌, ◌/◌, ◌%◌, ◌^◌, ◌≤◌, ◌<◌, min, max, ◌≡◌, refl, sym, ap, subst, ◌∙◌,
  ◌≢◌, ◌↔◌, ◌⊎◌, inl, inr, Bool, true, false, not, ◌&&◌, ◌||◌, Option, none, some, List, [], ◌∷◌,
  ◌++◌, map, append_assoc, append-nil, arith, dec_lt, ℕ_discrete, ltb, leb, ◌==◌, if◌then◌else◌,
  ltb→lt, lt→ltb, le→ltb, Bool-cases, Option-cases, length, take, drop, replicate, All,
  length-append, take-append-drop, length-take, length-drop, length-replicate, take_all, take-add,
  All-mono, ℤ, pos, negsuc, minus_one, is_neg, of_bool, to_u32, IsInt, to_u32-lt, State, Partial,
  ◌>>=◌, ◌>>◌, pure, finish, after, after-eq-some, chain-eq-some, chain_of_some, after_of_some,
  some-injective, chain,
}
use cs739_distributed_system.Clock.{TimeSpec}
use cs739_distributed_system.Udp.Net.{SockAddr, zero_addr, Net, Received, failed, received}
use cs739_distributed_system.Udp.Client.{ClientSocket, client_read_data}
use cs739_distributed_system.Udp.Protocol.{Message}

-- What may happen while the writer waits, with the place of a datagram in flight.
pub data Choice : Type 0 where
  -- the reader's `ReadData` gets the datagram, and its acknowledgement can be sent, or cannot
  deliver : ℕ → Choice
  deliver_only : ℕ → Choice
  -- the network loses the datagram, or an acknowledgement
  drop_data : ℕ → Choice
  drop_ack : Choice

-- What happens in a `recvfrom` of the writer, and whether an acknowledgement that is there arrives
-- in time.
pub record Wait : Type 0 where
  pub choices : List Choice
  pub timely : Bool

pub record Joint : Type 0 where
  pub data_in_flight : List Message
  pub acks_in_flight : List Message
  pub reader : ClientSocket
  -- the reader's buffer, and what its calls of `ReadData` left there, the newest first
  pub buffer : List ℕ
  pub delivered : List Message
  -- the plan: the waits to come, whether the next calls of `sendto` succeed, and what `rand` and
  -- the clock return
  pub waits : List Wait
  pub sends : List Bool
  pub numbers : List ℕ
  pub readings : List TimeSpec

module _ {A : Type 0} where
  -- The first element, or what stands in for it.
  abbrev pub head_or : A → List A → A
  head_or a [] = a
  head_or a (x ∷ xs) = x

  abbrev pub tail : List A → List A
  tail [] = []
  tail (x ∷ xs) = xs

  -- An element taken out of a list.
  unfoldable pub take_at : ℕ → List A → Option (A × List A)
  take_at k [] = none
  take_at zero (x ∷ xs) = some (x, xs)
  take_at (suc k) (x ∷ xs) = elim (take_at k xs) [ none ↦ none | some (y, ys) ↦ some (y, x ∷ ys) ]

-- What one `ReadData` sees of the network: the datagram that comes, whether a `sendto` succeeds,
-- and what was sent.
pub record Link : Type 0 where
  pub incoming : Option Message
  pub up : Bool
  pub outgoing : List Message

abbrev pub writer_addr : SockAddr
writer_addr = record { sin_family = 2; sin_port = 7000; sin_addr = 1 }

abbrev pub reader_addr : SockAddr
reader_addr = record { sin_family = 2; sin_port = 7001; sin_addr = 2 }

abbrev pub link_recvfrom : Option Message → Link → Received × Link
link_recvfrom none l = (failed, l)
link_recvfrom (some m) l = (received m writer_addr, record l { incoming = none })

-- The calls that the two methods do not make do nothing.
abbrev pub link_net : Net Link
link_net = record {
  socket = λ domain kind protocol l. (minus_one, l);
  setsockopt = λ fd option l. (pos 0, l);
  bind = λ fd addr l. (minus_one, l);
  sendto = λ fd bytes addr l.
      if l.up
      then (pos (length bytes), record l { outgoing = bytes ∷ l.outgoing })
      else (minus_one, l);
  recvfrom = λ fd size l. link_recvfrom l.incoming l;
  close = λ fd l. (pos 0, l);
  rand = λ l. (0, l);
  clock_gettime = λ l. (record { tv_sec = 0; tv_nsec = 0 }, l);
  gethostbyname = λ name l. (none, l);
  inet_aton = λ text. none;
  inet_ntoa = λ address. "";
  htons = λ n. n;
  htonl = λ n. n;
  cerr = λ message l. (tt, l);
}

-- The reader calls `ReadData`, and this datagram comes.
unfoldable pub read_once : Bool → Message → Joint → Joint
read_once up m j =
    let r =
      client_read_data link_net j.reader j.buffer
        (record { incoming = some m; up = up; outgoing = [] }) in
    record j {
      reader = r.0.1;
      buffer = r.0.2;
      delivered = r.0.2 ∷ j.delivered;
      acks_in_flight = r.1.outgoing ++ j.acks_in_flight;
    }

-- A choice that names no datagram in flight does nothing.
unfoldable pub act : Choice → Joint → Joint
act (deliver k) j = elim (take_at k j.data_in_flight) [
  | none ↦ j
  | some (m, rest) ↦ read_once true m (record j { data_in_flight = rest })
]
act (deliver_only k) j = elim (take_at k j.data_in_flight) [
  | none ↦ j
  | some (m, rest) ↦ read_once false m (record j { data_in_flight = rest })
]
act (drop_data k) j = elim (take_at k j.data_in_flight) [
  | none ↦ j
  | some (m, rest) ↦ record j { data_in_flight = rest }
]
act drop_ack j = record j { acks_in_flight = tail j.acks_in_flight }

unfoldable pub acts : List Choice → Joint → Joint
acts [] j = j
acts (c ∷ cs) j = acts cs (act c j)

-- The writer's `recvfrom` once all that was to happen has happened.
unfoldable pub answer : Bool → List Message → Joint → Received × Joint
answer false acks j = (failed, j)
answer true [] j = (failed, j)
answer true (a ∷ acks) j = (received a reader_addr, record j { acks_in_flight = acks })

-- The writer's `recvfrom`.
unfoldable pub joint_recvfrom : Joint → Received × Joint
joint_recvfrom j =
    let wait = head_or (record { choices = []; timely = false }) j.waits in
    let j' = acts wait.choices (record j { waits = tail j.waits }) in
    answer wait.timely j'.acks_in_flight j'

-- The writer's `sendto`, which succeeds or fails.
unfoldable pub joint_sendto : Bool → Message → Joint → ℤ × Joint
joint_sendto true bytes j = (
  pos (length bytes),
  record j { data_in_flight = bytes ∷ j.data_in_flight; sends = tail j.sends },
)
joint_sendto false bytes j = (minus_one, record j { sends = tail j.sends })

-- The writer's system.
abbrev pub joint_net : Net Joint
joint_net = record {
  socket = λ domain kind protocol j. (minus_one, j);
  setsockopt = λ fd option j. (pos 0, j);
  bind = λ fd addr j. (minus_one, j);
  sendto = λ fd bytes addr j. joint_sendto (head_or true j.sends) bytes j;
  recvfrom = λ fd size j. joint_recvfrom j;
  close = λ fd j. (pos 0, j);
  rand = λ j. (head_or 0 j.numbers, record j { numbers = tail j.numbers });
  clock_gettime = λ j. (
    head_or (record { tv_sec = 0; tv_nsec = 0 }) j.readings,
    record j { readings = tail j.readings },
  );
  gethostbyname = λ name j. (none, j);
  inet_aton = λ text. none;
  inet_ntoa = λ address. "";
  htons = λ n. n;
  htonl = λ n. n;
  cerr = λ message j. (tt, j);
}
