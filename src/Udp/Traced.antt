-- ===== src/Udp/Traced.antt =====
-- Any system, with a log of the socket calls that the two classes make: the newest call first.
use cs739_distributed_system.Base.{ℕ, List, ◌∷◌, ℤ}
use cs739_distributed_system.Udp.Net.{SockAddr, SockOpt, Received, Net}

pub data Event : Type 0 where
  opened : ℤ → Event
  set_option : ℤ → SockOpt → ℤ → Event
  bound : ℤ → SockAddr → ℤ → Event
  sent : ℤ → List ℕ → SockAddr → ℤ → Event
  got : ℤ → ℕ → Received → Event
  closed : ℤ → Event

abbrev pub Logged : Type 0 → Type 0
Logged W = W × List Event

-- `gethostbyname`, the messages and the sources of randomness are not logged.
abbrev pub traced : {W : Type 0} → Net W → Net (Logged W)
traced net = record {
  socket = λ domain kind protocol (w, log).
      let r = net.socket domain kind protocol w in (r.0, (r.1, opened r.0 ∷ log));
  setsockopt = λ fd option (w, log).
      let r = net.setsockopt fd option w in (r.0, (r.1, set_option fd option r.0 ∷ log));
  bind = λ fd addr (w, log). let r = net.bind fd addr w in (r.0, (r.1, bound fd addr r.0 ∷ log));
  sendto = λ fd bytes addr (w, log).
      let r = net.sendto fd bytes addr w in (r.0, (r.1, sent fd bytes addr r.0 ∷ log));
  recvfrom =
      λ fd size (w, log). let r = net.recvfrom fd size w in (r.0, (r.1, got fd size r.0 ∷ log));
  close = λ fd (w, log). let r = net.close fd w in (r.0, (r.1, closed fd ∷ log));
  rand = λ (w, log). let r = net.rand w in (r.0, (r.1, log));
  clock_gettime = λ (w, log). let r = net.clock_gettime w in (r.0, (r.1, log));
  gethostbyname = λ name (w, log). let r = net.gethostbyname name w in (r.0, (r.1, log));
  inet_aton = net.inet_aton;
  inet_ntoa = net.inet_ntoa;
  htons = net.htons;
  htonl = net.htonl;
  cerr = λ message (w, log). let r = net.cerr message w in (r.0, (r.1, log));
}
