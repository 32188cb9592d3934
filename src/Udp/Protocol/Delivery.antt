-- ===== src/Udp/Protocol/Delivery.antt =====
-- A write that starts on a quiet network delivers its message.
use cs739_distributed_system.Base.{
  ℕ, suc, ◌≤◌, ◌<◌, ◌≡◌, refl, ap, ◌≢◌, ◌⊎◌, inl, inr, List, [], ◌∷◌, ◌++◌, arith, replicate, All,
}
use cs739_distributed_system.Udp.Protocol.{
  Message, idle, turn, waiting, System, Picks, here, there, Step, call, transmit, skip, give_up,
  time_out, take_ack, read, read_only, lose_data, lose_ack,
}

-- The states that a call of `WriteData` on `m` in the state `s` can come to before it returns.
pub data During (m : Message) (s : System) : System → Type 0 where
  begun : s.writer ≡ idle → During m s (record s { writer = turn m })
  going : {t u : System} → During m s t → Step t u → u.writer ≢ idle → During m s u

-- What holds in between: `copies` deliveries so far, all of `m`.
record Writing (m : Message) (s t : System) : Type 0 where
  copies : ℕ
  busy : (t.writer ≡ turn m) ⊎ (t.writer ≡ waiting m)
  own : All (λ x. x ≡ m) t.data_in_flight
  counted : t.acks_in_flight ≤ copies
  arrived : t.delivered ≡ replicate copies m ++ s.delivered
  before : t.written ≡ s.written

-- Nothing is in flight.
pub record IsQuiet (s : System) : Type 0 where
  pub no_data : s.data_in_flight ≡ []
  pub no_acks : s.acks_in_flight ≡ 0

-- What has come of the call when it returns.
pub record Delivered (m : Message) (s t : System) : Type 0 where
  pub copies : ℕ
  pub some_copy : 0 < copies
  pub arrived : t.delivered ≡ replicate copies m ++ s.delivered
  pub returned : t.writer ≡ idle
  pub ended : t.written ≡ m ∷ s.written

-- What has come of the call when `sendto` failed: its message may have arrived or not.
pub record Abandoned (m : Message) (s t : System) : Type 0 where
  pub copies : ℕ
  pub arrived : t.delivered ≡ replicate copies m ++ s.delivered
  pub returned : t.writer ≡ idle
  pub unwritten : t.written ≡ s.written

-- What holds of all messages holds of the one that is taken out and of those that are left.
pub Picks-All :
    (P : Message → Type 0) {m : Message} {xs ys : List Message}
    → Picks m xs ys
    → All P xs
    → P m × All P ys
Picks-All P here a = a
Picks-All P (there p) a = let r = Picks-All P p a.1 in (r.0, (a.0, r.1))

Picks-own :
    {m x : Message} {xs ys : List Message}
    → Picks x xs ys
    → All (λ y. y ≡ m) xs
    → (x ≡ m) × All (λ y. y ≡ m) ys
Picks-own {m} p a = Picks-All (λ y. y ≡ m) p a

-- A step keeps `Writing`, or ends the call with the message delivered, or with a failed `sendto`.
Step-Writing :
    {m : Message} {s t u : System}
    → Step t u
    → Writing m s t
    → Writing m s u ⊎ (Delivered m s u ⊎ Abandoned m s u)
Step-Writing (call m' e) v = absurd (ground (arith, v.busy))
Step-Writing {m} (transmit m' e) v =
    let same : m' ≡ m = ground (arith, v.busy) in
    inl (record {
      copies = v.copies;
      busy = inr (ap waiting same);
      own = (same, v.own);
      counted = v.counted;
      arrived = v.arrived;
      before = v.before;
    })
Step-Writing {m} (skip m' e) v =
    let same : m' ≡ m = ground (arith, v.busy) in
    inl (record {
      copies = v.copies;
      busy = inr (ap waiting same);
      own = v.own;
      counted = v.counted;
      arrived = v.arrived;
      before = v.before;
    })
Step-Writing {m} (give_up m' e) v =
    inr (
      inr
        (record { copies = v.copies; arrived = v.arrived; returned = refl; unwritten = v.before }))
Step-Writing {m} (time_out m' e) v =
    let same : m' ≡ m = ground (arith, v.busy) in
    inl (record {
      copies = v.copies;
      busy = inl (ap turn same);
      own = v.own;
      counted = v.counted;
      arrived = v.arrived;
      before = v.before;
    })
Step-Writing {m} (take_ack m' n e f) v =
    let same : m' ≡ m = ground (arith, v.busy) in
    inr (
      inl (record {
        copies = v.copies;
        some_copy = omega (arith, v.counted);
        arrived = v.arrived;
        returned = refl;
        ended = ground (arith, v.before);
      }))
Step-Writing {m} (read m' rest p) v =
    let own = Picks-own p v.own in
    inl (record {
      copies = suc v.copies;
      busy = v.busy;
      own = own.1;
      counted = omega (arith, v.counted);
      arrived = ground (arith, v.arrived, own.0);
      before = v.before;
    })
Step-Writing {m} (read_only m' rest p) v =
    let own = Picks-own p v.own in
    inl (record {
      copies = suc v.copies;
      busy = v.busy;
      own = own.1;
      counted = omega (arith, v.counted);
      arrived = ground (arith, v.arrived, own.0);
      before = v.before;
    })
Step-Writing (lose_data m' rest p) v = inl (record {
  copies = v.copies;
  busy = v.busy;
  own = (Picks-own p v.own).1;
  counted = v.counted;
  arrived = v.arrived;
  before = v.before;
})
Step-Writing (lose_ack n f) v = inl (record {
  copies = v.copies;
  busy = v.busy;
  own = v.own;
  counted = omega (arith, v.counted);
  arrived = v.arrived;
  before = v.before;
})

During-Writing : {m : Message} {s t : System} → IsQuiet s → During m s t → Writing m s t
During-Writing q (begun e) = record {
  copies = 0;
  busy = inl refl;
  own = rw q.no_data tt;
  counted = omega (arith, q.no_acks);
  arrived = refl;
  before = refl;
}
During-Writing {m} {s} q (going {u = u} d st busy) = elim (Step-Writing st (During-Writing q d)) [
  | inl v ↦ v
  | inr (inl v) ↦ absurd (busy v.returned)
  | inr (inr v) ↦ absurd (busy v.returned)
]

-- If `WriteData` starts with nothing in flight, then when it returns the reader has got copies of its
-- message and nothing else since. If an acknowledgement ended the call, so that the message counts as
-- written, there is one copy at least; if `sendto` failed, the message does not count as written and
-- may not have come. The network may lose, delay and reorder as it likes in between.
pub quiet_write_delivers :
    {m : Message} {s t u : System}
    → IsQuiet s
    → During m s t
    → Step t u
    → u.writer ≡ idle
    → Delivered m s u ⊎ Abandoned m s u
quiet_write_delivers q d st e = elim (Step-Writing st (During-Writing q d)) [
  | inl v ↦ absurd (ground (arith, v.busy))
  | inr v ↦ v
]
