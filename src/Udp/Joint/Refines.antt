-- ===== src/Udp/Joint/Refines.antt =====
-- Whatever is planned, what happens while the writer waits are steps of the protocol.
use cs739_distributed_system.Base.{
  ℕ, ◌≡◌, refl, sym, subst, ◌∙◌, inl, inr, true, false, List, [], ◌∷◌, Option-cases, length,
}
use cs739_distributed_system.Udp.Protocol.{
  Picks, Message, Writer, waiting, System, read, read_only, lose_data, lose_ack,
}
use cs739_distributed_system.Udp.Protocol.Delivery.{Picks-All, During, going}
use cs739_distributed_system.Udp.Joint.{
  Joint, Choice, deliver, deliver_only, drop_data, drop_ack, take_at, tail, read_once, act, acts,
}
use cs739_distributed_system.Udp.Joint.Wiring.{
  IsWired, view, take_at-Picks, read_once-up, read_once-down,
}

module _ (m : Message) (s : System) (written : List Message) (size : ℕ) where
  -- A call of `WriteData` is under way, and the writer stands at this point.
  pub record Under (w : Writer) (j : Joint) : Type 0 where
    pub during : During m s (view w written j)
    pub wired : IsWired size j

  read_up-Under :
      (x : Message) (rest : List Message) (j : Joint)
      → Picks x j.data_in_flight rest
      → Under (waiting m) j
      → Under (waiting m) (read_once true x (record j { data_in_flight = rest }))
  read_up-Under x rest j p u =
      let w = u.wired in
      let sized = Picks-All (λ y. length y ≡ size) p w.sized in
      rw
        (read_once-up x (record j { data_in_flight = rest }) w.connected (sized.0 ∙ sym w.buffered))
        (record {
          during = going u.during (read x rest p) (λ e. cc);
          wired = record {
            connected = w.connected;
            buffered = sized.0;
            sized = sized.1;
            genuine = (refl, w.genuine);
          };
        })

  read_down-Under :
      (x : Message) (rest : List Message) (j : Joint)
      → Picks x j.data_in_flight rest
      → Under (waiting m) j
      → Under (waiting m) (read_once false x (record j { data_in_flight = rest }))
  read_down-Under x rest j p u =
      let w = u.wired in
      let sized = Picks-All (λ y. length y ≡ size) p w.sized in
      rw
        (read_once-down x (record j { data_in_flight = rest }) w.connected
          (sized.0 ∙ sym w.buffered))
        (record {
          during = going u.during (read_only x rest p) (λ e. cc);
          wired = record {
            connected = w.connected;
            buffered = sized.0;
            sized = sized.1;
            genuine = w.genuine;
          };
        })

  lose-Under :
      (x : Message) (rest : List Message) (j : Joint)
      → Picks x j.data_in_flight rest
      → Under (waiting m) j
      → Under (waiting m) (record j { data_in_flight = rest })
  lose-Under x rest j p u =
      let w = u.wired in
      record {
        during = going u.during (lose_data x rest p) (λ e. cc);
        wired = record {
          connected = w.connected;
          buffered = w.buffered;
          sized = (Picks-All (λ y. length y ≡ size) p w.sized).1;
          genuine = w.genuine;
        };
      }

  drop_ack-Under :
      (acks : List Message) (j : Joint)
      → j.acks_in_flight ≡ acks
      → Under (waiting m) j
      → Under (waiting m) (record j { acks_in_flight = tail acks })
  drop_ack-Under [] j e u = subst (λ a. Under (waiting m) (record j { acks_in_flight = a })) e u
  drop_ack-Under (a ∷ acks) j e u =
      let v = subst (λ a. Under (waiting m) (record j { acks_in_flight = a })) e u in
      let w = v.wired in
      record {
        during = going v.during (lose_ack (length acks) refl) (λ e. cc);
        wired = record {
          connected = w.connected;
          buffered = w.buffered;
          sized = w.sized;
          genuine = w.genuine.1;
        };
      }

  act-Under : (c : Choice) (j : Joint) → Under (waiting m) j → Under (waiting m) (act c j)
  unfolding act
  act-Under (deliver k) j u = elim (Option-cases (take_at k j.data_in_flight)) [
    | inl e ↦ rw (e, act) u
    | inr ((x, rest), e) ↦
        rw (e, act) (read_up-Under x rest j (take_at-Picks k j.data_in_flight x rest e) u)
  ]
  act-Under (deliver_only k) j u = elim (Option-cases (take_at k j.data_in_flight)) [
    | inl e ↦ rw (e, act) u
    | inr ((x, rest), e) ↦
        rw (e, act) (read_down-Under x rest j (take_at-Picks k j.data_in_flight x rest e) u)
  ]
  act-Under (drop_data k) j u = elim (Option-cases (take_at k j.data_in_flight)) [
    | inl e ↦ rw (e, act) u
    | inr ((x, rest), e) ↦
        rw (e, act) (lose-Under x rest j (take_at-Picks k j.data_in_flight x rest e) u)
  ]
  act-Under drop_ack j u = drop_ack-Under j.acks_in_flight j refl u

  pub acts-Under :
      (cs : List Choice) (j : Joint) → Under (waiting m) j → Under (waiting m) (acts cs j)
  unfolding acts
  acts-Under [] j u = u
  acts-Under (c ∷ cs) j u = acts-Under cs (act c j) (act-Under c j u)
