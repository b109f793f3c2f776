-- ===== src/Ganglion/TcpPair/Link.antt =====
-- A ganglion of a pair as the link of a plexus.
use pyplexo.Base.{
  ℕ, String, List, Bool, false, not, ◌&&◌, ◌||◌, ◌≡◌, refl, ap, ◌∙◌, true, Option, none, [], ◌∷◌,
  map, ℕ_key, string_key, arith,
}
use pyplexo.Codec.{Encoded, bytes}
use pyplexo.Dendrite.{reacts, update}
use pyplexo.Exceptions.{ok}
use pyplexo.Neuron.{Neuron, name, encode, decode}
use pyplexo.Schema.{Bytes, Value}
use pyplexo.Ganglion.External
use pyplexo.Ganglion.External.Fresh.{adapted}
use pyplexo.Ganglion.External.Joined.{IsNew, Joined, IsOlder, IsNew-Others, Joined-Others}
use pyplexo.Ganglion.External.State.{to_payload}
use pyplexo.Ganglion.TcpPair
use pyplexo.Ganglion.TcpPair.{
  Library, Pair, Ganglion, hooks, start_recv_loop_if_needed, recv_loop_round,
}
use pyplexo.Ganglion.TcpPair.Delivery.{message, transmitted, received}
use pyplexo.Ganglion.TcpPair.Joined.{touched, hooks-Lawful, started, decoded}
use pyplexo.Plexus.Bridge.{Link, link_of, shares}
use pyplexo.Typing.{GanglionExternal}
use pyplexo.Plexus.Bridge.Laws.{View, Lawful, Kept, Adapts, Sends, Receives}

module _ (lib : Library) where
  -- The ganglion's methods, those of its base class included.
  abbrev pub tcp_pair : GanglionExternal Ganglion
  tcp_pair = record {
    ganglion = record {
      capable = External.capable;
      update_transmitter = External.update_transmitter (hooks lib);
      react = External.react (hooks lib);
      transmit = TcpPair.transmit lib;
      adapt = λ n rs. TcpPair.adapt lib n rs [];
      close = TcpPair.close lib;
    };
    react_raw = External.react_raw (hooks lib);
    transmit_encoded = External.transmit_encoded (TcpPair.send lib);
    adapt = TcpPair.adapt lib;
  }

  -- A pair is connected from either side, and both sockets are open.
  abbrev pub reaches : Ganglion → Ganglion → Bool
  reaches s t =
      not s.extra.closed
      && (not t.extra.closed
          && (shares s.extra.connected t.extra.bound || shares t.extra.connected s.extra.bound))

  -- The socket has a peer once it is connected from either side.
  abbrev pub met : Ganglion → Ganglion → Ganglion
  met s t = record s { extra = record s.extra { peer = reaches s t || s.extra.peer } }

  abbrev pub link : Link Ganglion Bytes
  link = link_of tcp_pair (recv_loop_round lib) (λ s. s.extra.sent) reaches met

  -- The frame of a neuron's encoded data.
  abbrev pub frame : Neuron → Encoded → Bytes
  frame n e = lib.pack (message lib n e)

  -- The ganglion is in order: its sockets are open and up with a peer, and have these addresses.
  pub record Ready (bound connected : List String) (s : Ganglion) : Type 0 where
    pub older : IsOlder s
    pub still_open : s.extra.closed ≡ false
    pub up : s.extra.peer ≡ true
    pub binds : s.extra.bound ≡ bound
    pub connects : s.extra.connected ≡ connected

  -- A change of the extra state that leaves these as they are.
  record Leaves (x y : Pair) : Type 0 where
    still_open : y.closed ≡ x.closed
    up : y.peer ≡ x.peer
    binds : y.bound ≡ x.bound
    connects : y.connected ≡ x.connected

  left-Ready :
      (bound connected : List String) (s t : Ganglion)
      → IsOlder t
      → Leaves s.extra t.extra
      → Ready bound connected s
      → Ready bound connected t
  left-Ready bound connected s t older e h = record {
    older = older;
    still_open = e.still_open ∙ h.still_open;
    up = e.up ∙ h.up;
    binds = e.binds ∙ h.binds;
    connects = e.connects ∙ h.connects;
  }

  module _ (bound connected : List String) (entry : ℕ) where
    abbrev pub view : View Ganglion
    view = record {
      IsSound = Ready bound connected;
      IsNew = IsNew;
      IsTied = λ n s. Joined lib.utf8 n (entry ∷ []) s;
      able = External.capable;
    }

    -- The rest of the state of the sockets does not matter.
    extra-Kept :
        (x : Pair) (s : Ganglion)
        → Leaves s.extra x
        → Kept lib.utf8 link entry view s (record s { extra = x })
    unfolding External.capable
    extra-Kept x s e = record {
      sound = λ h. left-Ready bound connected s (record s { extra = x }) h.older e h;
      new = λ m h. record {
        no_synapse = h.no_synapse;
        no_transmitter = h.no_transmitter;
        no_raw_transmitter = h.no_raw_transmitter;
      };
      tied = λ m j. record {
        ref = j.ref;
        object = j.object;
        transmitter = j.transmitter;
        raw_transmitter = j.raw_transmitter;
        bound = j.bound;
        there = j.there;
        topic = j.topic;
        neuron = j.neuron;
        reactants = j.reactants;
        raws = j.raws;
      };
      able = λ m. refl;
    }

    started-Kept :
        (s : Ganglion) → Kept lib.utf8 link entry view s (start_recv_loop_if_needed lib s).1
    unfolding start_recv_loop_if_needed External.capable
    started-Kept s = record {
      sound = λ h.
          left-Ready bound connected s (start_recv_loop_if_needed lib s).1
            (λ key ref k. ground (arith, h.older key ref, k))
            (record {
              still_open = ground arith;
              up = ground arith;
              binds = ground arith;
              connects = ground arith;
            })
            h;
      new = λ m h. record {
        no_synapse = ground (arith, h.no_synapse);
        no_transmitter = ground (arith, h.no_transmitter);
        no_raw_transmitter = ground (arith, h.no_raw_transmitter);
      };
      tied = λ m j. started lib m (entry ∷ []) s j;
      able = λ m. ground arith;
    }

    started_sent : (s : Ganglion) → (start_recv_loop_if_needed lib s).1.extra.sent ≡ s.extra.sent
    unfolding start_recv_loop_if_needed
    started_sent s = ground arith

    adapt_ends :
        (n : Neuron) (s t : Ganglion)
        → External.adapt
            (hooks lib)
            (External.react (hooks lib))
            (External.react_raw (hooks lib))
            n
            (entry ∷ [])
            []
            s
          ≡ (ok tt, t)
        → TcpPair.adapt lib n (entry ∷ []) [] s ≡ (ok tt, (start_recv_loop_if_needed lib t).1)
    unfolding TcpPair.adapt start_recv_loop_if_needed
    adapt_ends n s t h = ground (arith, h)

    link-Adapts :
        (n : Neuron) (s : Ganglion)
        → Ready bound connected s
        → IsNew n s
        → External.capable n s ≡ true
        → Adapts lib.utf8 link entry view n s
    link-Adapts n s ready new able =
        let a =
          adapted (hooks lib) lib.utf8 tt (touched lib) (hooks-Lawful lib) n (entry ∷ []) s new
            able in
        let k = started-Kept a.state in
        record {
          state = (start_recv_loop_if_needed lib a.state).1;
          ends = adapt_ends n s a.state a.ends;
          sound = k.sound (
              left-Ready bound connected s a.state (a.others.older ready.older)
                (record {
                  still_open = ap (λ x. x.closed) a.same_extra;
                  up = ap (λ x. x.peer) a.same_extra;
                  binds = ap (λ x. x.bound) a.same_extra;
                  connects = ap (λ x. x.connected) a.same_extra;
                })
                ready);
          tied = k.tied n a.joined;
          sent = started_sent a.state ∙ ap (λ x. x.sent) a.same_extra;
          new_others = λ m apart h. k.new m (IsNew-Others n m s a.state a.others apart h);
          tied_others = λ m apart j.
              k.tied m
                (Joined-Others lib.utf8 n m (entry ∷ []) s a.state a.others apart ready.older j);
          able = λ m. k.able m ∙ a.others.able m;
        }

    link-Sends :
        (n : Neuron) (v : Value) (rid : Option ℕ) (e : Encoded) (s : Ganglion)
        → Ready bound connected s
        → Joined lib.utf8 n (entry ∷ []) s
        → encode n v ≡ ok e
        → Sends lib.utf8 link entry view n v rid (frame n e) s
    link-Sends n v rid e s ready j h = record {
      state = record s { extra = record s.extra { sent = frame n e ∷ s.extra.sent } };
      ends =
          transmitted lib v n rid s (record { synapse = j.ref; encoder = encode n }) j.object e
            j.transmitter h j.there j.topic ready.still_open ready.up;
      sent = refl;
      kept =
          extra-Kept (record s.extra { sent = frame n e ∷ s.extra.sent }) s
            (record { still_open = refl; up = refl; binds = refl; connects = refl });
    }

    round_eq :
        (b : Bytes) (s t : Ganglion) (w : Value) (n : Neuron)
        → TcpPair.receive lib b (record s { extra = record s.extra { socket = true } })
          ≡ (ok (reacts entry w n none ∷ []), t)
        → recv_loop_round lib b s ≡ (ok (reacts entry w n none ∷ []), t)
    unfolding recv_loop_round
    round_eq b s t w n h = ground (arith, h)

    link-Receives :
        (n : Neuron) (w : Value) (e : Encoded) (s : Ganglion)
        → Joined lib.utf8 n (entry ∷ []) s
        → decode n (bytes (to_payload lib.utf8 e)) ≡ ok w
        → Receives lib.utf8 link entry view n w (frame n e) s
    unfolding update
    link-Receives n w e s j h =
        let x : Pair = record s.extra { socket = true } in
        let t : Ganglion = record s { extra = x } in
        let d = j.object.dendrite in
        let b = to_payload lib.utf8 e in
        record {
          state = t;
          ends = round_eq (frame n e) s t w n (
              received lib (message lib n e) (name n) t j.ref j.object
                (lib.utf8.decode-encode (name n)) j.bound j.there
              ∙ ap (λ y. (y, t))
                  (decoded lib d (bytes b) w j.raws (ap (λ m. decode m (bytes b)) j.neuron ∙ h)
                    ∙ ap (λ l. ok (map (λ r. reacts r w d.neuron none) l)) j.reactants
                    ∙ ap (λ m. ok (reacts entry w m none ∷ [])) j.neuron));
          sent = refl;
          kept =
              extra-Kept x s
                (record { still_open = refl; up = refl; binds = refl; connects = refl });
        }

    -- A ganglion in order, whose socket is open and up with a peer, keeps what a plexus relies on of its
    -- link, and keeps the socket so and its addresses. To adapt with a reactant to a neuron that is new to
    -- it and that it handles ends well, sends nothing, and leaves the other neurons as they were. To
    -- transmit data that the codec of such a neuron encodes ends well and sends one frame with what is
    -- encoded. To receive that frame, where the codec decodes it, calls just that reactant, with the
    -- value, and sends nothing.
    pub link-Lawful : Lawful lib.utf8 link entry view frame
    link-Lawful = record { adapts = link-Adapts; sends = link-Sends; receives = link-Receives }
