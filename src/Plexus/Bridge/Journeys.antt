-- ===== src/Plexus/Bridge/Journeys.antt =====
-- What a transmission of the program, and a frame that the link receives, lead to until no call waits.
use pyplexo.Base.{
  ℕ, zero, suc, ◌≡◌, refl, sym, ap, ◌∙◌, Option, none, List, [], ◌∷◌, ◌++◌, ℕ_key, arith,
}
use mathlib.Core.List.{append-nil, append_assoc}
use pyplexo.Codec.{Utf8, Encoded}
use pyplexo.Dendrite.{Call, reacts}
use pyplexo.Exceptions.{ok, Action}
use pyplexo.Neuron.{Neuron, encode}
use pyplexo.Schema.{Value}
use pyplexo.Plexus.{Plexus}
use pyplexo.Plexus.Bridge.{Link, Joint, call, loop, transmit, transmit_inproc, receive}
use pyplexo.Plexus.Bridge.Calls.{calls_of, inproc_transmit}
use pyplexo.Plexus.Bridge.Laws.{View, Lawful}
use pyplexo.Plexus.Bridge.Steady.{Running, Steady, Tied}
use pyplexo.Plexus.Bridge.Moved.{
  Moved, then_Moved, waiting_for, popped, waiting_for-Moved, popped-Moved,
}
use pyplexo.Plexus.Bridge.Traffic.{Called, own-Called}

module _ {S F : Type 0} (u : Utf8) (l : Link S F) (own_entry link_entry : ℕ)
    (handle : ℕ → Value → Neuron → Option ℕ → Action (Plexus (Joint S)) (Unit {0})) where
  loop_done :
      (k : ℕ) (p : Plexus (Joint S))
      → p.ganglia.waiting ≡ []
      → loop u l own_entry link_entry handle k p ≡ (ok tt, p)
  unfolding loop
  loop_done zero p h = ground (arith, h)
  loop_done (suc k) p h = ground (arith, h)

  loop_step :
      (k : ℕ) (c : Call) (cs : List Call) (p t : Plexus (Joint S))
      → p.ganglia.waiting ≡ c ∷ cs
      → call u l own_entry link_entry handle c (popped c cs p) ≡ (ok tt, t)
      → loop u l own_entry link_entry handle (suc k) p ≡ loop u l own_entry link_entry handle k t
  unfolding loop
  loop_step k c cs p t h e = ground (arith, h, e)

  transmit_eq :
      (k : ℕ) (n : Neuron) (us : List ℕ) (v : Value) (view : View S) (p : Plexus (Joint S))
      → Steady view p
      → Tied view own_entry n us p
      → transmit u l own_entry link_entry handle k v n p
        ≡ loop u l own_entry link_entry handle k
            (waiting_for (calls_of (us ++ own_entry ∷ []) v n none) p)
  unfolding transmit transmit_inproc
  transmit_eq k n us v view p s t = ground (
    arith,
    s.settled,
    inproc_transmit u n (us ++ own_entry ∷ []) v none p.ganglia.inproc t.serving,
  )

  pub receive_eq :
      (k : ℕ) (frame : F) (cs : List Call) (t : S) (view : View S) (p : Plexus (Joint S))
      → Steady view p
      → l.receive frame p.ganglia.link ≡ (ok cs, t)
      → receive u l own_entry link_entry handle k frame p
        ≡ loop u l own_entry link_entry handle k
            (waiting_for cs (record p { ganglia = record p.ganglia { link = t } }))
  unfolding receive
  receive_eq k frame cs t view p s h = ground (arith, s.settled, h)

module _ {S F : Type 0} (u : Utf8) (l : Link S F) (own_entry link_entry : ℕ) (view : View S)
    (frame : Neuron → Encoded → F) (law : Lawful u l link_entry view frame)
    (handle : ℕ → Value → Neuron → Option ℕ → Action (Plexus (Joint S)) (Unit {0})) where
  -- A state in which no call waits, with these calls carried out and these frames sent since another.
  pub record Came (cs : List Call) (frames : List F) (p t : Plexus (Joint S)) : Type 0 where
    pub moved : Moved u l own_entry link_entry view frame law p t
    pub received : t.ganglia.received ≡ p.ganglia.received ++ cs
    pub sent : l.sent t.ganglia.link ≡ frames ++ l.sent p.ganglia.link

  -- The calls that wait come to this.
  pub record Runs (k : ℕ) (cs : List Call) (frames : List F) (p : Plexus (Joint S)) : Type 0 where
    pub state : Plexus (Joint S)
    pub ends : loop u l own_entry link_entry handle k p ≡ (ok tt, state)
    pub came : Came cs frames p state
    pub settled : state.ganglia.waiting ≡ []

  -- One more call in front.
  pub Runs-after :
      (k : ℕ) (c : Call) (cs ds more : List Call) (fs gs : List F) (p : Plexus (Joint S))
      (a : Called u l own_entry link_entry view frame law handle c more gs (popped c cs p))
      → p.ganglia.waiting ≡ c ∷ cs
      → Runs k ds fs a.state
      → Runs (suc k) (c ∷ ds) (fs ++ gs) p
  Runs-after k c cs ds more fs gs p a h r = record {
    state = r.state;
    ends = loop_step u l own_entry link_entry handle k c cs p a.state h a.ends ∙ r.ends;
    came = record {
      moved =
          then_Moved u l own_entry link_entry view frame law p a.state r.state
            (then_Moved u l own_entry link_entry view frame law p (popped c cs p) a.state
              (popped-Moved u l own_entry link_entry view frame law c cs p) a.moved)
            r.came.moved;
      received =
          r.came.received
          ∙ ap (λ x. x ++ ds) a.received
          ∙ append_assoc p.ganglia.received (c ∷ []) ds;
      sent =
          r.came.sent ∙ ap (λ x. fs ++ x) a.sent ∙ sym (append_assoc fs gs (l.sent p.ganglia.link));
    };
    settled = r.settled;
  }

  pub Runs-done : (k : ℕ) (p : Plexus (Joint S)) → p.ganglia.waiting ≡ [] → Runs k [] [] p
  Runs-done k p h = record {
    state = p;
    ends = loop_done u l own_entry link_entry handle k p h;
    came = record {
      moved = record { running = λ r. r; tied = λ m us r. r };
      received = sym (append-nil p.ganglia.received);
      sent = refl;
    };
    settled = h;
  }

  -- A call of the plexus's own reactant with data of the program that waits alone.
  pub Runs-own :
      (k : ℕ) (v : Value) (n : Neuron) (us : List ℕ) (e : Encoded) (p : Plexus (Joint S))
      → Running view p
      → Tied view own_entry n us p
      → encode n v ≡ ok e
      → p.ganglia.waiting ≡ reacts own_entry v n none ∷ []
      → Runs (suc k) (reacts own_entry v n none ∷ []) (frame n e ∷ []) p
  Runs-own k v n us e p r t h w =
      let c = reacts own_entry v n none in
      let q = popped c [] p in
      let m = popped-Moved u l own_entry link_entry view frame law c [] p in
      let a =
        own-Called u l own_entry link_entry view frame law handle v n us e q (m.running r)
          (m.tied n us t) h in
      Runs-after k c [] [] [] [] (frame n e ∷ []) p a w (Runs-done k a.state a.waiting)

  -- How an operation of the plexus ends once no call waits.
  pub record Ends (f : Action (Plexus (Joint S)) (Unit {0})) (cs : List Call) (frames : List F)
      (p : Plexus (Joint S)) : Type 0 where
    pub state : Plexus (Joint S)
    pub ends : f p ≡ (ok tt, state)
    pub came : Came cs frames p state
    pub steady : Steady view state

  -- The state before a loop leaves what is in order.
  pub from_Runs :
      (f : Action (Plexus (Joint S)) (Unit {0})) (k : ℕ) (cs : List Call) (frames : List F)
      (p q : Plexus (Joint S))
      → Steady view p
      → Moved u l own_entry link_entry view frame law p q
      → q.ganglia.received ≡ p.ganglia.received
      → l.sent q.ganglia.link ≡ l.sent p.ganglia.link
      → f p ≡ loop u l own_entry link_entry handle k q
      → Runs k cs frames q
      → Ends f cs frames p
  from_Runs f k cs frames p q s m g h e r =
      let moved = then_Moved u l own_entry link_entry view frame law p q r.state m r.came.moved in
      record {
        state = r.state;
        ends = e ∙ r.ends;
        came = record {
          moved = moved;
          received = r.came.received ∙ ap (λ x. x ++ cs) g;
          sent = r.came.sent ∙ ap (λ x. frames ++ x) h;
        };
        steady = record { running = moved.running s.running; settled = r.settled };
      }

  -- To transmit data of a neuron that no reactant of the program reacts to calls the plexus's own
  -- reactant once, and sends one frame.
  pub transmit-Ends :
      (k : ℕ) (v : Value) (n : Neuron) (e : Encoded) (p : Plexus (Joint S))
      → Steady view p
      → Tied view own_entry n [] p
      → encode n v ≡ ok e
      → Ends
          (transmit u l own_entry link_entry handle (suc k) v n)
          (reacts own_entry v n none ∷ [])
          (frame n e ∷ [])
          p
  transmit-Ends k v n e p s t h =
      let cs = reacts own_entry v n none ∷ [] in
      let q = waiting_for cs p in
      let m = waiting_for-Moved u l own_entry link_entry view frame law cs p in
      from_Runs (transmit u l own_entry link_entry handle (suc k) v n) (suc k) cs (frame n e ∷ []) p
        q s m refl refl (transmit_eq u l own_entry link_entry handle (suc k) n [] v view p s t)
        (Runs-own k v n [] e q (m.running s.running) (m.tied n [] t) h refl)
