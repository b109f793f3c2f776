-- ===== src/Plexus/Bridge/Arrivals.antt =====
-- What a frame that the link receives leads to until no call waits.
use pyplexo.Base.{
  ℕ, suc, ◌≡◌, ◌≢◌, refl, ap, subst, ◌∙◌, Option, none, some, List, [], ◌∷◌, ◌++◌, lookup, ℕ_key,
}
use mathlib.Core.List.{append-nil}
use pyplexo.Codec.{Utf8, Encoded, bytes}
use pyplexo.Dendrite.{Call, reacts}
use pyplexo.Exceptions.{ok, Action}
use pyplexo.Neuron.{Neuron, encode, decode}
use pyplexo.Schema.{Value}
use pyplexo.Ganglion.External.State.{to_payload}
use pyplexo.Plexus.{Plexus}
use pyplexo.Plexus.Bridge.{Link, Joint, receive}
use pyplexo.Plexus.Bridge.Laws.{View, Lawful}
use pyplexo.Plexus.Bridge.Steady.{Running, Steady, Tied}
use pyplexo.Plexus.Bridge.Journeys.{
  Runs, Ends, receive_eq, Runs-after, Runs-done, Runs-own, from_Runs,
}
use pyplexo.Plexus.Bridge.Moved.{
  Moved, then_Moved, waiting_for, popped, waiting_for-Moved, popped-Moved, link-Moved,
}
use pyplexo.Plexus.Bridge.Traffic.{Called, link-Spread, own_again-Called, call_program}

module _ {S F : Type 0} (u : Utf8) (l : Link S F) (own_entry link_entry : ℕ) (view : View S)
    (frame : Neuron → Encoded → F) (law : Lawful u l link_entry view frame)
    (handle : ℕ → Value → Neuron → Option ℕ → Action (Plexus (Joint S)) (Unit {0})) where
  -- A call in front that sends nothing.
  Runs-after_silent :
      (k : ℕ) (c : Call) (cs ds more : List Call) (fs : List F) (p : Plexus (Joint S))
      (a : Called u l own_entry link_entry view frame law handle c more [] (popped c cs p))
      → p.ganglia.waiting ≡ c ∷ cs
      → Runs u l own_entry link_entry view frame law handle k ds fs a.state
      → Runs u l own_entry link_entry view frame law handle (suc k) (c ∷ ds) fs p
  Runs-after_silent k c cs ds more fs p a h r =
      subst (λ x. Runs u l own_entry link_entry view frame law handle (suc k) (c ∷ ds) x p)
        (append-nil fs)
        (Runs-after u l own_entry link_entry view frame law handle k c cs ds more fs [] p a h r)

  -- The states that the plexus can be in while the calls that follow a state are carried out.
  abbrev Later : Plexus (Joint S) → Plexus (Joint S) → Type 0
  Later p q = Moved u l own_entry link_entry view frame law p q

  -- A reactant of the program that, in whatever of these states, makes some more calls wait.
  abbrev pub IsPlain : ℕ → Value → Neuron → List Call → Plexus (Joint S) → Type 0
  IsPlain r w n more p =
      (rid : Option ℕ) (q : Plexus (Joint S))
      → Later p q
      → handle r w n rid q
        ≡ (ok tt, record q { ganglia = record q.ganglia { waiting = q.ganglia.waiting ++ more } })

  -- What a call of such a reactant comes to.
  record Plain (c : Call) (more : List Call) (q : Plexus (Joint S)) : Type 0 where
    called : Called u l own_entry link_entry view frame law handle c more [] q
    reactions : called.state.reactions ≡ q.reactions

  plain :
      (r : ℕ) (w : Value) (n : Neuron) (rid : Option ℕ) (more : List Call) (p q : Plexus (Joint S))
      → r ≢ own_entry
      → r ≢ link_entry
      → IsPlain r w n more p
      → Later p q
      → Plain (reacts r w n rid) more q
  plain r w n rid more p q a b h m = record {
    called = record {
      state = waiting_for (q.ganglia.waiting ++ more) q;
      ends =
          call_program u l own_entry link_entry view frame law handle r w n rid q a b ∙ h rid q m;
      moved =
          waiting_for-Moved u l own_entry link_entry view frame law (q.ganglia.waiting ++ more) q;
      waiting = refl;
      received = refl;
      sent = refl;
    };
    reactions = refl;
  }

  -- The calls that a frame leads to, up to what the program's reactant has made wait.
  abbrev pub arrivals : ℕ → ℕ → Value → Neuron → List Call
  arrivals r id w n =
      reacts link_entry w n none ∷ reacts r w n (some id) ∷ reacts own_entry w n (some id) ∷ []

  Runs-arrivals :
      (k r : ℕ) (w : Value) (n : Neuron) (more ds : List Call) (fs : List F)
      (p q : Plexus (Joint S))
      → r ≢ own_entry
      → r ≢ link_entry
      → link_entry ≢ own_entry
      → Running view q
      → Tied view own_entry n (r ∷ []) q
      → Later p q
      → IsPlain r w n more p
      → q.ganglia.waiting ≡ reacts link_entry w n none ∷ []
      → ((t : Plexus (Joint S))
          → Later q t
          → t.ganglia.waiting ≡ more
          → Runs u l own_entry link_entry view frame law handle k ds fs t)
      → (id : ℕ) × Runs u l own_entry link_entry view frame law handle
          (suc (suc (suc k)))
          (arrivals r id w n ++ ds)
          fs
          q
  Runs-arrivals k r w n more ds fs p q ra rb apart run tie pq is_plain h rest =
      let one = reacts link_entry w n none in
      let q1 = popped one [] q in
      let m1 = popped-Moved u l own_entry link_entry view frame law one [] q in
      let s =
        link-Spread u l own_entry link_entry view frame law handle w n (r ∷ []) q1 apart
          (m1.running run) (m1.tied n (r ∷ []) tie) in
      let a = s.called in
      let two = reacts r w n (some s.id) in
      let three = reacts own_entry w n (some s.id) in
      let q2 = popped two (three ∷ []) a.state in
      let m2 = then_Moved u l own_entry link_entry view frame law q q1 a.state m1 a.moved in
      let m3 =
        then_Moved u l own_entry link_entry view frame law q a.state q2 m2
          (popped-Moved u l own_entry link_entry view frame law two (three ∷ []) a.state) in
      let x =
        plain r w n (some s.id) more p q2 ra rb is_plain
          (then_Moved u l own_entry link_entry view frame law p q q2 pq m3) in
      let b = x.called in
      let q3 = popped three more b.state in
      let m4 =
        then_Moved u l own_entry link_entry view frame law q b.state q3
          (then_Moved u l own_entry link_entry view frame law q q2 b.state m3 b.moved)
          (popped-Moved u l own_entry link_entry view frame law three more b.state) in
      let c =
        own_again-Called u l own_entry link_entry view frame law handle w n s.id q3 (m4.running run)
          (ap (lookup s.id) x.reactions ∙ s.noted) in
      let m5 = then_Moved u l own_entry link_entry view frame law q q3 c.state m4 c.moved in
      let tail = rest c.state m5 (c.waiting ∙ append-nil more) in
      (
        s.id,
        Runs-after_silent (suc (suc k)) one [] (two ∷ three ∷ ds) (two ∷ three ∷ []) fs q a h (
            Runs-after_silent (suc k) two (three ∷ []) (three ∷ ds) more fs a.state b a.waiting
              (Runs-after_silent k three more ds [] fs b.state c b.waiting tail)),
      )

  -- To receive a frame, for a neuron that the program reacts to, calls the plexus's reactant, the
  -- program's, and the plexus's again, and then what the program's has made wait.
  receive_with :
      (k r : ℕ) (w : Value) (n : Neuron) (e : Encoded) (more ds : List Call) (fs : List F)
      (p : Plexus (Joint S))
      → r ≢ own_entry
      → r ≢ link_entry
      → link_entry ≢ own_entry
      → Steady view p
      → Tied view own_entry n (r ∷ []) p
      → decode n (bytes (to_payload u e)) ≡ ok w
      → IsPlain r w n more p
      → ((t : Plexus (Joint S))
          → Later p t
          → t.ganglia.waiting ≡ more
          → Runs u l own_entry link_entry view frame law handle k ds fs t)
      → (id : ℕ) × Ends u l own_entry link_entry view frame law handle
          (receive u l own_entry link_entry handle (suc (suc (suc k))) (frame n e))
          (arrivals r id w n ++ ds)
          fs
          p
  receive_with k r w n e more ds fs p ra rb apart s tie dec plain rest =
      let f = receive u l own_entry link_entry handle (suc (suc (suc k))) (frame n e) in
      let a = law.receives n w e p.ganglia.link tie.link dec in
      let one = reacts link_entry w n none ∷ [] in
      let q0 : Plexus (Joint S) = record p { ganglia = record p.ganglia { link = a.state } } in
      let q = waiting_for one q0 in
      let m =
        then_Moved u l own_entry link_entry view frame law p q0 q
          (link-Moved u l own_entry link_entry view frame law a.state p a.kept)
          (waiting_for-Moved u l own_entry link_entry view frame law one q0) in
      let (id, runs) =
        Runs-arrivals k r w n more ds fs p q ra rb apart (m.running s.running)
          (m.tied n (r ∷ []) tie) m plain refl
          (λ t g. rest t (then_Moved u l own_entry link_entry view frame law p q t m g)) in
      (
        id,
        from_Runs u l own_entry link_entry view frame law handle f (suc (suc (suc k)))
            (arrivals r id w n ++ ds) fs p q s m refl a.sent
            (receive_eq u l own_entry link_entry handle (suc (suc (suc k))) (frame n e) one a.state
              view p s a.ends)
            runs,
      )

  -- If the program's reactant only notes what it gets, no frame is sent back.
  pub receive-Ends :
      (k r : ℕ) (w : Value) (n : Neuron) (e : Encoded) (p : Plexus (Joint S))
      → r ≢ own_entry
      → r ≢ link_entry
      → link_entry ≢ own_entry
      → Steady view p
      → Tied view own_entry n (r ∷ []) p
      → decode n (bytes (to_payload u e)) ≡ ok w
      → IsPlain r w n [] p
      → (id : ℕ) × Ends u l own_entry link_entry view frame law handle
          (receive u l own_entry link_entry handle (suc (suc (suc k))) (frame n e))
          (arrivals r id w n)
          []
          p
  receive-Ends k r w n e p ra rb apart s tie dec plain =
      receive_with k r w n e [] [] [] p ra rb apart s tie dec plain
        (λ t g h. Runs-done u l own_entry link_entry view frame law handle k t h)

  -- If the program's reactant replies with data of a neuron that it does not react to, one frame is sent
  -- back, the reply's.
  pub receive_reply-Ends :
      (k r : ℕ) (w v : Value) (n m : Neuron) (e d : Encoded) (p : Plexus (Joint S))
      → r ≢ own_entry
      → r ≢ link_entry
      → link_entry ≢ own_entry
      → Steady view p
      → Tied view own_entry n (r ∷ []) p
      → Tied view own_entry m [] p
      → decode n (bytes (to_payload u e)) ≡ ok w
      → encode m v ≡ ok d
      → IsPlain r w n (reacts own_entry v m none ∷ []) p
      → (id : ℕ) × Ends u l own_entry link_entry view frame law handle
          (receive u l own_entry link_entry handle (suc (suc (suc (suc k)))) (frame n e))
          (arrivals r id w n ++ reacts own_entry v m none ∷ [])
          (frame m d ∷ [])
          p
  receive_reply-Ends k r w v n m e d p ra rb apart s tie other_tie dec enc plain =
      receive_with (suc k) r w n e (reacts own_entry v m none ∷ []) (reacts own_entry v m none ∷ [])
        (frame m d ∷ []) p ra rb apart s tie dec plain
        (λ t g h.
          Runs-own u l own_entry link_entry view frame law handle k v m [] d t (g.running s.running)
            (g.tied m [] other_tie) enc h)
