-- ===== src/Examples/Exchange.antt =====
-- Two processes, each with a plexus over a link, whose frames the network carries to the other, and the
-- loop of the sending programs under examples.
pub mod Attributes
pub mod Carried
pub mod Good
pub mod Rounds
pub mod Whole
use pyplexo.Base.{
  ℕ, Bool, true, if◌then◌else◌, zero, suc, ◌+◌, ◌-◌, ◌≡◌, refl, sym, ap, ◌∙◌, List, [], ◌∷◌, ◌++◌,
  length, take, arith, Option,
}
use mathlib.Core.List.{append-nil, append_assoc}
use pyplexo.Exceptions.{
  Action, Result, Error, ok, raise, pending, pure, throw, lift, catch, gets, modify, ◌>>=◌, ◌>>◌,
  transmitter_not_found,
}
use pyplexo.Codec.{Utf8}
use pyplexo.Neuron.{Neuron}
use pyplexo.Schema.{Value}
use pyplexo.Plexus.{Plexus}
use pyplexo.Plexus.Bridge
use pyplexo.Plexus.Bridge.{Link, Joint}
use pyplexo.Examples.Rounds.{log_not_found}

-- The states of the two processes, and how many frames of each the network has carried.
pub record Two (S : Type 0) : Type 0 where
  pub here : Plexus (Joint S)
  pub there : Plexus (Joint S)
  pub here_carried : ℕ
  pub there_carried : ℕ

-- Which frames of each process the network delivers, by their numbers, where the sockets' addresses lead
-- to the other process. A publisher's frame is dropped before the subscription has come, for one.
pub record Network : Type 0 where
  pub to_there : ℕ → Bool
  pub to_here : ℕ → Bool

-- Every frame is delivered to a process that is connected.
pub record IsReliable (net : Network) : Type 0 where
  pub to_there : (i : ℕ) → net.to_there i ≡ true
  pub to_here : (i : ℕ) → net.to_here i ≡ true

-- Those of some frames, the latest first, that are delivered.
unfoldable pub delivered : {F : Type 0} → (ℕ → Bool) → ℕ → List F → List F
delivered delivers carried [] = []
delivered delivers carried (f ∷ fs) =
    let rest = delivered delivers carried fs in
    if delivers (carried + length fs) then f ∷ rest else rest

-- What the reactants of a program do.
abbrev pub Handler : Type 0 → Type 0
Handler S = ℕ → Value → Neuron → Option ℕ → Action (Plexus (Joint S)) (Unit {0})

-- The calls of reactants that one transmission, or one frame, may lead to.
abbrev pub most_calls : ℕ
most_calls = 4

-- Some rounds of `while True`: a message is sent, and then the process sleeps.
unfoldable pub paced :
    {W : Type 0}
    → (Value → Action W (Unit {0}))
    → Action W (Unit {0})
    → (ℕ → Value)
    → ℕ
    → ℕ
    → Action W (Unit {0})
paced send sleep message zero i = pure tt
paced send sleep message (suc k) i = do
  catch (send (message i)) log_not_found
  sleep
  paced send sleep message k (i + 1)

module _ {S F : Type 0} (u : Utf8) (l : Link S F) (own_entry link_entry : ℕ) where
  abbrev pub on_here : Action (Plexus (Joint S)) (Unit {0}) → Action (Two S) (Unit {0})
  on_here f s = let (r, p) = f s.here in (r, record s { here = p })

  abbrev pub on_there : Action (Plexus (Joint S)) (Unit {0}) → Action (Two S) (Unit {0})
  on_there f s = let (r, p) = f s.there in (r, record s { there = p })

  -- The frames, the latest first, are received in the order in which they were sent.
  unfoldable pub receive_all : Handler S → List F → Action (Plexus (Joint S)) (Unit {0})
  unfolding Bridge.receive
  receive_all handle [] = pure tt
  receive_all handle (f ∷ fs) = do
    receive_all handle fs
    Bridge.receive u l own_entry link_entry handle most_calls f

  -- The frames that have not been carried yet.
  abbrev pub uncarried : ℕ → Plexus (Joint S) → List F
  uncarried carried p = let frames = l.sent p.ganglia.link in take (length frames - carried) frames

  -- Those of them that get to the other process, which none does where it is not connected.
  abbrev pub arriving : (ℕ → Bool) → ℕ → (from to : Plexus (Joint S)) → List F
  arriving delivers carried from to =
      if l.reaches from.ganglia.link to.ganglia.link
      then delivered delivers carried (uncarried carried from)
      else []

  -- The network carries the frames of one process to the other.
  unfoldable pub carry_there : Network → Handler S → Action (Two S) (Unit {0})
  unfolding receive_all delivered
  carry_there net handle = do
    frames ← gets (λ s. arriving net.to_there s.here_carried s.here s.there)
    modify (λ s. record s { here_carried = length (l.sent s.here.ganglia.link) })
    on_there (receive_all handle frames)

  unfoldable pub carry_here : Network → Handler S → Action (Two S) (Unit {0})
  unfolding receive_all delivered
  carry_here net handle = do
    frames ← gets (λ s. arriving net.to_here s.there_carried s.there s.here)
    modify (λ s. record s { there_carried = length (l.sent s.there.ganglia.link) })
    on_here (receive_all handle frames)

  -- What the network does while the process here sleeps: what it has sent goes there, and the replies
  -- come back.
  unfoldable pub meanwhile : Network → (here there : Handler S) → Action (Two S) (Unit {0})
  unfolding carry_there carry_here
  meanwhile net here there = do carry_there net there; carry_here net here
