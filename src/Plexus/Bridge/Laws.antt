-- ===== src/Plexus/Bridge/Laws.antt =====
-- What a plexus relies on of its link.
use pyplexo.Base.{ℕ, ◌≡◌, ◌≢◌, Bool, true, none, Option, [], ◌∷◌, string_key}
use pyplexo.Codec.{Encoded, bytes, Utf8}
use pyplexo.Dendrite.{reacts}
use pyplexo.Exceptions.{ok}
use pyplexo.Neuron.{Neuron, name, encode, decode}
use pyplexo.Schema.{Value}
use pyplexo.Ganglion.External.State.{to_payload}
use pyplexo.Plexus.Bridge.{Link}

-- What can be said of a link: whether its state is in order, whether a neuron is new to it, or tied to
-- the plexus's reactant, and whether it handles the neuron.
pub record View (S : Type 0) : Type 1 where
  pub IsSound : S → Type 0
  pub IsNew : Neuron → S → Type 0
  pub IsTied : Neuron → S → Type 0
  pub able : Neuron → S → Bool

module _ {S F : Type 0} (u : Utf8) (l : Link S F) (entry : ℕ) (view : View S) where
  -- What a change leaves as it was.
  pub record Kept (s t : S) : Type 0 where
    pub sound : view.IsSound s → view.IsSound t
    pub new : (m : Neuron) → view.IsNew m s → view.IsNew m t
    pub tied : (m : Neuron) → view.IsTied m s → view.IsTied m t
    pub able : (m : Neuron) → view.able m t ≡ view.able m s

  -- To adapt to a neuron that is new ties it, sends nothing, and leaves the other neurons as they were.
  pub record Adapts (n : Neuron) (s : S) : Type 0 where
    pub state : S
    pub ends : l.adapt n (entry ∷ []) s ≡ (ok tt, state)
    pub sound : view.IsSound state
    pub tied : view.IsTied n state
    pub sent : l.sent state ≡ l.sent s
    pub new_others : (m : Neuron) → name n ≢ name m → view.IsNew m s → view.IsNew m state
    pub tied_others : (m : Neuron) → name n ≢ name m → view.IsTied m s → view.IsTied m state
    pub able : (m : Neuron) → view.able m state ≡ view.able m s

  -- To transmit sends one frame.
  pub record Sends (n : Neuron) (v : Value) (rid : Option ℕ) (frame : F) (s : S) : Type 0 where
    pub state : S
    pub ends : l.transmit v n rid s ≡ (ok tt, state)
    pub sent : l.sent state ≡ frame ∷ l.sent s
    pub kept : Kept s state

  -- To receive a frame calls the plexus's reactant, and sends nothing.
  pub record Receives (n : Neuron) (w : Value) (frame : F) (s : S) : Type 0 where
    pub state : S
    pub ends : l.receive frame s ≡ (ok (reacts entry w n none ∷ []), state)
    pub sent : l.sent state ≡ l.sent s
    pub kept : Kept s state

  pub record Lawful (frame : Neuron → Encoded → F) : Type 0 where
    pub adapts :
        (n : Neuron) (s : S) → view.IsSound s → view.IsNew n s → view.able n s ≡ true → Adapts n s
    pub sends :
        (n : Neuron) (v : Value) (rid : Option ℕ) (e : Encoded) (s : S)
        → view.IsSound s
        → view.IsTied n s
        → encode n v ≡ ok e
        → Sends n v rid (frame n e) s
    pub receives :
        (n : Neuron) (w : Value) (e : Encoded) (s : S)
        → view.IsTied n s
        → decode n (bytes (to_payload u e)) ≡ ok w
        → Receives n w (frame n e) s
