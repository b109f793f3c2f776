-- ===== src/Examples/EpgmSend.antt =====
-- examples/synapse/zmq-epgm/string_send.py
use Prim.Native.String.{◌++◌ as ◌++ᵗ◌}
use mathlib.Core.List.{append-nil, append_assoc}
use pyplexo.Base.{
  ℕ, zero, suc, ◌+◌, ◌≡◌, sym, ap, ◌∙◌, String, Option, none, some, List, [], ◌∷◌, ◌++◌, arith,
}
use pyplexo.Codec.{Encoded, bytes, string}
use pyplexo.Exceptions.{Action, Result, ok, raise, type_error, pure, lift, modify, ◌>>=◌, ◌>>◌}
use pyplexo.Namespace
use pyplexo.Neuron
use pyplexo.Neuron.{Neuron, name}
use pyplexo.Schema.{Value, text}
use pyplexo.Ganglion.External.State.{Synapse, to_payload}
use pyplexo.Synapse.Epgm
use pyplexo.Synapse.Epgm.{Net, Epgm, Frame}
use pyplexo.Synapse.Epgm.Heard.{Made, made, sent}

-- The synapse, and what it has sent, in order.
pub record Sender : Type 0 where
  pub synapse : Synapse Epgm
  pub frames : List Frame

module _ (net : Net) (decimal : ℕ → String) (test_ip_address : ℕ) where
  pub str_neuron : Neuron
  unfolding Neuron.init Namespace.init string
  str_neuron =
      Neuron.init "str" (Namespace.init ("dev" ∷ "plexo" ∷ "test" ∷ []) ".") (string net.utf8) none

  -- `f"Hello, Plexo+EPGM {i} …"`
  abbrev hello : ℕ → String
  hello i = "Hello, Plexo+EPGM " ++ᵗ (decimal i ++ᵗ " …")

  -- `str.encode`
  str_encode : Value → Result Encoded
  str_encode (text s) = ok (bytes (net.utf8.encode s))
  str_encode v = raise type_error

  sent_frames : Option Frame → List Frame
  sent_frames none = []
  sent_frames (some f) = f ∷ []

  -- `create_external_encoder_transmitter(synapse, str.encode)`
  unfoldable transmitter : Value → Action Sender (Unit {0})
  unfolding str_encode sent_frames Epgm.transmit
  transmitter v = do
    e ← lift (str_encode v)
    modify (λ s. record s { frames = s.frames ++ sent_frames (Epgm.transmit net s.synapse e) })

  -- Some rounds of the loop.
  unfoldable pub send_hello_str : ℕ → ℕ → Action Sender (Unit {0})
  unfolding transmitter
  send_hello_str zero i = pure tt
  send_hello_str (suc k) i = do transmitter (text (hello i)); send_hello_str k (i + 1)

  -- `run`: the synapse is made, and so many rounds run in a task.
  unfoldable pub run : ℕ → Result (Unit {0}) × Sender
  unfolding send_hello_str Epgm.init
  run k =
      let (r, o) = Epgm.init net str_neuron test_ip_address none 5561 in
      (do lift r; modify (λ s. (send_hello_str k 1 s).1)) (record { synapse = o; frames = [] })

  -- What a round sends.
  abbrev frame : Synapse Epgm → ℕ → Frame
  frame o i = record {
    address = o.channel.multicast_address;
    topic = o.topic_bytes;
    payload = net.utf8.encode (hello i);
  }

  pub frames_from : Synapse Epgm → ℕ → ℕ → List Frame
  frames_from o zero i = []
  frames_from o (suc k) i = frame o i ∷ frames_from o k (i + 1)

  round_eq :
      (i : ℕ) (s : Sender)
      → Made net str_neuron test_ip_address s.synapse
      → transmitter (text (hello i)) s
        ≡ (ok tt, record s { frames = s.frames ++ frame s.synapse i ∷ [] })
  unfolding transmitter str_encode sent_frames to_payload
  round_eq i s m =
      ground
        (arith, sent net str_neuron test_ip_address s.synapse (bytes (net.utf8.encode (hello i))) m)

  send-frames :
      (k i : ℕ) (s : Sender)
      → Made net str_neuron test_ip_address s.synapse
      → send_hello_str k i s ≡ (ok tt, record s { frames = s.frames ++ frames_from s.synapse k i })
  unfolding send_hello_str frames_from
  send-frames zero i s m = ap (λ l. (ok tt, record s { frames = l })) (sym (append-nil s.frames))
  send-frames (suc k) i s m =
      let t : Sender = record s { frames = s.frames ++ frame s.synapse i ∷ [] } in
      let rest : send_hello_str k (i + 1) t
          ≡ (ok tt, record t { frames = t.frames ++ frames_from s.synapse k (i + 1) }) =
        send-frames k (i + 1) t m in
      let step : send_hello_str (suc k) i s ≡ send_hello_str k (i + 1) t =
        ground (arith, round_eq i s m) in
      step
      ∙ rest
      ∙ ap (λ l. (ok tt, record s { frames = l }))
          (append_assoc s.frames (frame s.synapse i ∷ []) (frames_from s.synapse k (i + 1)))

  -- If the synapse can be made, then however many rounds the program runs, it sends the message of each
  -- round once and in order, to the group of its address and with the neuron's name as the topic.
  pub run-frames :
      (k : ℕ) (o : Synapse Epgm)
      → Epgm.init net str_neuron test_ip_address none 5561 ≡ (ok tt, o)
      → (run k ≡ (ok tt, record { synapse = o; frames = frames_from o k 1 }))
        × (o.channel.multicast_address ≡ test_ip_address)
        × (o.topic_bytes ≡ net.utf8.encode (name str_neuron))
  unfolding run
  run-frames k o h =
      let m = made net str_neuron test_ip_address none 5561 o h in
      (
        ground (arith, h, send-frames k 1 (record { synapse = o; frames = [] }) m),
        m.address,
        m.topic,
      )
