-- ===== src/Examples/Rounds.antt =====
-- The loop that the programs under examples share: a message a second, numbered from 1.
use Prim.Native.String.{◌++◌ as ◌++ᵗ◌}
use pyplexo.Base.{ℕ, zero, suc, ◌+◌, ◌≡◌, refl, sym, ap, ◌∙◌, String, List, [], ◌∷◌, ◌++◌, arith}
use mathlib.Core.List.{append-nil, append_assoc}
use pyplexo.Codec.{Serialiser}
use pyplexo.Exceptions.{
  Action, Result, Error, ok, raise, pending, pure, throw, lift, catch, ◌>>=◌, ◌>>◌,
  transmitter_not_found,
}
use pyplexo.Schema.{Bytes, Value, attributes}

-- `f"Hello, Plexo+Inproc {i} …"`, over how a number is written
pub hello : (ℕ → String) → ℕ → String
hello decimal i = "Hello, Plexo+Inproc " ++ᵗ (decimal i ++ᵗ " …")

-- `Foo` with its message
abbrev pub foo : String → Value
foo m = attributes "Foo" (("message", m) ∷ [])

-- `except TransmitterNotFound`: logged
unfoldable pub log_not_found : {S : Type 0} → Error → Action S (Unit {0})
log_not_found transmitter_not_found = pure tt
log_not_found e = throw e

module _ {S : Type 0} (send : Value → Action S (Unit {0})) where
  -- Some rounds of `while True`. To make the message of a round may raise.
  unfoldable pub rounds : (ℕ → Result Value) → ℕ → ℕ → Action S (Unit {0})
  unfolding log_not_found
  rounds message zero i = pure tt
  rounds message (suc k) i = do
    v ← lift (message i)
    catch (send v) log_not_found
    rounds message k (i + 1)

-- A message that `serialize` writes out for the log, which may raise
unfoldable pub logged : Serialiser → (ℕ → Value) → ℕ → Result Value
logged class message i = elim (class.dumps (message i)) [
  | ok _ ↦ ok (message i)
  | raise e ↦ raise e
  | pending ↦ pending
]

pub logged_ok :
    (class : Serialiser) (message : ℕ → Value)
    → ((j : ℕ) → (b : Bytes) × (class.dumps (message j) ≡ ok b))
    → (j : ℕ) → logged class message j ≡ ok (message j)
unfolding logged
logged_ok class message writes j = let (b, h) = writes j in ground (arith, h)

-- The values of the rounds.
unfoldable pub values : (ℕ → Value) → ℕ → ℕ → List Value
values f zero i = []
values f (suc k) i = f i ∷ values f k (i + 1)

module _ {S : Type 0} (send : Value → Action S (Unit {0})) (Good : S → Type 0)
    (seen : S → List Value) where
  -- What sending a value comes to.
  pub record Sent (v : Value) (s : S) : Type 0 where
    pub state : S
    pub sends : send v s ≡ (ok tt, state)
    pub still : Good state
    pub more : seen state ≡ seen s ++ v ∷ []

  -- What some rounds come to.
  pub record Rounded (vs : List Value) (message : ℕ → Result Value) (k i : ℕ) (s : S) : Type 0 where
    pub state : S
    pub ends : rounds send message k i s ≡ (ok tt, state)
    pub still : Good state
    pub more : seen state ≡ seen s ++ vs

  round_step :
      (message : ℕ → Result Value) (v : Value) (k i : ℕ) (s t : S)
      → message i ≡ ok v
      → send v s ≡ (ok tt, t)
      → rounds send message (suc k) i s ≡ rounds send message k (i + 1) t
  unfolding rounds
  round_step message v k i s t h e = ground (arith, h, e)

  -- If to send a value shows it once and keeps a state good, then so do the values of some rounds, each
  -- once and in order, and the rounds end well.
  pub rounds-Rounded :
      (message : ℕ → Result Value) (f : ℕ → Value) (k i : ℕ) (s : S)
      → ((v : Value) (s : S) → Good s → Sent v s)
      → ((j : ℕ) → message j ≡ ok (f j))
      → Good s
      → Rounded (values f k i) message k i s
  unfolding rounds values
  rounds-Rounded message f zero i s sends makes good = record {
    state = s;
    ends = refl;
    still = good;
    more = sym (append-nil (seen s));
  }
  rounds-Rounded message f (suc k) i s sends makes good =
      let a = sends (f i) s good in
      let r = rounds-Rounded message f k (i + 1) a.state sends makes a.still in
      record {
        state = r.state;
        ends = round_step message (f i) k i s a.state (makes i) a.sends ∙ r.ends;
        still = r.still;
        more =
            r.more
            ∙ ap (λ l. l ++ values f k (i + 1)) a.more
            ∙ append_assoc (seen s) (f i ∷ []) (values f k (i + 1));
      }
