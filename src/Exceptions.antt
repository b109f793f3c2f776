-- ===== src/Exceptions.antt =====
-- src/plexo/exceptions.py, and how a call ends: with a value, with an exception, or not yet.
-- A method of an object is a function from the state to its outcome and the state that is left, so
-- what was written before an exception stays written.
pub mod Keeps
use pyplexo.Base.{◌≡◌, refl, ◌⊎◌, inl, inr, Bool, Option, none, some, if◌then◌else◌}

-- The exceptions of the module, and below them those of Python and ZeroMQ that the code meets.
pub data Error : Type 0 where
  neuron_not_available neuron_not_found consensus_not_reached ip_address_is_not_multicast : Error
  ip_lease_exists ip_not_found ip_not_leased ips_exhausted : Error
  preparation_rejection proposal_promise_not_made proposal_not_latest : Error
  synapse_does_not_exist synapse_exists transmitter_not_found : Error
  key_error index_error value_error type_error attribute_error cancelled_error zmq_error
        runtime_error :
      Error

-- `pending`: the coroutine is suspended in a loop that polls a flag which is not set.
pub data Result (A : Type 0) : Type 0 where
  ok : A → Result A
  raise : Error → Result A
  pending : Result A

pub Result-cases :
    {A : Type 0} (r : Result A)
    → ((a : A) × (r ≡ ok a)) ⊎ (((e : Error) × (r ≡ raise e)) ⊎ (r ≡ pending))
Result-cases (ok a) = inl (a, refl)
Result-cases (raise e) = inr (inl (e, refl))
Result-cases pending = inr (inr refl)

abbrev pub Action : Type 0 → Type 0 → Type 0
Action S A = S → Result A × S

module _ {S A : Type 0} where
  abbrev pub pure : A → Action S A
  pure a s = (ok a, s)

  abbrev pub throw : Error → Action S A
  throw e s = (raise e, s)

  abbrev pub gets : (S → A) → Action S A
  gets f s = (ok (f s), s)

  -- A result that does not depend on the state.
  abbrev pub lift : Result A → Action S A
  lift r s = (r, s)

  abbrev pub or_throw : Option A → Error → Action S A
  or_throw none e s = (raise e, s)
  or_throw (some a) e s = (ok a, s)

abbrev pub modify : {S : Type 0} → (S → S) → Action S (Unit {0})
modify f s = (ok tt, f s)

abbrev pub throw_if : {S : Type 0} → Bool → Error → Action S (Unit {0})
throw_if b e s = (if b then raise e else ok tt, s)

infixl 5 ◌>>=◌ ◌>>◌
abbrev pub ◌>>=◌ : {S A B : Type 0} → Action S A → (A → Action S B) → Action S B
◌>>=◌ m f s =
    let (r, t) = m s in elim r [ ok a ↦ f a t | raise e ↦ (raise e, t) | pending ↦ (pending, t) ]

abbrev pub ◌>>◌ : {S B : Type 0} → Action S (Unit {0}) → Action S B → Action S B
m >> k = m >>= λ _. k

-- `try: m except …: handler`, where the handler says what becomes of an exception.
abbrev pub catch : {S A : Type 0} → Action S A → (Error → Action S A) → Action S A
catch m handler s =
    let (r, t) = m s in elim r [ ok a ↦ (ok a, t) | raise e ↦ handler e t | pending ↦ (pending, t) ]
