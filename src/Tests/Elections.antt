-- ===== src/Tests/Elections.antt =====
-- A run of the theorem on the order of promises.
use pyplexo.Base.{◌≡◌, refl, sym, ap, ◌∙◌, [], ◌∷◌, inl, inr, arith}
use pyplexo.Ganglion.Multicast.Ballot.{of_accepted}
use pyplexo.Ganglion.Multicast.Consensus.{elect}
use pyplexo.Ganglion.Multicast.Consensus.Unordered.{HaveSame, Agree, elect-HaveSame}
use pyplexo.Tests.Setting.{env, running, promise, newer_promise}

swapped-HaveSame : HaveSame (promise ∷ newer_promise ∷ []) (newer_promise ∷ promise ∷ [])
swapped-HaveSame x = (
  λ a. elim a [ inl e ↦ inr (inl e) | inr b ↦ elim b [ inl e ↦ inl e | inr h ↦ absurd h ] ],
  λ a. elim a [ inl e ↦ inr (inl e) | inr b ↦ elim b [ inl e ↦ inl e | inr h ↦ absurd h ] ],
)

apart : of_accepted promise ≡ of_accepted newer_promise → ⊥
apart h = omega (arith, ap (λ b. b.proposal_id) h)

promises-Agree : Agree (promise ∷ newer_promise ∷ [])
promises-Agree x y (inl a) (inl b) e = ap (λ p. p.multicast_ip) (a ∙ sym b)
promises-Agree x y (inl a) (inr (inl b)) e =
    absurd (apart (ap of_accepted (sym a) ∙ e ∙ ap of_accepted b))
promises-Agree x y (inr (inl a)) (inl b) e =
    absurd (apart (ap of_accepted (sym b) ∙ sym e ∙ ap of_accepted a))
promises-Agree x y (inr (inl a)) (inr (inl b)) e = ap (λ p. p.multicast_ip) (a ∙ sym b)
promises-Agree x y (inr (inr h)) b e = absurd h
promises-Agree x y (inl a) (inr (inr h)) e = absurd h
promises-Agree x y (inr (inl a)) (inr (inr h)) e = absurd h

elect-HaveSame_example :
    elect env (promise ∷ newer_promise ∷ [], 0) running
    ≡ elect env (newer_promise ∷ promise ∷ [], 0) running
elect-HaveSame_example =
    elect-HaveSame env (promise ∷ newer_promise ∷ []) (newer_promise ∷ promise ∷ []) 0 running refl
      swapped-HaveSame promises-Agree
