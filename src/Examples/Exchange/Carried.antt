-- ===== src/Examples/Exchange/Carried.antt =====
-- How the network carries one new frame each way.
use pyplexo.Base.{
  ℕ, Bool, true, ◌∙◌, ◌+◌, if◌then◌else◌, ◌-◌, ◌≡◌, ap, List, [], ◌∷◌, length, take, arith,
}
use pyplexo.Codec.{Utf8}
use pyplexo.Exceptions.{ok}
use pyplexo.Plexus.{Plexus}
use pyplexo.Plexus.Bridge
use pyplexo.Plexus.Bridge.{Link, Joint}
use pyplexo.Examples.Exchange.{
  Two, Handler, most_calls, uncarried, carry_there, carry_here, meanwhile, Network, arriving,
  delivered,
}

take_one : {F : Type 0} (f : F) (fs : List F) → take (length (f ∷ fs) - length fs) (f ∷ fs) ≡ f ∷ []
take_one f fs =
    let one : length (f ∷ fs) - length fs ≡ 1 = omega arith in ap (λ k. take k (f ∷ fs)) one

delivered_one :
    {F : Type 0} (delivers : ℕ → Bool) (carried : ℕ) (f : F)
    → ((i : ℕ) → delivers i ≡ true)
    → delivered delivers carried (f ∷ []) ≡ f ∷ []
unfolding delivered
delivered_one delivers carried f all = ground (arith, all (carried + 0))

module _ {S F : Type 0} (u : Utf8) (l : Link S F) (own_entry link_entry : ℕ) (net : Network)
    (here there : Handler S) where
  -- One frame that is new.
  one_uncarried :
      (f : F) (fs : List F) (carried : ℕ) (p : Plexus (Joint S))
      → l.sent p.ganglia.link ≡ f ∷ fs
      → carried ≡ length fs
      → uncarried u l own_entry link_entry carried p ≡ f ∷ []
  one_uncarried f fs carried p e k = rw (e, k) (take_one f fs)

  pub one_arriving :
      (delivers : ℕ → Bool) (f : F) (fs : List F) (carried : ℕ) (p q : Plexus (Joint S))
      → ((i : ℕ) → delivers i ≡ true)
      → l.reaches p.ganglia.link q.ganglia.link ≡ true
      → l.sent p.ganglia.link ≡ f ∷ fs
      → carried ≡ length fs
      → arriving u l own_entry link_entry delivers carried p q ≡ f ∷ []
  one_arriving delivers f fs carried p q all near e k =
      ap
        (λ b.
          if b
          then delivered delivers carried (uncarried u l own_entry link_entry carried p)
          else [])
        near
      ∙ ap (delivered delivers carried) (one_uncarried f fs carried p e k)
      ∙ delivered_one delivers carried f all

  pub carry_there_eq :
      (f : F) (s : Two S) (q : Plexus (Joint S))
      → arriving u l own_entry link_entry net.to_there s.here_carried s.here s.there ≡ f ∷ []
      → Bridge.receive u l own_entry link_entry there most_calls f s.there ≡ (ok tt, q)
      → carry_there u l own_entry link_entry net there s
        ≡ (ok tt, record s { here_carried = length (l.sent s.here.ganglia.link); there = q })
  unfolding carry_there
  carry_there_eq f s q e k = ground (arith, e, k)

  pub carry_here_eq :
      (f : F) (s : Two S) (q : Plexus (Joint S))
      → arriving u l own_entry link_entry net.to_here s.there_carried s.there s.here ≡ f ∷ []
      → Bridge.receive u l own_entry link_entry here most_calls f s.here ≡ (ok tt, q)
      → carry_here u l own_entry link_entry net here s
        ≡ (ok tt, record s { there_carried = length (l.sent s.there.ganglia.link); here = q })
  unfolding carry_here
  carry_here_eq f s q e k = ground (arith, e, k)

  pub meanwhile_eq :
      (s t v : Two S)
      → carry_there u l own_entry link_entry net there s ≡ (ok tt, t)
      → carry_here u l own_entry link_entry net here t ≡ (ok tt, v)
      → meanwhile u l own_entry link_entry net here there s ≡ (ok tt, v)
  unfolding meanwhile carry_there carry_here
  meanwhile_eq s t v e k = ground (arith, e, k)
