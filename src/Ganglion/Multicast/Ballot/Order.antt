-- ===== src/Ganglion/Multicast/Ballot/Order.antt =====
-- The order of ballots is total, and the reduction picks the greatest accepted ballot.
use pyplexo.Base.{◌≡◌, refl, ◌∙◌, true, false, List, [], ◌∷◌, ◌⊎◌, inl, inr, arith, ◌↔◌}
use pyplexo.Ganglion.Multicast.Ballot.{
  Ballot, of_accepted, proposal_is_newer, proposal_is_equal, newest_accepted_proposal,
  reduce_newest,
}
use pyplexo.Schema.{PlexoPromise}

pub newer_total :
    (a b : Ballot) → (proposal_is_newer a b ≡ true) ⊎ ((a ≡ b) ⊎ (proposal_is_newer b a ≡ true))
unfolding proposal_is_newer
newer_total a b = ground arith

pub newer_asymm : (a b : Ballot) → proposal_is_newer a b ≡ true → proposal_is_newer b a ≡ false
unfolding proposal_is_newer
newer_asymm a b h = ground arith

pub newer_irrefl : (a : Ballot) → proposal_is_newer a a ≡ false
unfolding proposal_is_newer
newer_irrefl a = ground arith

pub newer_trans :
    (a b c : Ballot)
    → proposal_is_newer a b ≡ true
    → proposal_is_newer b c ≡ true
    → proposal_is_newer a c ≡ true
unfolding proposal_is_newer
newer_trans a b c h k = ground arith

-- The same order, as "not older".
pub not_older_trans :
    (a b c : Ballot)
    → proposal_is_newer b a ≡ false
    → proposal_is_newer c b ≡ false
    → proposal_is_newer c a ≡ false
unfolding proposal_is_newer
not_older_trans a b c h k = ground arith

pub equal→eq : (a b : Ballot) → proposal_is_equal a b ≡ true → a ≡ b
unfolding proposal_is_equal
equal→eq a b h = ground arith

pub eq→equal : (a b : Ballot) → a ≡ b → proposal_is_equal a b ≡ true
unfolding proposal_is_equal
eq→equal a b h = ground arith

-- Ballots are totally ordered: one of two is newer or they are equal, never both ways, newer is
-- transitive, and `proposal_is_equal` tests equality.
pub ballot_order :
    (a b c : Ballot)
    → ((proposal_is_newer a b ≡ true) ⊎ ((a ≡ b) ⊎ (proposal_is_newer b a ≡ true)))
      × (proposal_is_newer a b ≡ true → proposal_is_newer b a ≡ false)
      × (proposal_is_newer a b ≡ true → proposal_is_newer b c ≡ true → proposal_is_newer a c ≡ true)
      × ((proposal_is_equal a b ≡ true) ↔ (a ≡ b))
ballot_order a b c =
    (newer_total a b, newer_asymm a b, newer_trans a b c, (equal→eq a b, eq→equal a b))

abbrev pub NoneNewer : PlexoPromise → List PlexoPromise → Type 0
NoneNewer r [] = Unit
NoneNewer r (p ∷ ps) = (proposal_is_newer (of_accepted r) (of_accepted p) ≡ false) × NoneNewer r ps

abbrev pub Among : PlexoPromise → List PlexoPromise → Type 0
Among r [] = ⊥
Among r (p ∷ ps) = (r ≡ p) ⊎ Among r ps

newest_not_older :
    (p q : PlexoPromise)
    → (proposal_is_newer (of_accepted (newest_accepted_proposal p q)) (of_accepted p) ≡ false)
      × (proposal_is_newer (of_accepted (newest_accepted_proposal p q)) (of_accepted q) ≡ false)
unfolding newest_accepted_proposal proposal_is_newer
newest_not_older p q = ground arith

newest_either :
    (p q : PlexoPromise) → (newest_accepted_proposal p q ≡ p) ⊎ (newest_accepted_proposal p q ≡ q)
unfolding newest_accepted_proposal
newest_either p q = ground arith

Among-either :
    {p q np r : PlexoPromise} (qs : List PlexoPromise)
    → (np ≡ p) ⊎ (np ≡ q)
    → Among r (np ∷ qs)
    → Among r (p ∷ q ∷ qs)
Among-either qs (inl e) (inl h) = inl (h ∙ e)
Among-either qs (inr e) (inl h) = inr (inl (h ∙ e))
Among-either qs e (inr h) = inr (inr h)

-- The reduction of promises picks one of them, and none of them has a newer accepted ballot than it.
pub reduce_newest_lem :
    (p : PlexoPromise) (ps : List PlexoPromise)
    → Among (reduce_newest p ps) (p ∷ ps) × NoneNewer (reduce_newest p ps) (p ∷ ps)
unfolding reduce_newest
reduce_newest_lem p [] = (inl refl, (newer_irrefl (of_accepted p), tt))
reduce_newest_lem p (q ∷ qs) =
    let (among, (newest, rest)) = reduce_newest_lem (newest_accepted_proposal p q) qs in
    let r = of_accepted (reduce_newest (newest_accepted_proposal p q) qs) in
    let np = of_accepted (newest_accepted_proposal p q) in
    let (not_p, not_q) = newest_not_older p q in
    (
      Among-either qs (newest_either p q) among,
      (
        not_older_trans (of_accepted p) np r not_p newest,
        (not_older_trans (of_accepted q) np r not_q newest, rest),
      ),
    )
