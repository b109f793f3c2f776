-- ===== src/Ganglion/Multicast/Consensus/Unordered.antt =====
-- An election does not depend on the order in which the promises came.
use pyplexo.Base.{
  ℕ, ◌≡◌, refl, sym, ap, ◌∙◌, subst, false, none, some, List, [], ◌∷◌, inl, inr, ◌↔◌, arith,
  Option-cases, length,
}
use pyplexo.Schema.{Bytes, PlexoPromise}
use pyplexo.Ganglion.Multicast.Ballot.{Ballot, of_accepted, proposal_is_newer, reduce_newest}
use pyplexo.Ganglion.Multicast.Ballot.Order.{Among, NoneNewer, newer_total, reduce_newest_lem}
use pyplexo.Ganglion.Multicast.Consensus.{with_data, choose_address, elect}
use pyplexo.Ganglion.Multicast.Reactions.{address_of}
use pyplexo.Ganglion.Multicast.State.{Ganglion, Env}

NoneNewer-Among :
    (r x : PlexoPromise) (ps : List PlexoPromise)
    → NoneNewer r ps
    → Among x ps
    → proposal_is_newer (of_accepted r) (of_accepted x) ≡ false
NoneNewer-Among r x [] h a = absurd a
NoneNewer-Among r x (p ∷ ps) (h, rest) (inl e) =
    ap (λ y. proposal_is_newer (of_accepted r) (of_accepted y)) e ∙ h
NoneNewer-Among r x (p ∷ ps) (h, rest) (inr a) = NoneNewer-Among r x ps rest a

-- A promise with an address.
abbrev Valued : PlexoPromise → Type 0
Valued x = (a : Bytes) × (x.multicast_ip ≡ some a)

with_data-none :
    (p : PlexoPromise) (ps : List PlexoPromise)
    → p.multicast_ip ≡ none
    → with_data (p ∷ ps) ≡ with_data ps
unfolding with_data
with_data-none p ps e = ground arith

with_data-some :
    (p : PlexoPromise) (ps : List PlexoPromise) (a : Bytes)
    → p.multicast_ip ≡ some a
    → with_data (p ∷ ps) ≡ p ∷ with_data ps
unfolding with_data
with_data-some p ps a e = ground arith

data_Among :
    (x : PlexoPromise) (ps : List PlexoPromise) → Among x (with_data ps) → Among x ps × Valued x
unfolding with_data
data_Among x [] h = absurd h
data_Among x (p ∷ ps) h = elim (Option-cases p.multicast_ip) [
  | inl e ↦
      let (there, v) = data_Among x ps (subst (Among x) (with_data-none p ps e) h) in (inr there, v)
  | inr (a, e) ↦ elim (subst (Among x) (with_data-some p ps a e) h) [
    | inl same ↦ (inl same, (a, ap (λ y. y.multicast_ip) same ∙ e))
    | inr later ↦ let (there, v) = data_Among x ps later in (inr there, v)
  ]
]

Among-data :
    (x : PlexoPromise) (ps : List PlexoPromise) → Among x ps → Valued x → Among x (with_data ps)
Among-data x [] h v = absurd h
Among-data x (p ∷ ps) (inl same) (a, v) =
    subst (Among x) (sym (with_data-some p ps a (ap (λ y. y.multicast_ip) (sym same) ∙ v)))
      (inl same)
Among-data x (p ∷ ps) (inr there) v = elim (Option-cases p.multicast_ip) [
  | inl e ↦ subst (Among x) (sym (with_data-none p ps e)) (Among-data x ps there v)
  | inr (a, e) ↦ subst (Among x) (sym (with_data-some p ps a e)) (inr (Among-data x ps there v))
]

-- Two lists of promises with the same elements.
abbrev pub HaveSame : List PlexoPromise → List PlexoPromise → Type 0
HaveSame ps qs = (x : PlexoPromise) → Among x ps ↔ Among x qs

-- Promises of one accepted ballot report one address.
abbrev pub Agree : List PlexoPromise → Type 0
Agree ps =
    (x y : PlexoPromise)
    → Among x ps
    → Among y ps
    → of_accepted x ≡ of_accepted y
    → x.multicast_ip ≡ y.multicast_ip

data-HaveSame :
    (ps qs : List PlexoPromise) → HaveSame ps qs → HaveSame (with_data ps) (with_data qs)
data-HaveSame ps qs h x = (
  λ a. let (there, v) = data_Among x ps a in Among-data x qs ((h x).0 there) v,
  λ a. let (there, v) = data_Among x qs a in Among-data x ps ((h x).1 there) v,
)

same_ballot : (a b : Ballot) → proposal_is_newer a b ≡ false → proposal_is_newer b a ≡ false → a ≡ b
same_ballot a b h k = elim (newer_total a b) [
  | inl e ↦ absurd (ground (arith, e))
  | inr (inl e) ↦ e
  | inr (inr e) ↦ absurd (ground (arith, e))
]

reduce_same :
    (p q : PlexoPromise) (ps qs : List PlexoPromise)
    → HaveSame (p ∷ ps) (q ∷ qs)
    → of_accepted (reduce_newest p ps) ≡ of_accepted (reduce_newest q qs)
reduce_same p q ps qs h =
    let r = reduce_newest p ps in
    let t = reduce_newest q qs in
    let (r_in, r_newest) = reduce_newest_lem p ps in
    let (t_in, t_newest) = reduce_newest_lem q qs in
    same_ballot (of_accepted r) (of_accepted t)
      (NoneNewer-Among r t (p ∷ ps) r_newest ((h t).1 t_in))
      (NoneNewer-Among t r (q ∷ qs) t_newest ((h r).0 r_in))

module _ (env : Env) where
  chosen_same :
      (l m : List PlexoPromise)
      → HaveSame l m
      → Agree l
      → choose_address env l ≡ choose_address env m
  unfolding choose_address
  chosen_same [] [] h agree = refl
  chosen_same [] (q ∷ qs) h agree = absurd ((h q).1 (inl refl))
  chosen_same (p ∷ ps) [] h agree = absurd ((h p).0 (inl refl))
  chosen_same (p ∷ ps) (q ∷ qs) h agree =
      let r = reduce_newest p ps in
      let t = reduce_newest q qs in
      let r_in = (reduce_newest_lem p ps).0 in
      let t_in = (h t).1 (reduce_newest_lem q qs).0 in
      ap (address_of env) (agree r t r_in t_in (reduce_same p q ps qs h))

  elect_by :
      (ps qs : List PlexoPromise) (rejections : ℕ) (s : Ganglion)
      → length ps ≡ length qs
      → choose_address env (with_data ps) ≡ choose_address env (with_data qs)
      → elect env (ps, rejections) s ≡ elect env (qs, rejections) s
  unfolding elect
  elect_by ps qs rejections s n c = rw (n, c) refl

  -- An election ends in the same way and leaves the same state for two lists of promises that are of one
  -- length and have the same elements, if promises of one accepted ballot report one address.
  pub elect-HaveSame :
      (ps qs : List PlexoPromise) (rejections : ℕ) (s : Ganglion)
      → length ps ≡ length qs
      → HaveSame ps qs
      → Agree ps
      → elect env (ps, rejections) s ≡ elect env (qs, rejections) s
  elect-HaveSame ps qs rejections s n h agree = elect_by ps qs rejections s n (
      chosen_same (with_data ps) (with_data qs) (data-HaveSame ps qs h)
        (λ x y a b. agree x y (data_Among x ps a).0 (data_Among y ps b).0))
