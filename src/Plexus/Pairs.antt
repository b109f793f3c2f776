-- ===== src/Plexus/Pairs.antt =====
-- Which pairs of a neuron and a ganglion are adapted.
use pyplexo.Base.{
  ℕ, ◌≡◌, refl, sym, ap, ◌∙◌, subst, String, true, List, [], ◌∷◌, ◌++◌, map, ℕ_key, string_key,
  arith,
}
use pyplexo.Exceptions.{Action, ok}
use pyplexo.Exceptions.Keeps.{Keeps}
use pyplexo.Neuron.{Neuron, name}
use pyplexo.Plexus.{
  Plexus, Ganglia, paired, unpaired, product, gather, pass_value_error, adaptation, note_pairs,
  update_neuron_ganglia,
}

paired-here : (p : Neuron × ℕ) (ps : List (Neuron × ℕ)) → paired (name p.0) p.1 (p ∷ ps) ≡ true
unfolding paired
paired-here p ps = ground arith

paired-there :
    (key : String) (g : ℕ) (p : Neuron × ℕ) (ps : List (Neuron × ℕ))
    → paired key g ps ≡ true
    → paired key g (p ∷ ps) ≡ true
unfolding paired
paired-there key g p ps h = ground arith

-- Pairs that all are in `old` leave nothing.
pub unpaired-within :
    (ps old : List (Neuron × ℕ))
    → ((key : String) (g : ℕ) → paired key g ps ≡ true → paired key g old ≡ true)
    → unpaired ps old ≡ []
unfolding unpaired
unpaired-within [] old h = refl
unpaired-within (p ∷ ps) old h = ground (
  arith,
  h (name p.0) p.1 (paired-here p ps),
  unpaired-within ps old (λ key g k. h key g (paired-there key g p ps k)),
)

gather-Keeps :
    {S V : Type 0} (f : S → V) {A : Type 0} (m : A → Action S (Unit {0})) (l : List A)
    → ((a : A) → Keeps f (m a))
    → Keeps f (gather (map m l))
unfolding gather
gather-Keeps f m [] h s = refl
gather-Keeps f m (a ∷ l) h s = ground (arith, h a s, gather-Keeps f m l h (m a s).1)

module _ {G : Type 0} (h : Ganglia G) where
  -- What adapting its ganglia leaves of a plexus: all but their states.
  record Book : Type 0 where
    neurons : List Neuron
    internal : List ℕ
    external : List ℕ
    noted : List (Neuron × ℕ)

  abbrev book : Plexus G → Book
  book s = record {
    neurons = s.neurons;
    internal = s.internal_ganglia;
    external = s.external_ganglia;
    noted = s.neuron_ganglia;
  }

  adaptation-Keeps : (p : Neuron × ℕ) → Keeps book (adaptation h p)
  unfolding adaptation
  adaptation-Keeps p s = refl

  -- The pairs of a plexus.
  abbrev pub pairs : Plexus G → List (Neuron × ℕ)
  pairs s = product s.neurons (s.internal_ganglia ++ s.external_ganglia)

  abbrev noting : Plexus G → Plexus G
  noting s = record s { neuron_ganglia = pairs s }

  update-noting :
      (s : Plexus G)
      → (update_neuron_ganglia h s).1
        ≡ (gather (map (adaptation h) (unpaired (pairs s) s.neuron_ganglia)) (noting s)).1
  unfolding update_neuron_ganglia note_pairs pass_value_error
  update-noting s = ground arith

  update-nothing :
      (s : Plexus G) → s.neuron_ganglia ≡ pairs s → update_neuron_ganglia h s ≡ (ok tt, s)
  unfolding update_neuron_ganglia note_pairs gather
  update-nothing s e = ground (
    arith,
    e,
    unpaired-within (pairs s) s.neuron_ganglia
        (λ key g k. subst (λ l. paired key g l ≡ true) (sym e) k),
  )

  update-book : (s : Plexus G) → book (update_neuron_ganglia h s).1 ≡ book (noting s)
  update-book s =
      ap book (update-noting s)
      ∙ gather-Keeps book (adaptation h) (unpaired (pairs s) s.neuron_ganglia) (adaptation-Keeps)
          (noting s)

  -- After `_update_neuron_ganglia`, even where an adaptation raised, each neuron of the plexus is noted
  -- with each of its ganglia, and doing it again adapts nothing and changes nothing.
  pub update_neuron_ganglia-again :
      (s : Plexus G)
      → let t = (update_neuron_ganglia h s).1 in
        (t.neuron_ganglia ≡ pairs s) × (update_neuron_ganglia h t ≡ (ok tt, t))
  update_neuron_ganglia-again s =
      let t = (update_neuron_ganglia h s).1 in
      let e : book t ≡ book (noting s) = update-book s in
      let noted = ap (λ b. b.noted) e in
      let same = ap (λ b. product b.neurons (b.internal ++ b.external)) e in
      (noted, update-nothing t (noted ∙ sym same))
