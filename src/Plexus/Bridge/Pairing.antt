-- ===== src/Plexus/Bridge/Pairing.antt =====
-- Which pairs of a neuron and a ganglion are new once a plexus has one neuron more.
use pyplexo.Base.{
  ℕ, ◌≡◌, refl, sym, ap, ◌∙◌, true, false, String, List, [], ◌∷◌, ◌++◌, map, contains, ℕ_key,
  string_key, arith, ◌||◌,
}
use mathlib.Core.List.{append-nil, append_assoc}
use pyplexo.Neuron.{Neuron, name}
use pyplexo.Plexus.{paired, unpaired, product, known}
use pyplexo.Plexus.Pairs.{unpaired-within}

unpaired-append :
    (ps qs old : List (Neuron × ℕ)) → unpaired (ps ++ qs) old ≡ unpaired ps old ++ unpaired qs old
unfolding unpaired
unpaired-append [] qs old = refl
unpaired-append (p ∷ ps) qs old = ground (arith, unpaired-append ps qs old)

unpaired-apart :
    (ps old : List (Neuron × ℕ))
    → ((key : String) (g : ℕ) → paired key g ps ≡ true → paired key g old ≡ false)
    → unpaired ps old ≡ ps
unfolding unpaired paired
unpaired-apart [] old h = refl
unpaired-apart (p ∷ ps) old h = ground (
  arith,
  h (name p.0) p.1 (ground arith),
  unpaired-apart ps old (λ key g k. h key g (ground (arith, k))),
)

paired-append :
    (key : String) (x : ℕ) (ps qs : List (Neuron × ℕ))
    → paired key x (ps ++ qs) ≡ (paired key x ps || paired key x qs)
unfolding paired
paired-append key x [] qs = refl
paired-append key x (p ∷ ps) qs = ground (arith, paired-append key x ps qs)

paired-map :
    (key : String) (x : ℕ) (m : Neuron) (gs : List ℕ)
    → contains key (name m ∷ []) ≡ false
    → paired key x (map (λ g. (m, g)) gs) ≡ false
unfolding paired
paired-map key x m [] h = refl
paired-map key x m (g ∷ gs) h = ground (arith, h, paired-map key x m gs h)

paired-named :
    (key : String) (x : ℕ) (m : Neuron) (gs : List ℕ)
    → paired key x (map (λ g. (m, g)) gs) ≡ true
    → contains key (name m ∷ []) ≡ true
unfolding paired
paired-named key x m [] h = absurd (ground arith)
paired-named key x m (g ∷ gs) h = ground (arith, h, paired-named key x m gs)

paired-unknown :
    (key : String) (x : ℕ) (ns : List Neuron) (gs : List ℕ)
    → known key ns ≡ false
    → paired key x (product ns gs) ≡ false
unfolding known product paired
paired-unknown key x [] gs h = refl
paired-unknown key x (m ∷ ns) gs h = ground (
  arith,
  h,
  paired-append key x (map (λ g. (m, g)) gs) (product ns gs),
  paired-map key x m gs,
  paired-unknown key x ns gs,
)

known-same :
    (key : String) (n : Neuron) (ns : List Neuron)
    → contains key (name n ∷ []) ≡ true
    → known (name n) ns ≡ false
    → known key ns ≡ false
unfolding known
known-same key n [] h k = refl
known-same key n (m ∷ ns) h k = ground (arith, h, k, known-same key n ns)

pub product-append :
    (ns : List Neuron) (n : Neuron) (gs : List ℕ)
    → product (ns ++ n ∷ []) gs ≡ product ns gs ++ map (λ g. (n, g)) gs
unfolding product
product-append [] n gs = append-nil (map (λ g. (n, g)) gs)
product-append (m ∷ ns) n gs =
    ap (λ l. map (λ g. (m, g)) gs ++ l) (product-append ns n gs)
    ∙ sym (append_assoc (map (λ g. (m, g)) gs) (product ns gs) (map (λ g. (n, g)) gs))

-- A neuron that is not known gives its own pairs.
pub unpaired-product :
    (ns : List Neuron) (n : Neuron) (gs : List ℕ)
    → known (name n) ns ≡ false
    → unpaired (product (ns ++ n ∷ []) gs) (product ns gs) ≡ map (λ g. (n, g)) gs
unpaired-product ns n gs h =
    ap (λ l. unpaired l (product ns gs)) (product-append ns n gs)
    ∙ unpaired-append (product ns gs) (map (λ g. (n, g)) gs) (product ns gs)
    ∙ ap (λ l. l ++ unpaired (map (λ g. (n, g)) gs) (product ns gs))
        (unpaired-within (product ns gs) (product ns gs) (λ key g k. k))
    ∙ unpaired-apart (map (λ g. (n, g)) gs) (product ns gs)
        (λ key g k. paired-unknown key g ns gs (known-same key n ns (paired-named key g n gs k) h))
