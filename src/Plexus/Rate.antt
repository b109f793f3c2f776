-- ===== src/Plexus/Rate.antt =====
-- What deliveries can lead to, as numbers: a delivery to a ganglion that reacts is worth itself and
-- those that the reaction asks for.
use pyplexo.Base.{
  ℕ, zero, suc, ◌+◌, ◌<◌, ◌≤◌, ◌≡◌, refl, sym, ap, ◌∙◌, true, false, List, [], ◌∷◌, ◌++◌, map,
  contains, add, discard, length, ℕ_key, if◌then◌else◌, arith, contains-add,
}
use pyplexo.Dendrite.{difference}
use pyplexo.Dendrite.Once.{contains-difference}
use pyplexo.Plexus.{Delivery, transmit, transmit_encoded}
use pyplexo.Plexus.Left.{left}

abbrev pub times : ℕ → ℕ → ℕ
times zero m = 0
times (suc n) m = m + times n m

-- What one delivery can lead to, itself counted, while `k` of the internal ganglia have not reacted and
-- there are `e` external ones: to a ganglion that has not reacted `rate e k`, else `rate e (suc k)`.
abbrev pub rate : ℕ → ℕ → ℕ
rate e zero = 1
rate e (suc k) = 1 + times (k + e) (rate e k)

pub times-add : (a b m : ℕ) → times (a + b) m ≡ times a m + times b m
times-add zero b m = let e : zero + b ≡ b = omega arith in rw e (omega arith)
times-add (suc a) b m =
    let e : suc a + b ≡ suc (a + b) = omega arith in rw e (omega (arith, times-add a b m))

pub times-le : (a b m : ℕ) → a ≤ b → times a m ≤ times b m
times-le zero b m h = omega arith
times-le (suc a) zero m h = absurd (omega arith)
times-le (suc a) (suc b) m h = omega (arith, times-le a b m (omega arith))

pub times_mono : (a m n : ℕ) → m ≤ n → times a m ≤ times a n
times_mono zero m n h = omega arith
times_mono (suc a) m n h = omega (arith, times_mono a m n h)

rate_step : (e k : ℕ) → rate e k ≤ rate e (suc k)
rate_step e zero = omega arith
rate_step e (suc k) = omega (
  arith,
  times_mono (k + e) (rate e k) (rate e (suc k)) (rate_step e k),
  times-le (k + e) (suc k + e) (rate e (suc k)) (omega arith),
)

pub rate_mono : (e a b : ℕ) → a ≤ b → rate e a ≤ rate e b
rate_mono e zero zero h = omega arith
rate_mono e (suc a) zero h = absurd (omega arith)
rate_mono e zero (suc b) h = omega (arith, rate_step e b, rate_mono e zero b (omega arith))
rate_mono e (suc a) (suc b) h = omega (
  arith,
  times_mono (a + e) (rate e a) (rate e b) (rate_mono e a b (omega arith)),
  times-le (a + e) (b + e) (rate e b) (omega arith),
)

-- What the pending deliveries can lead to, with the ganglia that have reacted.
abbrev pub cost : ℕ → ℕ → List ℕ → List Delivery → ℕ
cost e k r [] = 0
cost e k r (transmit g ∷ ds) = (if contains g r then rate e (suc k) else rate e k) + cost e k r ds
cost e k r (transmit_encoded g ∷ ds) = 1 + cost e k r ds

pub cost-append :
    (e k : ℕ) (r : List ℕ) (ds es : List Delivery)
    → cost e k r (ds ++ es) ≡ cost e k r ds + cost e k r es
cost-append e k r [] es = omega arith
cost-append e k r (transmit g ∷ ds) es = ground (arith, cost-append e k r ds es)
cost-append e k r (transmit_encoded g ∷ ds) es = omega (arith, cost-append e k r ds es)

-- No delivery costs more once more ganglia have reacted, and fewer are left.
cost_mono :
    (e k j : ℕ) (r q : List ℕ) (ds : List Delivery)
    → ((x : ℕ)
        → (if contains x q then rate e (suc j) else rate e j)
          ≤ (if contains x r then rate e (suc k) else rate e k))
    → cost e j q ds ≤ cost e k r ds
cost_mono e k j r q [] h = omega arith
cost_mono e k j r q (transmit g ∷ ds) h = omega (arith, h g, cost_mono e k j r q ds h)
cost_mono e k j r q (transmit_encoded g ∷ ds) h = omega (arith, cost_mono e k j r q ds h)

pub cost-map :
    (e k : ℕ) (r gs : List ℕ)
    → ((x : ℕ) → contains x gs ≡ true → contains x r ≡ false)
    → cost e k r (map transmit gs) ≡ times (length gs) (rate e k)
cost-map e k r [] h = refl
cost-map e k r (g ∷ gs) h =
    ground (arith, h g (ground arith), cost-map e k r gs (λ x m. h x (ground arith)))

left-discard : (x : ℕ) (r gs : List ℕ) → left (x ∷ r) gs ≡ left r (discard x gs)
left-discard x r [] = refl
left-discard x r (g ∷ gs) = ground (arith, left-discard x r gs)

pub length-difference : (r gs : List ℕ) → length (difference gs r) ≡ left r gs
unfolding difference
length-difference [] [] = refl
length-difference [] (g ∷ gs) = ground (arith, length-difference [] gs)
length-difference (x ∷ r) gs = length-difference r (discard x gs) ∙ sym (left-discard x r gs)

pub left-length : (r gs : List ℕ) → left r gs ≤ length gs
left-length r [] = omega arith
left-length r (g ∷ gs) = ground (arith, left-length r gs)

pub left-same : (g : ℕ) (r gs : List ℕ) → contains g r ≡ true → left (add g r) gs ≡ left r gs
left-same g r [] h = refl
left-same g r (x ∷ gs) h = ground (arith, left-same g r gs h, contains-add x g r)

pub difference-fresh :
    (gs r : List ℕ) (x : ℕ) → contains x (difference gs r) ≡ true → contains x r ≡ false
difference-fresh gs r x h = ground (arith, contains-difference x gs r)

add-present : (x g : ℕ) (r : List ℕ) → contains g r ≡ true → contains x (add g r) ≡ contains x r
add-present x g r h = ground (arith, contains-add x g r)

-- A ganglion that has reacted already reacts again: its delivery is worth what it leads to.
pub again :
    (e k g : ℕ) (r : List ℕ) (ds es ts : List Delivery)
    → contains g r ≡ true
    → cost e k (add g r) ts ≤ times (k + e) (rate e k)
    → cost e k (add g r) (ds ++ es ++ ts) < cost e k r (ds ++ transmit g ∷ es)
again e k g r ds es ts h few =
    let weaker : (x : ℕ)
        → (if contains x (add g r) then rate e (suc k) else rate e k)
          ≤ (if contains x r then rate e (suc k) else rate e k) =
      λ x. ground (arith, add-present x g r h) in
    omega (
      arith,
      cost-append e k (add g r) (ds ++ es) ts,
      cost-append e k (add g r) ds es,
      cost-append e k r ds (transmit g ∷ es),
      cost_mono e k k r (add g r) ds weaker,
      cost_mono e k k r (add g r) es weaker,
      ap (λ b. if b then rate e (suc k) else rate e k) h,
    )

-- A ganglion that had not reacted does: fewer are left.
pub first :
    (e j k g : ℕ) (r : List ℕ) (ds es ts : List Delivery)
    → contains g r ≡ false
    → suc j ≤ k
    → cost e j (add g r) ts ≤ times (j + e) (rate e j)
    → cost e j (add g r) (ds ++ es ++ ts) < cost e k r (ds ++ transmit g ∷ es)
first e j k g r ds es ts h less few =
    let weaker : (x : ℕ)
        → (if contains x (add g r) then rate e (suc j) else rate e j)
          ≤ (if contains x r then rate e (suc k) else rate e k) =
      λ x. ground (
        arith,
        contains-add x g r,
        rate_mono e (suc j) k less,
        rate_mono e j k (omega arith),
        rate_mono e (suc j) (suc k) (omega arith),
      ) in
    omega (
      arith,
      cost-append e j (add g r) (ds ++ es) ts,
      cost-append e j (add g r) ds es,
      cost-append e k r ds (transmit g ∷ es),
      cost_mono e k j r (add g r) ds weaker,
      cost_mono e k j r (add g r) es weaker,
      rate_mono e (suc j) k less,
      ap (λ b. if b then rate e (suc k) else rate e k) h,
    )
