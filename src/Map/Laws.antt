-- ===== src/Map/Laws.antt =====
-- Lookup after insertion and removal, and the order of the keys.
use mapplauncherd.Base.{
  true, [], ◌∷◌, ◌++◌, none, some, if◌then◌else◌, ◌≡◌, refl, ap, sym, append-nil, ◌∙◌, arith, All,
  append_assoc,
}
use mapplauncherd.Map.Order.{Ord}
use mapplauncherd.Map.{Map, find, insert, erase}

module _ {ℓ κ} {K : Type ℓ} {V : Type κ} ⦃o : Ord K⦄ where
  pub find-insert :
      (k j : K) (v : V) (m : Map K V)
      → find j (insert k v m) ≡ (if o.eqb k j then some v else find j m)
  unfolding find insert
  find-insert k j v [] = refl
  find-insert k j v ((i, w) ∷ m) =
      ground (arith, o.eqb_iff k j, o.eqb_iff i k, o.eqb_iff i j, find-insert k j v m)

  pub find-erase :
      (k j : K) (m : Map K V) → find j (erase k m) ≡ (if o.eqb k j then none else find j m)
  unfolding find erase
  find-erase k j [] = ground arith
  find-erase k j ((i, w) ∷ m) =
      ground (arith, o.eqb_iff k j, o.eqb_iff i k, o.eqb_iff i j, find-erase k j m)

  -- Every key of `m` is larger than `k`; every key of `m` is smaller than `k`.
  abbrev pub Above : K → Map K V → Type 0
  Above k = λ m. All (λ (e : K × V). o.ltb k e.0 ≡ true) m

  abbrev pub Below : K → Map K V → Type 0
  Below k = λ m. All (λ (e : K × V). o.ltb e.0 k ≡ true) m

  -- The keys stand in increasing order, so each of them stands there once.
  abbrev pub IsSorted : Map K V → Type 0
  IsSorted [] = Unit {0}
  IsSorted ((k, v) ∷ m) = Above k m × IsSorted m

  Above-trans : (j k : K) (m : Map K V) → o.ltb j k ≡ true → Above k m → Above j m
  Above-trans j k [] h a = tt
  Above-trans j k ((i, w) ∷ m) h a = (o.lt_trans j k i h a.0, Above-trans j k m h a.1)

  Above-insert :
      (j k : K) (v : V) (m : Map K V) → o.ltb j k ≡ true → Above j m → Above j (insert k v m)
  unfolding insert
  Above-insert j k v [] h a = (h, tt)
  Above-insert j k v ((i, w) ∷ m) h a = ground (arith, Above-insert j k v m h a.1)

  pub insert-IsSorted : (k : K) (v : V) (m : Map K V) → IsSorted m → IsSorted (insert k v m)
  unfolding insert
  insert-IsSorted k v [] s = (tt, tt)
  insert-IsSorted k v ((i, w) ∷ m) s = ground (
    arith,
    o.eqb_iff i k,
    insert-IsSorted k v m s.1,
    Above-trans k i m,
    o.lt_total k i,
    Above-insert i k v m,
    o.eqb_iff k i,
  )

  Above-erase : (j k : K) (m : Map K V) → Above j m → Above j (erase k m)
  unfolding erase
  Above-erase j k [] a = tt
  Above-erase j k ((i, w) ∷ m) a = ground (arith, Above-erase j k m a.1)

  pub erase-IsSorted : (k : K) (m : Map K V) → IsSorted m → IsSorted (erase k m)
  unfolding erase
  erase-IsSorted k [] s = tt
  erase-IsSorted k ((i, w) ∷ m) s = ground (arith, erase-IsSorted k m s.1, Above-erase i k m s.0)

  -- A key above all others goes to the end.
  insert-above : (k : K) (v : V) (m : Map K V) → Below k m → insert k v m ≡ m ++ (k, v) ∷ []
  unfolding insert
  insert-above k v [] b = refl
  insert-above k v ((i, w) ∷ m) b =
      ground (arith, o.lt_ne i k b.0, o.lt_asymm i k b.0, insert-above k v m b.1)

  -- Insertion of the entries of a map one by one.
  unfoldable pub insert_all : Map K V → Map K V → Map K V
  insert_all [] acc = acc
  insert_all ((k, v) ∷ m) acc = insert_all m (insert k v acc)

  abbrev Precedes : Map K V → Map K V → Type 0
  Precedes acc m = All (λ (e : K × V). Above e.0 m) acc

  Precedes-Below : (k : K) (v : V) (m acc : Map K V) → Precedes acc ((k, v) ∷ m) → Below k acc
  Precedes-Below k v m [] p = tt
  Precedes-Below k v m (e ∷ acc) p = (p.0.0, Precedes-Below k v m acc p.1)

  Precedes-concat :
      (k : K) (v : V) (m acc : Map K V)
      → Above k m
      → Precedes acc ((k, v) ∷ m)
      → Precedes (acc ++ (k, v) ∷ []) m
  Precedes-concat k v m [] a p = (a, tt)
  Precedes-concat k v m (e ∷ acc) a p = (p.0.1, Precedes-concat k v m acc a p.1)

  insert_all-append : (m acc : Map K V) → IsSorted m → Precedes acc m → insert_all m acc ≡ acc ++ m
  unfolding insert_all
  insert_all-append [] acc s p = sym (append-nil acc)
  insert_all-append ((k, v) ∷ m) acc s p =
      ap (insert_all m) (insert-above k v acc (Precedes-Below k v m acc p))
      ∙ insert_all-append m (acc ++ (k, v) ∷ []) s.1 (Precedes-concat k v m acc s.0 p)
      ∙ append_assoc acc ((k, v) ∷ []) m

  -- Inserting the entries of a map into an empty one gives the map.
  pub insert_all-nil : (m : Map K V) → IsSorted m → insert_all m [] ≡ m
  insert_all-nil m s = insert_all-append m [] s tt
