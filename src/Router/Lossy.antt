-- ===== src/Router/Lossy.antt =====
-- The pool as a map that may forget: what it answers for a key is what was last made for it.
use text.Mathlib.TextEquality.{eq_iff}
use astrbot_shipyard_neo.Base.{
  ℕ, suc, ◌+◌, ◌≤◌, ◌≡◌, refl, ◌∙◌, ap, sym, Bool, true, false, Option, none, some, List, [], ◌∷◌,
  ◌++◌, length, arith, if◌then◌else◌, first, delete, count, Bool-cases, inl, inr, ◌⊎◌, ==→≡,
  ==_refl,
}
use astrbot_shipyard_neo.Router.AdapterPool.{
  PoolKey, same_key, PoolEntry, is_entry, get_entry, pop, put_last, is_past, drop_oldest,
  evict_locked,
}

pub same_key_refl : (k : PoolKey) → same_key k k ≡ true
same_key_refl k = rw (==_refl k.endpoint, (eq_iff k.runtime_type k.runtime_type).1 refl) refl

pub same_key_sound : (j k : PoolKey) → same_key j k ≡ true → j ≡ k
same_key_sound j k h =
    let endpoint : j.endpoint ≡ k.endpoint = ==→≡ j.endpoint k.endpoint (ground arith) in
    let text : j.runtime_type ≡ k.runtime_type =
      (eq_iff j.runtime_type k.runtime_type).0 (ground arith) in
    cc

same_key_trans : (i k j : PoolKey) → same_key i k ≡ true → same_key i j ≡ same_key k j
same_key_trans i k j h = ap (λ a. same_key a j) (same_key_sound i k h)

module _ {A : Type 0} where
  pub count-delete :
      (test bad : A → Bool) (xs : List A) → count test (delete bad xs) ≤ count test xs
  count-delete test bad [] = omega arith
  count-delete test bad (x ∷ xs) = ground (arith, count-delete test bad xs)

  pub length-delete : (bad : A → Bool) (xs : List A) → length (delete bad xs) ≤ length xs
  length-delete bad [] = omega arith
  length-delete bad (x ∷ xs) = ground (arith, length-delete bad xs)

  pub length-delete_found :
      (test : A → Bool) (xs : List A) {a : A}
      → first test xs ≡ some a
      → suc (length (delete test xs)) ≤ length xs
  length-delete_found test [] h = cc
  length-delete_found test (x ∷ xs) {a} h = elim (Bool-cases (test x)) [
    | inl t ↦ rw t (omega (arith, length-delete test xs))
    | inr t ↦ rw t (omega (arith, length-delete_found test xs (rw t at h)))
  ]

  pub count-none : (test : A → Bool) (xs : List A) → count test xs ≤ 0 → first test xs ≡ none
  count-none test [] h = refl
  count-none test (x ∷ xs) h = ground (arith, count-none test xs)

  -- In what a deletion leaves of a list with at most one such row, the row is the same or gone.
  pub first-delete :
      (test bad : A → Bool) (xs : List A)
      → count test xs ≤ 1
      → (first test (delete bad xs) ≡ first test xs) ⊎ (first test (delete bad xs) ≡ none)
  first-delete test bad [] h = inl refl
  first-delete test bad (x ∷ xs) h = ground (
    arith,
    first-delete test bad xs,
    count-none test xs,
    count-delete test bad xs,
    count-none test (delete bad xs),
  )

module _ {V : Type 0} where
  -- Each key at most once.
  abbrev pub Once : List (PoolEntry V) → Type 0
  Once entries = (j : PoolKey) → count (is_entry j) entries ≤ 1

  -- The pool answers with what the map holds, or has forgotten it.
  abbrev pub Represents : (PoolKey → Option (PoolEntry V)) → List (PoolEntry V) → Type 0
  Represents f entries = (j : PoolKey) → (get_entry j entries ≡ f j) ⊎ (get_entry j entries ≡ none)

  abbrev pub assign :
      PoolEntry V → (PoolKey → Option (PoolEntry V)) → PoolKey → Option (PoolEntry V)
  assign e f j = if same_key e.key j then some e else f j

  pub count-drop :
      (m : ℕ) (test : PoolEntry V → Bool) (es : List (PoolEntry V))
      → count test (drop_oldest m es) ≤ count test es
  count-drop m test [] = omega arith
  count-drop m test (e ∷ es) = ground (arith, count-drop m test es)

  first-drop :
      (m : ℕ) (test : PoolEntry V → Bool) (es : List (PoolEntry V))
      → count test es ≤ 1
      → (first test (drop_oldest m es) ≡ first test es) ⊎ (first test (drop_oldest m es) ≡ none)
  first-drop m test [] h = inl refl
  first-drop m test (e ∷ es) h = ground (
    arith,
    first-drop m test es,
    count-none test es,
    count-drop m test es,
    count-none test (drop_oldest m es),
  )

  pub drop-bounded : (m : ℕ) (es : List (PoolEntry V)) → length (drop_oldest m es) ≤ m
  drop-bounded m [] = omega arith
  drop-bounded m (e ∷ es) = ground (arith, drop-bounded m es)

  pub get-pop :
      (j k : PoolKey) (es : List (PoolEntry V))
      → (get_entry j (pop k es) ≡ (if same_key k j then none else get_entry j es))
  get-pop j k [] = ground arith
  get-pop j k (e ∷ es) = elim (Bool-cases (is_entry k e)) [
    | inl mine ↦ rw mine (ground (arith, get-pop j k es, same_key_trans e.key k j mine))
    | inr other ↦ rw other (elim (Bool-cases (same_key k j)) [
      | inl here ↦
          let flip : same_key e.key j ≡ same_key e.key k =
            ap (λ a. same_key e.key a) (sym (same_key_sound k j here)) in
          ground (arith, get-pop j k es)
      | inr elsewhere ↦ ground (arith, get-pop j k es)
    ])
  ]

  pub get-snoc :
      (j : PoolKey) (e : PoolEntry V) (es : List (PoolEntry V))
      → get_entry j es ≡ none
      → get_entry j (es ++ e ∷ []) ≡ (if same_key e.key j then some e else none)
  get-snoc j e [] h = refl
  get-snoc j e (d ∷ es) h = ground (arith, get-snoc j e es)

  get-snoc_other :
      (j : PoolKey) (e : PoolEntry V) (es : List (PoolEntry V))
      → same_key e.key j ≡ false
      → get_entry j (es ++ e ∷ []) ≡ get_entry j es
  get-snoc_other j e [] h = ground arith
  get-snoc_other j e (d ∷ es) h = ground (arith, get-snoc_other j e es)

  pub count-pop :
      (j k : PoolKey) (es : List (PoolEntry V))
      → count (is_entry j) (pop k es) ≤ count (is_entry j) es
  count-pop j k es = count-delete (is_entry j) (is_entry k) es

  count-gone :
      (j k : PoolKey) (es : List (PoolEntry V))
      → same_key k j ≡ true
      → count (is_entry j) (pop k es) ≡ 0
  count-gone j k [] h = refl
  count-gone j k (e ∷ es) h = elim (Bool-cases (is_entry k e)) [
    | inl mine ↦ rw mine (count-gone j k es h)
    | inr other ↦ rw other (
        let flip : same_key e.key j ≡ same_key e.key k =
          ap (λ a. same_key e.key a) (sym (same_key_sound k j h)) in
        ground (arith, count-gone j k es))
  ]

  pub count-snoc :
      (test : PoolEntry V → Bool) (e : PoolEntry V) (es : List (PoolEntry V))
      → count test (es ++ e ∷ []) ≡ count test es + (if test e then 1 else 0)
  count-snoc test e [] = ground arith
  count-snoc test e (d ∷ es) = ground (arith, count-snoc test e es)

  pub put_last-Once : (e : PoolEntry V) (es : List (PoolEntry V)) → Once es → Once (put_last e es)
  put_last-Once e es once j = elim (Bool-cases (is_entry j e)) [
    | inl mine ↦
        ground (arith, count-snoc (is_entry j) e (pop e.key es), count-gone j e.key es mine)
    | inr other ↦
        ground (arith, count-snoc (is_entry j) e (pop e.key es), count-pop j e.key es, once j)
  ]

  pub put_last-get :
      (j : PoolKey) (e : PoolEntry V) (es : List (PoolEntry V))
      → get_entry j (put_last e es) ≡ (if same_key e.key j then some e else get_entry j es)
  put_last-get j e es = elim (Bool-cases (same_key e.key j)) [
    | inl here ↦
        rw here (get-snoc j e (pop e.key es) (get-pop j e.key es ∙ rw here refl) ∙ rw here refl)
    | inr other ↦
        rw other (get-snoc_other j e (pop e.key es) other ∙ get-pop j e.key es ∙ rw other refl)
  ]

  pub evict_locked-Represents :
      (m now : ℕ) (f : PoolKey → Option (PoolEntry V)) (es : List (PoolEntry V))
      → Once es
      → Represents f es
      → Represents f (evict_locked m now es)
  unfolding evict_locked
  evict_locked-Represents m now f es once h j =
      let kept = first-delete (is_entry j) (is_past now) es (once j) in
      let left = first-drop m (is_entry j) (delete (is_past now) es) in
      ground (arith, h j, kept, left, once j, count-delete (is_entry j) (is_past now) es)
