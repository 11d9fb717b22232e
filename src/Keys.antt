-- ===== src/Keys.antt =====
-- Dictionaries and sets with text keys: a `dict` is the list of its entries in insertion order, a
-- `set` the list of its members.
use text.Mathlib.Text.{◌==◌ as str_eq}
use text.Mathlib.TextEquality.{eq_iff}
use autonomous_rc_taxi.Prelude.{
  Bool, true, false, ◌≡◌, inl, inr, refl, ◌&&◌, ◌||◌, String, Option, none, some, List, [], ◌∷◌,
  arith, if◌then◌else◌, Bool-cases,
}

-- `k in ks`
abbrev pub member : String → List String → Bool
member k [] = false
member k (j ∷ js) = str_eq j k || member k js

-- every key of the first is one of the second
abbrev pub subset : List String → List String → Bool
subset [] ks = true
subset (j ∷ js) ks = member j ks && subset js ks

-- `set(a) == set(b)`
abbrev pub same_set : List String → List String → Bool
same_set a b = subset a b && subset b a

module _ {ℓ} {V : Type ℓ} where
  -- `d.get(k)`
  unfoldable pub find : String → List (String × V) → Option V
  find k [] = none
  find k ((j, v) ∷ rest) = if str_eq j k then some v else find k rest

  unfoldable pub keys : List (String × V) → List String
  keys [] = []
  keys ((j, v) ∷ rest) = j ∷ keys rest

  -- `d[k] = v`
  unfoldable pub put : String → V → List (String × V) → List (String × V)
  put k v [] = (k, v) ∷ []
  put k v ((j, w) ∷ rest) = if str_eq j k then (j, v) ∷ rest else (j, w) ∷ put k v rest

  pub find-put :
      (k j : String) (v : V) (d : List (String × V))
      → find j (put k v d) ≡ (if str_eq k j then some v else find j d)
  unfolding find put
  find-put k j v [] = refl
  find-put k j v ((i, w) ∷ rest) =
      ground (arith, eq_iff k j, eq_iff i k, eq_iff i j, find-put k j v rest)

  -- a key is there exactly when its lookup finds a value
  pub member-keys :
      (k : String) (d : List (String × V))
      → member k (keys d) ≡ true
      → (v : V) × (find k d ≡ some v)
  unfolding find keys
  member-keys k ((j, v) ∷ rest) h = elim (Bool-cases (str_eq j k)) [
    | inl e ↦ (v, rw e)
    | inr n ↦ rw n (member-keys k rest (rw n at h))
  ]
  member-keys k [] h = absurd (ground arith)

  pub member-keys_of_find :
      (k : String) (d : List (String × V)) {v : V} → find k d ≡ some v → member k (keys d) ≡ true
  unfolding find keys
  member-keys_of_find k [] h = absurd (ground arith)
  member-keys_of_find k ((j, v) ∷ rest) h = elim (Bool-cases (str_eq j k)) [
    | inl e ↦ rw e
    | inr n ↦ rw n (member-keys_of_find k rest (rw n at h))
  ]

  pub member-keys-put :
      (k j : String) (v : V) (d : List (String × V))
      → member j (keys (put k v d)) ≡ (str_eq k j || member j (keys d))
  unfolding put keys
  member-keys-put k j v [] = ground arith
  member-keys-put k j v ((i, w) ∷ rest) = ground (arith, eq_iff i k, member-keys-put k j v rest)

  pub subset-keys-put :
      (a : List String) (k : String) (v : V) (d : List (String × V))
      → subset a (keys d) ≡ true
      → subset a (keys (put k v d)) ≡ true
  subset-keys-put [] k v d s = refl
  subset-keys-put (j ∷ js) k v d s =
      ground (arith, member-keys-put k j v d, subset-keys-put js k v d)

  pub keys-put-subset :
      (k : String) (v : V) (d : List (String × V)) (b : List String)
      → member k b ≡ true
      → subset (keys d) b ≡ true
      → subset (keys (put k v d)) b ≡ true
  unfolding put keys
  keys-put-subset k v [] b m s = ground arith
  keys-put-subset k v ((i, w) ∷ rest) b m s = ground (arith, keys-put-subset k v rest b)

pub member_self : (k : String) (ks : List String) → member k (k ∷ ks) ≡ true
member_self k ks = ground (arith, eq_iff k k)

pub member_of_subset :
    (a b : List String) (k : String) → subset a b ≡ true → member k a ≡ true → member k b ≡ true
member_of_subset [] b k s m = absurd (ground arith)
member_of_subset (j ∷ js) b k s m = ground (arith, eq_iff j k, member_of_subset js b k)

pub subset_cons : (a b : List String) (k : String) → subset a b ≡ true → subset a (k ∷ b) ≡ true
subset_cons [] b k s = refl
subset_cons (j ∷ js) b k s = ground (arith, subset_cons js b k)

pub subset_self : (a : List String) → subset a a ≡ true
subset_self [] = refl
subset_self (k ∷ ks) = ground (arith, member_self k ks, subset_cons ks ks k (subset_self ks))

pub subset_trans : (a b c : List String) → subset a b ≡ true → subset b c ≡ true → subset a c ≡ true
subset_trans [] b c s t = refl
subset_trans (j ∷ js) b c s t = ground (arith, member_of_subset b c j t, subset_trans js b c)
