-- ===== src/Navigation/Numbers/Tables.antt =====
-- The lane tables are one to one.
use text.Mathlib.Text.{◌==◌ as str_eq}
use text.Mathlib.TextEquality.{eq_iff}
use mathlib.Core.Option.{some-injective}
use autonomous_rc_taxi.Prelude.{
  ℕ, Bool, true, false, ◌&&◌, ◌≡◌, ◌↔◌, inl, inr, refl, ap, String, Option, none, some, List, [],
  ◌∷◌, ◌==◌, arith, Bool-cases,
}
use autonomous_rc_taxi.Navigation.Numbers.{
  num2id_table, symmetric_pairs, at, number_in, num2id, id2num, both_ways, symmetric_num,
}

-- a test of every entry
abbrev every {ℓ} : {A : Type ℓ} → (ℕ → A → Bool) → List (ℕ × A) → Bool
every p [] = true
every p ((k, a) ∷ rest) = p k a && every p rest

at-every {ℓ} :
    {A : Type ℓ} (p : ℕ → A → Bool) (t : List (ℕ × A)) (n : ℕ) {a : A}
    → every p t ≡ true
    → at n t ≡ some a
    → p n a ≡ true
unfolding at
at-every p [] n h e = absurd (ground (arith, e))
at-every p ((k, b) ∷ rest) n {a = a} h e = elim (Bool-cases (k == n)) [
  | inl same ↦
      let kn : k ≡ n = ground (arith, same) in
      let ba : b ≡ a = some-injective _ _ (rw same at e) in
      let test : p k b ≡ true = ground (arith, h) in rw (kn, ba) at test
  | inr other ↦ at-every p rest n (ground (arith, h)) (rw other at e)
]

number_in-every :
    (p : ℕ → String → Bool) (t : List (ℕ × String)) (id : String) {n : ℕ}
    → every p t ≡ true
    → number_in id t ≡ some n
    → p n id ≡ true
unfolding number_in
number_in-every p [] id h e = absurd (ground (arith, e))
number_in-every p ((k, v) ∷ rest) id {n = n} h e = elim (Bool-cases (str_eq v id)) [
  | inl same ↦
      let kn : k ≡ n = some-injective _ _ (rw same at e) in
      let vi : v ≡ id = (eq_iff v id).0 same in
      let test : p k v ≡ true = ground (arith, h) in rw (kn, vi) at test
  | inr other ↦ number_in-every p rest id (ground (arith, h)) (rw other at e)
]

abbrev is_number : ℕ → Option ℕ → Bool
is_number n none = false
is_number n (some k) = k == n

abbrev is_id : String → Option String → Bool
is_id id none = false
is_id id (some v) = str_eq v id

is_number-eq : (n : ℕ) (o : Option ℕ) → is_number n o ≡ true → o ≡ some n
is_number-eq n none h = absurd (ground arith)
is_number-eq n (some k) h = ground (arith, h)

is_id-eq : (id : String) (o : Option String) → is_id id o ≡ true → o ≡ some id
is_id-eq id none h = absurd (ground arith)
is_id-eq id (some v) h = ap some ((eq_iff v id).0 h)

-- A number has an id exactly when the id has that number.
pub num2id_iff : (n : ℕ) (id : String) → (num2id n ≡ some id) ↔ (id2num id ≡ some n)
unfolding num2id id2num at number_in
num2id_iff n id = (
  λ h.
      is_number-eq n _
        (at-every (λ k v. is_number k (number_in v num2id_table)) num2id_table n refl h),
  λ h. is_id-eq id _ (number_in-every (λ k v. is_id v (at k num2id_table)) num2id_table id refl h),
)

-- The lane opposite to the opposite lane is the lane itself.
pub symmetric_num_involution :
    (a b : ℕ) → symmetric_num (some a) ≡ some b → symmetric_num (some b) ≡ some a
unfolding symmetric_num at
symmetric_num_involution a b h = is_number-eq a _ (
    at-every (λ k v. is_number k (at v (both_ways symmetric_pairs))) (both_ways symmetric_pairs) a
      refl h)
