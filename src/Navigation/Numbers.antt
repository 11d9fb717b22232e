-- ===== src/Navigation/Numbers.antt =====
-- rc_car/navigation/lane_route.py: the lane numbers, and the pairs of lanes that a half turn of the
-- map exchanges. The keys of the turns (texts such as "11->22") are not modelled.
pub mod Tables
use text.Mathlib.Text.{◌==◌ as str_eq}
use autonomous_rc_taxi.Prelude.{
  ℕ, Bool, true, false, String, Option, none, some, List, [], ◌∷◌, ◌++◌, ◌==◌, if◌then◌else◌, map,
}
use autonomous_rc_taxi.Floats.{Double, ◌-◌, lit}
use autonomous_rc_taxi.Mapping.Geometry.{Point}

abbrev pub num2id_table : List (ℕ × String)
num2id_table =
    (1, "top_outer_wb_e")
    ∷ (2, "top_outer_wb_w")
    ∷ (3, "top_inner_eb_w")
    ∷ (4, "top_inner_eb_e")
    ∷ (5, "mid_wb1_e")
    ∷ (6, "mid_wb1_w")
    ∷ (7, "mid_wb2_e")
    ∷ (8, "mid_wb2_w")
    ∷ (9, "mid_eb1_w")
    ∷ (10, "mid_eb1_e")
    ∷ (11, "mid_eb2_w")
    ∷ (12, "mid_eb2_e")
    ∷ (13, "bot_inner_wb_e")
    ∷ (14, "bot_inner_wb_w")
    ∷ (15, "bot_outer_eb_w")
    ∷ (16, "bot_outer_eb_e")
    ∷ (17, "left_outer_sb_n")
    ∷ (18, "left_outer_sb_s")
    ∷ (19, "left_inner_nb_s")
    ∷ (20, "left_inner_nb_n")
    ∷ (21, "vert_sb1_n")
    ∷ (22, "vert_sb1_s")
    ∷ (23, "vert_sb2_n")
    ∷ (24, "vert_sb2_s")
    ∷ (25, "vert_nb1_s")
    ∷ (26, "vert_nb1_n")
    ∷ (27, "vert_nb2_s")
    ∷ (28, "vert_nb2_n")
    ∷ (29, "right_inner_sb_n")
    ∷ (30, "right_inner_sb_s")
    ∷ (31, "right_outer_nb_s")
    ∷ (32, "right_outer_nb_n")
    ∷ []

abbrev pub symmetric_pairs : List (ℕ × ℕ)
symmetric_pairs =
    (1, 15)
    ∷ (2, 16)
    ∷ (3, 13)
    ∷ (4, 14)
    ∷ (5, 11)
    ∷ (6, 12)
    ∷ (7, 9)
    ∷ (8, 10)
    ∷ (17, 31)
    ∷ (18, 32)
    ∷ (19, 29)
    ∷ (20, 30)
    ∷ (21, 27)
    ∷ (23, 25)
    ∷ (26, 24)
    ∷ (28, 22)
    ∷ []

-- `d.get(n)` on a table by number
pub at {ℓ} : {A : Type ℓ} → ℕ → List (ℕ × A) → Option A
at n [] = none
at n ((k, a) ∷ rest) = if k == n then some a else at n rest

-- the number of an id; no id stands twice
pub number_in : String → List (ℕ × String) → Option ℕ
number_in id [] = none
number_in id ((k, v) ∷ rest) = if str_eq v id then some k else number_in id rest

unfoldable pub num2id : ℕ → Option String
unfolding at
num2id n = at n num2id_table

unfoldable pub id2num : String → Option ℕ
unfolding number_in
id2num id = number_in id num2id_table

-- the entries of `SYMMETRIC_NUM`, two for each pair
abbrev pub both_ways : List (ℕ × ℕ) → List (ℕ × ℕ)
both_ways [] = []
both_ways ((a, b) ∷ rest) = (a, b) ∷ (b, a) ∷ both_ways rest

unfoldable pub symmetric_num : Option ℕ → Option ℕ
unfolding at
symmetric_num none = none
symmetric_num (some n) = at n (both_ways symmetric_pairs)

unfoldable pub symmetric_point : {F : Type 0} ⦃d : Double F⦄ → Point F → Point F
symmetric_point p = record { x = lit 5 0 - p.x; y = lit 3 0 - p.y }
