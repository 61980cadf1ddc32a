-- ===== src/Ctl/Completing.antt =====
-- What readline is offered for a word (taskmasterctl/src/main.cpp).
use task_master.Base.{
  ℕ, zero, suc, ◌+◌, ◌≤◌, List, [], ◌∷◌, ◌&&◌, ◌≡◌, refl, ap, arith, length, take, drop,
  if◌then◌else◌, nat_beq, ◌==◌, Bool-cases, inl, inr,
}
use task_master.Base.Text.{Text, text_key, text_beq}
use task_master.Ctl.Completion.{Generator, commands, same_start, search, collect, completions}

-- The names that begin with the word.
unfoldable pub starting_with : Text → List Text → List Text
starting_with text [] = []
starting_with text (name ∷ names) =
    let rest = starting_with text names in
    if take (length text) name == text then name ∷ rest else rest

same_start_lem :
    (name text : Text) → same_start (length text) name text ≡ (take (length text) name == text)
unfolding same_start text_beq
same_start_lem name [] = refl
same_start_lem [] (y ∷ text) = refl
same_start_lem (x ∷ name) (y ∷ text) = ap (◌&&◌ (nat_beq x y)) (same_start_lem name text)

suc_add : (i : ℕ) → i + 1 ≡ suc i
suc_add i = omega arith

drop-suc :
    {A : Type 0} (i : ℕ) (xs : List A) (y : A) (ys : List A)
    → drop i xs ≡ y ∷ ys
    → drop (suc i) xs ≡ ys
drop-suc zero [] y ys e = cc
drop-suc zero (x ∷ xs) y ys e = cc
drop-suc (suc i) [] y ys e = cc
drop-suc (suc i) (x ∷ xs) y ys e = drop-suc i xs y ys e

drop_next :
    (i : ℕ) (y : Text) (ys : List Text) → drop i commands ≡ y ∷ ys → drop (i + 1) commands ≡ ys
drop_next i y ys e = rw (suc_add i) (drop-suc i commands y ys e)

search-starting_with :
    (text : Text) (names : List Text) (fuel i : ℕ)
    → drop i commands ≡ names
    → length names ≤ fuel
    → collect
        (completions fuel text 1)
        (search text (record { list_index = i; len = length text }) names)
      ≡ starting_with text names
unfolding search starting_with completions
search-starting_with text [] fuel i e h = refl
search-starting_with text (name ∷ names) zero i e h = absurd (omega (arith, h))
search-starting_with text (name ∷ names) (suc fuel) i e h =
    elim (Bool-cases (take (length text) name == text)) [
      | inl same ↦
          rw (same_start_lem name text, same)
            (ap (◌∷◌ name) (
              rw (drop_next i name names e) (
                search-starting_with text names fuel (i + 1) (drop_next i name names e)
                  (omega (arith, h)))))
      | inr other ↦
          rw (same_start_lem name text, other)
            (search-starting_with text names (suc fuel) (i + 1) (drop_next i name names e)
              (omega (arith, h)))
    ]

-- For any word, whatever an earlier completion left behind, the calls give exactly the commands that begin
-- with it, in their order, and then NULL: seven calls are always enough.
pub completions_lem :
    (text : Text) (g : Generator) (fuel : ℕ)
    → 6 ≤ fuel
    → completions (suc fuel) text 0 g ≡ starting_with text commands
unfolding completions
completions_lem text g fuel h = search-starting_with text commands fuel 0 refl (omega (arith, h))
