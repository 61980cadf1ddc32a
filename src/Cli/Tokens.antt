-- ===== src/Cli/Tokens.antt =====
-- `getToken` (taskmasterctl/src/cli/UserInput.cpp) cuts a line at its spaces.
use task_master.Base.{
  ℕ, zero, suc, ◌+◌, [], ◌∷◌, Option, some, none, ◌≡◌, refl, ◌∙◌, arith, if◌then◌else◌, drop,
  nat_beq,
}
use task_master.Base.Text.{Text}
use task_master.Cli.{space, find, first_not_of, find_first_not_of, shift, substr, erase, get_token}

-- The bytes before the first space.
abbrev pub word : Text → Text
word [] = []
word (a ∷ s) = if nat_beq a space then [] else a ∷ word s

abbrev pub skip : Text → Text
skip [] = []
skip (a ∷ s) = if nat_beq a space then skip s else a ∷ s

-- The bytes behind the spaces that end the word.
abbrev pub rest : Text → Text
rest [] = []
rest (a ∷ s) = if nat_beq a space then skip s else rest s

one_add : (n : ℕ) → 1 + n ≡ suc n
one_add n = omega arith

zero_add : (n : ℕ) → 0 + n ≡ n
zero_add n = omega arith

suc_add : (p n : ℕ) → suc p + n ≡ suc (p + n)
suc_add p n = omega arith

drop-drop : (p n : ℕ) (s : Text) → drop (p + n) s ≡ drop n (drop p s)
drop-drop zero n s = rw (zero_add n) refl
drop-drop (suc p) zero [] = rw (suc_add p 0) refl
drop-drop (suc p) (suc n) [] = rw (suc_add p (suc n)) refl
drop-drop (suc p) n (a ∷ s) = rw (suc_add p n) (drop-drop p n s)

substr-shift : (o : Option ℕ) (a : ℕ) (s : Text) → substr (shift 1 o) (a ∷ s) ≡ a ∷ substr o s
substr-shift none a s = refl
substr-shift (some n) a s = rw (one_add n) refl

erase-shift : (p : ℕ) (o : Option ℕ) (s : Text) → erase (shift p o) s ≡ erase o (drop p s)
erase-shift p none s = refl
erase-shift p (some n) s = drop-drop p n s

substr-find : (s : Text) → substr (find space s) s ≡ word s
unfolding find
substr-find [] = refl
substr-find (a ∷ s) = ground (arith, substr-shift (find space s) a s, substr-find s)

erase-first_not_of : (s : Text) → erase (first_not_of space s) s ≡ skip s
unfolding first_not_of
erase-first_not_of [] = refl
erase-first_not_of (a ∷ s) =
    ground (arith, erase-shift 1 (first_not_of space s) (a ∷ s), erase-first_not_of s)

-- Where the input is cut, by where its first space is.
abbrev behind : Option ℕ → Text → Text
behind none s = []
behind (some p) s = skip (drop p s)

behind-shift : (o : Option ℕ) (a : ℕ) (s : Text) → behind (shift 1 o) (a ∷ s) ≡ behind o s
behind-shift none a s = refl
behind-shift (some p) a s = rw (one_add p) refl

behind-find : (s : Text) → behind (find space s) s ≡ rest s
unfolding find
behind-find [] = refl
behind-find (a ∷ s) = ground (arith, behind-shift (find space s) a s, behind-find s)

erase-find_first_not_of :
    (o : Option ℕ) (s : Text) → erase (find_first_not_of space o s) s ≡ behind o s
erase-find_first_not_of none s = refl
erase-find_first_not_of (some p) s =
    erase-shift p (first_not_of space (drop p s)) s ∙ erase-first_not_of (drop p s)

pub get_token_lem : (s : Text) → get_token s ≡ (word s, rest s)
unfolding get_token
get_token_lem s = rw (substr-find s, erase-find_first_not_of (find space s) s, behind-find s) refl
