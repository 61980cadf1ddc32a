-- ===== src/Options/Values.antt =====
-- The values that the parsers of taskmasterd/src/jobs/JobConfig.cpp let through.
use task_master.Base.{
  ℕ, ◌+◌, ◌/◌, ◌%◌, ◌<◌, List, [], ◌∷◌, Option, Bool, true, false, not, ◌&&◌, ◌≡◌, refl, subst, ◌∙◌,
  ap, if◌then◌else◌, arith, length, all, nat_beq, Bool-cases, inl, inr,
}
use mathlib.Core.List.{Permᴰ}
use task_master.Base.Int.{ℤ, pos, negsuc}
use task_master.Base.Text.{Text}
use task_master.Options.{
  Yaml, Result, success, failure, ◌>>=◌, string, is_octal, octal, umask_of, parse_umask, int_leb,
  place, sort, parse_exit_codes, exit_code_list,
}

-- A result, if there is one, has the property.
abbrev pub Ensures {ℓ} : {A : Type ℓ} → (A → Type 0) → Result A → Type 0
Ensures P (success a) = P a
Ensures P (failure e) = Unit {0}

-- What a chain that succeeds went through.
pub bind_inverse {ℓ κ} :
    {A : Type ℓ} {B : Type κ} (r : Result A) (f : A → Result B) (b : B)
    → r >>= f ≡ success b
    → (a : A) × (r ≡ success a) × (f a ≡ success b)
unfolding ◌>>=◌
bind_inverse (success a) f b e = (a, refl, e)
bind_inverse (failure x) f b e = cc

pub Ensures-success {ℓ} :
    {A : Type ℓ} (P : A → Type 0) (r : Result A) (a : A) → r ≡ success a → Ensures P r → P a
Ensures-success P r a e h = subst (Ensures P) e h

pub then-Ensures {ℓ κ} :
    {A : Type ℓ} {B : Type κ} (Q : B → Type 0) (r : Result A) (f : A → Result B)
    → ((a : A) → Ensures Q (f a))
    → Ensures Q (r >>= f)
unfolding ◌>>=◌
then-Ensures Q (success a) f k = k a
then-Ensures Q (failure e) f k = tt

pub if-Ensures {ℓ} :
    {A : Type ℓ} (P : A → Type 0) (b : Bool) (r s : Result A)
    → (b ≡ true → Ensures P r)
    → (b ≡ false → Ensures P s)
    → Ensures P (if b then r else s)
if-Ensures P true r s h k = h refl
if-Ensures P false r s h k = k refl

abbrev pub IsMask : ℕ → Type 0
IsMask n = n < 512

-- Three octal digits.
octal_bounded : (s : Text) → not (nat_beq (length s) 3 && all is_octal s) ≡ false → octal 0 s < 512
unfolding octal
octal_bounded (a ∷ b ∷ c ∷ []) h = ground (arith, h)
octal_bounded [] h = ground (arith, h)
octal_bounded (a ∷ []) h = ground (arith, h)
octal_bounded (a ∷ b ∷ []) h = ground (arith, h)
octal_bounded (a ∷ b ∷ c ∷ d ∷ s) h = ground (arith, h)

umask_of-Ensures : (s : Text) → Ensures IsMask (umask_of s)
unfolding umask_of
umask_of-Ensures s =
    if-Ensures IsMask (not (nat_beq (length s) 3 && all is_octal s)) _ _ (λ e. tt) (octal_bounded s)

-- The text of a mask.
abbrev print_umask : ℕ → Text
print_umask n = (b'0' + n / 64) ∷ (b'0' + n / 8 % 8) ∷ (b'0' + n % 8) ∷ []

-- Each number below 8 ^ 3, written as three octal digits, is read as that umask.
umask_of-print_umask : (n : ℕ) → n < 512 → umask_of (print_umask n) ≡ success n
unfolding umask_of octal
umask_of-print_umask n h = ground arith

abbrev pub IsSorted : List ℤ → Type 0
IsSorted [] = Unit {0}
IsSorted (a ∷ []) = Unit {0}
IsSorted (a ∷ b ∷ s) = (int_leb a b ≡ true) × IsSorted (b ∷ s)

int_leb-total : (a b : ℤ) → int_leb a b ≡ false → int_leb b a ≡ true
int_leb-total (pos a) (pos b) h = ground (arith, h)
int_leb-total (negsuc a) (negsuc b) h = ground (arith, h)
int_leb-total (pos a) (negsuc b) h = refl
int_leb-total (negsuc a) (pos b) h = cc

int_leb-antisym : (a b : ℤ) → int_leb a b ≡ true → int_leb b a ≡ true → a ≡ b
int_leb-antisym (pos a) (pos b) h k = ground (arith, h, k)
int_leb-antisym (negsuc a) (negsuc b) h k = ground (arith, h, k)
int_leb-antisym (pos a) (negsuc b) h k = cc
int_leb-antisym (negsuc a) (pos b) h k = cc

int_leb_trans : (a b c : ℤ) → int_leb a b ≡ true → int_leb b c ≡ true → int_leb a c ≡ true
int_leb_trans (pos a) (pos b) (pos c) h k = ground (arith, h, k)
int_leb_trans (negsuc a) (negsuc b) (negsuc c) h k = ground (arith, h, k)
int_leb_trans (negsuc a) (negsuc b) (pos c) h k = refl
int_leb_trans (negsuc a) (pos b) (pos c) h k = refl
int_leb_trans (pos a) (pos b) (negsuc c) h k = cc
int_leb_trans (pos a) (negsuc b) c h k = cc
int_leb_trans (negsuc a) (pos b) (negsuc c) h k = cc

place-IsSorted : (a : ℤ) (s : List ℤ) → IsSorted s → IsSorted (place a s)
unfolding place
place-IsSorted a [] h = tt
place-IsSorted a (b ∷ []) h = elim (Bool-cases (int_leb a b)) [
  | inl e ↦ rw e (e, tt)
  | inr e ↦ rw e (int_leb-total a b e, tt)
]
place-IsSorted a (b ∷ c ∷ s) h = elim (Bool-cases (int_leb a b)) [
  | inl e ↦ rw e (e, h)
  | inr e ↦ elim (Bool-cases (int_leb a c)) [
    | inl i ↦ rw (e, i) (int_leb-total a b e, (i, h.1))
    | inr i ↦ rw (e, i) (h.0, rw i at (place-IsSorted a (c ∷ s) h.1))
  ]
]

pub sort-IsSorted : (s : List ℤ) → IsSorted (sort s)
unfolding sort
sort-IsSorted [] = tt
sort-IsSorted (a ∷ s) = place-IsSorted a (sort s) (sort-IsSorted s)

-- The order of the codes in the file does not matter.
place_swap : (a b : ℤ) (s : List ℤ) → place a (place b s) ≡ place b (place a s)
unfolding place
place_swap a b [] = ground (arith, int_leb-total a b, int_leb-antisym a b)
place_swap a b (c ∷ s) = ground (
  arith,
  place_swap a b s,
  int_leb-total a b,
  int_leb-antisym a b,
  int_leb_trans a b c,
  int_leb_trans b a c,
  int_leb-total a c,
  int_leb-total b c,
  int_leb_trans a c b,
  int_leb_trans b c a,
)

pub Permᴰ-sort : {s t : List ℤ} → Permᴰ s t → sort s ≡ sort t
unfolding sort
Permᴰ-sort Permᴰ.nil = refl
Permᴰ-sort (Permᴰ.cons e d) = rw (e, Permᴰ-sort d) refl
Permᴰ-sort (Permᴰ.swap {a' = a'} {b' = b'} {l = l} e f) = rw (e, f) (place_swap b' a' (sort l))
Permᴰ-sort (Permᴰ.trans d e) = Permᴰ-sort d ∙ Permᴰ-sort e

module _ {Node : Type 0} (yaml : Yaml Node) (exists : Text → Option Bool) where
  pub parse_umask-Ensures : (node : Node) → Ensures IsMask (parse_umask yaml exists node)
  unfolding parse_umask
  parse_umask-Ensures node =
      if-Ensures IsMask (not (yaml.is_defined node)) _ _ (λ e. omega arith)
        (λ e. then-Ensures IsMask (string yaml exists node) umask_of umask_of-Ensures)

  pub parse_exit_codes-Ensures :
      (node : Node) → Ensures IsSorted (parse_exit_codes yaml exists node)
  unfolding parse_exit_codes
  parse_exit_codes-Ensures node =
      if-Ensures IsSorted (not (yaml.is_defined node)) _ _ (λ e. tt)
        (λ e. then-Ensures IsSorted (exit_code_list yaml exists node) _ sort-IsSorted)

  -- Two nodes that are there, and that are read as the same exit codes in another order, give the same
  -- list.
  pub parse_exit_codes_order :
      (m n : Node) (s t : List ℤ)
      → yaml.is_defined m ≡ true
      → yaml.is_defined n ≡ true
      → exit_code_list yaml exists m ≡ success s
      → exit_code_list yaml exists n ≡ success t
      → Permᴰ s t
      → parse_exit_codes yaml exists m ≡ parse_exit_codes yaml exists n
  unfolding parse_exit_codes ◌>>=◌
  parse_exit_codes_order m n s t dm dn em en p = rw (dm, dn, em, en) (ap success (Permᴰ-sort p))
