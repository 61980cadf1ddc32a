-- ===== src/Options/Redirects.antt =====
-- Where the output of a job goes (`parseSTDOUT`, `parseSTDERR` of taskmasterd/src/jobs/JobConfig.cpp).
use mathlib.Core.List.{reverse_aux}
use task_master.Base.{
  ℕ, [], ◌∷◌, ◌++◌, Option, some, none, Bool, true, false, ◌≡◌, refl, ◌∙◌, if◌then◌else◌, All,
  nat_beq,
}
use task_master.Base.Text.{Text}
use task_master.Options.{
  Yaml, success, parent_path, drop_name, drop_separators, parse_redirect, ◌>>=◌,
}

-- A file name: a text without a separator.
abbrev pub IsName : Text → Type 0
IsName s = All (λ c. nat_beq c b'/' ≡ false) s

reverse_aux-append : (s t r : Text) → reverse_aux (s ++ t) r ≡ reverse_aux t (reverse_aux s r)
reverse_aux-append [] t r = refl
reverse_aux-append (a ∷ s) t r = reverse_aux-append s t (a ∷ r)

reverse_aux_twice : (s t r : Text) → reverse_aux (reverse_aux s r) t ≡ reverse_aux r (s ++ t)
reverse_aux_twice [] t r = refl
reverse_aux_twice (a ∷ s) t r = reverse_aux_twice s t (a ∷ r)

drop_name-reverse_aux : (s r : Text) → IsName s → drop_name (reverse_aux s r) ≡ drop_name r
drop_name-reverse_aux [] r h = refl
drop_name-reverse_aux (a ∷ s) r h = drop_name-reverse_aux s (a ∷ r) h.1 ∙ rw (h.0) refl

-- A file name has no parent.
pub parent_path_name : (s : Text) → IsName s → parent_path s ≡ []
unfolding parent_path
parent_path_name s h = rw (drop_name-reverse_aux s [] h) refl

drop_separators_once :
    (c : ℕ) (s : Text) → nat_beq c b'/' ≡ false → drop_separators (b'/' ∷ c ∷ s) ≡ c ∷ s
drop_separators_once c [] h = refl
drop_separators_once c (d ∷ s) h = rw h refl

-- A file in a directory.
pub parent_path_join :
    (stem : Text) (c : ℕ) (name : Text)
    → nat_beq c b'/' ≡ false
    → IsName name
    → parent_path ((stem ++ (c ∷ [])) ++ (b'/' ∷ name)) ≡ stem ++ (c ∷ [])
unfolding parent_path
parent_path_join stem c name h n =
    rw
      (
        reverse_aux-append (stem ++ (c ∷ [])) (b'/' ∷ name) [],
        reverse_aux-append stem (c ∷ []) [],
        drop_name-reverse_aux name (b'/' ∷ c ∷ reverse_aux stem []) n,
        drop_separators_once c (reverse_aux stem []) h,
      )
      (reverse_aux_twice stem (c ∷ []) [])

module _ {Node : Type 0} (yaml : Yaml Node) (exists : Text → Option Bool) where
  -- A path that is a directory (which does not end with a separator), a separator and a file name is
  -- the place of the output if the directory exists, and dropped if it does not.
  pub parse_redirect_path :
      (node : Node) (stem : Text) (c : ℕ) (name : Text) (found : Bool)
      → yaml.is_defined node ≡ true
      → nat_beq c b'/' ≡ false
      → IsName name
      → yaml.as_string node ≡ some ((stem ++ (c ∷ [])) ++ (b'/' ∷ name))
      → exists (stem ++ (c ∷ [])) ≡ some found
      → parse_redirect yaml exists node
        ≡ success (if found then some ((stem ++ (c ∷ [])) ++ (b'/' ∷ name)) else none)
  unfolding parse_redirect ◌>>=◌
  parse_redirect_path node stem c name found d h n s e =
      rw (d, s, parent_path_join stem c name h n, e) refl

  -- A path that is a file name only is dropped, since there is no directory with an empty name.
  pub parse_redirect_name :
      (node : Node) (name : Text)
      → yaml.is_defined node ≡ true
      → IsName name
      → yaml.as_string node ≡ some name
      → exists [] ≡ some false
      → parse_redirect yaml exists node ≡ success none
  unfolding parse_redirect ◌>>=◌
  parse_redirect_name node name d n s e = rw (d, s, parent_path_name name n, e) refl
