-- ===== src/Base/Text.antt =====
-- `std::string` as the list of its bytes.
use Prim.Native.Char.{code}
use Prim.Native.String.{String}
use Prim.Native.Nat.{ℕ, zero, suc, ◌+◌, ◌/◌, ◌%◌}
use mathlib.Core.Path.{◌≡◌, refl}
use mathlib.Core.Logic.{◌↔◌}
use mathlib.Core.Bool.{Bool, true, false, ◌&&◌}
use mathlib.Core.List.{List, [], ◌∷◌}
use native.Mathlib.Omega.{arith}
use task_master.Base.Tests.{nat_beq, KeyEq, if◌then◌else◌}

abbrev pub Text : Type 0
Text = List ℕ

-- A literal of the source.
abbrev pub codes : String → Text
codes String.[] = []
codes (String.◌∷◌ c s) = code c ∷ codes s

unfoldable pub text_beq : Text → Text → Bool
text_beq [] [] = true
text_beq (a ∷ s) (b ∷ t) = nat_beq a b && text_beq s t
text_beq _ _ = false

pub text_beq_refl : (s : Text) → text_beq s s ≡ true
unfolding text_beq
text_beq_refl [] = refl
text_beq_refl (a ∷ s) = ground (arith, text_beq_refl s)

pub eq-of-text_beq : (s t : Text) → text_beq s t ≡ true → s ≡ t
unfolding text_beq
eq-of-text_beq [] [] h = refl
eq-of-text_beq [] (b ∷ t) h = cc
eq-of-text_beq (a ∷ s) [] h = cc
eq-of-text_beq (a ∷ s) (b ∷ t) h = ground (arith, eq-of-text_beq s t)

pub text_beq_iff : (s t : Text) → (text_beq s t ≡ true) ↔ (s ≡ t)
text_beq_iff s t = (eq-of-text_beq s t, λ e. ground (arith, text_beq_refl s))

instance abbrev pub text_key : KeyEq Text
text_key = record { same_iff = text_beq_iff; same = text_beq }

-- `std::to_string`: the fuel is above the number of digits.
digits : ℕ → ℕ → Text → Text
digits zero n acc = acc
digits (suc fuel) n acc =
    let rest = digits fuel (n / 10) ((b'0' + n % 10) ∷ acc) in
    if nat_beq (n / 10) 0 then (b'0' + n % 10) ∷ acc else rest

unfoldable pub to_decimal : ℕ → Text
unfolding digits
to_decimal n = digits (suc n) n []
