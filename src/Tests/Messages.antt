-- ===== src/Tests/Messages.antt =====
-- The theorems about libs/ipc, applied.
use task_master.Base.{ℕ, ◌<◌, ◌≤◌, [], ◌∷◌, Option, some, ◌≡◌, refl, ◌≢◌, arith, length, ap, sym}
use task_master.Base.Int.{pos}
use task_master.Base.Text.{Text, codes}
use task_master.Exec.{returned}
use task_master.Framing.{htonl}
use task_master.Framing.Writer.{Socket}
use task_master.Framing.Reader.{fresh, await}
use task_master.Framing.Sending.{send-frame, send-await}

abbrev pub hello : Text
hello = codes "hello"

-- It takes the size whole, and two bytes of a piece.
abbrev pub slow : Socket
slow sent [] = pos 0
slow sent (a ∷ []) = pos 1
slow sent (a ∷ b ∷ c ∷ d ∷ []) = pos 4
slow sent (a ∷ b ∷ rest) = pos 2

pub slow_size : (sent offered : Text) → length offered ≡ 4 → slow sent offered ≡ pos 4
slow_size sent (a ∷ b ∷ c ∷ d ∷ []) h = refl
slow_size sent (a ∷ b ∷ c ∷ d ∷ e ∷ rest) h = absurd (omega (arith, h))
slow_size sent [] h = absurd (omega (arith, h))
slow_size sent (a ∷ []) h = absurd (omega (arith, h))
slow_size sent (a ∷ b ∷ []) h = absurd (omega (arith, h))
slow_size sent (a ∷ b ∷ c ∷ []) h = absurd (omega (arith, h))

pub slow_piece :
    (sent offered : Text)
    → offered ≢ []
    → (n : ℕ) × (slow sent offered ≡ pos n) × (0 < n) × (n ≤ length offered)
slow_piece sent [] w = absurd (w refl)
slow_piece sent (a ∷ []) w = (1, refl, omega arith, omega arith)
slow_piece sent (a ∷ b ∷ []) w = (2, refl, omega arith, omega arith)
slow_piece sent (a ∷ b ∷ c ∷ []) w = (2, refl, omega arith, omega arith)
slow_piece sent (a ∷ b ∷ c ∷ d ∷ []) w = (4, refl, omega arith, omega arith)
slow_piece sent (a ∷ b ∷ c ∷ d ∷ e ∷ rest) w = (2, refl, omega arith, omega arith)

-- The message of each text is the text.
abbrev same : Text → Option Text
same s = some s

send-await_example :
    await same ((0 ∷ 0 ∷ 0 ∷ []) ∷ (5 ∷ codes "hello") ∷ []) fresh ≡ (returned (some hello), fresh)
unfolding htonl
send-await_example =
    send-await slow same hello hello ((0 ∷ 0 ∷ 0 ∷ []) ∷ (5 ∷ codes "hello") ∷ [])
      (slow_size, slow_piece) (λ h. ground (arith, ap length h)) (omega arith) refl
      (sym (
        ap (λ r. r.1.1)
          (send-frame slow (slow_size, slow_piece) hello [] (λ h. ground (arith, ap length h))
            (omega arith))))
