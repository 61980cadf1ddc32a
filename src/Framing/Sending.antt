-- ===== src/Framing/Sending.antt =====
-- A message is sent whole (libs/ipc/include/ProtoWriter.hpp).
use task_master.Base.{
  Option, some, ℕ, zero, suc, nil_or_some, inl, inr, ◌+◌, ◌-◌, ◌≤◌, ◌<◌, ◌%◌, List, [], ◌∷◌, ◌++◌,
  true, false, ◌≡◌, ◌≢◌, refl, ◌∙◌, sym, ap, arith, length, take, drop, nat_beq, Bool, append_assoc,
  length-append,
}
use task_master.Base.Int.{pos}
use task_master.Base.Text.{Text}
use task_master.Exec.{Outcome, returned}
use task_master.Framing.{htonl, word}
use task_master.Framing.Reader.{fresh, await}
use task_master.Framing.RoundTrip.{frame, concat, await-frame}
use task_master.Framing.Writer
use task_master.Framing.Writer.{Writer, idle, Socket, write, send_all}

-- A blocking stream socket: it takes the four bytes of a size, and of a piece at least one byte.
abbrev pub IsOpen : Socket → Type 0
IsOpen socket =
    ((sent offered : Text) → length offered ≡ 4 → socket sent offered ≡ pos 4)
    × ((sent offered : Text)
        → offered ≢ []
        → (n : ℕ) × (socket sent offered ≡ pos n) × (0 < n) × (n ≤ length offered))

drop-append : (p r : Text) → drop (length p) (p ++ r) ≡ r
drop-append [] r = refl
drop-append (b ∷ p) r = drop-append p r

take-take : (n k : ℕ) (r : Text) → n ≤ length (take k r) → take n (take k r) ≡ take n r
take-take zero k r h = refl
take-take (suc n) zero r h = ground (arith, h)
take-take (suc n) (suc k) [] h = refl
take-take (suc n) (suc k) (b ∷ r) h = ap (◌∷◌ b) (take-take n k r (omega (arith, h)))

take-drop : (n : ℕ) (r : Text) → take n r ++ drop n r ≡ r
take-drop zero r = refl
take-drop (suc n) [] = refl
take-drop (suc n) (b ∷ r) = ap (◌∷◌ b) (take-drop n r)

take-all : (n : ℕ) (r : Text) → drop n r ≡ [] → take n r ≡ r
take-all zero r z = sym z
take-all (suc n) [] z = refl
take-all (suc n) (b ∷ r) z = ap (◌∷◌ b) (take-all n r z)

length-take_le : (k : ℕ) (r : Text) → length (take k r) ≤ length r
length-take_le zero r = omega arith
length-take_le (suc k) [] = omega arith
length-take_le (suc k) (b ∷ r) = omega (arith, length-take_le k r)

length-take : (n : ℕ) (r : Text) → n ≤ length r → length (take n r) ≡ n
length-take zero r h = refl
length-take (suc n) [] h = ground (arith, h)
length-take (suc n) (b ∷ r) h = omega (arith, length-take n r (omega (arith, h)))

nonempty : (r : Text) → r ≢ [] → 0 < length r
nonempty [] w = absurd (w refl)
nonempty (b ∷ r) w = omega arith

take-some : (k : ℕ) (r : Text) → 0 < k → r ≢ [] → take k r ≢ []
take-some zero r h w e = ground (arith, h)
take-some (suc k) [] h w e = w refl
take-some (suc k) (b ∷ r) h w e = ground (arith, ap length e)

abbrev mid : Text → ℕ → Writer
mid m n = record { serialized_message = m; bytes_written = n; size_written = true }

module _ (socket : Socket) where
  -- What a sent piece leads to when `rest` is still to be sent.
  abbrev outcome : Text → ℕ → Text → Text → Outcome Bool × (Writer × Text)
  outcome m n sent [] = (returned true, (idle, sent))
  outcome m n sent (b ∷ rest) = (returned false, (mid m n, sent))

  outcome-more :
      (m : Text) (n : ℕ) (sent rest : Text)
      → rest ≢ []
      → outcome m n sent rest ≡ (returned false, (mid m n, sent))
  outcome-more m n sent [] w = absurd (w refl)
  outcome-more m n sent (b ∷ rest) w = refl

  finish_part :
      (m p r sent : Text)
      → p ++ r ≡ m
      → Writer.finish socket (mid m (length p), sent) ≡ outcome m (length p) sent r
  unfolding Writer.finish Writer.clear
  finish_part m p [] sent q =
      let e : nat_beq (length p) (length m) ≡ true =
        ground (arith, ap length q, length-append p []) in
      rw e
  finish_part m p (b ∷ r) sent q =
      let e : nat_beq (length p) (length m) ≡ false =
        ground (arith, ap length q, length-append p (b ∷ r)) in
      rw e

  write-piece :
      (m : Text) (b n : ℕ) (sent : Text)
      → b < length m
      → socket sent (Writer.piece socket (mid m b)) ≡ pos n
      → write socket (mid m b, sent)
        ≡ Writer.finish socket (mid m (b + n), sent ++ take n (Writer.piece socket (mid m b)))
  unfolding write Writer.write_piece Writer.send
  write-piece m b n sent h e = let f : nat_beq b (length m) ≡ false = ground (arith, h) in rw (f, e)

  -- The next bytes of the message are offered, 4096 of them at most.
  piece-rest :
      (m p r : Text)
      → p ++ r ≡ m
      → r ≢ []
      → (k : ℕ) × (Writer.piece socket (mid m (length p)) ≡ take k r) × (0 < k)
  piece-rest m p r q w = (
    Writer.min_size (length m - length p) Writer.max_write_size,
    ap (take _) (sym (ap (drop (length p)) q) ∙ drop-append p r),
    ground (arith, ap length q, length-append p r, nonempty r w),
  )

  written :
      (m p r sent : Text) (k n : ℕ)
      → (p ++ take n r) ++ drop n r ≡ m
      → Writer.piece socket (mid m (length p)) ≡ take k r
      → length (take n r) ≡ n
      → n ≤ length (take k r)
      → Writer.finish socket
          (mid m (length p + n), sent ++ take n (Writer.piece socket (mid m (length p))))
        ≡ outcome m (length (p ++ take n r)) (sent ++ take n r) (drop n r)
  written m p r sent k n q pk lt le =
      let b : length p + n ≡ length (p ++ take n r) =
        omega (arith, length-append p (take n r), lt) in
      rw (pk, take-take n k r le, b) (finish_part m (p ++ take n r) (drop n r) (sent ++ take n r) q)

  write_step :
      IsOpen socket
      → (m p r sent : Text) → p ++ r ≡ m
      → r ≢ []
      → (n : ℕ) × (length (drop n r) < length r)
        × (write socket (mid m (length p), sent)
            ≡ outcome m (length (p ++ take n r)) (sent ++ take n r) (drop n r))
  write_step o m p r sent q w =
      let (k, pk, k0) = piece-rest m p r q w in
      let (n, e, n0, le) = o.1 sent (take k r) (take-some k r k0 w) in
      let nr : n ≤ length r = omega (arith, le, length-take_le k r) in
      let lt = length-take n r nr in
      let q' : (p ++ take n r) ++ drop n r ≡ m =
        rw (append_assoc p (take n r) (drop n r), take-drop n r) q in
      (
        n,
        ground (arith, lt, ap length (take-drop n r), length-append (take n r) (drop n r), n0),
        write-piece m (length p) n sent
              (omega (arith, ap length q, length-append p r, nonempty r w)) (rw pk e)
            ∙ written m p r sent k n q' pk lt le,
      )

  send_rest :
      IsOpen socket
      → (fuel : ℕ) (m p r sent : Text) → p ++ r ≡ m
      → r ≢ []
      → length r ≤ fuel
      → send_all socket fuel (mid m (length p), sent) ≡ (returned true, (idle, sent ++ r))
  unfolding send_all
  send_rest o zero m p r sent q w h = absurd (ground (arith, nonempty r w, h))
  send_rest o (suc fuel) m p r sent q w h =
      let (n, lt, e) = write_step o m p r sent q w in
      let joined : (p ++ take n r) ++ drop n r ≡ m =
        rw (append_assoc p (take n r) (drop n r), take-drop n r) q in
      elim (nil_or_some (drop n r)) [
        | inl z ↦ rw (e, z) (ap (λ s. (returned true, (idle, sent ++ s))) (take-all n r z))
        | inr z ↦
            rw (e, outcome-more m (length (p ++ take n r)) (sent ++ take n r) (drop n r) z)
              (send_rest o fuel m (p ++ take n r) (drop n r) (sent ++ take n r) joined z
                  (omega (arith, lt, h))
                ∙ ap (λ s. (returned true, (idle, s)))
                    (append_assoc sent (take n r) (drop n r) ∙ ap (◌++◌ sent) (take-drop n r)))
      ]

  -- Over a socket that takes the size whole and at least one byte of each piece, a message of 1 to
  -- 2 ^ 32 - 1 bytes is sent as its size and its bytes, in at most a call for each byte and one for the
  -- size, and the writer is idle again.
  pub send-frame :
      IsOpen socket
      → (m sent : Text) → m ≢ []
      → length m < word
      → send_all socket (suc (length m)) (record idle { serialized_message = m }, sent)
        ≡ (returned true, (idle, sent ++ htonl (length m) ++ m))
  unfolding send_all write Writer.write_size Writer.send htonl
  send-frame o m sent w h =
      let n : length m % word ≡ length m = omega (arith, h) in
      let e = o.0 sent (htonl (length m)) refl in
      rw (n, e) (send_rest o (length m) m [] m (sent ++ htonl (length m)) refl w (omega arith))

  -- What one side sends over such a socket, the other side gets: however the bytes of a sent message
  -- (1 to 2 ^ 32 - 1 of them) are cut into pieces, the loop that waits for it ends with what they
  -- parse to.
  pub send-await :
      {T : Type 0} (parse : Text → Option T) (m : Text) (t : T) (pieces : List Text)
      → IsOpen socket
      → m ≢ []
      → length m < word
      → parse m ≡ some t
      → concat pieces
        ≡ (send_all socket (suc (length m)) (record idle { serialized_message = m }, [])).1.1
      → await parse pieces fresh ≡ (returned (some t), fresh)
  unfolding frame
  send-await parse m t pieces o w h e q =
      await-frame parse m t pieces h e (q ∙ ap (λ r. r.1.1) (send-frame o m [] w h))
