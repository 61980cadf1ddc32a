-- ===== src/Framing/RoundTrip.antt =====
-- A message that is framed on one side comes out on the other (libs/ipc/include).
use task_master.Base.{
  ℕ, suc, nil_or_some, inl, inr, ◌+◌, ◌<◌, List, [], ◌∷◌, ◌++◌, Option, some, none, ◌≡◌, refl, sym,
  ap, ◌∙◌, ◌≢◌, arith, true, false, length, take, drop, leb, length-append, append_assoc,
  append-nil, Bool,
}
use task_master.Base.Text.{Text}
use task_master.Exec.{Outcome, returned}
use task_master.Framing.{htonl, ntohl, ntohl-htonl, word}
use task_master.Framing.Reader
use task_master.Framing.Reader.{Reader, bytes, read, await, fresh}

abbrev pub concat : List Text → Text
concat [] = []
concat (piece ∷ pieces) = piece ++ concat pieces

unfoldable pub frame : Text → Text
frame m = htonl (length m) ++ m

abbrev is_empty : Text → Bool
is_empty [] = true
is_empty (b ∷ s) = false

take-length : (m : Text) → take (length m) m ≡ m
take-length [] = refl
take-length (b ∷ m) = ap (◌∷◌ b) (take-length m)

drop-length : (m : Text) → drop (length m) m ≡ []
drop-length [] = refl
drop-length (b ∷ m) = drop-length m

four : (n : ℕ) → 4 + n ≡ suc (suc (suc (suc n)))
four n = omega arith

module _ {T : Type 0} (parse : Text → Option T) where
  abbrev pub size_of : Text → Option ℕ
  size_of = Reader.header parse

  -- The reader that has got a part of a message.
  abbrev pub after : Text → Reader
  after p = record { buffer = p; message_size = size_of p }

  read_header-append :
      (p c : Text) → Reader.read_header parse (size_of p) (p ++ c) ≡ size_of (p ++ c)
  read_header-append [] c = refl
  read_header-append (x ∷ []) c = refl
  read_header-append (x ∷ y ∷ []) c = refl
  read_header-append (x ∷ y ∷ z ∷ []) c = refl
  read_header-append (x ∷ y ∷ z ∷ w ∷ p) c = refl

  -- What a part `b` of a frame gives when `rest` is still to come.
  abbrev pub outcome : T → Text → Text → Outcome (Option T) × Reader
  outcome t b [] = (returned (some t), fresh)
  outcome t b (x ∷ rest) = (returned none, after b)

  complete-enough :
      (n : ℕ) (b : Text)
      → leb (4 + n) (length b) ≡ true
      → Reader.complete parse (some n) b
        ≡ Reader.parsed parse
            (parse (take n (drop 4 b)))
            (record { buffer = drop (4 + n) b; message_size = none })
  unfolding Reader.complete
  complete-enough n b h = rw h

  complete-short :
      (n : ℕ) (b : Text)
      → leb (4 + n) (length b) ≡ false
      → Reader.complete parse (some n) b
        ≡ (returned none, record { buffer = b; message_size = some n })
  unfolding Reader.complete
  complete-short n b h = rw h

  whole :
      (m : Text) (t : T) (x y z w : ℕ)
      → parse m ≡ some t
      → Reader.complete parse (some (length m)) (x ∷ y ∷ z ∷ w ∷ m) ≡ (returned (some t), fresh)
  whole m t x y z w e =
      complete-enough (length m) (x ∷ y ∷ z ∷ w ∷ m) (ground arith)
      ∙ rw (four (length m), take-length m, drop-length m, e)

  -- The size that a complete header holds.
  header_size :
      (m b : Text) (x y z w : ℕ)
      → length m < word
      → x ∷ y ∷ z ∷ w ∷ b ≡ frame m
      → ntohl x y z w ≡ length m
  unfolding frame htonl
  header_size m b x y z w h q =
      ap (λ s. elim (size_of s) [ some n ↦ n | none ↦ 0 ]) q ∙ ntohl-htonl (length m) h

  body_after : (m b : Text) (x y z w : ℕ) → x ∷ y ∷ z ∷ w ∷ b ≡ frame m → b ≡ m
  unfolding frame htonl
  body_after m b x y z w q = ap (drop 4) q

  complete_part :
      (m : Text) (t : T) (b rest : Text)
      → length m < word
      → parse m ≡ some t
      → b ++ rest ≡ frame m
      → Reader.complete parse (size_of b) b ≡ outcome t b rest
  unfolding Reader.complete frame htonl
  complete_part m t [] [] h e q = ground (arith, ap length q)
  complete_part m t (x ∷ []) [] h e q = ground (arith, ap length q)
  complete_part m t (x ∷ y ∷ []) [] h e q = ground (arith, ap length q)
  complete_part m t (x ∷ y ∷ z ∷ []) [] h e q = ground (arith, ap length q)
  complete_part m t [] (r ∷ rest) h e q = refl
  complete_part m t (x ∷ []) (r ∷ rest) h e q = refl
  complete_part m t (x ∷ y ∷ []) (r ∷ rest) h e q = refl
  complete_part m t (x ∷ y ∷ z ∷ []) (r ∷ rest) h e q = refl
  complete_part m t (x ∷ y ∷ z ∷ w ∷ ys) [] h e q =
      let b : ys ≡ m = sym (append-nil ys) ∙ body_after m (ys ++ []) x y z w q in
      let n : ntohl x y z w ≡ length m = header_size m (ys ++ []) x y z w h q in
      rw (n, b) (whole m t x y z w e)
  complete_part m t (x ∷ y ∷ z ∷ w ∷ ys) (r ∷ rest) h e q =
      complete-short (ntohl x y z w) (x ∷ y ∷ z ∷ w ∷ ys) (
        ground (
          arith,
          header_size m (ys ++ r ∷ rest) x y z w h q,
          ap length (body_after m (ys ++ r ∷ rest) x y z w q),
          length-append ys (r ∷ rest),
        ))

  pub read_part :
      (m : Text) (t : T) (p c rest : Text)
      → length m < word
      → parse m ≡ some t
      → (p ++ c) ++ rest ≡ frame m
      → read parse (bytes c) (after p) ≡ outcome t (p ++ c) rest
  unfolding read Reader.complete
  read_part m t p c rest h e q = rw (read_header-append p c) (complete_part m t (p ++ c) rest h e q)

  pub outcome-more :
      (t : T) (b rest : Text) → rest ≢ [] → outcome t b rest ≡ (returned none, after b)
  outcome-more t b [] w = absurd (w refl)
  outcome-more t b (x ∷ rest) w = refl

  await_rest :
      (m : Text) (t : T) (p : Text) (pieces : List Text)
      → length m < word
      → parse m ≡ some t
      → concat pieces ≢ []
      → p ++ concat pieces ≡ frame m
      → await parse pieces (after p) ≡ (returned (some t), fresh)
  unfolding await
  await_rest m t p [] h e w q = absurd (w refl)
  await_rest m t p (c ∷ pieces) h e w q =
      let joined : (p ++ c) ++ concat pieces ≡ frame m = rw (append_assoc p c (concat pieces)) q in
      let step = read_part m t p c (concat pieces) h e joined in
      elim (nil_or_some (concat pieces)) [
        | inl n ↦ rw (step, n) refl
        | inr n ↦
            rw (step, outcome-more t (p ++ c) (concat pieces) n)
              (await_rest m t (p ++ c) pieces h e n joined)
      ]

  -- However the bytes of a message (less than 2 ^ 32 of them) are cut into pieces on their way, the
  -- loop that waits for it ends with the message that these bytes parse to, and with an empty buffer.
  pub await-frame :
      (m : Text) (t : T) (pieces : List Text)
      → length m < word
      → parse m ≡ some t
      → concat pieces ≡ frame m
      → await parse pieces fresh ≡ (returned (some t), fresh)
  unfolding frame htonl
  await-frame m t pieces h e q =
      await_rest m t [] pieces h e (λ n. ground (arith, ap length (sym n ∙ q))) q
