-- ===== src/Session/Listening.antt =====
-- How a command arrives at the daemon, piece by piece (taskmasterd/src/ipc/Client.cpp).
use task_master.Base.{
  ◌<◌, List, [], ◌∷◌, ◌++◌, ◌⊎◌, inl, inr, Option, some, none, ◌≡◌, ◌≢◌, refl, sym, ap, ◌∙◌, arith,
  append_assoc, length, All, nil_or_some,
}
use task_master.Base.Int.{ℤ, int_key}
use task_master.Base.Text.{Text}
use task_master.Base.Assoc.{lookup}
use task_master.Exec.{Error, returned}
use task_master.Config.{ConfigMap}
use task_master.Framing.{word, htonl}
use task_master.Framing.Reader.{Reader, bytes, read, fresh}
use task_master.Framing.RoundTrip.{concat, frame, after, outcome, outcome-more, read_part}
use task_master.Framing.Writer.{Socket}
use task_master.Proto.{Command}
use task_master.Response.{Response}
use task_master.Session
use task_master.Session.{Client, Daemon, Session, handle_message, handle_read, listen}
use task_master.System.{Kernel, client_read}

-- `recv` never gives an empty piece: no bytes are the end of the stream.
abbrev pub AreSome : List Text → Type 0
AreSome = All (λ piece. piece ≢ [])

abbrev pub IsListening : Client → Daemon → Type 0
IsListening c d = (fd : ℤ) × (lookup c.fd d.system.read_callbacks ≡ some (some (client_read fd)))

no_pieces : (pieces : List Text) → AreSome pieces → concat pieces ≡ [] → pieces ≡ []
no_pieces [] h e = refl
no_pieces ([] ∷ pieces) h e = absurd (h.0 refl)
no_pieces ((b ∷ piece) ∷ pieces) h e = cc

module _ (k : Kernel) (split_shell : Text → List Text) (file : ConfigMap ⊎ Error)
    (parse : Text → Option Command) (serialize : Response → Option Text) (socket : Socket) where
  abbrev on_message : Command → Session Unit
  on_message = handle_message k split_shell file parse serialize socket

  abbrev hear : List Text → Session Unit
  hear = listen k split_shell file parse serialize socket

  read_more :
      (c : Client) (d : Daemon) (piece : Text) (r : Reader)
      → read parse (bytes piece) c.reader ≡ (returned none, r)
      → handle_read k split_shell file parse serialize socket (bytes piece) (c, d)
        ≡ (returned tt, (record c { reader = r }, d))
  unfolding handle_read Session.after_read
  read_more c d piece r e = rw e refl

  read_whole :
      (c : Client) (d : Daemon) (piece : Text) (cmd : Command) (r : Reader) (s : Client × Daemon)
      → read parse (bytes piece) c.reader ≡ (returned (some cmd), r)
      → on_message cmd (record c { reader = r }, d) ≡ (returned tt, s)
      → handle_read k split_shell file parse serialize socket (bytes piece) (c, d)
        ≡ (returned tt, s)
  unfolding handle_read Session.after_read
  read_whole c d piece cmd r s e f = rw (e, f) refl

  listen_part :
      (m : Text) (cmd : Command) (p : Text) (pieces : List Text) (c : Client) (d : Daemon)
      (s : Client × Daemon)
      → length m < word
      → parse m ≡ some cmd
      → AreSome pieces
      → IsListening c d
      → concat pieces ≢ []
      → p ++ concat pieces ≡ frame m
      → c.reader ≡ after parse p
      → on_message cmd (record c { reader = fresh }, d) ≡ (returned tt, s)
      → hear pieces (c, d) ≡ (returned tt, s)
  unfolding listen
  listen_part m cmd p [] c d s h e some_bytes on w q now done = absurd (w refl)
  listen_part m cmd p (x ∷ pieces) c d s h e some_bytes on w q now done =
      let joined : (p ++ x) ++ concat pieces ≡ frame m = rw (append_assoc p x (concat pieces)) q in
      let step =
        ap (read parse (bytes x)) now ∙ read_part parse m cmd p x (concat pieces) h e joined in
      elim (nil_or_some (concat pieces)) [
        | inl n ↦
            rw
              (
                on.1,
                read_whole c d x cmd fresh s (step ∙ ap (outcome parse cmd (p ++ x)) n) done,
                no_pieces pieces some_bytes.1 n,
              )
              refl
        | inr n ↦
            rw
              (
                on.1,
                read_more c d x (after parse (p ++ x))
                    (step ∙ outcome-more parse cmd (p ++ x) (concat pieces) n),
              )
              (listen_part m cmd (p ++ x) pieces (record c { reader = after parse (p ++ x) }) d s h
                e some_bytes.1 on n joined refl done)
      ]

  -- However the bytes of a command (less than 2 ^ 32 of them) are cut on their way, the turns of the client
  -- to read them come to one call of `handleMessage`, with the command that they parse to.
  pub listen-frame :
      (m : Text) (cmd : Command) (pieces : List Text) (c : Client) (d : Daemon)
      (s : Client × Daemon)
      → length m < word
      → parse m ≡ some cmd
      → AreSome pieces
      → concat pieces ≡ frame m
      → IsListening c d
      → c.reader ≡ fresh
      → on_message cmd (record c { reader = fresh }, d) ≡ (returned tt, s)
      → hear pieces (c, d) ≡ (returned tt, s)
  unfolding frame htonl
  listen-frame m cmd pieces c d s h e some_bytes q on now done =
      listen_part m cmd [] pieces c d s h e some_bytes on
        (λ n. ground (arith, ap length (sym n ∙ q))) q now done
