-- ===== src/Framing/Writer.antt =====
-- libs/ipc/include/ProtoWriter.hpp: a message is sent in pieces, its size first.
use task_master.Base.{
  ℕ, zero, suc, ◌+◌, ◌-◌, ◌%◌, [], ◌++◌, Option, some, none, Bool, true, false, length, take, drop,
  if◌then◌else◌, nat_beq, ltb, ◌==◌,
}
use task_master.Base.Int.{ℤ, pos, int_key}
use task_master.Base.Text.{Text}
use task_master.Exec.{
  Exec, Outcome, pure, throw, returned, already_initialized, serialize_failed, send_failed, ◌>>=◌,
  ◌>>◌,
}
use task_master.System.{minus_one}
use task_master.Framing.{htonl, word}

pub record Writer : Type 0 where
  pub serialized_message : Text
  pub bytes_written : ℕ
  pub size_written : Bool

abbrev pub idle : Writer
idle = record { serialized_message = []; bytes_written = 0; size_written = false }

abbrev this : Exec (Writer × Text) Writer
this s = (returned s.0, s)

abbrev update : (Writer → Writer) → Exec (Writer × Text) Unit
update f s = (returned tt, (f s.0, s.1))

-- The socket's answer to `send`, from the bytes that it has taken so far and the bytes offered.
abbrev pub Socket : Type 0
Socket = Text → Text → ℤ

-- `PROTOWRITER_MAX_WRITE_SIZE`
abbrev pub max_write_size : ℕ
max_write_size = 4096

abbrev pub min_size : ℕ → ℕ → ℕ
min_size a b = if ltb b a then b else a

abbrev store : Option Text → Exec (Writer × Text) Unit
store none = throw serialize_failed
store (some text) = λ s. (returned tt, (record s.0 { serialized_message = text }, s.1))

-- `init`, by what `SerializeToString` makes of the message.
unfoldable pub init : Option Text → Exec (Writer × Text) Unit
init serialized s =
    if ltb 0 (length s.0.serialized_message)
    then throw already_initialized s
    else store serialized s

unfoldable pub clear : Exec (Writer × Text) Unit
clear s = (returned tt, (idle, s.1))

module _ (socket : Socket) where
  -- `send`: the bytes that the socket takes.
  abbrev taken : ℤ → Text → Text
  taken (pos n) offered = take n offered
  taken _ offered = []

  unfoldable pub send : Text → Exec (Writer × Text) ℤ
  send offered s = let r = socket s.1 offered in (returned r, (s.0, s.1 ++ taken r offered))

  unfoldable pub write_size : Exec (Writer × Text) Bool
  unfolding send
  write_size = do
    w ← this
    r ← send (htonl (length w.serialized_message % word))
    if r == minus_one
        then throw send_failed
        else (do update (λ v. record v { size_written = true }); pure false)

  abbrev advance : ℤ → Writer → Writer
  advance (pos n) w = record w { bytes_written = w.bytes_written + n }
  advance _ w = w

  -- The piece that is sent next.
  abbrev pub piece : Writer → Text
  piece w =
      take (min_size (length w.serialized_message - w.bytes_written) max_write_size)
        (drop w.bytes_written w.serialized_message)

  unfoldable pub finish : Exec (Writer × Text) Bool
  unfolding clear
  finish = do
    w ← this
    if nat_beq w.bytes_written (length w.serialized_message)
        then (do clear; pure true)
        else pure false

  unfoldable pub write_piece : Exec (Writer × Text) Bool
  unfolding send finish
  write_piece = do
    w ← this
    r ← send (piece w)
    if r == minus_one then throw send_failed else (do update (advance r); finish)

  -- `write`: true when the message is out.
  unfoldable pub write : Exec (Writer × Text) Bool
  unfolding write_size write_piece
  write = do
    w ← this
    if w.size_written
        then (if nat_beq w.bytes_written (length w.serialized_message)
            then pure true
            else write_piece)
        else write_size

  abbrev or_again :
      (Writer × Text → Outcome Bool × (Writer × Text)) → Bool → Exec (Writer × Text) Bool
  or_again again true s = (returned true, s)
  or_again again false s = again s

  -- The loop of `sendCommandToDaemon` (taskmasterctl/src/ipc/Client.cpp); false when the fuel is out.
  unfoldable pub send_all : ℕ → Exec (Writer × Text) Bool
  send_all zero = pure false
  send_all (suc fuel) = write >>= or_again (send_all fuel)
