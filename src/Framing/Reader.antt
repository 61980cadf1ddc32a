-- ===== src/Framing/Reader.antt =====
-- libs/ipc/include/ProtoReader.hpp: a message is put together from the pieces that arrive.
use task_master.Base.{
  ℕ, ◌+◌, List, [], ◌∷◌, ◌++◌, Option, some, none, length, take, drop, if◌then◌else◌, leb,
}
use task_master.Base.Text.{Text}
use task_master.Exec.{Exec, Outcome, pure, throw, returned, recv_failed, parse_failed, ◌>>=◌}
use task_master.Framing.{ntohl}

pub record Reader : Type 0 where
  pub buffer : Text
  pub message_size : Option ℕ

abbrev pub fresh : Reader
fresh = record { buffer = []; message_size = none }

-- What `recv` gives: some bytes, the end of the stream, nothing yet, or an error.
pub data Received : Type 0 where
  bytes : Text → Received
  closed would_block failed : Received

-- `ParseFromArray`, which is generated code.
module _ {T : Type 0} (parse : Text → Option T) where
  -- The first four bytes as a size.
  abbrev pub header : Text → Option ℕ
  header (a ∷ b ∷ c ∷ d ∷ rest) = some (ntohl a b c d)
  header _ = none

  abbrev pub read_header : Option ℕ → Text → Option ℕ
  read_header (some n) buffer = some n
  read_header none buffer = header buffer

  abbrev pub parsed : Option T → Reader → Outcome (Option T) × Reader
  parsed none r = throw parse_failed r
  parsed (some t) r = (returned (some t), r)

  -- A complete message leaves the buffer, whether it can be parsed or not.
  unfoldable pub complete : Option ℕ → Text → Outcome (Option T) × Reader
  complete none buffer = (returned none, record { buffer = buffer; message_size = none })
  complete (some n) buffer =
      if leb (4 + n) (length buffer)
      then parsed (parse (take n (drop 4 buffer)))
          (record { buffer = drop (4 + n) buffer; message_size = none })
      else (returned none, record { buffer = buffer; message_size = some n })

  -- `read`, without the count of bytes that it returns beside the message.
  unfoldable pub read : Received → Exec Reader (Option T)
  unfolding complete ntohl
  read (bytes piece) r =
      let buffer = r.buffer ++ piece in complete (read_header r.message_size buffer) buffer
  read closed r = (returned none, r)
  read would_block r = (returned none, r)
  read failed r = throw recv_failed r

  abbrev or_await : (Reader → Outcome (Option T) × Reader) → Option T → Exec Reader (Option T)
  or_await rest (some t) r = (returned (some t), r)
  or_await rest none r = rest r

  -- The loop of `awaitDaemonResponse` (taskmasterctl/src/ipc/Client.cpp), over the pieces that arrive.
  unfoldable pub await : List Text → Exec Reader (Option T)
  await [] = pure none
  await (piece ∷ pieces) = read (bytes piece) >>= or_await (await pieces)
