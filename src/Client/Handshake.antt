-- ===== src/Client/Handshake.antt =====
-- crates/cedro-client/src/handshake.rs: the login on a fresh connection.
-- Each round of the loop in `consume_until` comes with what the clock and the socket give it, and each
-- write with its fault, if it has one. An `io::Error` is its kind. Where the rounds end, the thread is
-- still in `read`.
pub mod Search
pub mod Prompts
use market_data_v.Common.{
  ◌≡◌, refl, ℕ, ◌+◌, Bool, true, false, Option, none, some, List, [], ◌∷◌, ◌++◌, Bytes, String,
  codes, drop, length, if◌then◌else◌,
}
use market_data_v.Parser.{starts_with}
use market_data_v.Client.{
  HandshakeStep, await_welcome, send_software_key, await_username_prompt, send_username,
  await_password_prompt, send_password, await_connected, ClientError, handshake, handshake_timeout,
  unexpected_eof, command_write,
}
use market_data_v.Client.Config.{ConnectionConfig}

pub data ErrorKind : Type 0 where
  timed_out would_block connection_reset connection_aborted unexpected_end other : ErrorKind

unfoldable pub handshake_reason : ErrorKind → String
handshake_reason timed_out = "read/write timed out"
handshake_reason would_block = "non-blocking I/O reported WouldBlock"
handshake_reason connection_reset = "connection reset by peer"
handshake_reason connection_aborted = "connection aborted by peer"
handshake_reason unexpected_end = "unexpected EOF"
handshake_reason other = "I/O failure (see source)"

-- The first position at which the needle stands.
unfoldable pub first_match : Bytes → Bytes → Option ℕ
first_match needle [] = if starts_with needle [] then some 0 else none
first_match needle (c ∷ cs) =
    let later = first_match needle cs in
    if starts_with needle (c ∷ cs)
    then some 0
    else elim later [ none ↦ none | some i ↦ some (i + 1) ]

-- `memchr::memmem::find`, by its contract.
pub record Memmem : Type 0 where
  pub find : Bytes → Bytes → Option ℕ
  pub find_first : (haystack needle : Bytes) → find haystack needle ≡ first_match needle haystack

abbrev pub plain_find : Memmem
plain_find = record {
  find = λ haystack needle. first_match needle haystack;
  find_first = λ h n. refl;
}

-- What `read` gives: bytes, none of them at the end of the stream, or an error.
pub data Read : Type 0 where
  got : Bytes → Read
  failed : ErrorKind → Read

pub record Round : Type 0 where
  pub late : Bool
  pub read : Read

-- The first of the two calls of a write fails, or the flush.
pub data WriteFault : Type 0 where
  in_write : ErrorKind → WriteFault
  in_flush : WriteFault

-- The buffer, what was written, and the rounds that have not been used.
pub record HandshakeBuf : Type 0 where
  pub buf : Bytes
  pub written : Bytes
  pub rounds : List Round

-- Still in a read, behind an error, or past the step.
pub data Outcome : Type 0 where
  waiting : Outcome
  ended : ClientError → Outcome
  done : HandshakeBuf → Outcome

infixl 5 ◌>>=◌
unfoldable pub ◌>>=◌ : Outcome → (HandshakeBuf → Outcome) → Outcome
waiting >>= f = waiting
ended e >>= f = ended e
done s >>= f = f s

unfoldable pub with_stream : List Round → HandshakeBuf
with_stream rounds = record { buf = []; written = []; rounds = rounds }

module _ ⦃f : Memmem⦄ where
  -- The part of a round behind the search.
  abbrev pub read_round : HandshakeStep → Round → (Bytes → Outcome) → Outcome
  read_round step r rest = if r.late then ended (handshake_timeout step) else elim r.read [
    | failed kind ↦ ended (handshake step (handshake_reason kind))
    | got chunk ↦ elim chunk [ [] ↦ ended unexpected_eof | c ∷ cs ↦ rest (c ∷ cs) ]
  ]

  -- The loop, on the rounds.
  unfoldable pub consume_loop : Bytes → HandshakeStep → List Round → Bytes → Bytes → Outcome
  consume_loop needle step [] buf written = elim (f.find buf needle) [
    | some pos ↦
        done (record { buf = drop (pos + length needle) buf; written = written; rounds = [] })
    | none ↦ waiting
  ]
  consume_loop needle step (r ∷ rs) buf written =
      let rest : Bytes → Outcome = λ chunk. consume_loop needle step rs (buf ++ chunk) written in
      elim (f.find buf needle) [
        | some pos ↦
            done
              (record { buf = drop (pos + length needle) buf; written = written; rounds = r ∷ rs })
        | none ↦ read_round step r rest
      ]

  unfoldable pub consume_until : Bytes → HandshakeStep → HandshakeBuf → Outcome
  consume_until needle step s = consume_loop needle step s.rounds s.buf s.written

unfoldable pub write_line : Option WriteFault → Bytes → HandshakeStep → HandshakeBuf → Outcome
write_line none payload step s =
    done (record s { written = s.written ++ (payload ++ codes "\r\n") })
write_line (some (in_write kind)) payload step s = ended (handshake step (handshake_reason kind))
write_line (some in_flush) payload step s = ended command_write

module _ ⦃f : Memmem⦄ where
  -- `perform`, with the faults of its three writes.
  unfoldable pub perform :
      Option WriteFault
      → Option WriteFault
      → Option WriteFault
      → ConnectionConfig
      → List Round
      → Outcome
  perform key_fault user_fault password_fault cfg rounds = do
    welcomed ← consume_until (codes "Welcome to Cedro") await_welcome (with_stream rounds)
    keyed ← write_line key_fault cfg.software_key send_software_key welcomed
    asked_user ← consume_until (codes "Username:") await_username_prompt keyed
    named ← write_line user_fault cfg.username send_username asked_user
    asked_password ← consume_until (codes "Password:") await_password_prompt named
    authorised ← write_line password_fault cfg.password send_password asked_password
    consume_until (codes "You are connected") await_connected authorised
