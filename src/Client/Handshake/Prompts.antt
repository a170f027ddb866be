-- ===== src/Client/Handshake/Prompts.antt =====
-- The handshake: what the login ends in, from the whole text that the server sends and from what ends it.
use mathlib.Core.List.{append_assoc, append-nil}
use market_data_v.Common.{
  ℕ, ◌+◌, true, false, none, some, List, [], ◌∷◌, ◌++◌, Bytes, codes, drop, length, ◌≡◌, refl, ap,
  sym, inl, inr, Option-cases, Result, ok, err,
}
use market_data_v.Client.{
  HandshakeStep, await_welcome, send_software_key, await_username_prompt, send_username,
  await_password_prompt, send_password, await_connected, handshake, handshake_timeout,
  unexpected_eof,
}
use market_data_v.Client.Config.{ConnectionConfig}
use market_data_v.Client.Handshake.{
  ErrorKind, handshake_reason, first_match, Memmem, Read, got, failed, Round, HandshakeBuf, Outcome,
  waiting, ended, done, ◌>>=◌, with_stream, consume_loop, consume_until, write_line, perform,
}
use market_data_v.Client.Handshake.Search.{after, after-append}

-- Bytes that arrive in time, in pieces none of which is empty.
abbrev pub Pieces : Type 0
Pieces = List (ℕ × Bytes)

-- What stands behind them: nothing so far, a round behind the deadline, an error, or the end of the stream.
pub data Ending : Type 0 where
  still_open closed : Ending
  expired : Read → Ending
  broken : ErrorKind → Ending

abbrev pub last_rounds : Ending → List Round
last_rounds still_open = []
last_rounds closed = record { late = false; read = got [] } ∷ []
last_rounds (expired r) = record { late = true; read = r } ∷ []
last_rounds (broken kind) = record { late = false; read = failed kind } ∷ []

abbrev pub delivered : Pieces → Ending → List Round
delivered [] e = last_rounds e
delivered ((c, cs) ∷ ps) e = record { late = false; read = got (c ∷ cs) } ∷ delivered ps e

abbrev pub text : Pieces → Bytes
text [] = []
text ((c, cs) ∷ ps) = (c ∷ cs) ++ text ps

-- Where a step is left whose prompt does not come.
unfoldable pub stopped : Ending → HandshakeStep → Outcome
stopped still_open step = waiting
stopped closed step = ended unexpected_eof
stopped (expired r) step = ended (handshake_timeout step)
stopped (broken kind) step = ended (handshake step (handshake_reason kind))

-- The text behind the needle's first occurrence, or the step that waits for it.
abbrev pub found : HandshakeStep → Bytes → Bytes → Result HandshakeStep Bytes
found step needle t = elim (after needle t) [ none ↦ err step | some rest ↦ ok rest ]

-- A login that is left in the step whose prompt is not there, or else past the prompts: the bytes that it
-- has not used are those behind the last prompt, and it has written what `written` says.
abbrev pub Ends : Ending → Bytes → Result HandshakeStep Bytes → Outcome → Type 0
Ends e written (err step) out = out ≡ stopped e step
Ends e written (ok rest) out =
    (s : HandshakeBuf) × (ps : Pieces) × (out ≡ done s)
    × (s.rounds ≡ delivered ps e)
    × (s.buf ++ text ps ≡ rest)
    × (s.written ≡ written)

module _ ⦃f : Memmem⦄ where
  consume_loop-found :
      (needle : Bytes) (step : HandshakeStep) (rounds : List Round) (buf written : Bytes) (i : ℕ)
      → first_match needle buf ≡ some i
      → consume_loop needle step rounds buf written
        ≡ done (record { buf = drop (i + length needle) buf; written = written; rounds = rounds })
  unfolding consume_loop
  consume_loop-found needle step [] buf written i m =
      rw (f.find_first buf needle, m, consume_loop) refl
  consume_loop-found needle step (r ∷ rs) buf written i m =
      rw (f.find_first buf needle, m, consume_loop) refl

  consume_loop-stopped :
      (needle : Bytes) (step : HandshakeStep) (e : Ending) (buf written : Bytes)
      → first_match needle buf ≡ none
      → consume_loop needle step (last_rounds e) buf written ≡ stopped e step
  unfolding consume_loop stopped
  consume_loop-stopped needle step still_open buf written m =
      rw (f.find_first buf needle, m, consume_loop) refl
  consume_loop-stopped needle step closed buf written m =
      rw (f.find_first buf needle, m, consume_loop) refl
  consume_loop-stopped needle step (expired r) buf written m =
      rw (f.find_first buf needle, m, consume_loop) refl
  consume_loop-stopped needle step (broken kind) buf written m =
      rw (f.find_first buf needle, m, consume_loop) refl

  consume_loop-Ends :
      (needle : Bytes) (step : HandshakeStep) (ps : Pieces) (e : Ending) (buf written : Bytes)
      → Ends e written
          (found step needle (buf ++ text ps))
          (consume_loop needle step (delivered ps e) buf written)
  unfolding consume_loop
  consume_loop-Ends needle step [] e buf written = elim (Option-cases (first_match needle buf)) [
    | inl m ↦
        rw (append-nil buf, m, found, after) (consume_loop-stopped needle step e buf written m)
    | inr (i, m) ↦
        rw (after-append needle buf [] i m, found)
          (_, [], consume_loop-found needle step (last_rounds e) buf written i m, refl, refl, refl)
  ]
  consume_loop-Ends needle step ((c, cs) ∷ ps) e buf written =
      elim (Option-cases (first_match needle buf)) [
        | inl m ↦
            rw (sym (append_assoc buf (c ∷ cs) (text ps)), f.find_first buf needle, m, consume_loop)
              (consume_loop-Ends needle step ps e (buf ++ (c ∷ cs)) written)
        | inr (i, m) ↦
            rw (after-append needle buf (text ((c, cs) ∷ ps)) i m, found)
              (_, (c, cs) ∷ ps, consume_loop-found needle step _ buf written i m, refl, refl, refl)
      ]

  consume_until-Ends :
      (needle : Bytes) (step : HandshakeStep) (s : HandshakeBuf) (ps : Pieces) (e : Ending)
      (w : Bytes)
      → s.rounds ≡ delivered ps e
      → s.written ≡ w
      → Ends e w (found step needle (s.buf ++ text ps)) (consume_until needle step s)
  unfolding consume_until
  consume_until-Ends needle step s ps e w r q =
      rw (r, q, consume_until) (consume_loop-Ends needle step ps e s.buf w)

Ends-bind :
    (e : Ending) (written written' : Bytes) (o : Result HandshakeStep Bytes)
    (next : Bytes → Result HandshakeStep Bytes) (out : Outcome) (k : HandshakeBuf → Outcome)
    → Ends e written o out
    → ((s : HandshakeBuf) (ps : Pieces)
        → s.rounds ≡ delivered ps e
        → s.written ≡ written
        → Ends e written' (next (s.buf ++ text ps)) (k s))
    → Ends e written' (elim o [ err step ↦ err step | ok rest ↦ next rest ]) (out >>= k)
unfolding ◌>>=◌ stopped
Ends-bind still_open w w' (err step) next out k h later = rw (h, ◌>>=◌) refl
Ends-bind closed w w' (err step) next out k h later = rw (h, ◌>>=◌) refl
Ends-bind (expired r) w w' (err step) next out k h later = rw (h, ◌>>=◌) refl
Ends-bind (broken kind) w w' (err step) next out k h later = rw (h, ◌>>=◌) refl
Ends-bind e w w' (ok rest) next out k (s, ps, d, r, b, q) later =
    rw (d, ◌>>=◌, sym b) (later s ps r q)

abbrev pub line : Bytes → Bytes
line payload = payload ++ codes "\r\n"

-- A prompt, the step that waits for it, and its answer.
pub record Exchange : Type 0 where
  pub prompt : Bytes
  pub wait : HandshakeStep
  pub answer : Bytes
  pub send : HandshakeStep

-- The protocol of the login.
abbrev pub exchanges : ConnectionConfig → List Exchange
exchanges cfg =
    record {
      prompt = codes "Welcome to Cedro";
      wait = await_welcome;
      answer = cfg.software_key;
      send = send_software_key;
    }
    ∷ record {
      prompt = codes "Username:";
      wait = await_username_prompt;
      answer = cfg.username;
      send = send_username;
    }
    ∷ record {
      prompt = codes "Password:";
      wait = await_password_prompt;
      answer = cfg.password;
      send = send_password;
    }
    ∷ []

abbrev pub answered : Bytes → List Exchange → Bytes
answered w [] = w
answered w (x ∷ xs) = answered (w ++ line x.answer) xs

-- The text behind the prompts, each looked for behind the one before it, and "You are connected".
abbrev pub behind : List Exchange → Bytes → Result HandshakeStep Bytes
behind [] t = found await_connected (codes "You are connected") t
behind (x ∷ xs) t = elim (found x.wait x.prompt t) [
  | err step ↦ err step
  | ok rest ↦ behind xs rest
]

module _ ⦃f : Memmem⦄ where
  abbrev session : List Exchange → HandshakeBuf → Outcome
  session [] s = consume_until (codes "You are connected") await_connected s
  session (x ∷ xs) s =
      consume_until x.prompt x.wait s >>= λ t. write_line none x.answer x.send t >>= session xs

  session-Ends :
      (xs : List Exchange) (s : HandshakeBuf) (ps : Pieces) (e : Ending) (w : Bytes)
      → s.rounds ≡ delivered ps e
      → s.written ≡ w
      → Ends e (answered w xs) (behind xs (s.buf ++ text ps)) (session xs s)
  unfolding write_line ◌>>=◌
  session-Ends [] s ps e w r q =
      consume_until-Ends (codes "You are connected") await_connected s ps e w r q
  session-Ends (x ∷ xs) s ps e w r q =
      Ends-bind e w (answered w (x ∷ xs)) (found x.wait x.prompt (s.buf ++ text ps)) (behind xs)
        (consume_until x.prompt x.wait s) (λ t. write_line none x.answer x.send t >>= session xs)
        (consume_until-Ends x.prompt x.wait s ps e w r q)
        λ t qs r q.
          session-Ends xs (record t { written = t.written ++ line x.answer }) qs e
            (w ++ line x.answer) r (ap (λ v. v ++ line x.answer) q)

  -- Where no write fails, the handshake depends only on the text that the server sends in time and on what
  -- ends it, and not on how the text is cut into reads. It is past the login just when the four prompts
  -- stand in the text, each behind the one before it; it has then written the key, the user and the
  -- password, a line each, and what it has not used is the text behind the last prompt. Else it is left in
  -- the step whose prompt is missing: it waits there, or fails with the timeout, the reason of the error of
  -- the read, or the unexpected end.
  pub perform-Ends :
      (cfg : ConnectionConfig) (ps : Pieces) (e : Ending)
      → Ends e
          (answered [] (exchanges cfg))
          (behind (exchanges cfg) (text ps))
          (perform none none none cfg (delivered ps e))
  unfolding perform with_stream
  perform-Ends cfg ps e =
      session-Ends (exchanges cfg) (with_stream (delivered ps e)) ps e [] refl refl
