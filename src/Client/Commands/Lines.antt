-- ===== src/Client/Commands/Lines.antt =====
-- What the server reads: the commands that were given, line by line and word by word.
use mathlib.Core.List.{append_assoc, append-nil}
use market_data_v.Common.{◌≡◌, refl, sym, ap, ◌∙◌, List, [], ◌∷◌, ◌++◌, Bytes, All}
use market_data_v.Common.Text.{IsFree, pieces, pieces-append, split_on}
use market_data_v.Client.Commands
use market_data_v.Client.Commands.{CommandSink, Answer, write_line}
use market_data_v.Client.Commands.Calls.{
  Call, keyword, arguments, words, line_of, perform, perform_all, perform_lem,
}
use market_data_v.Client.Commands.Words.{IsCall, ReadAs, pieces-spaced, words-IsClean, words-ReadAs}

-- The lines that have ended.
abbrev pub but_last : List Bytes → List Bytes
but_last [] = []
but_last (t ∷ []) = []
but_last (t ∷ u ∷ ts) = t ∷ but_last (u ∷ ts)

pub lines : Bytes → List Bytes
lines b = but_last (pieces b'\n' b)

-- The lines are those of the calls, one for each, in their order.
abbrev pub AllRead : List Call → List Bytes → Type 0
AllRead [] [] = Unit
AllRead [] (l ∷ ls) = ⊥
AllRead (c ∷ cs) [] = ⊥
AllRead (c ∷ cs) (l ∷ ls) = ReadAs c (pieces b' ' l) × AllRead cs ls

stream : List Call → Bytes
stream [] = []
stream (c ∷ cs) = line_of c ++ (b'\n' ∷ stream cs)

perform_all-stream :
    (cs : List Call) (s : CommandSink) → (perform_all cs s).inner ≡ s.inner ++ stream cs
unfolding perform_all stream
perform_all-stream [] s = sym (append-nil s.inner)
perform_all-stream (c ∷ cs) s =
    perform_all-stream cs (perform c s).0
    ∙ ap (λ (a : Answer). a.0.inner ++ stream cs) (perform_lem c s)
    ∙ append_assoc s.inner (line_of c ++ (b'\n' ∷ [])) (stream cs)
    ∙ ap (λ x. s.inner ++ x) (append_assoc (line_of c) (b'\n' ∷ []) (stream cs))

read_line : (c : Call) → IsCall c → ReadAs c (pieces b' ' (line_of c)) × IsFree b'\n' (line_of c)
unfolding line_of words
read_line c h =
    let (p, f) = pieces-spaced (keyword c) (arguments c) (words-IsClean c h) in
    (rw p (words-ReadAs c h), f)

but_last-pieces : (t : Bytes) (b : Bytes) → but_last (t ∷ pieces b'\n' b) ≡ t ∷ lines b
unfolding pieces lines
but_last-pieces t b = refl

stream-AllRead : (cs : List Call) → All IsCall cs → AllRead cs (lines (stream cs))
unfolding stream lines pieces split_on
stream-AllRead [] h = tt
stream-AllRead (c ∷ cs) h =
    let (r, f) = read_line c h.0 in
    let e : lines (line_of c ++ (b'\n' ∷ stream cs)) ≡ line_of c ∷ lines (stream cs) =
      ap but_last (pieces-append b'\n' (line_of c) (stream cs) f)
      ∙ but_last-pieces (line_of c) (stream cs) in
    rw e (r, stream-AllRead cs h.1)

-- Calls of the commands on a fresh sink whose writer accepts everything, with arguments that hold no
-- space and no line feed: the server reads one line for each call, in their order, and its words are
-- the keyword of the command and the arguments, a number as a numeral that denotes it.
pub perform_all-AllRead :
    (cs : List Call) → All IsCall cs → AllRead cs (lines (perform_all cs Commands.new).inner)
unfolding Commands.new
perform_all-AllRead cs h = rw (perform_all-stream cs Commands.new) (stream-AllRead cs h)
