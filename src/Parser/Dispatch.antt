-- ===== src/Parser/Dispatch.antt =====
-- crates/cedro-protocol/src/parser/mod.rs: the dispatch is on the first token of the frame.
use market_data_v.Common.{
  ℕ, ◌≡◌, refl, ap, Bool, true, false, ◌&&◌, List, [], ◌∷◌, ◌++◌, Bytes, Result, err, codes,
  if◌then◌else◌, ◌==◌, arith, bytes_eq, All, Bool-cases, inl, inr,
}
use market_data_v.Frame.{FrameKind}
use market_data_v.Memchr.{Memchr}
use market_data_v.Types.{FloatText, ProtocolMessage}
use market_data_v.Scanner.{ParseError, empty, unknown_header}
use market_data_v.Scanner.Tokens.{split, join, join-split, split_ne, IsToken, is_colon, cons_head}
use market_data_v.Parser.{starts_with, parse_frame}
use market_data_v.Parser.Op.{is_text}
use market_data_v.Parser.Sqt
use market_data_v.Parser.Bqt
use market_data_v.Parser.Sab
use market_data_v.Parser.Gqt
use market_data_v.Parser.Nem
use market_data_v.Parser.Vap
use market_data_v.Parser.Gtc
use market_data_v.Parser.Mqc
use market_data_v.Parser.Gpn
use market_data_v.Parser.ErrorFrame

-- The tokens that splitting yields have no colon in them.
cons_head-IsToken :
    (c : ℕ) (ts : List Bytes) → is_colon c ≡ false → All IsToken ts → All IsToken (cons_head c ts)
cons_head-IsToken c [] e h = ((e, tt), tt)
cons_head-IsToken c (t ∷ ts) e h = ((e, h.0), h.1)

split-IsToken : (b : Bytes) → All IsToken (split b)
unfolding split
split-IsToken [] = (tt, tt)
split-IsToken (c ∷ cs) = elim (Bool-cases (is_colon c)) [
  | inl e ↦ rw e (tt, split-IsToken cs)
  | inr e ↦ rw e (cons_head-IsToken c (split cs) e (split-IsToken cs))
]

starts_colon :
    (p h rest : Bytes)
    → IsToken p
    → IsToken h
    → starts_with (p ++ (b':' ∷ [])) (h ++ (b':' ∷ rest)) ≡ bytes_eq h p
unfolding starts_with bytes_eq
starts_colon [] [] rest x y = refl
starts_colon [] (c ∷ h) rest x y = rw y.0 refl
starts_colon (a ∷ p) [] rest x y = let e : (b':' == a) ≡ false = ground (arith, x.0) in rw e refl
starts_colon (a ∷ p) (c ∷ h) rest x y = ap (λ b. (c == a) && b) (starts_colon p h rest x.1 y.1)

and_false : (b : Bool) → (b && false) ≡ false
and_false true = refl
and_false false = refl

no_colon : (p h : Bytes) → IsToken h → starts_with (p ++ (b':' ∷ [])) h ≡ false
unfolding starts_with
no_colon [] [] y = refl
no_colon [] (c ∷ h) y = rw y.0 refl
no_colon (a ∷ p) [] y = refl
no_colon (a ∷ p) (c ∷ h) y = rw (no_colon p h y.1) (and_false (c == a))

starts_with-split :
    (p frame h t : Bytes) (ts : List Bytes)
    → split frame ≡ h ∷ t ∷ ts
    → IsToken p
    → starts_with (p ++ (b':' ∷ [])) frame ≡ bytes_eq h p
starts_with-split p frame h t ts e x =
    let q : h ++ (b':' ∷ join (t ∷ ts)) ≡ frame = rw e at (join-split frame) in
    let y : All IsToken (h ∷ t ∷ ts) = rw e at (split-IsToken frame) in
    rw q at (starts_colon p h (join (t ∷ ts)) x y.0)

starts_with-single :
    (p frame h : Bytes) → split frame ≡ h ∷ [] → starts_with (p ++ (b':' ∷ [])) frame ≡ false
starts_with-single p frame h e =
    let q : h ≡ frame = rw e at (join-split frame) in
    let y : All IsToken (h ∷ []) = rw e at (split-IsToken frame) in rw q at (no_colon p h y.0)

split_nil : (h t : Bytes) (ts : List Bytes) → split [] ≡ h ∷ t ∷ ts → ⊥
unfolding split
split_nil h t ts e = cc

split_some : (b : Bytes) → split b ≡ [] → ⊥
split_some b e = let (t, ts, q) = split_ne b in cc

module _ ⦃m : Memchr⦄ ⦃f : FloatText⦄ where
  -- The parser that is meant by a header.
  abbrev pub by_header : Bytes → Bytes → Result ParseError ProtocolMessage
  by_header h frame =
      if is_text h "T"
      then Sqt.parse frame
      else if is_text h "B"
      then Bqt.parse frame
      else if is_text h "Z"
      then Sab.parse frame
      else if is_text h "V"
      then Gqt.parse frame
      else if is_text h "O"
      then Nem.parse frame
      else if is_text h "VAP"
      then Vap.parse frame
      else if is_text h "GTC"
      then Gtc.parse frame
      else if is_text h "C"
      then Mqc.parse frame
      else if is_text h "G"
      then Gpn.parse frame
      else if is_text h "E"
      then ErrorFrame.parse frame
      else err (unknown_header frame)

  -- The outcome for a frame by its tokens.
  abbrev pub by_tokens : List Bytes → Bytes → Result ParseError ProtocolMessage
  by_tokens (h ∷ t ∷ ts) frame = by_header h frame
  by_tokens _ [] = err empty
  by_tokens _ (c ∷ cs) = err (unknown_header (c ∷ cs))

  dispatch :
      (kind : FrameKind) (frame : Bytes) (us : List Bytes)
      → split frame ≡ us
      → parse_frame kind frame ≡ by_tokens us frame
  unfolding parse_frame
  dispatch kind [] [] e = refl
  dispatch kind [] (h ∷ []) e = refl
  dispatch kind [] (h ∷ t ∷ ts) e = absurd (split_nil h t ts e)
  dispatch kind (c ∷ cs) [] e = absurd (split_some (c ∷ cs) e)
  dispatch kind (c ∷ cs) (h ∷ []) e =
      let lacks : (p : Bytes) → starts_with (p ++ (b':' ∷ [])) (c ∷ cs) ≡ false =
        λ p. starts_with-single p (c ∷ cs) h e in
      let e0 : starts_with (codes "T:") (c ∷ cs) ≡ false = lacks (codes "T") in
      let e1 : starts_with (codes "B:") (c ∷ cs) ≡ false = lacks (codes "B") in
      let e2 : starts_with (codes "Z:") (c ∷ cs) ≡ false = lacks (codes "Z") in
      let e3 : starts_with (codes "V:") (c ∷ cs) ≡ false = lacks (codes "V") in
      let e4 : starts_with (codes "O:") (c ∷ cs) ≡ false = lacks (codes "O") in
      let e5 : starts_with (codes "VAP:") (c ∷ cs) ≡ false = lacks (codes "VAP") in
      let e6 : starts_with (codes "GTC:") (c ∷ cs) ≡ false = lacks (codes "GTC") in
      let e7 : starts_with (codes "C:") (c ∷ cs) ≡ false = lacks (codes "C") in
      let e8 : starts_with (codes "G:") (c ∷ cs) ≡ false = lacks (codes "G") in
      let e9 : starts_with (codes "E:") (c ∷ cs) ≡ false = lacks (codes "E") in
      rw (e0, e1, e2, e3, e4, e5, e6, e7, e8, e9) refl
  dispatch kind (c ∷ cs) (h ∷ t ∷ ts) e =
      let begins : (p : Bytes)
          → IsToken p
          → starts_with (p ++ (b':' ∷ [])) (c ∷ cs) ≡ bytes_eq h p =
        λ p. starts_with-split p (c ∷ cs) h t ts e in
      let e0 : starts_with (codes "T:") (c ∷ cs) ≡ is_text h "T" = begins (codes "T") (refl, tt) in
      let e1 : starts_with (codes "B:") (c ∷ cs) ≡ is_text h "B" = begins (codes "B") (refl, tt) in
      let e2 : starts_with (codes "Z:") (c ∷ cs) ≡ is_text h "Z" = begins (codes "Z") (refl, tt) in
      let e3 : starts_with (codes "V:") (c ∷ cs) ≡ is_text h "V" = begins (codes "V") (refl, tt) in
      let e4 : starts_with (codes "O:") (c ∷ cs) ≡ is_text h "O" = begins (codes "O") (refl, tt) in
      let e5 : starts_with (codes "VAP:") (c ∷ cs) ≡ is_text h "VAP" =
        begins (codes "VAP") (refl, (refl, (refl, tt))) in
      let e6 : starts_with (codes "GTC:") (c ∷ cs) ≡ is_text h "GTC" =
        begins (codes "GTC") (refl, (refl, (refl, tt))) in
      let e7 : starts_with (codes "C:") (c ∷ cs) ≡ is_text h "C" = begins (codes "C") (refl, tt) in
      let e8 : starts_with (codes "G:") (c ∷ cs) ≡ is_text h "G" = begins (codes "G") (refl, tt) in
      let e9 : starts_with (codes "E:") (c ∷ cs) ≡ is_text h "E" = begins (codes "E") (refl, tt) in
      rw (e0, e1, e2, e3, e4, e5, e6, e7, e8, e9) refl

  -- A frame goes to the parser that its first token names, if a colon follows it. A frame without a
  -- colon, or with another first token, is an unknown header, and the empty frame is its own error. The
  -- terminator of the frame plays no part.
  pub parse_frame_lem :
      (kind : FrameKind) (frame : Bytes) → parse_frame kind frame ≡ by_tokens (split frame) frame
  parse_frame_lem kind frame = dispatch kind frame (split frame) refl
