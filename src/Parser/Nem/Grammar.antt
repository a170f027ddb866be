-- ===== src/Parser/Nem/Grammar.antt =====
-- crates/cedro-protocol/src/parser/nem.rs: the grammar of the frames, and that they are parsed.
use market_data_v.Common.{
  ℕ, ◌+◌, ◌≡◌, ◌≢◌, Option, none, some, List, [], ◌∷◌, Bytes, ok, codes, bytes_eq, bytes_eq_iff,
  false, Bool-cases, inl, inr,
}
use market_data_v.Memchr.{Memchr}
use market_data_v.Types.{
  NewsHeadline, NewsBody, NewsMessage, headline, history_item, history_end, news,
}
use market_data_v.Scanner.{take_rest}
use market_data_v.Scanner.Tokens.{split, join}
use market_data_v.Scanner.Reads.{
  Leaves, Reads, step, ◌⨟◌, Reads-pure, Reads-required, Reads-take_rest,
}
use market_data_v.Scanner.Wire.{IsU32, Reads-u32}
use market_data_v.Parser.Op.{is_text, run-Reads}
use market_data_v.Parser.Nem.{
  agency_of, read_headline, history_of, read_history, read_body, message_of, frame_body, parse,
}

-- The fields of a headline behind its agency. The title is the rest of the frame, its colons included;
-- the length of the title is not looked at.
pub record IsHeadline (ts : List Bytes) (h : NewsHeadline) : Type 0 where
  pub date : Bytes
  pub time : Bytes
  pub category : Bytes
  pub title_len : Bytes
  pub title : List Bytes
  pub fields : ts ≡ h.code ∷ date ∷ time ∷ category ∷ title_len ∷ title
  pub date_text : IsU32 date h.date
  pub time_text : IsU32 time h.time
  pub category_text : IsU32 category h.category
  pub title_text : join title ≡ h.title

-- The kind of the news and its fields.
pub data IsNews : Bytes → List Bytes → NewsMessage → Type 0 where
  live :
      (ts : List Bytes) (h : NewsHeadline)
      → IsHeadline ts h
      → IsNews (codes "A") (h.agency ∷ ts) (headline h)
  item :
      (request : Bytes) (ts : List Bytes) (h : NewsHeadline)
      → h.agency ≢ codes "END"
      → IsHeadline ts h
      → IsNews (codes "L") (request ∷ h.agency ∷ ts) (history_item request h)
  closed :
      (request : Bytes) (ts : List Bytes)
      → IsNews (codes "L") (request ∷ codes "END" ∷ ts) (history_end request)
  text :
      (ts : List Bytes) (b : NewsBody)
      → join ts ≡ b.body_raw
      → IsNews (codes "N") (b.request_id ∷ b.agency ∷ b.code ∷ ts) (NewsMessage.body b)

module _ ⦃m : Memchr⦄ where
  headline-Reads :
      (pre : Option Bytes) (h : NewsHeadline) {j k : ℕ} {us ts : List Bytes}
      → Reads (agency_of pre) j us h.agency k ts
      → IsHeadline ts h
      → Leaves (read_headline pre) j us h
  unfolding read_headline
  headline-Reads pre h {k = k} r i =
      let t : Reads take_rest (k + 1 + 1 + 1 + 1 + 1) i.title h.title (k + 1 + 1 + 1 + 1 + 1) [] =
        rw i.title_text at (Reads-take_rest (k + 1 + 1 + 1 + 1 + 1) i.title) in
      (
        k + 1 + 1 + 1 + 1 + 1,
        [],
        step _ _ (rw i.fields at r)
            ⨟ step _ _ (Reads-required _ k h.code _)
            ⨟ step _ _ (Reads-required _ _ i.date _)
            ⨟ step _ _ (Reads-u32 i.date _ h.date _ _ i.date_text)
            ⨟ step _ _ (Reads-required _ _ i.time _)
            ⨟ step _ _ (Reads-u32 i.time _ h.time _ _ i.time_text)
            ⨟ step _ _ (Reads-required _ _ i.category _)
            ⨟ step _ _ (Reads-u32 i.category _ h.category _ _ i.category_text)
            ⨟ step _ _ (Reads-required _ _ i.title_len i.title)
            ⨟ step _ _ t
            ⨟ Reads-pure h _ [],
      )

  message_reads :
      (kind : Bytes) (k : ℕ) (ts : List Bytes) (msg : NewsMessage)
      → IsNews kind ts msg
      → Leaves (message_of kind) k ts msg
  unfolding message_of read_history history_of read_body agency_of bytes_eq
  message_reads _ k _ _ (IsNews.live ts h i) =
      let (n, us, r) = headline-Reads none h (Reads-required "agency" k h.agency ts) i in
      (n, us, step _ _ r ⨟ Reads-pure _ n us)
  message_reads _ k _ _ (IsNews.closed request ts) = (
    k + 1 + 1,
    ts,
    step _ _ (Reads-required _ k request _)
        ⨟ step _ _ (Reads-required _ _ (codes "END") ts)
        ⨟ Reads-pure _ _ ts,
  )
  message_reads _ k _ _ (IsNews.item request ts h ne i) =
      let (n, us, r) = headline-Reads (some h.agency) h (Reads-pure h.agency (k + 1 + 1) ts) i in
      let e : is_text h.agency "END" ≡ false = elim (Bool-cases (is_text h.agency "END")) [
        | inl e ↦ absurd (ne ((bytes_eq_iff h.agency (codes "END")).0 e))
        | inr e ↦ e
      ] in
      (
        n,
        us,
        step _ _ (Reads-required _ k request _)
            ⨟ step _ _ (Reads-required _ _ h.agency ts)
            ⨟ rw e (step _ _ r ⨟ Reads-pure _ n us),
      )
  message_reads _ k _ _ (IsNews.text ts b q) =
      let t : Reads take_rest (k + 1 + 1 + 1) ts b.body_raw (k + 1 + 1 + 1) [] =
        rw q at (Reads-take_rest (k + 1 + 1 + 1) ts) in
      (
        k + 1 + 1 + 1,
        [],
        step _ _ (Reads-required _ k b.request_id _)
            ⨟ step _ _ (Reads-required _ _ b.agency _)
            ⨟ step _ _ (Reads-required _ _ b.code ts)
            ⨟ step _ _ t
            ⨟ Reads-pure _ _ [],
      )

  -- A frame whose tokens are a header, a kind of news and the fields of that kind is parsed to that
  -- message. A title and a body are the rest of the frame, with the colons in it.
  pub parse-IsNews :
      (frame h kind : Bytes) (ts : List Bytes) (msg : NewsMessage)
      → split frame ≡ h ∷ kind ∷ ts
      → IsNews kind ts msg
      → parse frame ≡ ok (news msg)
  unfolding parse frame_body
  parse-IsNews frame h kind ts msg e r =
      let (n, us, q) = message_reads kind (0 + 1 + 1) ts msg r in
      run-Reads frame_body frame e (
        step _ _ (Reads-required _ 0 h _)
        ⨟ step _ _ (Reads-required _ _ kind ts)
        ⨟ step _ _ q
        ⨟ Reads-pure _ n us)
