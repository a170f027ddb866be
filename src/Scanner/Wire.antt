-- ===== src/Scanner/Wire.antt =====
-- The texts of the single fields of a frame, and the rules that read them.
use market_data_v.Common.{ℕ, ◌+◌, ◌^◌, ◌≡◌, ◌≢◌, refl, some, List, [], ◌∷◌, Bytes, String, true, ok}
use market_data_v.Memchr.{Memchr}
use market_data_v.Types.{F64, FloatText}
use market_data_v.Utf8.{is_utf8}
use market_data_v.Scanner.{
  lift, parse_u16, parse_u32, parse_u64, parse_f64, float_or, required_u64, required_u32,
  required_f64,
}
use market_data_v.Scanner.Numbers.{Denotes, parse_u16_iff, parse_u32_iff, parse_u64_iff}
use market_data_v.Scanner.Reads.{
  Reads, Reads-lift, Reads-required_u64, Reads-required_u32, Reads-required_f64,
}

abbrev pub IsU16 : Bytes → ℕ → Type 0
IsU16 = Denotes (2 ^ 16)

abbrev pub IsU32 : Bytes → ℕ → Type 0
IsU32 = Denotes (2 ^ 32)

abbrev pub IsU64 : Bytes → ℕ → Type 0
IsU64 = Denotes (2 ^ 64)

-- A non-empty UTF-8 text that `str::parse` reads as `x`.
pub record IsFloat ⦃f : FloatText⦄ (b : Bytes) (x : F64) : Type 0 where
  pub not_empty : b ≢ []
  pub utf8 : is_utf8 b ≡ true
  pub value : f.float_of_text b ≡ some x

pub parse_f64_lem :
    ⦃f : FloatText⦄ (b : Bytes) (field : String) (x : F64) → IsFloat b x → parse_f64 b field ≡ ok x
unfolding parse_f64 float_or
parse_f64_lem [] field x h = absurd (h.not_empty refl)
parse_f64_lem (c ∷ cs) field x h = rw (h.utf8, h.value) refl

pub Reads-u16 :
    (b : Bytes) (field : String) (n k : ℕ) (ts : List Bytes)
    → IsU16 b n
    → Reads (lift (parse_u16 b field)) k ts n k ts
Reads-u16 b field n k ts h = Reads-lift _ n k ts ((parse_u16_iff b field n).1 h)

pub Reads-u32 :
    (b : Bytes) (field : String) (n k : ℕ) (ts : List Bytes)
    → IsU32 b n
    → Reads (lift (parse_u32 b field)) k ts n k ts
Reads-u32 b field n k ts h = Reads-lift _ n k ts ((parse_u32_iff b field n).1 h)

pub Reads-u64 :
    (b : Bytes) (field : String) (n k : ℕ) (ts : List Bytes)
    → IsU64 b n
    → Reads (lift (parse_u64 b field)) k ts n k ts
Reads-u64 b field n k ts h = Reads-lift _ n k ts ((parse_u64_iff b field n).1 h)

pub Reads-f64 :
    ⦃f : FloatText⦄ (b : Bytes) (field : String) (x : F64) (k : ℕ) (ts : List Bytes)
    → IsFloat b x
    → Reads (lift (parse_f64 b field)) k ts x k ts
Reads-f64 b field x k ts h = Reads-lift _ x k ts (parse_f64_lem b field x h)

module _ ⦃m : Memchr⦄ where
  pub Reads-next_u64 :
      (field : String) (k : ℕ) (t : Bytes) (ts : List Bytes) (n : ℕ)
      → IsU64 t n
      → Reads (required_u64 field) k (t ∷ ts) n (k + 1) ts
  Reads-next_u64 field k t ts n h =
      Reads-required_u64 field k t ts n ((parse_u64_iff t field n).1 h)

  pub Reads-next_u32 :
      (field : String) (k : ℕ) (t : Bytes) (ts : List Bytes) (n : ℕ)
      → IsU32 t n
      → Reads (required_u32 field) k (t ∷ ts) n (k + 1) ts
  Reads-next_u32 field k t ts n h =
      Reads-required_u32 field k t ts n ((parse_u32_iff t field n).1 h)

  pub Reads-next_f64 :
      ⦃f : FloatText⦄ (field : String) (k : ℕ) (t : Bytes) (ts : List Bytes) (x : F64)
      → IsFloat t x
      → Reads (required_f64 field) k (t ∷ ts) x (k + 1) ts
  Reads-next_f64 field k t ts x h = Reads-required_f64 field k t ts x (parse_f64_lem t field x h)
