-- ===== src/Reader/Decoder.antt =====
-- The shape of the decoders of src/patch_engine.cc and src/snapshot.cc: a chain of reads and tests,
-- each of which ends the call with an error that may name the position of the reader.
use binforge.Prelude.{ℕ, ◌^◌, ◌<◌, ◌≡◌, Bool, true, false, List, ◌∷◌, [], ◌++◌, length}
use binforge.Base.{Error, error, Result, ok, err, no_error}
use binforge.Base.Word.{le_bytes}
use binforge.Reader.{ByteReader, Reading, got, short, read_u8, read_u32, read_u64, read_bytes}
use binforge.Reader.Laws.{
  between, read_u8-between, read_u32-between, read_u64-between, read_bytes-between,
}

abbrev pub Decoder : Type 0 → Type 0
Decoder A = ByteReader → Result (A × ByteReader)

infixl 5 ◌>>=◌ ◌>>◌
abbrev pub ◌>>=◌ : {A B : Type 0} → Decoder A → (A → Decoder B) → Decoder B
◌>>=◌ m f r = elim (m r) [ err e ↦ err e | ok (a, r') ↦ f a r' ]

abbrev pub ◌>>◌ : {B : Type 0} → Decoder (Unit {0}) → Decoder B → Decoder B
m >> k = m >>= λ _. k

abbrev pub pure : {A : Type 0} → A → Decoder A
pure a r = ok (a, r)

-- `if (!reader.read_...(value)) { error = e; return ...; }`
unfoldable pub try : {A : Type 0} → (ByteReader → Reading A) → (ByteReader → Error) → Decoder A
try read e r = elim (read r) [ got a r' ↦ ok (a, r') | short r' ↦ err (e r') ]

-- `if (!test) { error = e; return ...; }`
unfoldable pub check : (ByteReader → Bool) → (ByteReader → Error) → Decoder (Unit {0})
check test e r = elim (test r) [ true ↦ ok (tt, r) | false ↦ err (e r) ]

-- A return that leaves the error as `error.clear()` set it.
abbrev pub left_clear : ByteReader → Error
left_clear r = error no_error 0 []

pub try_last :
    (e : ByteReader → Error) (front item back : List ℕ)
    → try (read_bytes (length item)) e (between front (item ++ back))
      ≡ ok (item, between (front ++ item) back)
unfolding try
try_last e front item back = rw (read_bytes-between front item back, try)

module _ {B : Type 0} (e : ByteReader → Error) where
  pub try_got :
      {A : Type 0} (read : ByteReader → Reading A) (r r' : ByteReader) (a : A) (k : A → Decoder B)
      → read r ≡ got a r'
      → (try read e >>= k) r ≡ k a r'
  unfolding try
  try_got read r r' a k h = rw (h, try, ◌>>=◌)

  pub try_u8 :
      (front : List ℕ) (b : ℕ) (back : List ℕ) (k : ℕ → Decoder B)
      → (try read_u8 e >>= k) (between front (b ∷ back)) ≡ k b (between (front ++ (b ∷ [])) back)
  try_u8 front b back k = try_got read_u8 _ _ b k (read_u8-between front b back)

  pub try_u32 :
      (front : List ℕ) (v : ℕ) (back : List ℕ) (k : ℕ → Decoder B)
      → v < 2 ^ 32
      → (try read_u32 e >>= k) (between front (le_bytes 4 v ++ back))
        ≡ k v (between (front ++ le_bytes 4 v) back)
  try_u32 front v back k h = try_got read_u32 _ _ v k (read_u32-between v front back h)

  pub try_u64 :
      (front : List ℕ) (v : ℕ) (back : List ℕ) (k : ℕ → Decoder B)
      → v < 2 ^ 64
      → (try read_u64 e >>= k) (between front (le_bytes 8 v ++ back))
        ≡ k v (between (front ++ le_bytes 8 v) back)
  try_u64 front v back k h = try_got read_u64 _ _ v k (read_u64-between v front back h)

  pub try_bytes :
      (front item back : List ℕ) (k : List ℕ → Decoder B)
      → (try (read_bytes (length item)) e >>= k) (between front (item ++ back))
        ≡ k item (between (front ++ item) back)
  try_bytes front item back k =
      try_got (read_bytes (length item)) _ _ item k (read_bytes-between front item back)

  pub check_passes :
      (test : ByteReader → Bool) (r : ByteReader) (k : Decoder B)
      → test r ≡ true
      → (check test e >> k) r ≡ k r
  unfolding check
  check_passes test r k h = rw (h, check, ◌>>=◌, ◌>>◌)

module _ {A B : Type 0} where
  pub decoded_then :
      (m : Decoder A) (r r' : ByteReader) (a : A) (k : A → Decoder B)
      → m r ≡ ok (a, r')
      → (m >>= k) r ≡ k a r'
  decoded_then m r r' a k h = rw (h, ◌>>=◌)
