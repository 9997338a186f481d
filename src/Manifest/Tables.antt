-- ===== src/Manifest/Tables.antt =====
-- The texts and the tables of src/manifest.cc read back from the bytes that their writers put.
use binforge.Prelude.{
  ℕ, ◌^◌, ◌≤◌, ◌<◌, ◌≡◌, refl, ap, ◌∙◌, List, [], ◌∷◌, ◌++◌, map, All, All-map, length, le→not_ltb,
  Text, arith,
}
use native.Mathlib.Nat.{mod-eq_of_lt}
use binforge.Base.{Error, ok, Limits}
use binforge.Base.Word.{le_bytes}
use binforge.Reader.{ByteReader}
use binforge.Reader.Laws.{between, enough-between}
use binforge.Reader.Decoder.{Decoder, ◌>>=◌, pure, try_u32, try_last, check_passes, decoded_then}
use binforge.Manifest.Write.{put_text, put_all, put_table}
use binforge.Manifest.Read.{read_text, repeat, read_table}

-- The decoder reads an item back, as the view that it keeps, and leaves the bytes that follow.
unfoldable pub Reads : {A B : Type 0} → Decoder B → (A → List ℕ → List ℕ) → (A → B) → A → Type 0
Reads item put view x =
    (front back : List ℕ)
    → (front' : List ℕ) × (item (between front (put x back)) ≡ ok (view x, between front' back))

read_text-put :
    (maximum : ℕ) (e : ByteReader → Error) (t : Text) (front back : List ℕ)
    → length t ≤ maximum
    → length t < 2 ^ 32
    → read_text maximum e (between front (put_text t back))
      ≡ ok (t, between ((front ++ le_bytes 4 (length t)) ++ t) back)
unfolding read_text put_text
read_text-put maximum e t front back w f = rw (mod-eq_of_lt {n = length t} {m = 2 ^ 32} f) (
    try_u32 _ _ _ _ _ f
    ∙ check_passes _ _ _ _ (le→not_ltb _ _ w)
    ∙ check_passes _ _ _ _ (enough-between _ t back)
    ∙ try_last e _ t back)

module _ {A B : Type 0} (item : Decoder B) (put : A → List ℕ → List ℕ) (view : A → B) where
  repeat-put :
      (xs : List A) (front back : List ℕ)
      → All (Reads item put view) xs
      → (front' : List ℕ) × (repeat item (length xs) (between front (put_all put xs back))
          ≡ ok (map view xs, between front' back))
  unfolding repeat put_all Reads
  repeat-put [] front back h = (front, refl)
  repeat-put (x ∷ xs) front back h =
      let (front1, first) = h.0 front (put_all put xs back) in
      let (front2, rest) = repeat-put xs front1 back h.1 in (front2, ground (arith, first, rest))

  pub read_table-put :
      (maximum : ℕ) (xs : List A) (front back : List ℕ)
      → length xs ≤ maximum
      → length xs < 2 ^ 32
      → All (Reads item put view) xs
      → (front' : List ℕ) × (read_table maximum item (between front (put_table put xs back))
          ≡ ok (map view xs, between front' back))
  unfolding read_table put_table
  read_table-put maximum xs front back w f h =
      let (front', all) = repeat-put xs (front ++ le_bytes 4 (length xs)) back h in
      (
        front',
        rw (mod-eq_of_lt {n = length xs} {m = 2 ^ 32} f)
            (try_u32 _ _ _ _ _ f ∙ check_passes _ _ _ _ (le→not_ltb _ _ w) ∙ all),
      )

-- One text, then what is left.
pub text_then :
    {B : Type 0} (maximum : ℕ) (e : ByteReader → Error) (t : Text) (front back : List ℕ)
    (k : Text → Decoder B)
    → length t ≤ maximum
    → length t < 2 ^ 32
    → (read_text maximum e >>= k) (between front (put_text t back))
      ≡ k t (between ((front ++ le_bytes 4 (length t)) ++ t) back)
text_then maximum e t front back k w f =
    decoded_then (read_text maximum e) _ _ _ k (read_text-put maximum e t front back w f)

-- What a decoder returns, under another name.
pub kept : {B : Type 0} {b b' : B} (r : ByteReader) → b ≡ b' → pure b r ≡ ok (b', r)
kept r h = rw (h, pure)

-- A text within the limit of the decoder, whose length has 32 bits.
unfoldable pub IsText : Limits → Text → Type 0
IsText limits t = (length t ≤ limits.max_string_bytes) × (length t < 2 ^ 32)

module _ {A : Type 0} (item : Decoder A) (put : A → List ℕ → List ℕ) (P : A → Type 0) where
  map_same : (xs : List A) → map (λ x. x) xs ≡ xs
  map_same [] = refl
  map_same (x ∷ xs) = ap (◌∷◌ x) (map_same xs)

  -- A table whose items the decoder keeps whole.
  pub read_table_same :
      (maximum : ℕ) (xs : List A) (front back : List ℕ)
      → length xs ≤ maximum
      → length xs < 2 ^ 32
      → ((x : A) → P x → Reads item put (λ y. y) x)
      → All P xs
      → (front' : List ℕ) × (read_table maximum item (between front (put_table put xs back))
          ≡ ok (xs, between front' back))
  read_table_same maximum xs front back w f h all =
      let (front', read) =
        read_table-put item put (λ y. y) maximum xs front back w f (All-map xs all h) in
      (front', read ∙ kept _ (map_same xs))
