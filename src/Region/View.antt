-- ===== src/Region/View.antt =====
-- The memory that a region list stands for: a partial function from addresses to bytes.
use binforge.Prelude.{
  ℕ, zero, suc, ◌+◌, ◌-◌, ◌≤◌, ◌<◌, ◌≡◌, refl, ap, sym, ◌∙◌, ◌&&◌, Option, none, some, List, [],
  ◌∷◌, ◌++◌, ltb, leb, if◌then◌else◌, length, take, drop, get_elem?, arith, length-append,
  length-take, length-drop, take-append-drop, take-append_length, drop-append_length,
}
use binforge.Region.{MemoryRegion, find_region, modify, splice}
use binforge.Region.Order.{Chain}
use binforge.Region.Update.{KeepsShape}
use binforge.Region.Lookup.{find_region_base}

unfoldable pub byte_at : List MemoryRegion → ℕ → Option ℕ
byte_at [] a = none
byte_at (r ∷ rs) a =
    if leb r.base a && ltb a (r.base + r.size) then get_elem? r.bytes (a - r.base) else byte_at rs a

pub byte_at_below : (lo a : ℕ) (rs : List MemoryRegion) → Chain lo rs → a < lo → byte_at rs a ≡ none
unfolding byte_at
byte_at_below lo a [] c h = refl
byte_at_below lo a (r ∷ rs) c h = ground (arith, byte_at_below (r.base + r.size) a rs c.4)

pub byte_at-found :
    (lo key a : ℕ) (rs : List MemoryRegion) (q : MemoryRegion)
    → Chain lo rs
    → find_region key rs ≡ some q
    → key ≤ a
    → a < key + q.size
    → byte_at rs a ≡ get_elem? q.bytes (a - key)
unfolding byte_at find_region
byte_at-found lo key a [] q c e h k = cc
byte_at-found lo key a (r ∷ rs) q c e h k = ground (
  arith,
  byte_at-found (r.base + r.size) key a rs q c.4,
  find_region_base (r.base + r.size) key rs q c.4,
)

pub byte_at-modify :
    (lo key a : ℕ) (rs : List MemoryRegion) (q : MemoryRegion)
    (change : MemoryRegion → MemoryRegion)
    → Chain lo rs
    → find_region key rs ≡ some q
    → KeepsShape change q
    → byte_at (modify key change rs) a ≡ (
        if leb key a && ltb a (key + q.size)
        then get_elem? (change q).bytes (a - key)
        else byte_at rs a)
unfolding byte_at find_region modify
byte_at-modify lo key a [] q change c e k = cc
byte_at-modify lo key a (r ∷ rs) q change c e k = ground (
  arith,
  byte_at-modify (r.base + r.size) key a rs q change c.4,
  find_region_base (r.base + r.size) key rs q c.4,
)

get_elem?-append :
    (xs ys : List ℕ) (i : ℕ)
    → get_elem? (xs ++ ys) i
      ≡ (if ltb i (length xs) then get_elem? xs i else get_elem? ys (i - length xs))
get_elem?-append [] ys i = ground arith
get_elem?-append (x ∷ xs) ys zero = ground arith
get_elem?-append (x ∷ xs) ys (suc i) = ground (arith, get_elem?-append xs ys i)

get_elem?-drop : (n i : ℕ) (xs : List ℕ) → get_elem? (drop n xs) i ≡ get_elem? xs (n + i)
get_elem?-drop zero i xs = ground arith
get_elem?-drop (suc n) i [] = refl
get_elem?-drop (suc n) i (x ∷ xs) = ground (arith, get_elem?-drop n i xs)

get_elem?-take :
    (n i : ℕ) (xs : List ℕ) → get_elem? (take n xs) i ≡ (if ltb i n then get_elem? xs i else none)
get_elem?-take zero i xs = ground arith
get_elem?-take (suc n) i [] = ground arith
get_elem?-take (suc n) zero (x ∷ xs) = ground arith
get_elem?-take (suc n) (suc i) (x ∷ xs) = ground (arith, get_elem?-take n i xs)

pub get_elem?-cut :
    (n o i : ℕ) (bytes : List ℕ)
    → i < n
    → get_elem? (take n (drop o bytes)) i ≡ get_elem? bytes (o + i)
get_elem?-cut n o i bytes h =
    ground (arith, get_elem?-take n i (drop o bytes), get_elem?-drop o i bytes)

pub length-splice :
    (o : ℕ) (input bytes : List ℕ)
    → o + length input ≤ length bytes
    → length (splice o input bytes) ≡ length bytes
unfolding splice
length-splice o input bytes h = omega (
  arith,
  length-append (take o bytes) (input ++ drop (o + length input) bytes),
  length-append input (drop (o + length input) bytes),
  length-take o bytes,
  length-drop (o + length input) bytes,
)

pub get_elem?-splice :
    (o i : ℕ) (input bytes : List ℕ)
    → o + length input ≤ length bytes
    → get_elem? (splice o input bytes) i
      ≡ (if leb o i && ltb i (o + length input) then get_elem? input (i - o) else get_elem? bytes i)
unfolding splice
get_elem?-splice o i input bytes h = ground (
  arith,
  get_elem?-append (take o bytes) (input ++ drop (o + length input) bytes) i,
  get_elem?-append input (drop (o + length input) bytes) (i - o),
  get_elem?-take o i bytes,
  get_elem?-drop (o + length input) (i - o - length input) bytes,
  length-take o bytes,
)

take_front : (o : ℕ) (xs t : List ℕ) → o ≤ length xs → take o (take o xs ++ t) ≡ take o xs
take_front zero xs t h = refl
take_front (suc o) [] t h = absurd (omega arith)
take_front (suc o) (x ∷ xs) t h = ap (◌∷◌ x) (take_front o xs t (omega arith))

drop_front : (o : ℕ) (xs t : List ℕ) → o ≤ length xs → drop o (take o xs ++ t) ≡ t
drop_front zero xs t h = refl
drop_front (suc o) [] t h = absurd (omega arith)
drop_front (suc o) (x ∷ xs) t h = drop_front o xs t (omega arith)

pub drop_add : (o n : ℕ) (xs : List ℕ) → drop (o + n) xs ≡ drop n (drop o xs)
drop_add zero n xs = let e : zero + n ≡ n = omega arith in rw e
drop_add (suc o) n [] = let e : suc o + n ≡ suc (o + n) = omega arith in rw e (sym (drop_nil n))
  where
    drop_nil : (k : ℕ) → drop {A = ℕ} k [] ≡ []
    drop_nil zero = refl
    drop_nil (suc k) = refl
drop_add (suc o) n (x ∷ xs) =
    let e : suc o + n ≡ suc (o + n) = omega arith in rw e (drop_add o n xs)

-- Reading back a spliced range.
pub cut-splice :
    (o : ℕ) (input bytes : List ℕ)
    → o + length input ≤ length bytes
    → take (length input) (drop o (splice o input bytes)) ≡ input
unfolding splice
cut-splice o input bytes h =
    ap (take (length input)) (drop_front o bytes _ (omega arith)) ∙ take-append_length input _

drop_behind :
    (o : ℕ) (input bytes t : List ℕ)
    → o ≤ length bytes
    → drop (o + length input) (take o bytes ++ (input ++ t)) ≡ t
drop_behind o input bytes t h =
    drop_add o (length input) _
    ∙ ap (drop (length input)) (drop_front o bytes _ h)
    ∙ drop-append_length input t

-- A second splice of the same range overwrites the first, and the bytes cut out before restore it.
pub splice_restores :
    (o : ℕ) (input bytes : List ℕ)
    → o + length input ≤ length bytes
    → splice o (take (length input) (drop o bytes)) (splice o input bytes) ≡ bytes
unfolding splice
splice_restores o input bytes h =
    rw
      (
        length-take (length input) (drop o bytes) (omega (arith, length-drop o bytes)),
        take_front o bytes (input ++ drop (o + length input) bytes) (omega arith),
        drop_behind o input bytes (drop (o + length input) bytes) (omega arith),
        drop_add o (length input) bytes,
        take-append-drop (length input) (drop o bytes),
      )
      (take-append-drop o bytes)

-- Splicing in the bytes that stand there changes nothing.
pub splice_same :
    (o n : ℕ) (bytes : List ℕ)
    → o + n ≤ length bytes
    → splice o (take n (drop o bytes)) bytes ≡ bytes
unfolding splice
splice_same o n bytes h =
    rw
      (
        length-take n (drop o bytes) (omega (arith, length-drop o bytes)),
        drop_add o n bytes,
        take-append-drop n (drop o bytes),
      )
      (take-append-drop o bytes)
