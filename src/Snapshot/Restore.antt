-- ===== src/Snapshot/Restore.antt =====
-- A captured address space is restored as it was.
use binforge.Prelude.{
  ℕ, zero, suc, ◌+◌, ◌-◌, ◌^◌, ◌≤◌, ◌<◌, ◌≡◌, refl, ap, sym, ◌∙◌, Bool, true, false, List, [], ◌∷◌,
  ◌++◌, All, append_assoc, append-nil, length, length-replicate, replicate, drop, arith,
}
use mathlib.Core.Path.{subst}
use binforge.Base.{Result, ok, ◌>>=◌, Limits}
use binforge.Base.Checked.{checked_add-some}
use binforge.Region.{MemoryRegion, splice, modify}
use binforge.Region.Order.{Chain, total_size}
use binforge.Region.Last.{
  EndsBy, Sound, Chain-prefix, Chain-Sound, Chain-EndsBy, EndsBy-Apart, total_size-append,
  emplace_last, find_region_last, modify_last,
}
use binforge.Memory.{AddressSpace, empty_space, map_region, write}
use binforge.Memory.Invariant.{IsValid, Mappable, mapped, map_region-of-Mappable, mapped-IsValid}
use binforge.Memory.Bytes.{overwrite, write_of, region_of_range-of-Holds}
use binforge.Memory.Protect.{inside-Holds}
use binforge.Snapshot.{
  MemorySnapshot, capture, capture_region, capture_regions, restore, restore_region,
  restore_regions, restore_bytes, is_empty,
}

-- The address space of these regions.
abbrev pub space : Limits → List MemoryRegion → AddressSpace
space limits rs = record { limits = limits; regions = rs; mapped_bytes = total_size rs }

abbrev zeroed : MemoryRegion → MemoryRegion
zeroed r = record r { bytes = replicate r.size 0 }

drop_all : (xs : List ℕ) (n : ℕ) → length xs ≤ n → drop n xs ≡ []
drop_all [] zero h = refl
drop_all [] (suc n) h = refl
drop_all (x ∷ xs) zero h = absurd (omega arith)
drop_all (x ∷ xs) (suc n) h = drop_all xs n (omega arith)

splice_whole : (input bytes : List ℕ) → length bytes ≡ length input → splice 0 input bytes ≡ input
unfolding splice
splice_whole input bytes h = rw (drop_all bytes (0 + length input) (omega arith)) (append-nil input)

nonempty-is_empty : (xs : List ℕ) → 0 < length xs → is_empty xs ≡ false
unfolding is_empty
nonempty-is_empty [] h = absurd (omega arith)
nonempty-is_empty (x ∷ xs) h = refl

module _ (limits : Limits) (bounded : limits.max_mapped_bytes < 2 ^ 64) (rs : List MemoryRegion)
    (r : MemoryRegion) (c : Chain 0 rs) (ends : EndsBy r.base rs) (sound : Sound 0 r)
    (room : total_size rs + r.size ≤ limits.max_mapped_bytes) where
  before-IsValid : IsValid (space limits rs)
  before-IsValid = record { chain = c; total = refl; within = omega arith; bounded = bounded }

  mappable : Mappable r.base r.size (space limits rs)
  mappable = record {
    nonempty = sound.1;
    fits = sound.2;
    room = room;
    apart = EndsBy-Apart r.base (r.base + r.size) rs ends;
  }

  mapped_result :
      mapped r.base r.size r.permissions r.name (space limits rs)
      ≡ space limits (rs ++ (zeroed r ∷ []))
  mapped_result =
      ground (arith, emplace_last (zeroed r) rs ends, total_size-append rs (zeroed r ∷ []))

  mapped_last :
      map_region r.base r.size r.permissions r.name (space limits rs)
      ≡ ok (space limits (rs ++ (zeroed r ∷ [])))
  mapped_last =
      map_region-of-Mappable r.base r.size r.permissions r.name (space limits rs) before-IsValid
        (omega (arith, sound)) mappable
      ∙ ap ok mapped_result

  mapped_last-IsValid : IsValid (space limits (rs ++ (zeroed r ∷ [])))
  mapped_last-IsValid = subst IsValid mapped_result (
      mapped-IsValid r.base r.size r.permissions r.name (space limits rs) before-IsValid
        (omega (arith, sound)) mappable)

  overwritten : overwrite r.base r.bytes (zeroed r) ≡ r
  overwritten =
      ap {B = MemoryRegion} (λ bytes. record r { bytes = bytes })
        (ap (λ (n : ℕ). splice n r.bytes (replicate r.size 0))
            (let e : r.base - r.base ≡ 0 = omega arith in e)
          ∙ splice_whole r.bytes (replicate r.size 0) (length-replicate r.size 0 ∙ sym sound.3))

  written_last :
      write r.base r.bytes true (space limits (rs ++ (zeroed r ∷ [])))
      ≡ ok (space limits (rs ++ (r ∷ [])))
  written_last =
      write_of r.base r.bytes (space limits (rs ++ (zeroed r ∷ []))) (zeroed r)
        (region_of_range-of-Holds r.base (length r.bytes) _ (zeroed r) (
          inside-Holds r.base (length r.bytes) _ (zeroed r) mapped_last-IsValid
            (find_region_last (zeroed r) rs ends) (omega arith) (omega (arith, sound))
            (omega (arith, sound)) (length-replicate r.size 0)))
        (omega (arith, sound))
      ∙ λ i. ok (record { limits = limits; regions = filled i; mapped_bytes = same i })
    where
      filled : modify r.base (overwrite r.base r.bytes) (rs ++ (zeroed r ∷ [])) ≡ rs ++ (r ∷ [])
      filled =
          (modify_last (zeroed r) (overwrite r.base r.bytes) rs ends)
          ∙ ap (λ q. rs ++ (q ∷ [])) overwritten

      same : total_size (rs ++ (zeroed r ∷ [])) ≡ total_size (rs ++ (r ∷ []))
      same = omega (arith, total_size-append rs (zeroed r ∷ []), total_size-append rs (r ∷ []))

  not_empty : is_empty r.bytes ≡ false
  not_empty = nonempty-is_empty r.bytes (omega (arith, sound))

  restored_bytes :
      restore_bytes (capture_region true r) (space limits (rs ++ (zeroed r ∷ [])))
      ≡ ok (space limits (rs ++ (r ∷ [])))
  unfolding restore_bytes capture_region
  restored_bytes = ground (arith, not_empty, written_last)

  restored_last :
      length r.name ≤ limits.max_string_bytes
      → restore_region limits (capture_region true r) (total_size rs) (space limits rs)
        ≡ ok (total_size (rs ++ (r ∷ [])), space limits (rs ++ (r ∷ [])))
  unfolding restore_region capture_region
  restored_last n = ground (
    arith,
    n,
    sound,
    not_empty,
    checked_add-some (total_size rs) r.size (omega arith),
    mapped_last,
    restored_bytes,
    total_size-append rs (r ∷ []),
  )

restored_each :
    (limits : Limits) (xs ys : List MemoryRegion)
    → limits.max_mapped_bytes < 2 ^ 64
    → Chain 0 (xs ++ ys)
    → total_size (xs ++ ys) ≤ limits.max_mapped_bytes
    → All (λ r. length r.name ≤ limits.max_string_bytes) ys
    → restore_regions limits (capture_regions true ys) (total_size xs) (space limits xs)
      ≡ ok (total_size (xs ++ ys), space limits (xs ++ ys))
unfolding restore_regions capture_regions
restored_each limits xs [] b c room n = rw (append-nil xs) refl
restored_each limits xs (y ∷ ys) b c room n =
    ap {B = Result (ℕ × AddressSpace)}
      (λ q. q >>= λ next. restore_regions limits (capture_regions true ys) next.0 next.1)
      (restored_last limits b xs y (Chain-prefix 0 xs (y ∷ ys) c) (Chain-EndsBy 0 xs y ys c)
        (Chain-Sound 0 xs y ys c) (omega (arith, room, total_size-append xs (y ∷ ys))) n.0)
    ∙ subst
        (λ zs.
          restore_regions limits (capture_regions true ys) (total_size (xs ++ (y ∷ [])))
            (space limits (xs ++ (y ∷ [])))
          ≡ ok (total_size zs, space limits zs))
        regrouped
        (restored_each limits (xs ++ (y ∷ [])) ys b (subst (Chain 0) (sym regrouped) c)
          (subst (λ zs. total_size zs ≤ limits.max_mapped_bytes) (sym regrouped) room) n.1)
  where
    regrouped : (xs ++ (y ∷ [])) ++ ys ≡ xs ++ (y ∷ ys)
    regrouped = append_assoc xs (y ∷ []) ys

length-capture_regions :
    (include_bytes : Bool) (rs : List MemoryRegion)
    → length (capture_regions include_bytes rs) ≡ length rs
unfolding capture_regions
length-capture_regions include_bytes [] = refl
length-capture_regions include_bytes (r ∷ rs) = ap suc (length-capture_regions include_bytes rs)

abbrev taken : AddressSpace → MemorySnapshot
taken m = record {
  version = 1;
  mapped_bytes = m.mapped_bytes;
  regions = capture_regions true m.regions;
}

capture-inverse :
    (limits : Limits) (m : AddressSpace) (snapshot : MemorySnapshot)
    → capture limits m true ≡ ok snapshot
    → (m.mapped_bytes ≤ limits.max_mapped_bytes)
      × (length m.regions ≤ limits.max_segments)
      × (snapshot ≡ taken m)
unfolding capture
capture-inverse limits m snapshot e = ground arith

restore-taken :
    (limits : Limits) (m : AddressSpace)
    → IsValid m
    → m.mapped_bytes ≤ limits.max_mapped_bytes
    → length m.regions ≤ limits.max_segments
    → restore_regions limits (capture_regions true m.regions) 0 (empty_space limits)
      ≡ ok (total_size m.regions, space limits m.regions)
    → restore limits (taken m) ≡ ok (record m { limits = limits })
unfolding restore
restore-taken limits m v h k e =
    ground (arith, h, k, e, v.total, length-capture_regions true m.regions)

-- What a snapshot with bytes captures of a well-formed address space, whose names are within the
-- string limit, `restore` builds again: the same regions, permissions and bytes, under the codec's
-- limits. The byte limit is below 2^64.
pub restore-capture :
    (limits : Limits) (m : AddressSpace) (snapshot : MemorySnapshot)
    → IsValid m
    → limits.max_mapped_bytes < 2 ^ 64
    → All (λ r. length r.name ≤ limits.max_string_bytes) m.regions
    → capture limits m true ≡ ok snapshot
    → restore limits snapshot ≡ ok (record m { limits = limits })
unfolding empty_space
restore-capture limits m snapshot v b n e =
    let (h, k, is) = capture-inverse limits m snapshot e in
    let all = restored_each limits [] m.regions b v.chain (omega (arith, v.total, h)) n in
    subst (λ s. restore limits s ≡ ok (record m { limits = limits })) (sym is)
      (restore-taken limits m v h k all)
