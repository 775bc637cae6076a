-- ===== src/Residency/ExpertLru/Eviction.antt =====
-- The eviction loops of har/crates/har-residency/src/expert_lru.rs.
use remora_lab.Base.{
  ℕ, zero, suc, ◌+◌, ◌≡◌, ◌≤◌, ◌<◌, ◌⊎◌, inl, inr, Option, none, some, [], ◌∷◌, arith, leb, nat_eq,
  wrap_add, wrap_sub, wrap_sub_lem, length, u64_max, refl, Option-cases, Bool-cases, ◌∙◌, sym, ap,
}
use remora_lab.Base.Dict.{
  Dict, lookup, remove, AllValues, IsDistinct, lookup-remove, IsDistinct-remove,
}
use remora_lab.Residency.Types.{PageId, page_beq_iff, page_eq, page_beq}
use remora_lab.Residency.ExpertLru.{
  Result, ok, invalid, Entry, LruExpertCache, victim, evict, make_room, evict_until_fit,
}

abbrev pub IsInvalid {ℓ} : {A : Type ℓ} → Result A → Type 0
IsInvalid (ok a) = ⊥
IsInvalid (invalid m) = Unit

abbrev pub bytes_of : Dict PageId Entry → ℕ
bytes_of [] = 0
bytes_of ((k, e) ∷ d) = e.bytes + bytes_of d

abbrev pub pins_of : Option Entry → ℕ
pins_of none = 0
pins_of (some e) = e.pins

abbrev pub pins_in : PageId → Dict PageId Entry → ℕ
pins_in j d = pins_of (lookup j d)

-- The resident bytes are those of the entries, which have different pages.
pub record IsSound (c : LruExpertCache) : Type 0 where
  pub counted : c.resident_bytes ≡ bytes_of c.entries
  pub word : c.resident_bytes ≤ u64_max
  pub distinct : IsDistinct c.entries

abbrev pub AllPinned : Dict PageId Entry → Type 0
AllPinned d = AllValues (λ e. 0 < e.pins) d

victim_lem :
    (d : Dict PageId Entry) (k : PageId) (b : Entry)
    → IsDistinct d
    → victim d ≡ some (k, b)
    → (lookup k d ≡ some b) × (b.pins ≡ 0)
unfolding victim
victim_lem [] k b h v = absurd (cc v)
victim_lem ((i, e) ∷ d) k b h v = elim (Option-cases (victim d)) [
  | inl n ↦ ground (arith, page_beq_iff i i)
  | inr ((j, x), n) ↦
      let ih = victim_lem d j x h.1 n in
      ground (arith, ih.0, ih.1, h.0, page_beq_iff i i, page_beq_iff i j)
]

victim-none : (d : Dict PageId Entry) → victim d ≡ none → AllPinned d
unfolding victim
victim-none [] v = tt
victim-none ((i, e) ∷ d) v = elim (Option-cases (victim d)) [
  | inl n ↦ let ih = victim-none d n in ground arith
  | inr (x, n) ↦ ground arith
]

pub remove-counts :
    (k : PageId) (b : Entry) (d : Dict PageId Entry)
    → lookup k d ≡ some b
    → (bytes_of (remove k d) + b.bytes ≡ bytes_of d) × (length (remove k d) + 1 ≡ length d)
remove-counts k b [] h = absurd (cc h)
remove-counts k b ((i, e) ∷ d) h = ground (arith, remove-counts k b d)

-- What an eviction does.
pub record Evicts (c d : LruExpertCache) (j : PageId) : Type 0 where
  pub sound : IsSound d
  pub capacity : d.capacity_bytes ≡ c.capacity_bytes
  pub less : d.resident_bytes ≤ c.resident_bytes
  pub pins : pins_in j d.entries ≡ pins_in j c.entries
  pub shorter : length d.entries ≤ length c.entries
  pub absent : (i : PageId) → lookup i c.entries ≡ none → lookup i d.entries ≡ none
  -- an entry stays as it is, or is evicted without a pin
  pub kept :
      (i : PageId)
      → (lookup i d.entries ≡ lookup i c.entries)
        ⊎ ((lookup i d.entries ≡ none) × (pins_in i c.entries ≡ 0))

-- The pins of a page are the same once a page without pins is removed.
pins_in-remove :
    (k : PageId) (b : Entry) (d : Dict PageId Entry) (j : PageId)
    → IsDistinct d
    → lookup k d ≡ some b
    → b.pins ≡ 0
    → (pins_in j (remove k d) ≡ pins_in j d)
      × (((lookup j (remove k d) ≡ none) × (pins_in j d ≡ 0))
          ⊎ (lookup j (remove k d) ≡ lookup j d))
pins_in-remove k b d j h l z = elim (Bool-cases (page_beq k j)) [
  | inl same ↦
      let e : k ≡ j = (page_beq_iff k j).0 same in
      let r : lookup j (remove k d) ≡ none = lookup-remove k j d h ∙ rw same refl in
      let m : lookup j d ≡ some b = rw e at l in
      (ap pins_of r ∙ sym (ap pins_of m ∙ z), inl (r, ap pins_of m ∙ z))
  | inr other ↦
      let r : lookup j (remove k d) ≡ lookup j d = lookup-remove k j d h ∙ rw other refl in
      (ap pins_of r, inr r)
]

evicted : PageId → Entry → LruExpertCache → LruExpertCache
evicted k b c = record c {
  entries = remove k c.entries;
  resident_bytes = wrap_sub c.resident_bytes b.bytes;
  stats = record c.stats { evictions = wrap_add c.stats.evictions 1 };
}

evicted-Evicts :
    (k : PageId) (b : Entry) (c : LruExpertCache) (j : PageId)
    → IsSound c
    → lookup k c.entries ≡ some b
    → b.pins ≡ 0
    → Evicts c (evicted k b c) j × (length (evicted k b c).entries < length c.entries)
unfolding evicted
evicted-Evicts k b c j h l z =
    let (s, n) = remove-counts k b c.entries l in
    let (p, a) = pins_in-remove k b c.entries j h.distinct l z in
    let w = wrap_sub_lem c.resident_bytes b.bytes (omega (arith, h.counted)) h.word in
    (
      record {
        sound = record {
          counted = w ∙ omega (arith, h.counted);
          word = omega arith;
          distinct = IsDistinct-remove k c.entries h.distinct;
        };
        capacity = refl;
        less = omega arith;
        pins = p;
        shorter = omega arith;
        absent = λ i x. elim (pins_in-remove k b c.entries i h.distinct l z).1 [
          | inl y ↦ y.0
          | inr y ↦ y ∙ x
        ];
        kept = λ i. elim (pins_in-remove k b c.entries i h.distinct l z).1 [
          | inl y ↦ inr y
          | inr y ↦ inl y
        ];
      },
      omega arith,
    )

evict-Evicts :
    (v : PageId × Entry) (c : LruExpertCache) (j : PageId)
    → IsSound c
    → victim c.entries ≡ some v
    → Evicts c (evict v.0 c) j × (length (evict v.0 c).entries < length c.entries)
unfolding evict evicted
evict-Evicts (k, b) c j h v =
    let (l, z) = victim_lem c.entries k b h.distinct v in
    let e : evict k c ≡ evicted k b c = simp (l, evict) in rw e (evicted-Evicts k b c j h l z)

Evicts-refl : (c : LruExpertCache) (j : PageId) → IsSound c → Evicts c c j
Evicts-refl c j h = record {
  sound = h;
  capacity = refl;
  less = omega arith;
  pins = refl;
  shorter = omega arith;
  absent = λ i x. x;
  kept = λ i. inl refl;
}

Evicts-trans : {c d g : LruExpertCache} {j : PageId} → Evicts c d j → Evicts d g j → Evicts c g j
Evicts-trans x y = record {
  sound = y.sound;
  capacity = y.capacity ∙ x.capacity;
  less = omega (arith, x.less, y.less);
  pins = y.pins ∙ x.pins;
  shorter = omega (arith, x.shorter, y.shorter);
  absent = λ i n. y.absent i (x.absent i n);
  kept = λ i. elim (y.kept i) [
    | inl e ↦ elim (x.kept i) [ inl q ↦ inl (e ∙ q) | inr q ↦ inr (e ∙ q.0, q.1) ]
    | inr e ↦ elim (x.kept i) [
      | inl q ↦ inr (e.0, sym (ap pins_of q) ∙ e.1)
      | inr q ↦ inr (e.0, q.1)
    ]
  ];
}

-- With fuel for its entries the loop of `make_room` ends: with room, or with nothing but pinned pages.
pub make_room_total :
    (fuel incoming : ℕ) (c : LruExpertCache) (j : PageId)
    → IsSound c
    → length c.entries < fuel
    → c.resident_bytes + incoming ≤ u64_max
    → (d : LruExpertCache) × (r : Result (Unit {0})) × (make_room fuel incoming c ≡ some (d, r))
      × Evicts c d j
      × (((r ≡ ok tt) × (d.resident_bytes + incoming ≤ d.capacity_bytes))
          ⊎ (IsInvalid r × AllPinned d.entries))
unfolding make_room
make_room_total zero incoming c j h enough word = absurd (omega arith)
make_room_total (suc fuel) incoming c j h enough word =
    let s : wrap_add c.resident_bytes incoming ≡ c.resident_bytes + incoming = omega arith in
    elim (Bool-cases (leb (wrap_add c.resident_bytes incoming) c.capacity_bytes)) [
      | inl fits ↦ (c, ok tt, rw fits refl, Evicts-refl c j h, inl (refl, ground arith))
      | inr tight ↦ elim (Option-cases (victim c.entries)) [
        | inl n ↦ (
          c,
          invalid "cache full of pinned pages; cannot evict",
          simp (tight, n),
          Evicts-refl c j h,
          inr (tt, victim-none c.entries n),
        )
        | inr (v, e) ↦
            let (x, shorter) = evict-Evicts v c j h e in
            let (d, r, m, y, z) =
              make_room_total fuel incoming (evict v.0 c) j x.sound (omega arith)
                (omega (arith, x.less)) in
            (d, r, rw (tight, e) m, Evicts-trans x y, z)
      ]
    ]

-- The same for the loop of `evict_until_fit`.
pub evict_until_fit_total :
    (fuel : ℕ) (c : LruExpertCache) (j : PageId)
    → IsSound c
    → length c.entries < fuel
    → (d : LruExpertCache) × (evict_until_fit fuel c ≡ some d)
      × Evicts c d j
      × ((d.resident_bytes ≤ d.capacity_bytes) ⊎ AllPinned d.entries)
      × ((d ≡ c) ⊎ (c.capacity_bytes < c.resident_bytes))
unfolding evict_until_fit
evict_until_fit_total zero c j h enough = absurd (omega arith)
evict_until_fit_total (suc fuel) c j h enough =
    elim (Bool-cases (leb c.resident_bytes c.capacity_bytes)) [
      | inl fits ↦ (c, rw fits refl, Evicts-refl c j h, inl (ground arith), inl refl)
      | inr tight ↦ elim (Option-cases (victim c.entries)) [
        | inl n ↦ (c, simp (tight, n), Evicts-refl c j h, inr (victim-none c.entries n), inl refl)
        | inr (v, e) ↦
            let (x, shorter) = evict-Evicts v c j h e in
            let (d, m, y, z, _) =
              evict_until_fit_total fuel (evict v.0 c) j x.sound (omega arith) in
            (d, rw (tight, e) m, Evicts-trans x y, z, inr (ground arith))
      ]
    ]
